-- ===== src/Update/Lookup.antt =====
-- lookupIPsResilient of internal/update/service.go: the addresses that the resolver finds.
pub mod Tries
use ddns_updater.Prelude.{
  if◌then◌else◌, Text, bytes, has_suffix, ℕ, zero, suc, Bool, true, false, Option, none, some, List,
  [], ◌∷◌, ◌++◌,
}
use ddns_updater.Netip.{Addr}
use ddns_updater.Update.World.{
  Env, Run, Network, net_ip4, net_ip6, Answer, found, lookup_failed, next_tick,
}

-- What the goroutine of a network sends; the addresses or the messages of the tries.
pub data Sent : Type 0 where
  sent_ips : List Addr → Sent
  sent_error : List Text → Sent

-- What a try leads to, with what follows a failed one.
abbrev pub after_look_up : Answer → (Text → Sent) → Sent
after_look_up (found ips) retry = sent_ips ips
after_look_up (lookup_failed message) retry =
    let rest = retry message in
    if has_suffix message (bytes "no such host") then sent_ips [] else rest

-- The loop of a goroutine, with `n` tries left.
unfoldable pub look_up_tries : (ℕ → Answer) → ℕ → List Text → Sent
look_up_tries look_up zero messages = sent_error messages
look_up_tries look_up (suc n) messages =
    after_look_up (look_up n) (λ message. look_up_tries look_up n (messages ++ message ∷ []))

pub record Found : Type 0 where
  pub ipv4s : List Addr
  pub ipv6s : List Addr
  pub error : Option (Network × List Text)

-- One turn of the loop that receives the results.
unfoldable pub receive : Network → Sent → Found → Found
receive network (sent_error messages) so_far = elim so_far.error [
  | some e ↦ so_far
  | none ↦ record so_far { error = some (network, messages) }
]
receive net_ip4 (sent_ips ips) so_far = record so_far { ipv4s = ips }
receive net_ip6 (sent_ips ips) so_far = record so_far { ipv6s = ips }

-- The results in the order of their arrival.
unfoldable pub receive_both : Bool → Sent → Sent → Found
receive_both true four six =
    receive net_ip6 six (receive net_ip4 four (record { ipv4s = []; ipv6s = []; error = none }))
receive_both false four six =
    receive net_ip4 four (receive net_ip6 six (record { ipv4s = []; ipv6s = []; error = none }))

-- lookupIPsResilient. The tries of both networks are numbered down from `tries - 1`. Cancelling the
-- other lookup after an error is among the answers that the resolver can give.
unfoldable pub look_up_ips_resilient : Env → Text → ℕ → Run Found
look_up_ips_resilient env host tries w = some (
  receive_both (env.ip4_first w.tick) (look_up_tries (env.look_up net_ip4 host w.tick) tries [])
      (look_up_tries (env.look_up net_ip6 host w.tick) tries []),
  next_tick w,
)
