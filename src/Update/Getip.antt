-- ===== src/Update/Getip.antt =====
-- internal/update/getip.go, and getNewIPs of internal/update/service.go: the public addresses.
pub mod Tries
use ddns_updater.Prelude.{
  if◌then◌else◌, Text, bytes, contains, ℕ, zero, suc, Bool, true, false, ◌&&◌, Option, none, some,
  List, [], ◌∷◌, ◌++◌,
}
use ddns_updater.Result.{ok, err, panic, Result}
use ddns_updater.Netip.{Addr, invalid}
use ddns_updater.IpVersion.{IpVersion, ip4or6, ip4, ip6}
use ddns_updater.Update.World.{Env, Run, return, next_tick, ◌>>=◌, World}

-- The error of tryAndRepeatGettingIP, with the messages of the tries.
pub data IpError : Type 0 where
  ip6_not_supported : List Text → IpError
  no_address : IpVersion → List Text → IpError

unfoldable pub all_contain : Text → List Text → Bool
all_contain part [] = true
all_contain part (message ∷ messages) = contains message part && all_contain part messages

unfoldable pub tries_failed : IpVersion → List Text → IpError
tries_failed version messages =
    if all_contain (bytes "connect: cannot assign requested address") messages
    then ip6_not_supported messages
    else no_address version messages

-- What a try leads to, with what follows a failed one.
abbrev pub after_try :
    Result Text Addr
    → World
    → (Text → Option ((Addr × Option IpError) × World))
    → Option ((Addr × Option IpError) × World)
after_try (ok ip) w retry = some ((ip, none), w)
after_try (err message) w retry = retry message
after_try panic w retry = none

-- The loop, with `n` tries left. The fetchers return the invalid address with an error.
unfoldable pub try_getting_ip : Env → IpVersion → ℕ → List Text → Run (Addr × Option IpError)
try_getting_ip env version zero messages w =
    some ((invalid, some (tries_failed version messages)), w)
try_getting_ip env version (suc n) messages w =
    after_try (env.get_ip version w.tick) (next_tick w)
      (λ message. try_getting_ip env version n (messages ++ message ∷ []) (next_tick w))

-- tryAndRepeatGettingIP
unfoldable pub try_and_repeat_getting_ip : Env → IpVersion → Run (Addr × Option IpError)
try_and_repeat_getting_ip env version = try_getting_ip env version 3 []

pub record NewIps : Type 0 where
  pub ip : Addr
  pub ipv4 : Addr
  pub ipv6 : Addr

unfoldable pub get_if : Env → Bool → IpVersion → Run (Addr × Option IpError)
get_if env true version = try_and_repeat_getting_ip env version
get_if env false version = return (invalid, none)

abbrev pub append_error : Option IpError → List IpError → List IpError
append_error none errors = errors
append_error (some e) errors = errors ++ e ∷ []

-- getNewIPs
unfoldable pub get_new_ips : Env → Bool → Bool → Bool → Run (NewIps × List IpError)
get_new_ips env do_ip do_ip4 do_ip6 = do
  any ← get_if env do_ip ip4or6
  four ← get_if env do_ip4 ip4
  six ← get_if env do_ip6 ip6
  return (
    record { ip = any.0; ipv4 = four.0; ipv6 = six.0 },
    append_error six.1 (append_error four.1 (append_error any.1 [])),
  )
