-- ===== src/Publicip/Dns.antt =====
-- pkg/publicip/dns: the public address by a DNS query over TLS.
pub mod Answers
use ddns_updater.Prelude.{
  ltb, if◌then◌else◌, length, get_elem?, take, Text, is_empty, ℕ, ◌%◌, Bool, Option, none, some,
  List, [], ◌∷◌,
}
use ddns_updater.Result.{Result, ok, err, panic}
use ddns_updater.Netip.{Addr, v4, v6, is4, is6}
use ddns_updater.Netip.Parse.{parse_addr}
use ddns_updater.Publicip.Cycle.{add_uint32}

-- What an answer of package miekg/dns is: the Go type with its data.
pub data Body : Type 0 where
  txt : List Text → Body
  a aaaa : Text → Body
  other : Body

pub data RrType : Type 0 where
  type_a type_aaaa type_txt type_any type_other : RrType

-- dns.RR: the type that its header states, and the Go value
pub record Answer : Type 0 where
  pub rr_type : RrType
  pub body : Body

pub data DnsError : Type 0 where
  network_not_supported exchange_failed answer_not_received type_mismatch type_not_supported :
      DnsError
  record_empty ip_malformed too_many_txt_records ip_not_found_for_version : DnsError

pub data Network : Type 0 where
  tcp tcp4 tcp6 : Network

-- handleAnswerTXT
unfoldable pub handle_answer_txt : Body → Result DnsError Addr
handle_answer_txt (txt []) = err record_empty
handle_answer_txt (txt (t ∷ [])) = elim (parse_addr t) [ none ↦ err ip_malformed | some ip ↦ ok ip ]
handle_answer_txt (txt (t ∷ u ∷ rest)) = err too_many_txt_records
handle_answer_txt _ = err type_mismatch

-- [4]byte(slice) and [16]byte(slice) take the first bytes and panic on a shorter slice.
abbrev array_of : ℕ → Text → Result DnsError Text
array_of n b =
    if is_empty b then err record_empty else if ltb (length b) n then panic else ok (take n b)

-- handleAnswerA and handleAnswerAAAA
unfoldable pub handle_answer_a : Body → Result DnsError Addr
handle_answer_a (a b) = elim (array_of 4 b) [ ok c ↦ ok (v4 c) | err e ↦ err e | panic ↦ panic ]
handle_answer_a _ = err type_mismatch

unfoldable pub handle_answer_aaaa : Body → Result DnsError Addr
handle_answer_aaaa (aaaa b) = elim (array_of 16 b) [
  | ok c ↦ ok (v6 c [])
  | err e ↦ err e
  | panic ↦ panic
]
handle_answer_aaaa _ = err type_mismatch

any_of : RrType → Body → Result DnsError Addr
any_of type_a body = handle_answer_a body
any_of type_aaaa body = handle_answer_aaaa body
any_of _ body = err type_not_supported

-- handleAnswerANY
unfoldable pub handle_answer_any : Answer → Result DnsError Addr
unfolding any_of
handle_answer_any answer = any_of answer.rr_type answer.body

-- The `switch` on the provider's query type.
unfoldable pub handle_answer : RrType → Answer → Result DnsError Addr
handle_answer type_txt answer = handle_answer_txt answer.body
handle_answer type_any answer = handle_answer_any answer
handle_answer _ answer = err type_not_supported

abbrev cons_result :
    Result DnsError Addr → Result DnsError (List Addr) → Result DnsError (List Addr)
cons_result (ok ip) (ok ips) = ok (ip ∷ ips)
cons_result (ok ip) (err e) = err e
cons_result (ok ip) panic = panic
cons_result (err e) rest = err e
cons_result panic rest = panic

-- The loop over the answers stops at the first error.
unfoldable pub handle_answers : RrType → List Answer → Result DnsError (List Addr)
handle_answers q_type [] = ok []
handle_answers q_type (answer ∷ answers) =
    cons_result (handle_answer q_type answer) (handle_answers q_type answers)

-- fetch, with what the exchange comes to: `none` for an error. The three networks of the callers are
-- all supported, and choose the server's address.
unfoldable pub fetch : RrType → Option (List Answer) → Result DnsError (List Addr)
fetch q_type none = err exchange_failed
fetch q_type (some []) = err answer_not_received
fetch q_type (some (answer ∷ answers)) = handle_answers q_type (answer ∷ answers)

pub data Provider : Type 0 where
  cloudflare open_dns : Provider

-- The query type in Provider.data
abbrev pub q_type : Provider → RrType
q_type cloudflare = type_txt
q_type open_dns = type_any

abbrev pub first : List Addr → Result DnsError Addr
first [] = panic
first (ip ∷ ips) = ok ip

abbrev pub first_such : (Addr → Bool) → List Addr → Result DnsError Addr
first_such p [] = err ip_not_found_for_version
first_such p (ip ∷ ips) = if p ip then ok ip else first_such p ips

abbrev pub with_ips :
    Result DnsError (List Addr) → (List Addr → Result DnsError Addr) → Result DnsError Addr
with_ips (ok ips) f = f ips
with_ips (err e) f = err e
with_ips panic f = panic

pub provider_at : List Provider → ℕ → Option Provider
provider_at providers i = get_elem? providers i

-- Fetcher.ip: the providers take turns by a 32-bit counter. `exchange` is what the query comes to for
-- a provider over a network; no provider at all divides by zero.
unfoldable pub asked :
    (Provider → Network → Option (List Answer))
    → Network
    → Option Provider
    → Result DnsError (List Addr)
asked exchange network none = panic
asked exchange network (some p) = fetch (q_type p) (exchange p network)

unfoldable pub ip :
    (Provider → Network → Option (List Answer))
    → List Provider
    → Network
    → ℕ
    → Result DnsError (List Addr) × ℕ
ip exchange providers network counter = (
  asked exchange network (provider_at providers (add_uint32 counter % length providers)),
  add_uint32 counter,
)

module _ (exchange : Provider → Network → Option (List Answer)) (providers : List Provider) where
  -- IP, IP4 and IP6
  unfoldable pub ip_any : ℕ → Result DnsError Addr × ℕ
  ip_any counter =
      let (ips, counter') = ip exchange providers tcp counter in (with_ips ips first, counter')

  unfoldable pub ip4 : ℕ → Result DnsError Addr × ℕ
  ip4 counter =
      let (ips, counter') = ip exchange providers tcp4 counter in
      (with_ips ips (first_such is4), counter')

  unfoldable pub ip6 : ℕ → Result DnsError Addr × ℕ
  ip6 counter =
      let (ips, counter') = ip exchange providers tcp6 counter in
      (with_ips ips (first_such is6), counter')
