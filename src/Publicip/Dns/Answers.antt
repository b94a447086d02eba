-- ===== src/Publicip/Dns/Answers.antt =====
-- What the DNS fetcher returns.
use ddns_updater.Prelude.{
  length, ℕ, suc, ◌<◌, ◌≡◌, refl, ap, Bool, true, Option, none, some, List, [], ◌∷◌, arith,
}
use ddns_updater.Result.{Result, ok, err, panic}
use ddns_updater.Netip.{Addr, is4, is6}
use ddns_updater.Publicip.Dns.{
  Answer, RrType, DnsError, Provider, Network, handle_answer, handle_answers, cons_result, asked,
  fetch, ip, ip_any, ip4, ip6, q_type, first, first_such, with_ips, tcp, tcp4, tcp6,
}

cons_result-ok :
    (r : Result DnsError Addr) (rs : Result DnsError (List Addr)) (ips : List Addr)
    → cons_result r rs ≡ ok ips
    → (ip : Addr) × (rest : List Addr) × (rs ≡ ok rest) × (ips ≡ ip ∷ rest)
cons_result-ok (ok ip) (ok rest) ips h = (ip, rest, refl, ground arith)
cons_result-ok (ok ip) (err e) ips h = cc
cons_result-ok (ok ip) panic ips h = cc
cons_result-ok (err e) rs ips h = cc
cons_result-ok panic rs ips h = cc

handle_answers-length :
    (q : RrType) (answers : List Answer) (ips : List Addr)
    → handle_answers q answers ≡ ok ips
    → length ips ≡ length answers
unfolding handle_answers
handle_answers-length q [] ips h = ground arith
handle_answers-length q (x ∷ answers) ips h =
    let (ip, rest, e, same) = cons_result-ok (handle_answer q x) (handle_answers q answers) ips h in
    rw same (ap suc (handle_answers-length q answers rest e))

-- A successful exchange yields an address for each answer, and at least one.
pub fetch-length :
    (q : RrType) (answers : List Answer) (ips : List Addr)
    → fetch q (some answers) ≡ ok ips
    → (length ips ≡ length answers) × (0 < length ips)
unfolding fetch
fetch-length q [] ips h = cc
fetch-length q (x ∷ answers) ips h =
    let size = handle_answers-length q (x ∷ answers) ips h in (size, omega arith)

first_such-holds :
    (p : Addr → Bool) (ips : List Addr) (a : Addr) → first_such p ips ≡ ok a → p a ≡ true
first_such-holds p [] a h = cc
first_such-holds p (b ∷ ips) a h = ground (arith, first_such-holds p ips a)

with_ips-ok :
    (r : Result DnsError (List Addr)) (p : Addr → Bool) (a : Addr)
    → with_ips r (first_such p) ≡ ok a
    → p a ≡ true
with_ips-ok (ok ips) p a h = first_such-holds p ips a h
with_ips-ok (err e) p a h = cc
with_ips-ok panic p a h = cc

asked_some :
    (exchange : Provider → Network → Option (List Answer)) (n : Network) (p : Option Provider)
    (ips : List Addr)
    → asked exchange n p ≡ ok ips
    → 0 < length ips
unfolding asked
asked_some exchange n none ips h = cc
asked_some exchange n (some p) ips h = go (exchange p n) h
  where
    go : (o : Option (List Answer)) → fetch (q_type p) o ≡ ok ips → 0 < length ips
    go none e = unfold_none e
      where
        unfold_none : fetch (q_type p) none ≡ ok ips → 0 < length ips
        unfold_none k = unfold fetch in cc
    go (some answers) e = (fetch-length (q_type p) answers ips e).1

first_some : (ips : List Addr) → 0 < length ips → (a : Addr) × (first ips ≡ ok a)
first_some [] h = elim h [ ]
first_some (a ∷ ips) h = (a, refl)

module _ (exchange : Provider → Network → Option (List Answer)) (providers : List Provider)
    (counter : ℕ) where
  -- An address that IP4 or IP6 returns is of that version, and IP finds an address, and does not
  -- panic on `publicIPs[0]`, whenever the query for it succeeds.
  pub ip_versions :
      ((a : Addr) → (ip4 exchange providers counter).0 ≡ ok a → is4 a ≡ true)
      × ((a : Addr) → (ip6 exchange providers counter).0 ≡ ok a → is6 a ≡ true)
      × ((ips : List Addr)
          → (ip exchange providers tcp counter).0 ≡ ok ips
          → (a : Addr) × ((ip_any exchange providers counter).0 ≡ ok a))
  unfolding ip4 ip6 ip_any
  ip_versions = (
    with_ips-ok (ip exchange providers tcp4 counter).0 is4,
    with_ips-ok (ip exchange providers tcp6 counter).0 is6,
    λ ips h.
        let (a, e) = first_some ips (unfold ip in asked_some exchange tcp _ ips h) in (a, rw h e),
  )
