-- ===== src/Update/Decide/Kinds.antt =====
-- doIPVersion of internal/update/service.go: which kinds of addresses the records ask for.
use ddns_updater.Prelude.{
  Bool-cases, ◌≡◌, refl, inl, inr, Bool, true, false, ◌&&◌, ◌||◌, List, [], ◌∷◌, arith,
}
use ddns_updater.IpVersion.{IpVersion, ip4or6, ip4, ip6}
use ddns_updater.Models.{Record}
use ddns_updater.Update.Decide.{asks, do_from, do_ip_version}

-- Some record asks for the version.
abbrev pub any_asks : IpVersion → List Record → Bool
any_asks version [] = false
any_asks version (r ∷ records) = asks version r || any_asks version records

or_move : (a b c : Bool) → ((b || a) || c) ≡ (a || (b || c))
or_move a b c = ground arith

or_nil : (a : Bool) → (a || false) ≡ a
or_nil a = ground arith

already : (a b c : Bool) → (b || a) ≡ true → (a || (b || c)) ≡ true
already a b c h = ground arith

and_parts : (a b c : Bool) → (a && b && c) ≡ true → (a ≡ true) × (b ≡ true) × (c ≡ true)
and_parts a b c h = ground arith

do_from_lem :
    (records : List Record) (a b c : Bool)
    → do_from records a b c
      ≡ (a || any_asks ip4or6 records, b || any_asks ip4 records, c || any_asks ip6 records)
unfolding do_from
do_from_lem [] a b c = rw (or_nil a, or_nil b, or_nil c) refl
do_from_lem (r ∷ records) a b c =
    let a' = asks ip4or6 r || a in
    let b' = asks ip4 r || b in
    let c' = asks ip6 r || c in
    let x = any_asks ip4or6 records in
    let y = any_asks ip4 records in
    let z = any_asks ip6 records in
    elim (Bool-cases (a' && b' && c')) [
      | inl h ↦
          let (p, q, s) = and_parts a' b' c' h in
          rw
            (
              h,
              already a (asks ip4or6 r) x p,
              already b (asks ip4 r) y q,
              already c (asks ip6 r) z s,
            )
            refl
      | inr h ↦
          rw
            (
              h,
              do_from_lem records a' b' c',
              or_move a (asks ip4or6 r) x,
              or_move b (asks ip4 r) y,
              or_move c (asks ip6 r) z,
            )
            refl
    ]

-- The early return of doIPVersion changes nothing: a kind of address is fetched exactly if some
-- record asks for it.
pub do_ip_version_lem :
    (records : List Record)
    → do_ip_version records ≡ (any_asks ip4or6 records, any_asks ip4 records, any_asks ip6 records)
unfolding do_ip_version
do_ip_version_lem records = do_from_lem records false false false
