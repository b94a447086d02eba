-- ===== src/Publicip/Http/Fetch.antt =====
-- What `fetch` returns for each IP version.
use ddns_updater.Prelude.{
  Bool-cases, Text, ℕ, ◌≡◌, refl, ap, ◌⊎◌, inl, inr, true, false, List, [], ◌∷◌, arith,
}
use ddns_updater.Result.{ok}
use ddns_updater.Netip.{Addr, is4, is6}
use ddns_updater.IpVersion.{IpVersion, ip4or6, ip4, ip6}
use ddns_updater.Ipextract.{ipv4, ipv6}
use ddns_updater.Ipextract.Kinds.{all_addresses, ipv4-is4, ipv6-is6}
use ddns_updater.Publicip.Http.{
  Reply, failed, unreadable, reply, is_ban, one_of, one_of_both, addresses_of, fetch,
}

-- An address is of the kind that a version asks for.
abbrev pub IsOfVersion : IpVersion → Addr → Type 0
IsOfVersion ip4or6 a = (is4 a ≡ true) ⊎ (is6 a ≡ true)
IsOfVersion ip4 a = is4 a ≡ true
IsOfVersion ip6 a = is6 a ≡ true

one_of_lem : (l : List Addr) (a : Addr) → one_of l ≡ ok a → l ≡ a ∷ []
one_of_lem [] a h = cc
one_of_lem (b ∷ []) a h = ground arith
one_of_lem (b ∷ c ∷ l) a h = cc

one_of_both_lem :
    (fours sixes : List Addr) (a : Addr)
    → one_of_both fours sixes ≡ ok a
    → (fours ≡ a ∷ []) ⊎ (sixes ≡ a ∷ [])
one_of_both_lem (b ∷ []) sixes a h = inl (ground arith)
one_of_both_lem [] (b ∷ []) a h = inr (ground arith)
one_of_both_lem (b ∷ c ∷ l) (d ∷ []) a h = inr (ground arith)
one_of_both_lem (b ∷ c ∷ l) [] a h = cc
one_of_both_lem (b ∷ c ∷ l) (d ∷ e ∷ k) a h = cc
one_of_both_lem [] (b ∷ c ∷ l) a h = cc
one_of_both_lem [] [] a h = cc

single_is4 : (body : Text) (a : Addr) → ipv4 body ≡ a ∷ [] → is4 a ≡ true
single_is4 body a e = ground (arith, ap (all_addresses is4) e, ipv4-is4 body)

single_is6 : (body : Text) (a : Addr) → ipv6 body ≡ a ∷ [] → is6 a ≡ true
single_is6 body a e = ground (arith, ap (all_addresses is6) e, ipv6-is6 body)

addresses_of_lem :
    (v : IpVersion) (body : Text) (a : Addr)
    → addresses_of v body ≡ ok a
    → IsOfVersion v a × ((ipv4 body ≡ a ∷ []) ⊎ (ipv6 body ≡ a ∷ []))
unfolding addresses_of
addresses_of_lem ip4or6 body a h = elim (one_of_both_lem (ipv4 body) (ipv6 body) a h) [
  | inl e ↦ (inl (single_is4 body a e), inl e)
  | inr e ↦ (inr (single_is6 body a e), inr e)
]
addresses_of_lem ip4 body a h =
    let only = one_of_lem (ipv4 body) a h in (single_is4 body a only, inl only)
addresses_of_lem ip6 body a h =
    let only = one_of_lem (ipv6 body) a h in (single_is6 body a only, inr only)

-- If `fetch` returns an address, then it is of the kind that the version asks for, the reply was not
-- a ban, and it is the only address of its kind in the body.
pub fetch-IsOfVersion :
    (v : IpVersion) (r : Reply) (a : Addr)
    → fetch v r ≡ ok a
    → (status : ℕ) × (body : Text) × (r ≡ reply status body)
      × (is_ban status ≡ false)
      × IsOfVersion v a
      × ((ipv4 body ≡ a ∷ []) ⊎ (ipv6 body ≡ a ∷ []))
unfolding fetch
fetch-IsOfVersion v failed a h = cc
fetch-IsOfVersion v (unreadable status) a h = ground arith
fetch-IsOfVersion v (reply status body) a h = elim (Bool-cases (is_ban status)) [
  | inl e ↦ ground arith
  | inr e ↦
      let (kind, only) = addresses_of_lem v body a (rw e at h) in
      (status, body, refl, e, kind, only)
]
