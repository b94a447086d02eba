-- ===== src/Publicip/Http/Ask.antt =====
-- A call of Fetcher.ip: the url that it asks, the bans that it notes.
use ddns_updater.Publicip.Http.Ring.{ahead, choose_total}
use native.Mathlib.Nat.{mod-lt}
use ddns_updater.Prelude.{
  ◌==◌, length, Text, ℕ, ◌+◌, ◌<◌, ◌≡◌, refl, sym, ◌∙◌, ◌⊎◌, inl, inr, Bool, true, false, Option,
  some, [], arith,
}
use ddns_updater.Result.{Result, ok, err, panic}
use ddns_updater.Netip.{Addr}
use ddns_updater.Publicip.Http.{
  FetchError, banned, request_failed, read_failed, no_ip_found, too_many_ips, url_at, UrlsRing,
  is_banned, choose, record_ban, ip_at, ip,
}

-- The index is in the ring.
pub record IsRing (ring : UrlsRing) : Type 0 where
  pub index_lt : ring.index < length ring.urls

module _ (ask : Text → Result FetchError Addr) (ring : UrlsRing) (valid : IsRing ring) where
  ip_chosen :
      (o : Option (Bool × ℕ))
      → choose (length ring.urls) (length ring.urls) ring.banned ring.index 0 ≡ o
      → ip ask ring ≡ ip_at ask ring o
  unfolding ip
  ip_chosen o e =
      let filled : (length ring.urls == 0) ≡ false = ground (arith, valid.index_lt) in
      rw (filled, e)

  -- With a ring whose index is in range, the public IP call asks exactly one url, which is in the ring and not banned, moves the index to
  -- it, and notes a ban of it; or, if all urls are banned, it asks none, returns the ban error and
  -- leaves the ring as it was.
  pub ip_asks :
      ((i : ℕ) × (i < length ring.urls)
        × (is_banned ring.banned i ≡ false)
        × (ip ask ring ≡ record_ban (record ring { index = i }) i (ask (url_at ring.urls i))))
      ⊎ (((i : ℕ) → i < length ring.urls → is_banned ring.banned i ≡ true)
          × (ip ask ring ≡ (err (banned []), ring)))
  ip_asks = elim (choose_total (length ring.urls) ring.index ring.banned valid.index_lt) [
    | inl t ↦ inl (
      ahead (length ring.urls) ring.index t.steps,
      mod-lt (ring.index + 1 + t.steps) (omega (arith, valid.index_lt)),
      t.allowed,
      unfold ip_at in ip_chosen (some (true, ahead (length ring.urls) ring.index t.steps)) t.taken,
    )
    | inr (all, e) ↦ inr (all, unfold ip_at in ip_chosen (some (false, ring.index)) e)
  ]

record_ban_lem :
    (ring : UrlsRing) (i : ℕ) (result : Result FetchError Addr)
    → let (answer, ring') = record_ban ring i result in
      (answer ≡ result)
      × (ring'.index ≡ ring.index)
      × (ring'.urls ≡ ring.urls)
      × ((j : ℕ) → is_banned ring.banned j ≡ true → is_banned ring'.banned j ≡ true)
      × ((s : Text) → result ≡ err (banned s) → is_banned ring'.banned i ≡ true)
unfolding record_ban is_banned
record_ban_lem ring i (ok a) = (refl, refl, refl, λ j h. h, λ s h. cc)
record_ban_lem ring i panic = (refl, refl, refl, λ j h. h, λ s h. cc)
record_ban_lem ring i (err (banned t)) =
    (refl, refl, refl, λ j h. ground arith, λ s h. ground arith)
record_ban_lem ring i (err request_failed) = (refl, refl, refl, λ j h. h, λ s h. cc)
record_ban_lem ring i (err read_failed) = (refl, refl, refl, λ j h. h, λ s h. cc)
record_ban_lem ring i (err no_ip_found) = (refl, refl, refl, λ j h. h, λ s h. cc)
record_ban_lem ring i (err too_many_ips) = (refl, refl, refl, λ j h. h, λ s h. cc)

-- From an index in the ring, a call keeps the index in the ring and the urls as they are, and lifts no ban; after an answer that
-- is a ban, the url at the index is banned.
pub ip-IsRing :
    (ask : Text → Result FetchError Addr) (ring : UrlsRing)
    → IsRing ring
    → let (answer, ring') = ip ask ring in
      IsRing ring'
      × (ring'.urls ≡ ring.urls)
      × ((j : ℕ) → is_banned ring.banned j ≡ true → is_banned ring'.banned j ≡ true)
      × ((s : Text) → answer ≡ err (banned s) → is_banned ring'.banned ring'.index ≡ true)
ip-IsRing ask ring valid = elim (ip_asks ask ring valid) [
  | inl (i, lt, allowed, e) ↦
      let (same, at, urls, kept, noted) =
        record_ban_lem (record ring { index = i }) i (ask (url_at ring.urls i)) in
      rw e
        (record { index_lt = rw (at, urls) lt }, urls, kept, λ s h. rw at (noted s (sym same ∙ h)))
  | inr (all, e) ↦ rw e (valid, refl, λ j h. h, λ s h. all ring.index valid.index_lt)
]
