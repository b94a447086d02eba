-- ===== src/Health/Records.antt =====
-- isHealthy of internal/health/check.go, record by record.
use ddns_updater.Prelude.{
  Bool-cases, All, Text, ◌≡◌, refl, ◌↔◌, inl, inr, Bool, true, false, Option, none, some, List, [],
  ◌∷◌,
}
use ddns_updater.Result.{Result, ok, err, panic}
use ddns_updater.Netip.{Addr, is_valid}
use ddns_updater.Models.{Record, get_current_ip}
use ddns_updater.Health.{HealthError, is_fail, is_found, after_search, after_look_up, is_healthy}

module _ (look_up : Text → Result Text (List Text)) where
  -- A healthy record did not fail, and behind no proxy its current address is among those that the
  -- resolver finds for its domain.
  abbrev pub IsHealthyRecord : Record → Type 0
  IsHealthyRecord r =
      (is_fail r.status ≡ false)
      × (r.provider.proxied ≡ false
          → (is_valid (get_current_ip r.history) ≡ true)
            × ((ips : List Text) × (look_up r.provider.domain_name ≡ ok ips)
                × (is_found ips (get_current_ip r.history) ≡ some true)))

  after_search-ok :
      (o : Option Bool) (rest : Result HealthError (Unit {0}))
      → after_search o rest ≡ ok tt
      → (o ≡ some true) × (rest ≡ ok tt)
  after_search-ok none rest h = cc
  after_search-ok (some true) rest h = (refl, h)
  after_search-ok (some false) rest h = cc

  after_look_up-ok :
      (current : Addr) (m : Result Text (List Text)) (rest : Result HealthError (Unit {0}))
      → after_look_up current m rest ≡ ok tt
      → ((ips : List Text) × (m ≡ ok ips) × (is_found ips current ≡ some true)) × (rest ≡ ok tt)
  after_look_up-ok current (ok ips) rest h =
      let (f, e) = after_search-ok (is_found ips current) rest h in ((ips, refl, f), e)
  after_look_up-ok current (err x) rest h = cc
  after_look_up-ok current panic rest h = cc

  not_ok {ℓ} :
      {P : Type ℓ} (e : HealthError) → ◌≡◌ {A = Result HealthError (Unit {0})} (err e) (ok tt) → P
  not_ok e h = cc

  healthy_records :
      (records : List Record) → is_healthy look_up records ≡ ok tt → All IsHealthyRecord records
  unfolding is_healthy
  healthy_records [] h = tt
  healthy_records (r ∷ records) h = elim (Bool-cases (is_fail r.status)) [
    | inl b ↦ not_ok _ (rw b at h)
    | inr b ↦ elim (Bool-cases r.provider.proxied) [
      | inl p ↦ ((b, λ q. absurd (true-false p q)), healthy_records records (rw (b, p) at h))
      | inr p ↦ elim (Bool-cases (is_valid (get_current_ip r.history))) [
        | inl v ↦
            let (found, rest) =
              after_look_up-ok (get_current_ip r.history) (look_up r.provider.domain_name)
                (is_healthy look_up records) (rw (b, p, v) at h) in
            ((b, λ q. (v, found)), healthy_records records rest)
        | inr v ↦ not_ok _ (rw (b, p, v) at h)
      ]
    ]
  ]
    where
      true-false : {b : Bool} → b ≡ true → b ≡ false → ⊥
      true-false p q = cc

  records_healthy :
      (records : List Record) → All IsHealthyRecord records → is_healthy look_up records ≡ ok tt
  unfolding is_healthy
  records_healthy [] h = refl
  records_healthy (r ∷ records) ((b, rest), others) = elim (Bool-cases r.provider.proxied) [
    | inl p ↦ rw (b, p) (records_healthy records others)
    | inr p ↦ let (v, (ips, e, f)) = rest p in rw (b, p, v, e, f) (records_healthy records others)
  ]

  -- The check succeeds exactly if every record is healthy: it did not fail, and if it is not behind a
  -- proxy, its current address is valid and the resolver answers for its domain with a list in which
  -- the search finds that address.
  pub is_healthy_iff :
      (records : List Record) → (is_healthy look_up records ≡ ok tt) ↔ All IsHealthyRecord records
  is_healthy_iff records = (healthy_records records, records_healthy records)
