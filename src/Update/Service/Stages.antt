-- ===== src/Update/Service/Stages.antt =====
-- The stages of a cycle that change records: the initial statuses and the updates.
use ddns_updater.Prelude.{
  ◌==◌, Bool-cases, length, get_elem?, get_elem?_of_lt, All-get_elem?, ℕ, suc, ◌+◌, ◌^◌, ◌≤◌, ◌<◌,
  ◌≡◌, refl, ◌∙◌, ◌≢◌, inl, inr, Bool, true, false, not, ◌&&◌, ◌||◌, some, List, [], ◌∷◌, ◌++◌,
  arith,
}
use ddns_updater.Result.{Result, ok, err, panic}
use ddns_updater.Times.{Time}
use ddns_updater.Netip.{Addr, is_valid}
use ddns_updater.Models.{Record}
use ddns_updater.Data.Select.{select_found}
use ddns_updater.Update.World.{Env, Failure, World}
use ddns_updater.Update.Getip.{IpError, NewIps}
use ddns_updater.Update.Decide.{get_ip_matching_version}
use ddns_updater.Update.Updater.{update}
use ddns_updater.Update.Updater.Final.{
  final, update-final, update_returns_lem, answer, started, answered, db_update-records,
  db_update_returns,
}
use ddns_updater.Update.Service.{
  ServiceError, update_failed, as_errors, has_id, is_unset, select_and_update, set_initial,
  set_initials, set_up_to_date, set_initial_up_to_date_status, set_initial_public_ip_fail_status,
  initial_up_to_date, initial_fail, update_to, update_id, update_ids,
}
use ddns_updater.Update.Service.Settles.{Settles, is_settled, Settles-one}
use ddns_updater.Update.Service.Returns.{
  Returns, Any, Returns-then, Returns-at_once, IsOrderly, IsSuffix, with_suffix_returns,
  Returns-map,
}
use ddns_updater.Update.Service.Fetched.{AreFetched, AreSuffixes, matching-IsAddr}

as_errors_lem {ℓ} :
    {E : Type ℓ} (wrap : E → ServiceError) (touched : ℕ → Bool) (w : World)
    (p : Result E (Unit {0}) × World)
    → p.0 ≢ panic
    → Settles touched w.db.records p.1.db.records
    → Returns Any touched w (as_errors wrap p)
as_errors_lem wrap touched w (ok t, w') h s = record {
  value = [];
  after = w';
  equation = refl;
  holds = tt;
  settles = s;
}
as_errors_lem wrap touched w (err e, w') h s = record {
  value = wrap e ∷ [];
  after = w';
  equation = refl;
  holds = tt;
  settles = s;
}
as_errors_lem wrap touched w (panic, w') h s = absurd (h refl)

-- A record to which the first loop gives its initial status.
abbrev pub starts : List ℕ → ℕ → Record → Bool
starts ids id r = not (has_id ids id || not (is_unset r.status))

abbrev pub starts_at : List ℕ → ℕ → List Record → ℕ → Bool
starts_at ids start [] i = false
starts_at ids start (r ∷ records) i =
    (starts ids start r && (start == i)) || starts_at ids (suc start) records i

module _ (env : Env) (id : ℕ) (w : World) (small : length w.db.records < 2 ^ 64) where
  select_and_update_lem :
      (change : Record → Record) (r : Record)
      → get_elem? w.db.records id ≡ some r
      → (change r).provider ≡ r.provider
      → is_settled (change r).status ≡ true
      → let p = select_and_update env id change w in
        (p.0 ≢ panic) × Settles (λ i. id == i) w.db.records p.1.db.records
  unfolding select_and_update
  select_and_update_lem change r found same settled = rw (select_found w.db id r small found) (
    db_update_returns env id (change r) r w small found,
    rw (db_update-records env id (change r) r w small found)
        (Settles-one w.db.records id r (change r) found same settled),
  )

  set_initial_lem :
      (ids : List ℕ) (t : Time) (new : NewIps × List IpError) (r : Record)
      → AreFetched new
      → IsSuffix r.provider.ipv6_suffix
      → id < length w.db.records
      → Returns Any (λ i. starts ids id r && (id == i)) w (set_initial env ids t new.0 id r w)
  unfolding set_initial set_up_to_date set_initial_up_to_date_status
      set_initial_public_ip_fail_status
  set_initial_lem ids t new r fetched suffix within =
      let ip = get_ip_matching_version new.0 r.provider.ip_version in
      let (a, e) =
        with_suffix_returns r ip (matching-IsAddr new r.provider.ip_version fetched) suffix in
      let (q, found) = get_elem?_of_lt w.db.records id within in
      elim (Bool-cases (has_id ids id || not (is_unset r.status))) [
        | inl b ↦ rw b (Returns-at_once Any [] w w tt refl)
        | inr b ↦ elim (Bool-cases (is_valid ip)) [
          | inl c ↦
              let (returns, settles) =
                select_and_update_lem (initial_up_to_date a t) q found refl refl in
              rw (b, c, e) (as_errors_lem _ _ w _ returns settles)
          | inr c ↦
              let (returns, settles) = select_and_update_lem (initial_fail t) q found refl refl in
              rw (b, c) (as_errors_lem _ _ w _ returns settles)
        ]
      ]

module _ (env : Env) (ids : List ℕ) (t : Time) (new : NewIps × List IpError)
    (fetched : AreFetched new) where
  pub set_initials_lem :
      (start : ℕ) (records : List Record) (w : World)
      → length w.db.records < 2 ^ 64
      → AreSuffixes records
      → start + length records ≤ length w.db.records
      → Returns Any (starts_at ids start records) w (set_initials env ids t new.0 start records w)
  unfolding set_initials
  set_initials_lem start [] w small suffixes within = Returns-at_once Any [] w w tt refl
  set_initials_lem start (r ∷ records) w small suffixes within =
      Returns-then Any Any (λ i. starts ids start r && (start == i))
        (starts_at ids (suc start) records) (set_initial env ids t new.0 start r) _ w
        (set_initial_lem env start w small ids t new r fetched suffixes.0 (omega arith))
        λ errors w1 h1 s1.
          Returns-map Any Any (starts_at ids (suc start) records)
            (set_initials env ids t new.0 (suc start) records) (λ more. errors ++ more) w1
            (set_initials_lem (suc start) records w1 (rw s1.same_length small) suffixes.1
              (rw s1.same_length (omega arith)))
            λ more h. tt

final_settles :
    (r : Record) (ip : Addr) (start later : Time) (answer : Result Failure Addr)
    → answer ≢ panic
    → ((final r ip start later answer).provider ≡ r.provider)
      × (is_settled (final r ip start later answer).status ≡ true)
unfolding final
final_settles r ip start later (ok new_ip) h = (refl, refl)
final_settles r ip start later (err f) h = (refl, refl)
final_settles r ip start later panic h = absurd (h refl)

module _ (env : Env) (orderly : IsOrderly env) (new : NewIps × List IpError)
    (fetched : AreFetched new) (records : List Record) where
  update_id_lem :
      (id : ℕ) (r : Record) (w : World)
      → length w.db.records < 2 ^ 64
      → get_elem? records id ≡ some r
      → IsSuffix r.provider.ipv6_suffix
      → id < length w.db.records
      → Returns Any (λ i. id == i) w (update_id env new.0 records id w)
  unfolding update_id update_to
  update_id_lem id r w small here suffix within =
      let (a, e) =
        with_suffix_returns r (get_ip_matching_version new.0 r.provider.ip_version)
          (matching-IsAddr new r.provider.ip_version fetched) suffix in
      let (q, found) = get_elem?_of_lt w.db.records id within in
      let never = orderly.provider_returns q.provider a _ in
      rw (here, e)
        (as_errors_lem update_failed (λ i. id == i) w (update env id a w)
          (update_returns_lem env id a q w small found never)
          (rw (update-final env id a q w small found) (
            let (same, settled) =
              final_settles q a (started env id a q w small found)
                (answered env id a q w small found) (answer env id a q w small found) never in
            Settles-one w.db.records id q _ found same settled)))

  -- The ids are those of records, and there are as many records as in the database.
  pub update_ids_lem :
      (ids : List ℕ) (w : World)
      → length w.db.records < 2 ^ 64
      → length w.db.records ≡ length records
      → AreSuffixes records
      → ((i : ℕ) → has_id ids i ≡ true → i < length records)
      → Returns Any (has_id ids) w (update_ids env new.0 records ids w)
  unfolding update_ids
  update_ids_lem [] w small same suffixes within = Returns-at_once Any [] w w tt refl
  update_ids_lem (id ∷ ids) w small same suffixes within =
      let inside : id < length records = within id (ground arith) in
      let (r, here) = get_elem?_of_lt records id inside in
      Returns-then Any Any (λ i. id == i) (has_id ids) (update_id env new.0 records id) _ w
        (update_id_lem id r w small here
          (All-get_elem? (λ q. IsSuffix q.provider.ipv6_suffix) records id r suffixes here)
          (omega arith))
        λ errors w1 h1 s1.
          Returns-map Any Any (has_id ids) (update_ids env new.0 records ids)
            (λ more. errors ++ more) w1
            (update_ids_lem ids w1 (rw s1.same_length small) (s1.same_length ∙ same) suffixes
              (λ i h. within i (ground (arith, h))))
            λ more h. tt
