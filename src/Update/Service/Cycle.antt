-- ===== src/Update/Service/Cycle.antt =====
-- A whole cycle, updateNecessary of internal/update/service.go, and the loop `run` over cycles.
use ddns_updater.Prelude.{
  length, get_elem?, get_elem?_of_lt, get_elem?-lt, ℕ, ◌^◌, ◌<◌, ◌≡◌, refl, sym, ◌∙◌, ◌≢◌, ◌⊎◌,
  Bool, true, false, ◌||◌, Option, some, List, [], ◌∷◌, ◌++◌, map, arith,
}
use ddns_updater.Times.{Duration}
use ddns_updater.Models.{Record, unset}
use ddns_updater.Update.World.{Env, World, next_tick}
use ddns_updater.Update.Getip.{IpError, NewIps, get_new_ips}
use ddns_updater.Update.Decide.{do_ip_version, get_record_ids_to_update}
use ddns_updater.Update.Service.{
  ServiceError, getting_ip, has_id, set_initials, update_ids, ping_state, carry_out,
  update_necessary, go_through_ids, go_through_records, conclude,
}
use ddns_updater.Update.Service.Settles.{is_settled, Settles-same, Settles-trans}
use ddns_updater.Update.Service.Returns.{
  Returns, Any, untouched, Returns-then, Returns-at_once, Returns-from, IsOrderly,
}
use ddns_updater.Update.Service.Fetched.{
  AreFetched, AreSuffixes, AreIdsFrom, get_new_ips_lem, get_record_ids_lem,
}
use ddns_updater.Update.Service.Touched.{or_false, touches, touched, not_touched}
use ddns_updater.Update.Service.Stages.{starts_at, set_initials_lem, update_ids_lem}

Returns-same {ℓ} :
    {A : Type ℓ} (Holds : A → Type 0) (p q : ℕ → Bool) (w : World) (result : Option (A × World))
    → ((i : ℕ) → p i ≡ q i)
    → Returns Holds p w result
    → Returns Holds q w result
Returns-same Holds p q w result same r = record {
  value = r.value;
  after = r.after;
  equation = r.equation;
  holds = r.holds;
  settles = Settles-same p q _ r.after.db.records same r.settles;
}

-- A cycle from the world `w`, with the addresses it fetched and the ids it chose.
pub record Cycle (env : Env) (cooldown : Duration) (w : World) : Type 0 where
  pub new : NewIps × List IpError
  pub fetched : World
  pub ids : List ℕ
  pub chosen : World
  pub errors : List ServiceError
  pub after : World
  pub new_ips :
      let flags = do_ip_version w.db.records in
      get_new_ips env flags.0 flags.1 flags.2 w ≡ some (new, fetched)
  pub choice :
      get_record_ids_to_update env cooldown new.0 0 w.db.records fetched ≡ some (ids, chosen)
  pub returns : update_necessary env cooldown w ≡ some (errors, after)
  pub same_length : length after.db.records ≡ length w.db.records
  pub settled :
      (i : ℕ) (r : Record)
      → get_elem? w.db.records i ≡ some r
      → (has_id ids i ≡ true) ⊎ (r.status ≡ unset)
      → (r' : Record) × (get_elem? after.db.records i ≡ some r') × (is_settled r'.status ≡ true)
  pub others :
      (i : ℕ) (r : Record)
      → get_elem? w.db.records i ≡ some r
      → has_id ids i ≡ false
      → r.status ≢ unset
      → get_elem? after.db.records i ≡ some r
  pub providers :
      (i : ℕ) (r : Record)
      → get_elem? after.db.records i ≡ some r
      → (q : Record) × (get_elem? w.db.records i ≡ some q) × (r.provider ≡ q.provider)

module _ (env : Env) (orderly : IsOrderly env) where
  go_through_ids_lem :
      (new : NewIps × List IpError) (errors : List ServiceError) (ids : List ℕ)
      (records : List Record) (w : World)
      → AreFetched new
      → length w.db.records < 2 ^ 64
      → length w.db.records ≡ length records
      → AreSuffixes records
      → AreIdsFrom 0 records ids
      → Returns Any (has_id ids) w (go_through_ids env new.0 errors ids records w)
  unfolding go_through_ids conclude
  go_through_ids_lem new errors ids records w fetched small same suffixes within =
      Returns-same Any (λ i. has_id ids i || untouched i) (has_id ids) w _
        (λ i. or_false (has_id ids i))
        (Returns-then Any Any (has_id ids) untouched
          (λ w. update_ids env new.0 records (env.visit w.tick ids) w)
          (λ updates. conclude (errors ++ updates)) w
          (Returns-same Any (has_id (env.visit w.tick ids)) (has_id ids) w _
            (orderly.visits w.tick ids)
            (update_ids_lem env orderly new fetched records (env.visit w.tick ids) w small same
              suffixes
              (λ i h.
                let (low, high) = within i (sym (orderly.visits w.tick ids i) ∙ h) in omega arith)))
          λ updates w3 h3 s3.
            let w4 : World = record w3 {
              pings = w3.pings ++ ping_state (errors ++ updates) ∷ [];
            } in
            Returns-at_once Any (errors ++ updates) w3 w4 tt refl)

  carry_out_lem :
      (new : NewIps × List IpError) (errors : List ServiceError) (ids : List ℕ)
      (records : List Record) (w : World)
      → AreFetched new
      → length w.db.records < 2 ^ 64
      → length w.db.records ≡ length records
      → AreSuffixes records
      → AreIdsFrom 0 records ids
      → Returns Any (touches ids records) w (carry_out env new.0 errors ids records w)
  unfolding carry_out go_through_records
  carry_out_lem new errors ids records w fetched small same suffixes within =
      Returns-from Any (touches ids records) w (next_tick w) _ refl (
        Returns-then Any Any (starts_at ids 0 records) (has_id ids)
          (set_initials env ids (env.time_now w.tick) new.0 0 records)
          (λ initial. go_through_ids env new.0 (errors ++ initial) ids records) (next_tick w)
          (set_initials_lem env ids (env.time_now w.tick) new fetched 0 records (next_tick w) small
            suffixes (omega arith))
          λ initial w2 h2 s2.
            go_through_ids_lem new (errors ++ initial) ids records w2 fetched
              (rw s2.same_length small) (s2.same_length ∙ same) suffixes within)

  -- A cycle returns, if the collaborators are orderly (they do not panic, fetched addresses are well
  -- formed, and a map's keys are each visited), there are fewer than 2^64 records, and every IPv6
  -- suffix that is set is an IPv6 prefix. A record whose id was chosen, or that had no status yet, has a final status after it (failure, success or
  -- up to date); any other record is left as it was. No record appears or disappears.
  pub update_necessary_settles :
      (cooldown : Duration) (w : World)
      → length w.db.records < 2 ^ 64
      → AreSuffixes w.db.records
      → Cycle env cooldown w
  unfolding update_necessary
  update_necessary_settles cooldown w small suffixes =
      let flags = do_ip_version w.db.records in
      let new = get_new_ips_lem env orderly flags.0 flags.1 flags.2 w in
      let ids =
        get_record_ids_lem env orderly cooldown new.value 0 w.db.records new.after new.holds
          suffixes in
      let same = ids.settles.same_length ∙ new.settles.same_length in
      let rest =
        carry_out_lem new.value (map getting_ip new.value.1) ids.value w.db.records ids.after
          new.holds (rw same small) same suffixes ids.holds in
      let s =
        Settles-trans untouched (touches ids.value w.db.records) w.db.records ids.after.db.records
          rest.after.db.records
          (Settles-trans untouched untouched w.db.records new.after.db.records ids.after.db.records
            new.settles ids.settles)
          rest.settles in
      record {
        new = new.value;
        fetched = new.after;
        ids = ids.value;
        chosen = ids.after;
        errors = rest.value;
        after = rest.after;
        new_ips = new.equation;
        choice = ids.equation;
        returns = rw (new.equation, ids.equation) rest.equation;
        same_length = s.same_length;
        settled = λ i r e h.
            let within = get_elem?-lt w.db.records i r e in
            let (r', e') = get_elem?_of_lt rest.after.db.records i (rw s.same_length within) in
            (r', e', s.settled i r' (touched ids.value w.db.records i r e h) e');
        others = λ i r e h k. s.others i (not_touched ids.value w.db.records i r e h k) ∙ e;
        providers = s.providers;
      }
