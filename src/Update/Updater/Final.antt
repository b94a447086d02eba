-- ===== src/Update/Updater/Final.antt =====
-- Update of internal/update/update.go against the record it is meant to leave.
use native.Mathlib.Nat.{le_refl}
use ddns_updater.Prelude.{
  if◌then◌else◌, Bool-cases, length, get_elem?, set, length-set, get_elem?-set_self, set-set,
  get_elem?-lt, set_self, bytes, ℕ, suc, ◌^◌, ◌≤◌, ◌<◌, ◌≡◌, refl, sym, ◌∙◌, ◌≢◌, inl, inr, none,
  some, [], ◌∷◌, ◌++◌, arith,
}
use ddns_updater.Result.{Result, ok, err, panic}
use ddns_updater.Times.{Time}
use ddns_updater.Netip.{Addr}
use ddns_updater.Netip.Print.{addr_string}
use ddns_updater.Models.{Record, fail, success, updating}
use ddns_updater.Data.{DataError}
use ddns_updater.Data.Select.{update_lem, update_returns, select_found}
use ddns_updater.Update.World.{Env, Failure, World, db_update}
use ddns_updater.Update.Updater.{
  whole_seconds, finish, after_failure, after_success, update_selected, provider_failed,
  ask_provider, ban_message, update,
}

-- The record after the provider answered, where `started` is the time at which the update began and
-- `answered` the time read after the answer.
unfoldable pub final : Record → Addr → Time → Time → Result Failure Addr → Record
final r ip started answered (ok new_ip) = record r {
  time = started;
  status = success;
  message = bytes "changed to " ++ addr_string ip;
  history = r.history ++ record { ip = new_ip; time = answered } ∷ [];
}
final r ip started answered (err f) = record r {
  time = started;
  status = fail;
  message = f.message;
  last_ban = (if f.banned_abuse then some (whole_seconds answered) else none);
}
final r ip started answered panic = record r { time = started; status = updating }

after_failure-world :
    (f : Failure) (p : Result DataError (Unit {0}) × World) → (after_failure f p).1 ≡ p.1
unfolding after_failure
after_failure-world f (ok t, w) = refl
after_failure-world f (err e, w) = refl
after_failure-world f (panic, w) = refl

after_success-world : (p : Result DataError (Unit {0}) × World) → (after_success p).1 ≡ p.1
unfolding after_success
after_success-world (ok t, w) = refl
after_success-world (err e, w) = refl
after_success-world (panic, w) = refl

module _ (env : Env) (id : ℕ) (r old : Record) (w : World) (small : length w.db.records < 2 ^ 64)
    (found : get_elem? w.db.records id ≡ some old) where
  pub db_update-records : (db_update env id r w).1.db.records ≡ set w.db.records id r
  unfolding db_update
  db_update-records = (update_lem (env.persist w.tick) id r old w.db small found).0

  pub db_update_returns : (db_update env id r w).0 ≢ panic
  unfolding db_update
  db_update_returns = update_returns (env.persist w.tick) id r old w.db small found

  -- A write that leaves the history's length alone cannot fail.
  pub db_update-same_history :
      length r.history ≤ length old.history
      → db_update env id r w ≡ (
        ok tt,
        record w { db = record w.db { records = set w.db.records id r }; tick = suc w.tick },
      )
  unfolding db_update
  db_update-same_history h =
      let (records, same, more) = update_lem (env.persist w.tick) id r old w.db small found in
      let (result, persistent) = same h in ground arith

finish_lem :
    (env : Env) (id : ℕ) (ip : Addr) (started : Time) (r old : Record)
    (answer : Result Failure Addr) (w : World)
    → length w.db.records < 2 ^ 64
    → get_elem? w.db.records id ≡ some old
    → (answer ≡ panic → old ≡ record r { time = started; status = updating })
    → (finish env id ip (record r { time = started; status = fail }) answer w).1.db.records
      ≡ set w.db.records id (final r ip started (env.time_now w.tick) answer)
unfolding finish final
finish_lem env id ip started r old (ok new_ip) w h e k =
    rw (after_success-world _) (db_update-records env id _ old _ h e)
finish_lem env id ip started r old (err f) w h e k = elim (Bool-cases f.banned_abuse) [
  | inl b ↦ rw (after_failure-world f _, b) (db_update-records env id _ old _ h e)
  | inr b ↦ rw (after_failure-world f _, b) (db_update-records env id _ old _ h e)
]
finish_lem env id ip started r old panic w h e k =
    sym (set_self w.db.records id _ (rw (k refl) at e))

after_failure_returns :
    (f : Failure) (p : Result DataError (Unit {0}) × World)
    → p.0 ≢ panic
    → (after_failure f p).0 ≢ panic
unfolding after_failure
after_failure_returns f (ok t, w) h = λ e. cc
after_failure_returns f (err e, w) h = λ e. cc
after_failure_returns f (panic, w) h = λ e. h refl

after_success_returns :
    (p : Result DataError (Unit {0}) × World) → p.0 ≢ panic → (after_success p).0 ≢ panic
unfolding after_success
after_success_returns (ok t, w) h = λ e. cc
after_success_returns (err e, w) h = λ e. cc
after_success_returns (panic, w) h = λ e. h refl

finish_returns :
    (env : Env) (id : ℕ) (ip : Addr) (r old : Record) (answer : Result Failure Addr) (w : World)
    → length w.db.records < 2 ^ 64
    → get_elem? w.db.records id ≡ some old
    → answer ≢ panic
    → (finish env id ip r answer w).0 ≢ panic
unfolding finish
finish_returns env id ip r old (ok new_ip) w h e k =
    after_success_returns _ (db_update_returns env id _ old _ h e)
finish_returns env id ip r old (err f) w h e k = elim (Bool-cases f.banned_abuse) [
  | inl b ↦ rw b (after_failure_returns _ _ (db_update_returns env id _ old _ h e))
  | inr b ↦ rw b (after_failure_returns _ _ (db_update_returns env id _ old _ h e))
]
finish_returns env id ip r old panic w h e k = absurd (k refl)

module _ (env : Env) (id : ℕ) (ip : Addr) (r : Record) (w : World)
    (small : length w.db.records < 2 ^ 64) (found : get_elem? w.db.records id ≡ some r) where
  abbrev pub started : Time
  started = env.time_now w.tick

  abbrev pub answered : Time
  answered = env.time_now (suc (suc (suc w.tick)))

  abbrev pub answer : Result Failure Addr
  answer = env.provider_update r.provider ip (suc (suc w.tick))

  abbrev begun : Record
  begun = record r { time = started; status = updating }

  -- The world in which the provider has been asked.
  abbrev asked : World
  asked = record w {
    db = record w.db { records = set w.db.records id begun };
    tick = suc (suc (suc w.tick));
  }

  update-finish :
      update env id ip w
      ≡ finish env id ip (record r { time = started; status = fail }) answer asked
  unfolding update update_selected ask_provider
  update-finish = rw (
    select_found w.db id r small found,
    db_update-same_history env id begun r (record w { tick = suc w.tick }) small found
        (omega arith),
  )

  small-asked : length asked.db.records < 2 ^ 64
  small-asked = rw (length-set w.db.records id begun) small

  found-asked : get_elem? asked.db.records id ≡ some begun
  found-asked = get_elem?-set_self w.db.records id begun (get_elem?-lt w.db.records id r found)

  -- An update of a record in the database returns, if the provider does.
  pub update_returns_lem : answer ≢ panic → (update env id ip w).0 ≢ panic
  update_returns_lem k =
      rw update-finish (finish_returns env id ip _ begun answer asked small-asked found-asked k)

  -- Updating a record that is in the database, of fewer than 2^64 records, replaces that record, and no other, by the final record: with
  -- status success, the provider's address appended to the history and the ban left as it was, if the
  -- provider succeeded; with status fail, its message, the history left as it was, and a ban noted or
  -- cleared, if it failed. No record is left with the status updating unless the provider panics.
  pub update-final :
      (update env id ip w).1.db.records ≡ set w.db.records id (final r ip started answered answer)
  update-final = rw update-finish (
      finish_lem env id ip started r begun answer asked small-asked found-asked (λ e. refl)
      ∙ set-set w.db.records id begun (final r ip started answered answer))

  -- If the record is in the database, of fewer than 2^64 records, and the provider fails, then the caller gets its error and no other, nothing is persisted, and a
  -- notification is sent exactly for a ban.
  pub update_failure :
      (f : Failure)
      → answer ≡ err f
      → let (result, w') = update env id ip w in
        (result ≡ err (provider_failed f))
        × (w'.db.persistent ≡ w.db.persistent)
        × (w'.notified ≡ (
            if f.banned_abuse
            then w.notified ++ ban_message (record r { message = f.message }) ∷ []
            else w.notified))
  update_failure f e =
      rw (update-finish, e)
        (elim (Bool-cases f.banned_abuse) [
          | inl b ↦
              let r' : Record = record failed { last_ban = some (whole_seconds answered) } in
              let w' : World = record asked {
                notified = w.notified ++ ban_message (record r { message = f.message }) ∷ [];
                tick = suc asked.tick;
              } in
              let stored =
                db_update-same_history env id r' begun w' small-asked found-asked (le_refl _) in
              unfold finish after_failure in rw (b, stored) (refl, refl, refl)
          | inr b ↦
              let r' : Record = record failed { last_ban = none } in
              let stored =
                db_update-same_history env id r' begun asked small-asked found-asked (le_refl _) in
              unfold finish after_failure in rw (b, stored) (refl, refl, refl)
        ])
    where
      failed : Record
      failed = record r { time = started; status = fail; message = f.message }
