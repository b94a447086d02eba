-- ===== src/Data/Select.antt =====
-- Reading and writing one record of the in-memory database.
use ddns_updater.Prelude.{
  ltb, lt→ltb, Bool-cases, length, get_elem?, set, get_elem?_of_lt, get_elem?-lt, ℕ, ◌-◌, ◌^◌, ◌≤◌,
  ◌<◌, ◌≡◌, refl, ◌≢◌, inl, inr, false, Option, none, some, List, [], arith,
}
use ddns_updater.Result.{Result, ok, err, panic}
use ddns_updater.Models.{Record, get_current_ip, get_success_time}
use ddns_updater.Persistence.{WriteOutcome, store_new_ip}
use ddns_updater.Data.{
  Database, DataError, record_not_found, last_id, select, update, store_if_longer, DbError,
  as_error,
}

abbrev pub outcome_of : {A : Type 0} → Result DataError A → ℕ
outcome_of (ok a) = 0
outcome_of (err e) = 1
outcome_of panic = 2

last_id_lem :
    (records : List Record)
    → 0 < length records
    → length records < 2 ^ 64
    → last_id records ≡ length records - 1
unfolding last_id
last_id_lem records h k = omega arith

last_id-nil : last_id [] ≡ 2 ^ 64 - 1
unfolding last_id
last_id-nil = refl

pub select_found :
    (db : Database) (id : ℕ) (r : Record)
    → length db.records < 2 ^ 64
    → get_elem? db.records id ≡ some r
    → select db id ≡ ok r
unfolding select
select_found db id r h e =
    let within = get_elem?-lt db.records id r e in
    let last = last_id_lem db.records (omega arith) h in rw (last, e) (ground arith)

select_beyond :
    (db : Database) (id : ℕ)
    → length db.records < 2 ^ 64
    → length db.records ≤ id
    → 0 < length db.records
    → select db id ≡ err record_not_found
unfolding select
select_beyond db id h k n =
    let last = last_id_lem db.records n h in
    let beyond = lt→ltb (length db.records - 1) id (omega arith) in rw (last, beyond)

select_none : (db : Database) (id : ℕ) → id < 2 ^ 64 → db.records ≡ [] → select db id ≡ panic
unfolding select
select_none db id k e = rw (e, last_id-nil) (ground arith)

-- With fewer than 2^64 records, Select returns the record at an id in range, and the error for any other id if there is a
-- record; with no record at all it panics, for every 64-bit id, since the bound wraps round.
pub select_outcomes :
    (db : Database) (id : ℕ)
    → length db.records < 2 ^ 64
    → id < 2 ^ 64
    → (id < length db.records
        → (r : Record) × (get_elem? db.records id ≡ some r) × (select db id ≡ ok r))
      × (length db.records ≤ id → 0 < length db.records → select db id ≡ err record_not_found)
      × (db.records ≡ [] → select db id ≡ panic)
select_outcomes db id h k = (
  λ within. let (r, e) = get_elem?_of_lt db.records id within in (r, e, select_found db id r h e),
  select_beyond db id h,
  select_none db id k,
)

-- With fewer than 2^64 records, Update of an id in range replaces that record and no other, whether or not the persistence fails,
-- and it persists something exactly if the history became longer.
pub update_lem :
    (outcome : WriteOutcome) (id : ℕ) (r old : Record) (db : Database)
    → length db.records < 2 ^ 64
    → get_elem? db.records id ≡ some old
    → let (result, db') = update outcome id r db in
      (db'.records ≡ set db.records id r)
      × (length r.history ≤ length old.history
          → (result ≡ ok tt) × (db'.persistent ≡ db.persistent))
      × (length old.history < length r.history
          → db'.persistent
            ≡ (store_new_ip outcome r.provider.domain r.provider.owner
                (get_current_ip r.history)
                (get_success_time r.history)
                db.persistent).1)
unfolding update store_if_longer
update_lem outcome id r old db h e =
    let within = get_elem?-lt db.records id old e in
    let last = last_id_lem db.records (omega arith) h in
    let inside : ltb (length db.records - 1) id ≡ false = ground arith in
    rw (last, inside, e) (ground arith, λ k. ground arith, λ k. ground arith)

store_if_longer_returns :
    (outcome : WriteOutcome) (n : ℕ) (r : Record) (db : Database)
    → (store_if_longer outcome n r db).0 ≢ panic
unfolding store_if_longer
store_if_longer_returns outcome n r db e = elim (Bool-cases (ltb n (length r.history))) [
  | inl b ↦
      as_error_returns
        (store_new_ip outcome r.provider.domain r.provider.owner (get_current_ip r.history)
          (get_success_time r.history) db.persistent).0
        (rw b at e)
  | inr b ↦ ground (arith, b, e)
]
  where
    as_error_returns : (o : Option DbError) → as_error o ≢ panic
    as_error_returns none k = cc
    as_error_returns (some x) k = cc

-- Update of an id in range does not panic.
pub update_returns :
    (outcome : WriteOutcome) (id : ℕ) (r old : Record) (db : Database)
    → length db.records < 2 ^ 64
    → get_elem? db.records id ≡ some old
    → (update outcome id r db).0 ≢ panic
unfolding update
update_returns outcome id r old db h e =
    let within = get_elem?-lt db.records id old e in
    let last = last_id_lem db.records (omega arith) h in
    let inside : ltb (length db.records - 1) id ≡ false = ground arith in
    rw (last, inside, e) (store_if_longer_returns outcome (length old.history) r _)
