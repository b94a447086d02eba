-- ===== src/Data.antt =====
-- internal/data: the in-memory database of records over the JSON database.
pub mod Select
use ddns_updater.Prelude.{
  ltb, if◌then◌else◌, length, get_elem?, set, ℕ, ◌+◌, ◌-◌, ◌%◌, ◌^◌, Option, none, some, List, map,
}
use ddns_updater.Result.{Result, ok, err, panic}
use ddns_updater.Models.{Record, Provider, new_record, get_current_ip, get_success_time}
use ddns_updater.Persistence
use ddns_updater.Persistence.{DbError, WriteOutcome, store_new_ip, get_events}

pub record Database : Type 0 where
  pub records : List Record
  pub persistent : Persistence.Database

pub data DataError : Type 0 where
  record_not_found : DataError
  persistence : DbError → DataError

-- uint(len(db.data)) - 1, which wraps round for an empty database
unfoldable pub last_id : List Record → ℕ
last_id records = (length records + 2 ^ 64 - 1) % 2 ^ 64

abbrev or_panic : Option Record → Result DataError Record
or_panic none = panic
or_panic (some r) = ok r

-- db.data[id]
abbrev pub index : List Record → ℕ → Result DataError Record
index records id = or_panic (get_elem? records id)

-- Select
unfoldable pub select : Database → ℕ → Result DataError Record
select db id = if ltb (last_id db.records) id then err record_not_found else index db.records id

-- SelectAll
abbrev pub select_all : Database → List Record
select_all db = db.records

abbrev pub as_error : Option DbError → Result DataError (Unit {0})
as_error none = ok tt
as_error (some e) = err (persistence e)

-- The end of Update: a longer history is persisted.
unfoldable pub store_if_longer :
    WriteOutcome → ℕ → Record → Database → Result DataError (Unit {0}) × Database
store_if_longer outcome current_count r db =
    if ltb current_count (length r.history)
    then (let (e, persistent) =
          store_new_ip outcome r.provider.domain r.provider.owner (get_current_ip r.history)
            (get_success_time r.history) db.persistent in
        (as_error e, record db { persistent = persistent }))
    else (ok tt, db)

update_at :
    WriteOutcome
    → Result DataError Record
    → ℕ
    → Record
    → Database
    → Result DataError (Unit {0}) × Database
update_at outcome (ok old) id r db =
    store_if_longer outcome (length old.history) r (record db { records = set db.records id r })
update_at outcome (err e) id r db = (err e, db)
update_at outcome panic id r db = (panic, db)

-- Update
unfoldable pub update :
    WriteOutcome → ℕ → Record → Database → Result DataError (Unit {0}) × Database
unfolding update_at
update outcome id r db =
    if ltb (last_id db.records) id
    then (err record_not_found, db)
    else update_at outcome (index db.records id) id r db

-- ReplaceProviders; GetEvents never fails
unfoldable pub replace_providers : List Provider → Database → Database
replace_providers providers db = record db {
  records =
      map (λ p. new_record p (get_events p.domain p.owner p.ip_version db.persistent.records))
        providers;
}
