-- ===== src/Persistence.antt =====
-- internal/persistence/json: the JSON file database of past addresses.
pub mod Events
pub mod Check
pub mod Reload
use ddns_updater.Prelude.{
  if◌then◌else◌, length, Text, text_eq, is_empty, ℕ, zero, suc, ◌-◌, Bool, true, not, ◌&&◌, Option,
  none, some, List, [], ◌∷◌, ◌++◌,
}
use ddns_updater.Netip.{Addr, is_valid, is4, is6}
use ddns_updater.Times.{Time, before, is_zero}
use ddns_updater.IpVersion.{IpVersion, ip4or6, ip4, ip6}
use ddns_updater.Models.{HistoryEvent}
use ddns_updater.Result.{Result, ok, err}

-- `record` of models.go
pub record StoredRecord : Type 0 where
  pub domain : Text
  pub host : Text
  pub owner : Text
  pub events : List HistoryEvent

-- The file updates.json. What encoding/json reads back from what it wrote is the data itself.
pub data File : Type 0 where
  missing : File
  empty : File
  malformed : File
  holds : List StoredRecord → File

pub record Database : Type 0 where
  pub records : List StoredRecord
  pub file : File

pub data DbError : Type 0 where
  domain_empty owner_not_set misordered ip_empty time_empty : DbError
  cannot_read cannot_decode cannot_write : DbError

-- checkHistoryEvents; `previous` is previousEventTime
unfoldable pub check_events_from : Time → List HistoryEvent → Option DbError
check_events_from previous [] = none
check_events_from previous (e ∷ events) =
    let rest = check_events_from e.time events in
    if is_zero e.time
    then some time_empty
    else if before e.time previous
    then some misordered
    else if not (is_valid e.ip)
    then some ip_empty
    else rest

unfoldable pub check_history_events : List HistoryEvent → Option DbError
unfolding check_events_from
check_history_events events = check_events_from 0 events

-- checkData
unfoldable pub check_data : List StoredRecord → Option DbError
check_data [] = none
check_data (r ∷ records) =
    if is_empty r.domain
    then some domain_empty
    else if is_empty r.owner
    then some owner_not_set
    else elim (check_history_events r.events) [ some e ↦ some e | none ↦ check_data records ]

-- Migration from an older file with `host` in place of `owner`.
unfoldable pub migrate : List StoredRecord → List StoredRecord
migrate [] = []
migrate (r ∷ records) =
    (if is_empty r.owner then record r { owner = r.host; host = [] } else r) ∷ migrate records

-- NewDatabase, on a file that can be opened or is missing
unfoldable pub new_database : File → Result DbError Database
new_database missing = ok (record { records = []; file = missing })
new_database empty = ok (record { records = []; file = empty })
new_database malformed = err cannot_decode
new_database (holds records) =
    let migrated = migrate records in
    elim (check_data migrated) [
      | some e ↦ err e
      | none ↦ ok (record { records = migrated; file = holds records })
    ]

-- How the system calls of `write` end. If the encoding or the closing fails, something is left in
-- the file.
pub data WriteOutcome : Type 0 where
  written open_failed : WriteOutcome
  encode_failed close_failed : File → WriteOutcome

-- Database.write: the file is truncated when it is opened.
unfoldable pub write : WriteOutcome → Database → Option DbError × Database
write written db = (none, record db { file = holds db.records })
write open_failed db = (some cannot_write, db)
write (encode_failed left) db = (some cannot_write, record db { file = left })
write (close_failed left) db = (some cannot_write, record db { file = left })

abbrev pub matches : Text → Text → StoredRecord → Bool
matches domain owner r = text_eq r.domain domain && text_eq r.owner owner

abbrev pub next : Option ℕ → Option ℕ
next none = none
next (some i) = some (suc i)

-- The loop for targetIndex; `none` is -1.
unfoldable pub target_index : Text → Text → List StoredRecord → Option ℕ
target_index domain owner [] = none
target_index domain owner (r ∷ records) =
    if matches domain owner r then some 0 else next (target_index domain owner records)

unfoldable pub append_event : List StoredRecord → ℕ → HistoryEvent → List StoredRecord
append_event [] i e = []
append_event (r ∷ records) zero e = record r { events = r.events ++ e ∷ [] } ∷ records
append_event (r ∷ records) (suc i) e = r ∷ append_event records i e

-- The records that StoreNewIP leaves in memory.
unfoldable pub store_event : Text → Text → HistoryEvent → List StoredRecord → List StoredRecord
store_event domain owner event records = elim (target_index domain owner records) [
  | some i ↦ append_event records i event
  | none ↦
      append_event
        (records ++ record { domain = domain; host = []; owner = owner; events = [] } ∷ [])
        (length (records ++ record { domain = domain; host = []; owner = owner; events = [] } ∷ [])
          - 1)
        event
]

-- StoreNewIP
unfoldable pub store_new_ip :
    WriteOutcome → Text → Text → Addr → Time → Database → Option DbError × Database
store_new_ip outcome domain owner ip time db =
    write outcome (record db {
      records = store_event domain owner (record { ip = ip; time = time }) db.records;
    })

abbrev keep_event : IpVersion → HistoryEvent → Bool
keep_event ip4 e = is4 e.ip
keep_event ip6 e = is6 e.ip
keep_event ip4or6 e = true

-- filterEvents
unfoldable pub filter_events : IpVersion → List HistoryEvent → List HistoryEvent
filter_events version [] = []
filter_events version (e ∷ events) =
    if keep_event version e then e ∷ filter_events version events else filter_events version events

-- GetEvents; its error is always nil
unfoldable pub get_events : Text → Text → IpVersion → List StoredRecord → List HistoryEvent
get_events domain owner version [] = []
get_events domain owner version (r ∷ records) =
    if matches domain owner r
    then filter_events version r.events
    else get_events domain owner version records
