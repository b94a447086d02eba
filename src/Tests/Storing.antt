-- ===== src/Tests/Storing.antt =====
-- The databases (internal/persistence/json, internal/data).
use ddns_updater.Prelude.{
  if◌then◌else◌, length, get_elem?, set, Text, bytes, text_eq, is_empty, ◌≤◌, ◌<◌, ◌≡◌, refl, false,
  ◌&&◌, none, some, List, [], ◌∷◌, ◌++◌, arith,
}
use ddns_updater.Result.{ok, err, panic}
use ddns_updater.Netip.{v4, no_prefix}
use ddns_updater.IpVersion.{ip4}
use ddns_updater.Models.{
  HistoryEvent, Provider, Record, new_record, get_current_ip, get_success_time,
}
use ddns_updater.Persistence
use ddns_updater.Persistence.{
  StoredRecord, holds, missing, written, encode_failed, cannot_decode, cannot_write, check_data,
  check_history_events, check_events_from, store_event, store_new_ip, get_events, filter_events,
  new_database, malformed, empty,
}
use ddns_updater.Persistence.Events.{get_events-store_event}
use ddns_updater.Persistence.Check.{last_time, IsNext, check_data-store_event}
use ddns_updater.Persistence.Reload.{new_database-store_new_ip}
use ddns_updater.Data
use ddns_updater.Data.{record_not_found, select, update}
use ddns_updater.Data.Select.{select_outcomes, update_lem}

abbrev pub address : Text
address = 1 ∷ 2 ∷ 3 ∷ 4 ∷ []

abbrev pub first_event : HistoryEvent
first_event = record { ip = v4 address; time = 5 }

abbrev pub stored : List StoredRecord
stored =
    record { domain = bytes "a.com"; host = []; owner = bytes "@"; events = first_event ∷ [] } ∷ []

abbrev pub json_db : Persistence.Database
json_db = record { records = stored; file = missing }

abbrev pub provider : Provider
provider = record {
  domain = bytes "a.com";
  owner = bytes "@";
  domain_name = bytes "a.com";
  display = bytes "a.com";
  ip_version = ip4;
  ipv6_suffix = no_prefix;
  proxied = false;
}

abbrev pub one_record : Record
one_record = new_record provider (first_event ∷ [])

abbrev pub one : Data.Database
one = record { records = one_record ∷ []; persistent = json_db }

get_events-store_event_example :
    get_events
      (bytes "a.com")
      (bytes "@")
      ip4
      (store_event (bytes "a.com") (bytes "@") first_event stored)
    ≡ (if text_eq (bytes "a.com") (bytes "a.com") && text_eq (bytes "@") (bytes "@")
        then get_events (bytes "a.com") (bytes "@") ip4 stored
          ++ filter_events ip4 (first_event ∷ [])
        else get_events (bytes "a.com") (bytes "@") ip4 stored)
get_events-store_event_example =
    get_events-store_event (bytes "a.com") (bytes "@") (bytes "a.com") (bytes "@") first_event ip4
      stored

stored_valid : check_data stored ≡ none
unfolding check_data check_history_events check_events_from bytes
stored_valid = refl

named : (is_empty (bytes "a.com") ≡ false) × (is_empty (bytes "@") ≡ false)
unfolding bytes
named = (refl, refl)

stored-IsNext :
    IsNext (last_time (bytes "a.com") (bytes "@") stored) (record { ip = v4 address; time = 6 })
unfolding last_time text_eq bytes
stored-IsNext = record { timed = refl; ordered = refl; has_ip = refl }

check_data-store_event_example :
    check_data
      (store_event (bytes "a.com") (bytes "@") (record { ip = v4 address; time = 6 }) stored)
    ≡ none
check_data-store_event_example =
    check_data-store_event (bytes "a.com") (bytes "@") (record { ip = v4 address; time = 6 }) stored
      named.0 named.1 stored_valid stored-IsNext

new_database-store_new_ip_example :
    let (error, db') = store_new_ip written (bytes "a.com") (bytes "@") (v4 address) 6 json_db in
    (error ≡ none) × (new_database db'.file ≡ ok db')
new_database-store_new_ip_example =
    new_database-store_new_ip (bytes "a.com") (bytes "@") (v4 address) 6 json_db named.0 named.1
      stored_valid stored-IsNext

select_outcomes_example :
    (0 < length one.records
      → (r : Record) × (get_elem? one.records 0 ≡ some r) × (select one 0 ≡ ok r))
    × (length one.records ≤ 0 → 0 < length one.records → select one 0 ≡ err record_not_found)
    × (one.records ≡ [] → select one 0 ≡ panic)
select_outcomes_example = select_outcomes one 0 (omega arith) (omega arith)

-- With no record configured, reading any record panics.
select_on_empty : select (record { records = []; persistent = json_db }) 0 ≡ panic
select_on_empty =
    (select_outcomes (record { records = []; persistent = json_db }) 0 (omega arith)
        (omega arith)).2
      refl

update_lem_example :
    let (result, db') = update written 0 one_record one in
    (db'.records ≡ set one.records 0 one_record)
    × (length one_record.history ≤ length one_record.history
        → (result ≡ ok tt) × (db'.persistent ≡ one.persistent))
    × (length one_record.history < length one_record.history
        → db'.persistent
          ≡ (store_new_ip written provider.domain provider.owner
              (get_current_ip one_record.history)
              (get_success_time one_record.history)
              one.persistent).1)
unfolding new_record
update_lem_example = update_lem written 0 one_record one_record one (omega arith) refl
