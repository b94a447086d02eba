-- ===== src/Persistence/Check.antt =====
-- checkData of internal/persistence/json/database.go on what StoreNewIP leaves behind.
use ddns_updater.Prelude.{
  if◌then◌else◌, Bool-cases, Text, is_empty, ◌≡◌, subst, inl, inr, Bool, true, false, not, ◌&&◌,
  none, List, [], ◌∷◌, ◌++◌, arith,
}
use ddns_updater.Netip.{is_valid}
use ddns_updater.Times.{Time, before, is_zero}
use ddns_updater.Models.{HistoryEvent}
use ddns_updater.Persistence.{
  StoredRecord, matches, check_events_from, check_history_events, check_data, store_event,
}
use ddns_updater.Persistence.Events.{store_event-nil, store_event-here, store_event-next}

-- The time of the last event, or `previous` if there is none.
abbrev last_from : Time → List HistoryEvent → Time
last_from previous [] = previous
last_from previous (e ∷ events) = last_from e.time events

-- The time of the last event stored for a domain and owner.
unfoldable pub last_time : Text → Text → List StoredRecord → Time
last_time domain owner [] = 0
last_time domain owner (r ∷ records) =
    if matches domain owner r then last_from 0 r.events else last_time domain owner records

-- What an event must be, to be stored behind one of the time `previous`.
pub record IsNext (previous : Time) (e : HistoryEvent) : Type 0 where
  pub timed : is_zero e.time ≡ false
  pub ordered : before e.time previous ≡ false
  pub has_ip : is_valid e.ip ≡ true

check_events-append :
    (previous : Time) (events : List HistoryEvent) (e : HistoryEvent)
    → check_events_from previous events ≡ none
    → IsNext (last_from previous events) e
    → check_events_from previous (events ++ e ∷ []) ≡ none
unfolding check_events_from
check_events-append previous [] e h next = ground arith
check_events-append previous (d ∷ events) e h next =
    ground (arith, check_events-append d.time events e)

check_history_events-append :
    (events : List HistoryEvent) (e : HistoryEvent)
    → check_history_events events ≡ none
    → IsNext (last_from 0 events) e
    → check_history_events (events ++ e ∷ []) ≡ none
unfolding check_history_events
check_history_events-append events e = check_events-append 0 events e

-- A record's names are set.
abbrev pub is_named : StoredRecord → Bool
is_named r = not (is_empty r.domain) && not (is_empty r.owner)

pub check_data-parts :
    (r : StoredRecord) (records : List StoredRecord)
    → check_data (r ∷ records) ≡ none
    → (is_named r ≡ true) × (check_history_events r.events ≡ none) × (check_data records ≡ none)
unfolding check_data
check_data-parts r records h = ground arith

check_data-cons :
    (r : StoredRecord) (records : List StoredRecord)
    → is_named r ≡ true
    → check_history_events r.events ≡ none
    → check_data records ≡ none
    → check_data (r ∷ records) ≡ none
unfolding check_data
check_data-cons r records fine events rest = ground arith

module _ (domain owner : Text) (r : StoredRecord) (records : List StoredRecord) where
  last_time-here :
      matches domain owner r ≡ true → last_time domain owner (r ∷ records) ≡ last_from 0 r.events
  unfolding last_time
  last_time-here m = rw m

  last_time-next :
      matches domain owner r ≡ false
      → last_time domain owner (r ∷ records) ≡ last_time domain owner records
  unfolding last_time
  last_time-next m = rw m

module _ (domain owner : Text) (event : HistoryEvent) where
  -- Valid records stay valid when an event that is no older than the last one of its record is
  -- stored for a domain and owner that are not empty.
  pub check_data-store_event :
      (records : List StoredRecord)
      → is_empty domain ≡ false
      → is_empty owner ≡ false
      → check_data records ≡ none
      → IsNext (last_time domain owner records) event
      → check_data (store_event domain owner event records) ≡ none
  check_data-store_event [] hd ho h next =
      rw (store_event-nil domain owner event)
        (unfold check_data check_history_events check_events_from last_time in ground arith)
  check_data-store_event (r ∷ records) hd ho h next = elim (Bool-cases (matches domain owner r)) [
    | inl m ↦
        let (fine, events, rest) = check_data-parts r records h in
        let next' = subst (λ t. IsNext t event) (last_time-here domain owner r records m) next in
        rw (store_event-here domain owner event r records m) (
          check_data-cons (record r { events = r.events ++ event ∷ [] }) records fine
            (check_history_events-append r.events event events next') rest)
    | inr m ↦
        let (fine, events, rest) = check_data-parts r records h in
        let next' = subst (λ t. IsNext t event) (last_time-next domain owner r records m) next in
        rw (store_event-next domain owner event r records m)
          (check_data-cons r _ fine events (check_data-store_event records hd ho rest next'))
  ]
