-- ===== src/Persistence/Events.antt =====
-- GetEvents after StoreNewIP (internal/persistence/json/queries.go).
use ddns_updater.Prelude.{
  if◌then◌else◌, Bool-cases, Option-cases, length, length-append, Text, text_eq, text_eq_sound, ℕ,
  suc, ◌-◌, ◌≡◌, refl, sym, ap, ◌∙◌, inl, inr, true, false, ◌&&◌, none, some, List, [], ◌∷◌, ◌++◌,
  arith,
}
use ddns_updater.IpVersion.{IpVersion}
use ddns_updater.Models.{HistoryEvent}
use ddns_updater.Persistence.{
  filter_events, StoredRecord, append_event, store_event, target_index, matches, get_events, next,
}

filter_events-append :
    (v : IpVersion) (xs ys : List HistoryEvent)
    → filter_events v (xs ++ ys) ≡ filter_events v xs ++ filter_events v ys
unfolding filter_events
filter_events-append v [] ys = refl
filter_events-append v (e ∷ xs) ys = ground (arith, filter_events-append v xs ys)

module _ (domain owner : Text) (event : HistoryEvent) where
  abbrev fresh : StoredRecord
  fresh = record { domain = domain; host = []; owner = owner; events = [] }

  append_event-fresh :
      (records : List StoredRecord)
      → append_event (records ++ fresh ∷ []) (length (records ++ fresh ∷ []) - 1) event
        ≡ records ++ record fresh { events = event ∷ [] } ∷ []
  unfolding append_event
  append_event-fresh [] = refl
  append_event-fresh (r ∷ records) =
      let size = length-append records (fresh ∷ []) in
      let index : length (r ∷ records ++ fresh ∷ []) - 1
          ≡ suc (length (records ++ fresh ∷ []) - 1) =
        omega arith in
      rw index (ap (◌∷◌ r) (append_event-fresh records))

  store_event_found :
      (records : List StoredRecord) (i : ℕ)
      → target_index domain owner records ≡ some i
      → store_event domain owner event records ≡ append_event records i event
  unfolding store_event
  store_event_found records i e = rw (e, store_event)

  store_event_missing :
      (records : List StoredRecord)
      → target_index domain owner records ≡ none
      → store_event domain owner event records
        ≡ records ++ record fresh { events = event ∷ [] } ∷ []
  unfolding store_event
  store_event_missing records e = rw (e, store_event) (append_event-fresh records)

  target_index-here :
      (r : StoredRecord) (records : List StoredRecord)
      → matches domain owner r ≡ true
      → target_index domain owner (r ∷ records) ≡ some 0
  unfolding target_index
  target_index-here r records m = rw m

  target_index-next :
      (r : StoredRecord) (records : List StoredRecord)
      → matches domain owner r ≡ false
      → target_index domain owner (r ∷ records) ≡ next (target_index domain owner records)
  unfolding target_index
  target_index-next r records m = rw m

  -- StoreNewIP by recursion on the records: the event goes to the first match, or to a new record.
  pub store_event-nil :
      store_event domain owner event [] ≡ record fresh { events = event ∷ [] } ∷ []
  unfolding store_event target_index append_event
  store_event-nil = refl

  pub store_event-here :
      (r : StoredRecord) (records : List StoredRecord)
      → matches domain owner r ≡ true
      → store_event domain owner event (r ∷ records)
        ≡ record r { events = r.events ++ event ∷ [] } ∷ records
  unfolding append_event
  store_event-here r records m = store_event_found (r ∷ records) 0 (target_index-here r records m)

  pub store_event-next :
      (r : StoredRecord) (records : List StoredRecord)
      → matches domain owner r ≡ false
      → store_event domain owner event (r ∷ records) ≡ r ∷ store_event domain owner event records
  unfolding append_event
  store_event-next r records m = elim (Option-cases (target_index domain owner records)) [
    | inl e ↦
        store_event_missing (r ∷ records) (target_index-next r records m ∙ ap (next) e)
        ∙ ap (◌∷◌ r) (sym (store_event_missing records e))
    | inr (i, e) ↦
        store_event_found (r ∷ records) (suc i) (target_index-next r records m ∙ ap (next) e)
        ∙ ap (◌∷◌ r) (sym (store_event_found records i e))
  ]

-- Records that match one key match the other exactly if the keys are equal.
matches-same :
    (d o d' o' : Text) (r : StoredRecord)
    → matches d o r ≡ true
    → matches d' o' r ≡ (text_eq d d' && text_eq o o')
matches-same d o d' o' r m =
    let same_domain = text_eq_sound r.domain d (ground arith) in
    let same_owner = text_eq_sound r.owner o (ground arith) in rw (same_domain, same_owner)

matches-other :
    (d o d' o' : Text) (r : StoredRecord)
    → matches d o r ≡ false
    → matches d' o' r ≡ true
    → (text_eq d d' && text_eq o o') ≡ false
matches-other d o d' o' r m m' = elim (Bool-cases (text_eq d d' && text_eq o o')) [
  | inl same ↦
      let same_domain = text_eq_sound d d' (ground arith) in
      let same_owner = text_eq_sound o o' (ground arith) in
      let again : matches d o r ≡ true = rw (same_domain, same_owner) m' in cc
  | inr other ↦ other
]

next_record :
    (d o d' o' : Text) (v : IpVersion) (events : List HistoryEvent) (r : StoredRecord)
    (records stored : List StoredRecord)
    → matches d o r ≡ false
    → get_events d' o' v stored ≡ (
        if text_eq d d' && text_eq o o'
        then get_events d' o' v records ++ filter_events v events
        else get_events d' o' v records)
    → get_events d' o' v (r ∷ stored) ≡ (
        if text_eq d d' && text_eq o o'
        then get_events d' o' v (r ∷ records) ++ filter_events v events
        else get_events d' o' v (r ∷ records))
unfolding get_events
next_record d o d' o' v events r records stored m ih = elim (Bool-cases (matches d' o' r)) [
  | inl m' ↦ rw (m', matches-other d o d' o' r m m')
  | inr m' ↦ rw m' ih
]

-- After an event is stored for a domain and owner, GetEvents returns it behind the earlier ones for
-- them, if the version selects it, and what it returned before for any other domain and owner.
pub get_events-store_event :
    (d o d' o' : Text) (event : HistoryEvent) (v : IpVersion) (records : List StoredRecord)
    → get_events d' o' v (store_event d o event records) ≡ (
        if text_eq d d' && text_eq o o'
        then get_events d' o' v records ++ filter_events v (event ∷ [])
        else get_events d' o' v records)
get_events-store_event d o d' o' event v [] = rw store_event-nil (unfold get_events in ground arith)
get_events-store_event d o d' o' event v (r ∷ records) = elim (Bool-cases (matches d o r)) [
  | inl m ↦
      let same = matches-same d o d' o' r m in
      rw (store_event-here d o event r records m) (
        unfold get_events in rw same (ground (arith, filter_events-append v r.events (event ∷ []))))
  | inr m ↦
      let ih = get_events-store_event d o d' o' event v records in
      rw (store_event-next d o event r records m)
        (next_record d o d' o' v (event ∷ []) r records _ m ih)
]
