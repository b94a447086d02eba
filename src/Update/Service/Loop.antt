-- ===== src/Update/Service/Loop.antt =====
-- The loop `run` of internal/update/service.go: what holds after any sequence of events.
use ddns_updater.Prelude.{
  if◌then◌else◌, Bool-cases, length, get_elem?, get_elem?_of_lt, get_elem?-lt, All-get_elem?,
  All-of-get_elem?, ℕ, suc, ◌^◌, ◌≤◌, ◌<◌, ◌≡◌, refl, sym, ap, subst, ◌∙◌, ◌≢◌, ◌⊎◌, inl, inr, Bool,
  true, false, Option, none, some, List, [], ◌∷◌, arith,
}
use mathlib.Core.Option.{some_inj}
use ddns_updater.Times.{Duration}
use ddns_updater.Models.{Record, Status, updating, unset, fail, success, up_to_date}
use ddns_updater.Update.World.{Env, World}
use ddns_updater.Update.Service.{
  ServiceError, has_id, Event, ticked, forced, abandoned, stopped, Ending, returned, waiting,
  blocked, run,
}
use ddns_updater.Update.Service.Settles.{is_settled}
use ddns_updater.Update.Service.Returns.{IsOrderly, IsSuffix}
use ddns_updater.Update.Service.Fetched.{AreSuffixes}
use ddns_updater.Update.Service.Cycle.{Cycle, update_necessary_settles}

abbrev pub AreSettled : List Record → Type 0
AreSettled records =
    (i : ℕ) (r : Record) → get_elem? records i ≡ some r → is_settled r.status ≡ true

-- No update is under way.
abbrev pub AreCalm : List Record → Type 0
AreCalm records = (i : ℕ) (r : Record) → get_elem? records i ≡ some r → r.status ≢ updating

settled-calm : (s : Status) → is_settled s ≡ true → s ≢ updating
settled-calm fail h = λ e. cc
settled-calm success h = λ e. cc
settled-calm up_to_date h = λ e. cc
settled-calm updating h = λ e. cc
settled-calm unset h = λ e. cc

status-cases : (s : Status) → s ≢ updating → (s ≡ unset) ⊎ ((s ≢ unset) × (is_settled s ≡ true))
status-cases fail h = inr (λ e. cc, refl)
status-cases success h = inr (λ e. cc, refl)
status-cases up_to_date h = inr (λ e. cc, refl)
status-cases updating h = absurd (h refl)
status-cases unset h = inl refl

-- An event after which the loop takes no other, and where it is then.
abbrev pub ends_at : Event → Option Ending
ends_at ticked = none
ends_at forced = none
ends_at abandoned = some blocked
ends_at stopped = some returned

-- The events that the loop takes: all up to the first after which it takes no other.
abbrev pub taken : List Event → List Event
taken [] = []
taken (e ∷ events) = elim (ends_at e) [ none ↦ e ∷ taken events | some ending ↦ e ∷ [] ]

-- Where the first such event leaves the loop, which waits if there is none.
abbrev pub ending_of : List Event → Ending
ending_of [] = waiting
ending_of (e ∷ events) = elim (ends_at e) [ none ↦ ending_of events | some ending ↦ ending ]

abbrev pub is_forced : Event → Bool
is_forced forced = true
is_forced _ = false

abbrev pub is_cycle : Event → Bool
is_cycle stopped = false
is_cycle _ = true

abbrev pub count : (Event → Bool) → List Event → ℕ
count f [] = 0
count f (e ∷ events) = if f e then suc (count f events) else count f events

module _ (env : Env) (cooldown : Duration) where
  Cycle-AreSettled :
      (w : World) (c : Cycle env cooldown w) → AreCalm w.db.records → AreSettled c.after.db.records
  Cycle-AreSettled w c calm i r' e' =
      let within = get_elem?-lt c.after.db.records i r' e' in
      let (r, e) = get_elem?_of_lt w.db.records i (rw (sym c.same_length) within) in
      let chosen = λ (k : (has_id c.ids i ≡ true) ⊎ (r.status ≡ unset)).
        let (r'', e'', settled) = c.settled i r e k in
        subst (λ x. is_settled x.status ≡ true) (sym (some_inj.0 (sym e' ∙ e''))) settled in
      elim (Bool-cases (has_id c.ids i)) [
        | inl k ↦ chosen (inl k)
        | inr k ↦ elim (status-cases r.status (calm i r e)) [
          | inl u ↦ chosen (inr u)
          | inr (u, s) ↦
              let same = some_inj.0 (sym e' ∙ c.others i r e k u) in
              subst (λ x. is_settled x.status ≡ true) (sym same) s
        ]
      ]

  Cycle-AreSuffixes :
      (w : World) (c : Cycle env cooldown w)
      → AreSuffixes w.db.records
      → AreSuffixes c.after.db.records
  Cycle-AreSuffixes w c suffixes =
      All-of-get_elem? (λ x. IsSuffix x.provider.ipv6_suffix) c.after.db.records
        λ i r e.
          let (q, e', same) = c.providers i r e in
          subst (λ p. IsSuffix p.ipv6_suffix) (sym same)
            (All-get_elem? (λ x. IsSuffix x.provider.ipv6_suffix) w.db.records i q suffixes e')

no_cycle : 1 ≤ 0 → ⊥
no_cycle h = omega arith

-- What the loop comes to, over a sequence of events.
pub record Outcome (env : Env) (cooldown : Duration) (events : List Event) (w : World)
    : Type 0 where
  pub results : List (List ServiceError)
  pub after : World
  pub returns : run env cooldown events w ≡ some ((results, ending_of events), after)
  pub answered : length results ≡ count is_forced (taken events)
  pub calm : AreCalm after.db.records
  pub kept : AreSettled w.db.records → AreSettled after.db.records
  pub settled : 1 ≤ count is_cycle (taken events) → AreSettled after.db.records

module _ (env : Env) (orderly : IsOrderly env) (cooldown : Duration) where
  -- For any sequence of events, if the collaborators are orderly (they do not panic, fetched addresses
  -- are well formed, and a map's keys are each visited), there are fewer than 2^64 records, every IPv6
  -- suffix that is set is an IPv6 prefix, and no update is under way at first, then no cycle panics.
  -- The loop takes the events up to the first that is a stop or a forced update whose caller has left:
  -- at a stop it returns, at such a caller it is blocked for good, whatever follows, a stop included,
  -- and without either it waits for more. Every forced update taken whose caller is there gets a
  -- result, no update is under way in the end, records that all have a final status keep one, and if a
  -- cycle was made, then every record has a final status: failure, success or up to date.
  pub run_settles :
      (events : List Event) (w : World)
      → length w.db.records < 2 ^ 64
      → AreSuffixes w.db.records
      → AreCalm w.db.records
      → Outcome env cooldown events w
  unfolding run
  run_settles [] w small suffixes calm = record {
    results = [];
    after = w;
    returns = refl;
    answered = refl;
    calm = calm;
    kept = λ h. h;
    settled = λ h. absurd (no_cycle h);
  }
  run_settles (ticked ∷ events) w small suffixes calm =
      let c = update_necessary_settles env orderly cooldown w small suffixes in
      let settled = Cycle-AreSettled env cooldown w c calm in
      let rest =
        run_settles events c.after (rw c.same_length small)
          (Cycle-AreSuffixes env cooldown w c suffixes)
          (λ i r e. settled-calm r.status (settled i r e)) in
      record {
        results = rest.results;
        after = rest.after;
        returns = rw c.returns rest.returns;
        answered = rest.answered;
        calm = rest.calm;
        kept = λ h. rest.kept settled;
        settled = λ h. rest.kept settled;
      }
  run_settles (forced ∷ events) w small suffixes calm =
      let c = update_necessary_settles env orderly cooldown w small suffixes in
      let settled = Cycle-AreSettled env cooldown w c calm in
      let rest =
        run_settles events c.after (rw c.same_length small)
          (Cycle-AreSuffixes env cooldown w c suffixes)
          (λ i r e. settled-calm r.status (settled i r e)) in
      record {
        results = c.errors ∷ rest.results;
        after = rest.after;
        returns = rw (c.returns, rest.returns) refl;
        answered = ap suc rest.answered;
        calm = rest.calm;
        kept = λ h. rest.kept settled;
        settled = λ h. rest.kept settled;
      }
  run_settles (abandoned ∷ events) w small suffixes calm =
      let c = update_necessary_settles env orderly cooldown w small suffixes in
      let settled = Cycle-AreSettled env cooldown w c calm in
      record {
        results = [];
        after = c.after;
        returns = rw c.returns refl;
        answered = refl;
        calm = λ i r e. settled-calm r.status (settled i r e);
        kept = λ h. settled;
        settled = λ h. settled;
      }
  run_settles (stopped ∷ events) w small suffixes calm = record {
    results = [];
    after = w;
    returns = refl;
    answered = refl;
    calm = calm;
    kept = λ h. h;
    settled = λ h. absurd (no_cycle h);
  }
