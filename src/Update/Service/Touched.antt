-- ===== src/Update/Service/Touched.antt =====
-- Which records a cycle touches: those that get an initial status and those whose id is chosen.
use ddns_updater.Prelude.{
  ◌==◌, get_elem?, ℕ, zero, suc, ◌+◌, ◌<◌, ◌≡◌, refl, ◌∙◌, ◌≢◌, ◌⊎◌, inl, inr, Bool, true, false,
  not, ◌&&◌, ◌||◌, some, List, [], ◌∷◌, arith,
}
use mathlib.Core.Option.{some_inj}
use ddns_updater.Models.{Record, Status, updating, unset, fail, success, up_to_date}
use ddns_updater.Update.Service.{has_id, is_unset}
use ddns_updater.Update.Service.Stages.{starts, starts_at}

pub or_false : (b : Bool) → (b || false) ≡ b
or_false true = refl
or_false false = refl

and_true_or_false : (a : Bool) → ((a && true) || false) ≡ a
and_true_or_false true = refl
and_true_or_false false = refl

and_false_or : (a b : Bool) → ((a && false) || b) ≡ b
and_false_or true b = refl
and_false_or false b = refl

starts_at_nothing :
    (ids : List ℕ) (start : ℕ) (records : List Record) (i : ℕ)
    → i < start
    → starts_at ids start records i ≡ false
starts_at_nothing ids start [] i h = refl
starts_at_nothing ids start (r ∷ records) i h =
    ground (arith, starts_at_nothing ids (suc start) records i (omega arith))

starts_at_lem :
    (ids : List ℕ) (start : ℕ) (records : List Record) (k : ℕ) (r : Record)
    → get_elem? records k ≡ some r
    → starts_at ids start records (start + k) ≡ starts ids (start + k) r
starts_at_lem ids start [] k r h = cc
starts_at_lem ids start (r' ∷ records) zero r h =
    let same : start + 0 ≡ start = omega arith in
    let past = starts_at_nothing ids (suc start) records start (omega arith) in
    let here = some_inj.0 h in
    let self : (start == start) ≡ true = ground arith in
    rw (same, past, self, here) (and_true_or_false (starts ids start r))
starts_at_lem ids start (r' ∷ records) (suc k) r h =
    let shift : start + suc k ≡ suc start + k = omega arith in
    let other : (start == suc start + k) ≡ false = ground arith in
    rw (shift, other)
      (and_false_or (starts ids start r') _ ∙ starts_at_lem ids (suc start) records k r h)

-- The records that a cycle touches.
abbrev pub touches : List ℕ → List Record → ℕ → Bool
touches ids records i = starts_at ids 0 records i || has_id ids i

is_unset-no : (s : Status) → s ≢ unset → is_unset s ≡ false
is_unset-no fail h = refl
is_unset-no success h = refl
is_unset-no up_to_date h = refl
is_unset-no updating h = refl
is_unset-no unset h = absurd (h refl)

touches_lem :
    (ids : List ℕ) (records : List Record) (i : ℕ) (r : Record)
    → get_elem? records i ≡ some r
    → touches ids records i ≡ (starts ids i r || has_id ids i)
touches_lem ids records i r e =
    let zero_plus : 0 + i ≡ i = omega arith in
    let first : starts_at ids 0 records i ≡ starts ids i r =
      rw zero_plus at (starts_at_lem ids 0 records i r e) in
    rw first refl

started_or_chosen : (b : Bool) → (not (b || false) || b) ≡ true
started_or_chosen true = refl
started_or_chosen false = refl

pub touched :
    (ids : List ℕ) (records : List Record) (i : ℕ) (r : Record)
    → get_elem? records i ≡ some r
    → (has_id ids i ≡ true) ⊎ (r.status ≡ unset)
    → touches ids records i ≡ true
touched ids records i r e (inl h) = rw (touches_lem ids records i r e, h) refl
touched ids records i r e (inr h) =
    rw (touches_lem ids records i r e, h) (started_or_chosen (has_id ids i))

pub not_touched :
    (ids : List ℕ) (records : List Record) (i : ℕ) (r : Record)
    → get_elem? records i ≡ some r
    → has_id ids i ≡ false
    → r.status ≢ unset
    → touches ids records i ≡ false
not_touched ids records i r e h k =
    rw (touches_lem ids records i r e, h, is_unset-no r.status k) refl
