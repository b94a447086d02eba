-- ===== src/Domain/Labels.antt =====
-- CheckDomain of internal/provider/utils/domain.go against the labels between the dots.
use ddns_updater.Prelude.{
  ℕ, suc, ◌+◌, ◌-◌, ◌≡◌, refl, sym, ap, subst, ◌∙◌, Bool, true, false, not, ◌&&◌, Option, none,
  some, List, [], ◌∷◌, ◌++◌, append-nil, append_assoc, Text, split, length, length-append, ltb, leb,
  ◌==◌, Bool-cases, Option-cases, inl, inr, arith, split_here, split_other,
}
use native.Mathlib.Nat.{zero-add, suc-add}
use ddns_updater.Domain.{
  byte_at, is_label_character, check_label, check_tld, check_from, check_domain,
}

abbrev pub is_none {ℓ} : {A : Type ℓ} → Option A → Bool
is_none none = true
is_none (some a) = false

abbrev pub all_characters : Text → Bool
all_characters [] = true
all_characters (c ∷ cs) = is_label_character c && all_characters cs

abbrev pub last_byte : Text → ℕ
last_byte [] = 0
last_byte (c ∷ []) = c
last_byte (c ∷ d ∷ cs) = last_byte (d ∷ cs)

abbrev first_byte : Text → ℕ
first_byte [] = 0
first_byte (c ∷ cs) = c

abbrev pub is_label : Text → Bool
is_label label =
    not (length label == 0)
    && not (ltb 63 (length label))
    && not (first_byte label == b'-')
    && not (last_byte label == b'-')

abbrev pub is_tld : Text → Bool
is_tld label = is_label label && not (leb b'0' (first_byte label) && leb (first_byte label) b'9')

unfoldable pub are_labels : List Text → Bool
are_labels [] = false
are_labels (tld ∷ []) = all_characters tld && is_tld tld
are_labels (label ∷ next ∷ rest) =
    all_characters label && is_label label && are_labels (next ∷ rest)

-- A valid domain name: at most 255 bytes, with labels of 1 to 63 letters, digits and hyphens, none of
-- them with a hyphen at an end, and a last label that does not begin with a digit.
unfoldable pub is_domain : Text → Bool
unfolding are_labels
is_domain domain =
    not (length domain == 0) && not (ltb 255 (length domain)) && are_labels (split b'.' domain)

byte_at-append : (done rest : Text) → byte_at (done ++ rest) (length done) ≡ first_byte rest
byte_at-append [] [] = refl
byte_at-append [] (c ∷ cs) = refl
byte_at-append (d ∷ done) rest = byte_at-append done rest

byte_at_last :
    (done : Text) (c : ℕ) (label rest : Text)
    → byte_at (done ++ (c ∷ label ++ rest)) (length done + length label) ≡ last_byte (c ∷ label)
byte_at_last [] c [] rest = refl
byte_at_last [] c (d ∷ cs) rest =
    rw zero-add (rw (← zero-add (length cs)) (byte_at_last [] d cs rest))
byte_at_last (d ∷ done) c label rest = rw suc-add (byte_at_last done c label rest)

-- A label that stands behind `done` passes the tests at its dot exactly if it is a label.
check_label-append :
    (done label rest : Text)
    → is_none (check_label (done ++ (label ++ rest)) (length done + length label) (length done))
      ≡ is_label label
unfolding check_label
check_label-append done [] rest = ground arith
check_label-append done (c ∷ label) rest =
    let before : length done + suc (length label) - 1 ≡ length done + length label = omega arith in
    rw (before, byte_at-append done (c ∷ label ++ rest), byte_at_last done c label rest)
      (ground arith)

check_tld-append :
    (done label : Text) → is_none (check_tld (done ++ label) (length done)) ≡ is_tld label
unfolding check_tld
check_tld-append done [] = rw (append-nil done) (ground arith)
check_tld-append done (c ∷ label) =
    let size = length-append done (c ∷ label) in
    let before : length (done ++ c ∷ label) - 1 ≡ length done + length label = omega arith in
    let last : byte_at (done ++ c ∷ label) (length done + length label) ≡ last_byte (c ∷ label) =
      subst (λ t. byte_at (done ++ t) (length done + length label) ≡ last_byte (c ∷ label))
        (append-nil (c ∷ label)) (byte_at_last done c label []) in
    rw (before, size, byte_at-append done (c ∷ label), last) (ground arith)

abbrev prepend : Text → List Text → List Text
prepend label [] = label ∷ []
prepend label (s ∷ ss) = (label ++ s) ∷ ss

-- split never returns the empty list
split_cons : (t : Text) → (s : Text) × (ss : List Text) × (split b'.' t ≡ s ∷ ss)
unfolding split
split_cons [] = ([], [], refl)
split_cons (c ∷ t) =
    let (s, ss, e) = split_cons t in
    elim (Bool-cases (c == b'.')) [
      | inl h ↦ ([], split b'.' t, rw h)
      | inr h ↦ (c ∷ s, ss, rw (h, e))
    ]

prepend-nil : (t : Text) → prepend [] (split b'.' t) ≡ split b'.' t
prepend-nil t = let (s, ss, e) = split_cons t in rw e

all_characters_bad :
    (label : Text) (c : ℕ) (s : Text)
    → is_label_character c ≡ false
    → all_characters (label ++ c ∷ s) ≡ false
all_characters_bad [] c s h = rw h
all_characters_bad (d ∷ label) c s h = ground (arith, all_characters_bad label c s h)

are_labels_bad :
    (label : Text) (ss : List Text) → all_characters label ≡ false → are_labels (label ∷ ss) ≡ false
unfolding are_labels
are_labels_bad label [] h = rw h
are_labels_bad label (s ∷ ss) h = rw h

all_characters-snoc :
    (label : Text) (c : ℕ)
    → all_characters label ≡ true
    → is_label_character c ≡ true
    → all_characters (label ++ c ∷ []) ≡ true
all_characters-snoc [] c h k = rw k
all_characters-snoc (d ∷ label) c h k = ground (arith, all_characters-snoc label c)

are_labels_cons :
    (label t : Text)
    → all_characters label ≡ true
    → are_labels (label ∷ split b'.' t) ≡ (is_label label && are_labels (split b'.' t))
unfolding are_labels
are_labels_cons label t h = let (s, ss, e) = split_cons t in rw (e, h)

-- At a dot: the label is tested, and the loop goes on behind the dot.
check_from_dot :
    (domain rest label : Text) (c i start : ℕ)
    → (c == b'.') ≡ true
    → is_none (check_label domain i start) ≡ is_label label
    → is_none (check_from domain rest (suc i) (suc i)) ≡ are_labels (split b'.' rest)
    → is_none (check_from domain (c ∷ rest) i start)
      ≡ (is_label label && are_labels (split b'.' rest))
unfolding check_from
check_from_dot domain rest label c i start dot here ih =
    elim (Option-cases (check_label domain i start)) [
      | inl e ↦
          let passed : is_label label ≡ true = sym here ∙ ap is_none e in rw (dot, e, passed) ih
      | inr (x, e) ↦
          let failed : is_label label ≡ false = sym here ∙ ap is_none e in rw (dot, e, failed)
    ]

module _ (domain rest : Text) (c i start : ℕ) (other : (c == b'.') ≡ false) where
  check_from_fine :
      is_label_character c ≡ true
      → check_from domain (c ∷ rest) i start ≡ check_from domain rest (suc i) start
  unfolding check_from
  check_from_fine h = rw (other, h)

  check_from_bad :
      is_label_character c ≡ false → is_none (check_from domain (c ∷ rest) i start) ≡ false
  unfolding check_from
  check_from_bad h = rw (other, h)

-- The loop, inside a label that stands behind `done`.
check_from_lem :
    (domain done label rest : Text) (i start : ℕ)
    → domain ≡ done ++ (label ++ rest)
    → start ≡ length done
    → i ≡ length done + length label
    → all_characters label ≡ true
    → is_none (check_from domain rest i start) ≡ are_labels (prepend label (split b'.' rest))
check_from_lem domain done label [] i start ed es ei h =
    unfold check_from split are_labels in
    rw (ed, append-nil label, es, check_tld-append done label, h)
check_from_lem domain done label (c ∷ rest) i start ed es ei h =
    let regroup : domain ≡ (done ++ (label ++ c ∷ [])) ++ rest = rw ed (simp append_assoc) in
    let there = length-append done (label ++ c ∷ []) in
    let size = length-append label (c ∷ []) in
    elim (Bool-cases (c == b'.')) [
      | inl dot ↦
          let ih =
            check_from_lem domain (done ++ (label ++ c ∷ [])) [] rest (suc i) (suc i) regroup
              (omega arith) (omega arith) refl in
          let here =
            subst (λ t. is_none (check_label t i start) ≡ is_label label) (sym ed)
              (rw (ei, es) (check_label-append done label (c ∷ rest))) in
          rw (split_here b'.' c rest dot, append-nil label, are_labels_cons label rest h)
            (check_from_dot domain rest label c i start dot here (rw (prepend-nil rest) at ih))
      | inr other ↦
          let (s, ss, e) = split_cons rest in
          rw (split_other b'.' c rest other, e)
            (elim (Bool-cases (is_label_character c)) [
              | inl fine ↦
                  let ih =
                    check_from_lem domain done (label ++ c ∷ []) rest (suc i) start
                      (rw ed (simp append_assoc)) es (omega arith)
                      (all_characters-snoc label c h fine) in
                  let ih' = rw (e, append_assoc label (c ∷ []) s) at ih in
                  rw (check_from_fine domain rest c i start other fine) ih'
              | inr bad ↦
                  rw (check_from_bad domain rest c i start other bad)
                    (sym (are_labels_bad (label ++ c ∷ s) ss (all_characters_bad label c s bad)))
            ])
    ]

-- CheckDomain accepts exactly the valid domain names: those of 1 to 255 bytes whose labels between
-- the dots have 1 to 63 letters, digits and hyphens, with no hyphen at an end, and whose last label
-- does not begin with a digit.
pub check_domain-is_domain : (domain : Text) → is_none (check_domain domain) ≡ is_domain domain
unfolding check_domain is_domain
check_domain-is_domain domain =
    let loop = check_from_lem domain [] [] domain 0 0 refl refl refl refl in
    let loop' = rw (prepend-nil domain) at loop in
    elim (Bool-cases (length domain == 0)) [
      | inl e ↦ rw e
      | inr n ↦ elim (Bool-cases (ltb 255 (length domain))) [
        | inl e ↦ rw (n, e)
        | inr m ↦ rw (n, m) loop'
      ]
    ]
