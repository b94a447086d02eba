-- ===== src/Prelude/Texts.antt =====
-- Go strings as lists of bytes, with the functions of package `strings` that the program calls.
use Prim.Native.Char.{code}
use Prim.Native.String.{String}
use Prim.Native.Nat.{ℕ, ◌<◌}
use mathlib.Core.Path.{◌≡◌, refl, ap}
use mathlib.Core.Logic.{◌↔◌, inl, inr}
use mathlib.Core.Bool.{Bool, true, false, ◌&&◌, ◌||◌}
use mathlib.Core.List.{List, [], ◌∷◌, ◌++◌}
use native.Mathlib.Omega.{arith}
use ddns_updater.Prelude.Tests.{◌==◌, if◌then◌else◌, leb, Bool-cases}
use ddns_updater.Prelude.Lists.{drop, length, length-append}

abbrev pub Text : Type 0
Text = List ℕ

-- The bytes of an ASCII literal. It stays shut, so that proofs treat a literal as a name.
unfoldable pub bytes : String → Text
bytes String.[] = []
bytes (String.◌∷◌ c s) = code c ∷ bytes s

-- a == b on strings
unfoldable pub text_eq : Text → Text → Bool
text_eq [] [] = true
text_eq [] (y ∷ ys) = false
text_eq (x ∷ xs) [] = false
text_eq (x ∷ xs) (y ∷ ys) = x == y && text_eq xs ys

pub text_eq_refl : (t : Text) → text_eq t t ≡ true
unfolding text_eq
text_eq_refl [] = refl
text_eq_refl (x ∷ xs) = ground (arith, text_eq_refl xs)

pub text_eq_sound : (s t : Text) → text_eq s t ≡ true → s ≡ t
unfolding text_eq
text_eq_sound [] [] h = refl
text_eq_sound [] (y ∷ ys) h = ground arith
text_eq_sound (x ∷ xs) [] h = ground arith
text_eq_sound (x ∷ xs) (y ∷ ys) h = ground (arith, text_eq_sound xs ys)

pub text_eq_iff : (s t : Text) → (text_eq s t ≡ true) ↔ (s ≡ t)
text_eq_iff s t = (text_eq_sound s t, λ e. subst_right e)
  where
    subst_right : s ≡ t → text_eq s t ≡ true
    subst_right e = rw e (text_eq_refl t)

abbrev pub is_empty : Text → Bool
is_empty [] = true
is_empty (x ∷ xs) = false

-- strings.HasPrefix
unfoldable pub has_prefix : Text → Text → Bool
has_prefix t [] = true
has_prefix [] (p ∷ ps) = false
has_prefix (x ∷ xs) (p ∷ ps) = x == p && has_prefix xs ps

-- strings.Contains
unfoldable pub contains : Text → Text → Bool
unfolding has_prefix
contains [] sub = has_prefix [] sub
contains (x ∷ xs) sub = has_prefix (x ∷ xs) sub || contains xs sub

-- strings.HasSuffix
unfoldable pub has_suffix : Text → Text → Bool
unfolding text_eq
has_suffix [] suffix = text_eq [] suffix
has_suffix (x ∷ xs) suffix = text_eq (x ∷ xs) suffix || has_suffix xs suffix

-- strings.TrimPrefix
unfoldable pub trim_prefix : Text → Text → Text
unfolding has_prefix
trim_prefix t p = if has_prefix t p then drop (length p) t else t

-- strings.TrimSuffix
unfoldable pub trim_suffix : Text → Text → Text
unfolding text_eq
trim_suffix [] suffix = []
trim_suffix (x ∷ xs) suffix = if text_eq (x ∷ xs) suffix then [] else x ∷ trim_suffix xs suffix

-- strings.ReplaceAll of one byte by a text
unfoldable pub replace_byte : ℕ → Text → Text → Text
replace_byte old new [] = []
replace_byte old new (x ∷ xs) =
    if x == old then new ++ replace_byte old new xs else x ∷ replace_byte old new xs

-- strings.Split at one byte: never the empty list
abbrev pub cons_head : ℕ → List Text → List Text
cons_head x [] = (x ∷ []) ∷ []
cons_head x (s ∷ ss) = (x ∷ s) ∷ ss

unfoldable pub split : ℕ → Text → List Text
split sep [] = [] ∷ []
split sep (x ∷ xs) = if x == sep then [] ∷ split sep xs else cons_head x (split sep xs)

-- strings.Join
unfoldable pub join : Text → List Text → Text
join sep [] = []
join sep (s ∷ []) = s
join sep (s ∷ t ∷ rest) = s ++ sep ++ join sep (t ∷ rest)

module _ (sep c : ℕ) (t : Text) where
  pub split_here : (c == sep) ≡ true → split sep (c ∷ t) ≡ [] ∷ split sep t
  unfolding split
  split_here h = ground arith

  pub split_other : (c == sep) ≡ false → split sep (c ∷ t) ≡ cons_head c (split sep t)
  unfolding split
  split_other h = ground arith

-- strings.TrimSpace on ASCII white space
abbrev pub is_space : ℕ → Bool
is_space c = c == 32 || (leb 9 c && leb c 13)

unfoldable pub trim_left : Text → Text
trim_left [] = []
trim_left (x ∷ xs) = if is_space x then trim_left xs else x ∷ xs

unfoldable pub trim_right : Text → Text
trim_right [] = []
trim_right (x ∷ xs) =
    let rest = trim_right xs in if is_space x && is_empty rest then [] else x ∷ rest

unfoldable pub trim_space : Text → Text
unfolding trim_left trim_right
trim_space t = trim_right (trim_left t)

text_eq-length : (s t : Text) → text_eq s t ≡ true → length s ≡ length t
text_eq-length s t h = ap length (text_eq_sound s t h)

pub text_eq-longer : (s t : Text) → length t < length s → text_eq s t ≡ false
text_eq-longer s t h = elim (Bool-cases (text_eq s t)) [
  | inl e ↦ let same = text_eq-length s t e in absurd (no same h)
  | inr e ↦ e
]
  where
    no : length s ≡ length t → length t < length s → ⊥
    no e k = omega arith

pub trim_suffix-append : (pre suffix : Text) → trim_suffix (pre ++ suffix) suffix ≡ pre
unfolding trim_suffix
trim_suffix-append [] [] = refl
trim_suffix-append [] (x ∷ xs) = rw (text_eq_refl (x ∷ xs)) refl
trim_suffix-append (c ∷ pre) suffix =
    let longer =
      text_eq-longer (c ∷ (pre ++ suffix)) suffix (omega (arith, length-append pre suffix)) in
    rw (longer, trim_suffix-append pre suffix) refl
