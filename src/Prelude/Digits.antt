-- ===== src/Prelude/Digits.antt =====
-- strconv.Itoa, with which fmt prints an integer.
use Prim.Native.Nat.{ℕ, zero, suc, ◌+◌, ◌-◌, ◌*◌, ◌/◌, ◌%◌, ◌^◌, ◌<◌}
use mathlib.Core.Path.{◌≡◌, ap, ◌∙◌}
use mathlib.Core.Bool.{true}
use mathlib.Core.List.{[], ◌∷◌}
use mathlib.Core.Logic.{inl, inr}
use native.Mathlib.Omega.{arith}
use ddns_updater.Prelude.Tests.{ltb, if◌then◌else◌, Bool-cases}
use ddns_updater.Prelude.Texts.{Text}

-- Up to `fuel` digits, in front of those that are written already.
unfoldable pub digits : ℕ → ℕ → Text → Text
digits zero n written = written
digits (suc fuel) n written =
    let next = (b'0' + n % 10) ∷ written in if ltb n 10 then next else digits fuel (n / 10) next

-- 20 digits are enough for 64 bits.
unfoldable pub itoa : ℕ → Text
unfolding digits
itoa n = digits 20 n []

unfoldable pub read_digits : ℕ → Text → ℕ
read_digits n [] = n
read_digits n (c ∷ cs) = read_digits (n * 10 + (c - b'0')) cs

last_digit : (n : ℕ) → n / 10 * 10 + (b'0' + n % 10 - b'0') ≡ n
last_digit n = omega arith

only_digit : (n : ℕ) → ltb n 10 ≡ true → 0 * 10 + (b'0' + n % 10 - b'0') ≡ n
only_digit n h = ground arith

fewer_digits : (fuel n : ℕ) → n < 10 ^ suc (suc fuel) → n / 10 < 10 ^ suc fuel
fewer_digits fuel n h = let h' : n < 10 * 10 ^ suc fuel = omega arith in omega arith

read_digits-digits :
    (fuel n : ℕ) (written : Text)
    → n < 10 ^ suc fuel
    → read_digits 0 (digits (suc fuel) n written) ≡ read_digits n written
unfolding read_digits digits
read_digits-digits zero n written h = ground arith
read_digits-digits (suc fuel) n written h = elim (Bool-cases (ltb n 10)) [
  | inl b ↦ rw b (ap (λ k. read_digits k written) (only_digit n b))
  | inr b ↦ rw b (
      read_digits-digits fuel (n / 10) ((b'0' + n % 10) ∷ written) (fewer_digits fuel n h)
      ∙ ap (λ k. read_digits k written) (last_digit n))
]

-- The digits of a number below 10^20 read back to it.
pub read_digits-itoa : (n : ℕ) → n < 10 ^ 20 → read_digits 0 (itoa n) ≡ n
unfolding read_digits itoa
read_digits-itoa n h = read_digits-digits 19 n [] h
