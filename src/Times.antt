-- ===== src/Times.antt =====
-- time.Time as nanoseconds since Go's zero time, and time.Duration as a signed 64-bit integer.
use ddns_updater.Prelude.{ltb, ◌==◌, if◌then◌else◌, ℕ, ◌+◌, ◌-◌, ◌^◌, ◌≤◌, ◌≡◌, Bool, arith}
use ddns_updater.Prelude.Int.{ℤ, pos, negsuc, sub_ℕ, ltb_ℤ}

abbrev pub Time : Type 0
Time = ℕ

abbrev pub Duration : Type 0
Duration = ℤ

-- Time.Before and Time.IsZero
abbrev pub before : Time → Time → Bool
before t u = ltb t u

abbrev pub is_zero : Time → Bool
is_zero t = t == 0

abbrev pub max_duration : ℕ
max_duration = 2 ^ 63 - 1

saturate : ℤ → Duration
saturate (pos n) = if ltb max_duration n then pos max_duration else pos n
saturate (negsuc n) = if ltb max_duration n then negsuc max_duration else negsuc n

-- t.Sub(u), which saturates
unfoldable pub time_sub : Time → Time → Duration
unfolding saturate
time_sub t u = saturate (sub_ℕ t u)

abbrev pub hour : ℕ
hour = 3600000000000

-- A difference below a bound in range: the first time is less than the bound after the second.
pub time_sub-lt : (t u d : ℕ) → d ≤ max_duration → ltb_ℤ (time_sub t u) (pos d) ≡ ltb t (u + d)
unfolding time_sub
time_sub-lt t u d h = ground arith
