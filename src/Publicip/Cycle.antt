-- ===== src/Publicip/Cycle.antt =====
-- pkg/publicip/subfetcher.go: the sub-fetchers take turns by a 32-bit counter. An `int` has 64 bits,
-- so that a counter is not negative as an `int`.
use ddns_updater.Prelude.{ltb, if◌then◌else◌, ℕ, ◌+◌, ◌%◌, ◌^◌, ◌<◌, ◌≡◌, arith}

-- atomic.AddUint32(counter, 1)
abbrev pub add_uint32 : ℕ → ℕ
add_uint32 counter = (counter + 1) % 2 ^ 32

-- getSubFetcher of `count` fetchers: the index taken and the counter after it
unfoldable pub get_sub_fetcher : ℕ → ℕ → ℕ × ℕ
get_sub_fetcher count counter =
    if ltb 1 count then (add_uint32 counter % count, add_uint32 counter) else (0, counter)

-- With both kinds of fetchers enabled, two calls in a row take different fetchers, also where the
-- counter wraps round; the index is always in range, and a single fetcher is always taken.
pub get_sub_fetcher_turns :
    (counter : ℕ)
    → counter < 2 ^ 32
    → let (first, counter') = get_sub_fetcher 2 counter in
      (first + (get_sub_fetcher 2 counter').0 ≡ 1)
      × (counter' < 2 ^ 32)
      × ((get_sub_fetcher 1 counter).0 ≡ 0)
unfolding get_sub_fetcher
get_sub_fetcher_turns counter h = omega arith
