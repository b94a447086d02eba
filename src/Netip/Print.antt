-- ===== src/Netip/Print.antt =====
-- Addr.String of net/netip.
use ddns_updater.Prelude.{
  ℕ, suc, zero, ◌+◌, ◌-◌, ◌*◌, ◌/◌, ◌%◌, ◌≡◌, refl, Bool, true, false, List, [], ◌∷◌, ◌++◌, map,
  Text, bytes, join, is_empty, ltb, ◌==◌, if◌then◌else◌,
}
use ddns_updater.Netip.{Addr, invalid, v4, v6}

-- strconv.Itoa of a number below 1000
unfoldable pub decimal : ℕ → Text
decimal n =
    if ltb n 10
    then (b'0' + n) ∷ []
    else if ltb n 100
    then (b'0' + n / 10) ∷ (b'0' + n % 10) ∷ []
    else (b'0' + n / 100) ∷ (b'0' + n / 10 % 10) ∷ (b'0' + n % 10) ∷ []

hex_digit : ℕ → ℕ
hex_digit d = if ltb d 10 then b'0' + d else b'a' + d - 10

strip_zeros : Text → Text
strip_zeros [] = []
strip_zeros (d ∷ []) = d ∷ []
strip_zeros (d ∷ e ∷ ds) = if d == b'0' then strip_zeros (e ∷ ds) else d ∷ e ∷ ds

hex_group : ℕ → Text
unfolding hex_digit strip_zeros
hex_group n = strip_zeros (
    hex_digit (n / 4096)
    ∷ hex_digit (n / 256 % 16)
    ∷ hex_digit (n / 16 % 16)
    ∷ hex_digit (n % 16)
    ∷ [])

groups : Text → List ℕ
groups (a ∷ b ∷ rest) = (a * 256 + b) ∷ groups rest
groups _ = []

zero_run : List ℕ → ℕ
zero_run [] = 0
zero_run (g ∷ gs) = if g == 0 then suc (zero_run gs) else 0

-- The first longest run of two or more zero groups: its start and length.
longest_run : ℕ → List ℕ → ℕ × ℕ → ℕ × ℕ
unfolding zero_run
longest_run i [] best = best
longest_run i (g ∷ gs) best =
    let l = zero_run (g ∷ gs) in
    longest_run (suc i) gs (if ltb 1 l then (if ltb best.1 l then (i, l) else best) else best)

-- `skip` groups are still inside the run that `::` stands for; `colon` asks for a separator.
print_groups : ℕ → ℕ × ℕ → ℕ → Bool → List ℕ → Text
unfolding hex_group
print_groups i run skip colon [] = []
print_groups i run (suc skip) colon (g ∷ gs) = print_groups (suc i) run skip false gs
print_groups i run zero colon (g ∷ gs) =
    let here = print_groups (suc i) run (run.1 - 1) false gs in
    let next = print_groups (suc i) run 0 true gs in
    if ltb 0 run.1
    then (if i == run.0
        then bytes "::" ++ here
        else (if colon then b':' ∷ [] else []) ++ hex_group g ++ next)
    else (if colon then b':' ∷ [] else []) ++ hex_group g ++ next

dotted : Text → Text
unfolding decimal
dotted b = join (bytes ".") (map decimal b)

with_zone : Text → Text → Text
with_zone s z = if is_empty z then s else s ++ b'%' ∷ z

-- 4in6 addresses print their last four bytes dotted
print_v6 : Text → Text
unfolding groups longest_run print_groups dotted
print_v6 (zero ∷ zero ∷ zero ∷ zero ∷ zero ∷ zero ∷ zero ∷ zero ∷ zero ∷ zero ∷ a ∷ b ∷ rest) =
    let gs = groups (0 ∷ 0 ∷ 0 ∷ 0 ∷ 0 ∷ 0 ∷ 0 ∷ 0 ∷ 0 ∷ 0 ∷ a ∷ b ∷ rest) in
    if a * 256 + b == 65535
    then bytes "::ffff:" ++ dotted rest
    else print_groups 0 (longest_run 0 gs (0, 0)) 0 false gs
print_v6 b = let gs = groups b in print_groups 0 (longest_run 0 gs (0, 0)) 0 false gs

unfoldable pub addr_string : Addr → Text
unfolding dotted print_v6 with_zone
addr_string invalid = bytes "invalid IP"
addr_string (v4 b) = dotted b
addr_string (v6 b z) = with_zone (print_v6 b) z

loopback : addr_string (v4 (127 ∷ 0 ∷ 0 ∷ 1 ∷ [])) ≡ bytes "127.0.0.1"
unfolding addr_string bytes join
loopback = refl

compressed :
    addr_string (v6 (32 ∷ 1 ∷ 13 ∷ 184 ∷ 0 ∷ 0 ∷ 0 ∷ 0 ∷ 0 ∷ 0 ∷ 0 ∷ 0 ∷ 0 ∷ 0 ∷ 0 ∷ 1 ∷ []) [])
    ≡ bytes "2001:db8::1"
unfolding addr_string bytes join
compressed = refl
