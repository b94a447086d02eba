-- ===== src/Models/Previous.antt =====
-- GetPreviousIPs of internal/models/history.go against an independent description.
use mathlib.Core.List.{reverse, reverse-append}
use ddns_updater.Prelude.{
  leb, length, take, length-append, ℕ, zero, suc, ◌+◌, ◌-◌, ◌<◌, ◌≡◌, refl, ap, ◌∙◌, false, [], ◌∷◌,
  ◌++◌, map, arith,
}
use ddns_updater.Models.{HistoryEvent, History, ip_at, previous_from, get_previous_ips}

map-take-suc :
    (l : History) (n : ℕ)
    → n < length l
    → map (λ e. e.ip) (take (suc n) l) ≡ map (λ e. e.ip) (take n l) ++ ip_at l n ∷ []
map-take-suc [] n h = elim h [ ]
map-take-suc (e ∷ l) zero h = refl
map-take-suc (e ∷ l) (suc n) h = ap (◌∷◌ e.ip) (map-take-suc l n (omega arith))

-- The loop with `n` entries left walks down from index `n - 1`.
previous_from_lem :
    (l : History) (i n : ℕ)
    → i + n + 1 ≡ length l
    → previous_from l i n ≡ reverse (map (λ e. e.ip) (take n l))
unfolding previous_from
previous_from_lem l i zero h = refl
previous_from_lem l i (suc n) h =
    let index : length l - 2 - i ≡ n = omega arith in
    rw
      (
        map-take-suc l n (omega arith),
        reverse-append (map (λ e. e.ip) (take n l)) (ip_at l n ∷ []),
        index,
      )
      (ap (◌∷◌ (ip_at l n)) (previous_from_lem l (suc i) n (omega arith)))

take-append : (h rest : History) → take (length h) (h ++ rest) ≡ h
take-append [] rest = refl
take-append (e ∷ h) rest = ap (◌∷◌ e) (take-append h rest)

-- After the event `e` the previous addresses are those of the history before, newest first.
pub get_previous_ips-append :
    (h : History) (e : HistoryEvent) → get_previous_ips (h ++ e ∷ []) ≡ reverse (map (λ x. x.ip) h)
unfolding get_previous_ips
get_previous_ips-append [] e = refl
get_previous_ips-append (d ∷ h) e =
    let size = length-append (d ∷ h) (e ∷ []) in
    let many : leb (length (d ∷ h ++ e ∷ [])) 1 ≡ false = ground arith in
    let left : length (d ∷ h ++ e ∷ []) - 1 ≡ length (d ∷ h) = omega arith in
    let all = previous_from_lem (d ∷ h ++ e ∷ []) 0 (length (d ∷ h)) (omega arith) in
    rw (many, left) (all ∙ ap (λ l. reverse (map (λ x. x.ip) l)) (take-append (d ∷ h) (e ∷ [])))
