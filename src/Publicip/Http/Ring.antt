-- ===== src/Publicip/Http/Ring.antt =====
-- The loop over the ring of urls in `ip` of pkg/publicip/http/ip.go.
use native.Mathlib.Nat.{mod-add-mod, mod-eq_of_lt, add-mod_right}
use ddns_updater.Prelude.{
  ltb, ◌==◌, ltb→lt, ==_iff, Bool-cases, Text, ℕ, zero, suc, ◌+◌, ◌-◌, ◌%◌, ◌≤◌, ◌<◌, ◌≡◌, ap, ◌∙◌,
  ◌⊎◌, inl, inr, Bool, true, false, Option, some, List, arith,
}
use ddns_updater.Publicip.Http.{is_banned, choose}

-- `k` steps on from `index`, in a ring of `n`.
abbrev pub ahead : ℕ → ℕ → ℕ → ℕ
ahead n index k = (index + 1 + k) % n

ahead-suc : (n index k : ℕ) → ahead n ((index + 1) % n) k ≡ ahead n index (suc k)
ahead-suc n index k =
    let left : (index + 1) % n + 1 + k ≡ (index + 1) % n + (1 + k) = omega arith in
    let right : index + 1 + suc k ≡ index + 1 + (1 + k) = omega arith in
    rw (left, right) (mod-add-mod (index + 1) n (1 + k))

ahead-zero : (n index : ℕ) → ahead n index 0 ≡ (index + 1) % n
ahead-zero n index = ap (λ t. t % n) (omega arith)

-- The ring is passed round whole.
ahead_onto : (n index i : ℕ) → i < n → index < n → (m : ℕ) × (m < n) × (ahead n index m ≡ i)
ahead_onto n index i h k = elim (Bool-cases (ltb index i)) [
  | inl e ↦
      let before = ltb→lt index i e in
      let sum : index + 1 + (i - index - 1) ≡ i = omega arith in
      (i - index - 1, omega arith, rw sum (mod-eq_of_lt h))
  | inr e ↦
      let behind : i ≤ index = ground arith in
      let sum : index + 1 + (i + n - index - 1) ≡ i + n = omega arith in
      (i + n - index - 1, omega arith, rw sum (add-mod_right i n ∙ mod-eq_of_lt h))
]

-- The loop takes the url `k` steps on, after `k` that are banned; or all it looked at are banned.
pub record Takes (n fuel index : ℕ) (bans : List (ℕ × Text)) (result : Option (Bool × ℕ))
    : Type 0 where
  pub steps : ℕ
  pub steps_lt : steps < fuel
  pub passed : (m : ℕ) → m < steps → is_banned bans (ahead n index m) ≡ true
  pub allowed : is_banned bans (ahead n index steps) ≡ false
  pub taken : result ≡ some (true, ahead n index steps)

record GivesUp (n fuel index : ℕ) (bans : List (ℕ × Text)) (result : Option (Bool × ℕ))
    : Type 0 where
  passed : (m : ℕ) → m < fuel → is_banned bans (ahead n index m) ≡ true
  ended : result ≡ some (false, ahead n index (fuel - 1))

module _ (fuel n index count : ℕ) (bans : List (ℕ × Text)) where
  choose_allowed :
      is_banned bans ((index + 1) % n) ≡ false
      → choose (suc fuel) n bans index count ≡ some (true, (index + 1) % n)
  unfolding choose
  choose_allowed e = rw e

  choose_last :
      is_banned bans ((index + 1) % n) ≡ true
      → count + 1 ≡ n
      → choose (suc fuel) n bans index count ≡ some (false, (index + 1) % n)
  unfolding choose
  choose_last e last = let same = (==_iff (count + 1) n).1 last in rw (e, same)

  choose_next :
      is_banned bans ((index + 1) % n) ≡ true
      → ((count + 1) == n) ≡ false
      → choose (suc fuel) n bans index count ≡ choose fuel n bans ((index + 1) % n) (count + 1)
  unfolding choose
  choose_next e more = rw (e, more)

passed_suc :
    (n index k : ℕ) (bans : List (ℕ × Text))
    → is_banned bans ((index + 1) % n) ≡ true
    → ((m : ℕ) → m < k → is_banned bans (ahead n ((index + 1) % n) m) ≡ true)
    → (m : ℕ) → m < suc k
    → is_banned bans (ahead n index m) ≡ true
passed_suc n index k bans e h zero lt = rw (ahead-zero n index) e
passed_suc n index k bans e h (suc m) lt = rw (← ahead-suc n index m) (h m (omega arith))

choose_lem :
    (fuel n index count : ℕ) (bans : List (ℕ × Text))
    → count + fuel ≡ n
    → 0 < fuel
    → Takes n fuel index bans (choose fuel n bans index count)
      ⊎ GivesUp n fuel index bans (choose fuel n bans index count)
choose_lem zero n index count bans h pos = absurd (omega arith)
choose_lem (suc fuel) n index count bans h pos =
    let first = ahead-zero n index in
    elim (Bool-cases (is_banned bans ((index + 1) % n))) [
      | inr e ↦ inl (record {
        steps = 0;
        steps_lt = omega arith;
        passed = λ m lt. absurd (omega arith);
        allowed = rw first e;
        taken = rw first (choose_allowed fuel n index count bans e);
      })
      | inl e ↦ elim (Bool-cases ((count + 1) == n)) [
        | inl last ↦
            let one = (==_iff (count + 1) n).0 last in
            let none_left : fuel ≡ 0 = omega arith in
            inr (record {
              passed = rw none_left (passed_suc n index 0 bans e (λ m lt. absurd (omega arith)));
              ended = rw (choose_last fuel n index count bans e one, none_left) (rw first);
            })
        | inr more ↦
            let some_left : 0 < fuel = ground arith in
            let index' = (index + 1) % n in
            let step = choose_next fuel n index count bans e more in
            elim (choose_lem fuel n index' (count + 1) bans (omega arith) some_left) [
              | inl t ↦ inl (record {
                steps = suc t.steps;
                steps_lt = omega (arith, t.steps_lt);
                passed = passed_suc n index t.steps bans e t.passed;
                allowed = rw (← ahead-suc n index t.steps) t.allowed;
                taken = rw (← ahead-suc n index t.steps) (step ∙ t.taken);
              })
              | inr g ↦
                  let back : suc fuel - 1 ≡ suc (fuel - 1) = omega arith in
                  inr (record {
                    passed = passed_suc n index fuel bans e g.passed;
                    ended = rw (back, ← ahead-suc n index (fuel - 1)) (step ∙ g.ended);
                  })
            ]
      ]
    ]

-- The loop over a ring of `n` urls ends, from any index in the ring. Either it takes the first url after the ring's index, round
-- the ring, that is not banned, or all urls are banned and the index is back where it was.
pub choose_total :
    (n index : ℕ) (bans : List (ℕ × Text))
    → index < n
    → Takes n n index bans (choose n n bans index 0)
      ⊎ (((i : ℕ) → i < n → is_banned bans i ≡ true)
          × (choose n n bans index 0 ≡ some (false, index)))
choose_total n index bans h = elim (choose_lem n n index 0 bans (omega arith) (omega arith)) [
  | inl t ↦ inl t
  | inr g ↦ inr (everywhere g.passed, rw round at g.ended)
]
  where
    round : ahead n index (n - 1) ≡ index
    round = ap (λ t. t % n) (sum h) ∙ add-mod_right index n ∙ mod-eq_of_lt h
      where
        sum : index < n → index + 1 + (n - 1) ≡ index + n
        sum h = omega arith

    everywhere :
        ((m : ℕ) → m < n → is_banned bans (ahead n index m) ≡ true)
        → (i : ℕ) → i < n
        → is_banned bans i ≡ true
    everywhere passed i lt =
        let (m, below, e) = ahead_onto n index i lt h in rw e at (passed m below)
