-- ===== src/Update/Lookup/Tries.antt =====
-- lookupIPsResilient of internal/update/service.go: the tries of a network, and the order of arrival.
use ddns_updater.Prelude.{
  ◌==◌, Bool-cases, length, length-append, Text, bytes, has_suffix, ℕ, zero, suc, ◌+◌, ◌<◌, ◌≡◌,
  refl, sym, subst, ◌⊎◌, inl, inr, Bool, true, false, ◌||◌, none, some, List, [], ◌∷◌, ◌++◌, arith,
}
use ddns_updater.Netip.{Addr}
use ddns_updater.Update.World.{Answer, found, lookup_failed}
use ddns_updater.Update.Lookup.{
  Sent, sent_ips, sent_error, look_up_tries, Found, receive_both, receive,
}

abbrev pub ips_of : Sent → List Addr
ips_of (sent_ips ips) = ips
ips_of (sent_error messages) = []

abbrev pub has_failed : Sent → Bool
has_failed (sent_ips ips) = false
has_failed (sent_error messages) = true

abbrev pub has_error : Found → Bool
has_error answer = elim answer.error [ none ↦ false | some e ↦ true ]

-- Whichever network answers first, the addresses of each network are those that it sent, none where
-- it failed, and there is an error exactly if one of the two failed.
pub receive_both_lem :
    (ip4_first : Bool) (four six : Sent)
    → let answer = receive_both ip4_first four six in
      (answer.ipv4s ≡ ips_of four)
      × (answer.ipv6s ≡ ips_of six)
      × (has_error answer ≡ (has_failed four || has_failed six))
unfolding receive_both receive
receive_both_lem true (sent_ips a) (sent_ips b) = (refl, refl, refl)
receive_both_lem true (sent_ips a) (sent_error m) = (refl, refl, refl)
receive_both_lem true (sent_error n) (sent_ips b) = (refl, refl, refl)
receive_both_lem true (sent_error n) (sent_error m) = (refl, refl, refl)
receive_both_lem false (sent_ips a) (sent_ips b) = (refl, refl, refl)
receive_both_lem false (sent_ips a) (sent_error m) = (refl, refl, refl)
receive_both_lem false (sent_error n) (sent_ips b) = (refl, refl, refl)
receive_both_lem false (sent_error n) (sent_error m) = (refl, refl, refl)

-- A try that fails for another reason than that the host does not exist.
abbrev pub IsTransient : Answer → Type 0
IsTransient (found ips) = ⊥
IsTransient (lookup_failed message) = has_suffix message (bytes "no such host") ≡ false

-- The answer that a try gives the loop: addresses, none for a host that does not exist.
abbrev pub Decides : Answer → List Addr → Type 0
Decides (found ips) sent = sent ≡ ips
Decides (lookup_failed message) sent =
    (has_suffix message (bytes "no such host") ≡ true) × (sent ≡ [])

-- How the tries `n - 1`, ..., 0 end: try `k` is the first that settles it, or none does.
abbrev pub SettledAt : (ℕ → Answer) → ℕ → ℕ → List Addr → Type 0
SettledAt look_up n k ips =
    (k < n) × Decides (look_up k) ips × ((j : ℕ) → k < j → j < n → IsTransient (look_up j))

Answer-cases :
    (x : Answer)
    → ((ips : List Addr) × (x ≡ found ips)) ⊎ ((message : Text) × (x ≡ lookup_failed message))
Answer-cases (found ips) = inl (ips, refl)
Answer-cases (lookup_failed message) = inr (message, refl)

-- A property below `n`, and of `n`.
below_suc {ℓ} : (P : ℕ → Type ℓ) (n : ℕ) → P n → ((j : ℕ) → j < n → P j) → (j : ℕ) → j < suc n → P j
below_suc P n h rest j k = elim (Bool-cases (j == n)) [
  | inl b ↦ let same : n ≡ j = ground arith in subst P same h
  | inr b ↦ rest j (ground arith)
]

-- No try is left, or none settles the lookup.
none_below {ℓ} : (P : ℕ → Type ℓ) (j : ℕ) → j < 0 → P j
none_below P j h = absurd (no h)
  where
    no : j < 0 → ⊥
    no k = omega arith

none_between {ℓ} : (P : ℕ → Type ℓ) (n j : ℕ) → n < j → j < suc n → P j
none_between P n j h k = absurd (no h k)
  where
    no : n < j → j < suc n → ⊥
    no x y = omega arith

tries_lem :
    (look_up : ℕ → Answer) (n : ℕ) (messages : List Text)
    → ((k : ℕ) × (ips : List Addr) × (look_up_tries look_up n messages ≡ sent_ips ips)
        × SettledAt look_up n k ips)
      ⊎ ((sent : List Text) × (look_up_tries look_up n messages ≡ sent_error sent)
          × (length sent ≡ length messages + n)
          × ((j : ℕ) → j < n → IsTransient (look_up j)))
unfolding look_up_tries
tries_lem look_up zero messages =
    inr (messages, refl, omega arith, λ j h. none_below (λ i. IsTransient (look_up i)) j h)
tries_lem look_up (suc n) messages = elim (Answer-cases (look_up n)) [
  | inl (ips, e) ↦ inl (
    n,
    ips,
    rw e refl,
    (
      omega arith,
      subst (λ x. Decides x ips) (sym e) refl,
      λ j h k. none_between (λ i. IsTransient (look_up i)) n j h k,
    ),
  )
  | inr (message, e) ↦ elim (Bool-cases (has_suffix message (bytes "no such host"))) [
    | inl b ↦ inl (
      n,
      [],
      rw (e, b) refl,
      (
        omega arith,
        subst (λ x. Decides x []) (sym e) (b, refl),
        λ j h k. none_between (λ i. IsTransient (look_up i)) n j h k,
      ),
    )
    | inr b ↦
        let transient : IsTransient (look_up n) = subst IsTransient (sym e) b in
        elim (tries_lem look_up n (messages ++ message ∷ [])) [
          | inl (k, ips, same, (low, settles, rest)) ↦ inl (
            k,
            ips,
            rw (e, b) same,
            (
              omega arith,
              settles,
              λ j h x.
                  below_suc (λ i. k < i → IsTransient (look_up i)) n (λ y. transient)
                    (λ i y z. rest i z y) j x h,
            ),
          )
          | inr (sent, same, count, rest) ↦ inr (
            sent,
            rw (e, b) same,
            omega (arith, length-append messages (message ∷ [])),
            below_suc (λ i. IsTransient (look_up i)) n transient rest,
          )
        ]
  ]
]

-- A network fails only after all its tries failed, each for another reason than a missing host, and
-- its error holds a message for each. Otherwise it sends what its first settling try gives: the
-- addresses found, or none if the host does not exist. The tries are numbered downwards.
pub look_up_tries_outcomes :
    (look_up : ℕ → Answer) (n : ℕ)
    → ((k : ℕ) × (ips : List Addr) × (look_up_tries look_up n [] ≡ sent_ips ips)
        × SettledAt look_up n k ips)
      ⊎ ((sent : List Text) × (look_up_tries look_up n [] ≡ sent_error sent)
          × (length sent ≡ 0 + n)
          × ((j : ℕ) → j < n → IsTransient (look_up j)))
look_up_tries_outcomes look_up n = tries_lem look_up n []
