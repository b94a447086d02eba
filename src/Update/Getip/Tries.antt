-- ===== src/Update/Getip/Tries.antt =====
-- tryAndRepeatGettingIP of internal/update/getip.go: the tries and their outcome.
use ddns_updater.Prelude.{
  Text, ℕ, zero, suc, ◌+◌, ◌<◌, ◌≡◌, refl, ◌≢◌, ◌⊎◌, inl, inr, none, some, List, [], ◌∷◌, ◌++◌,
  append-nil, append_assoc, arith,
}
use ddns_updater.Result.{Result-cases, ok, err, panic}
use ddns_updater.Netip.{Addr, invalid}
use ddns_updater.IpVersion.{IpVersion}
use ddns_updater.Update.World.{Env, World, next_tick}
use ddns_updater.Update.Getip.{tries_failed, try_getting_ip, try_and_repeat_getting_ip}

-- The world after `n` more calls.
abbrev pub ticked : ℕ → World → World
ticked n w = record w { tick = w.tick + n }

-- The messages of the `n` calls from tick `t` on, all of which fail.
abbrev pub AllFail : Env → IpVersion → ℕ → ℕ → List Text → Type 0
AllFail env version t zero messages = messages ≡ []
AllFail env version t (suc n) [] = ⊥
AllFail env version t (suc n) (message ∷ messages) =
    (env.get_ip version t ≡ err message) × AllFail env version (suc t) n messages

module _ (env : Env) (version : IpVersion) where
  tries_lem :
      (n : ℕ) (earlier : List Text) (w : World)
      → ((t : ℕ) → env.get_ip version t ≢ panic)
      → ((k : ℕ) × (ip : Addr) × (messages : List Text) × (k < n)
          × AllFail env version w.tick k messages
          × (env.get_ip version (w.tick + k) ≡ ok ip)
          × (try_getting_ip env version n earlier w ≡ some ((ip, none), ticked (suc k) w)))
        ⊎ ((messages : List Text) × AllFail env version w.tick n messages
            × (try_getting_ip env version n earlier w
                ≡ some ((invalid, some (tries_failed version (earlier ++ messages))), ticked n w)))
  unfolding try_getting_ip
  tries_lem zero earlier w h =
      let same : w.tick + 0 ≡ w.tick = omega arith in
      inr ([], refl, rw (append-nil earlier, same) refl)
  tries_lem (suc n) earlier w h = elim (Result-cases (env.get_ip version w.tick)) [
    | inl (ip, e) ↦
        let here : w.tick + 0 ≡ w.tick = omega arith in
        let one : w.tick + 1 ≡ suc w.tick = omega arith in
        inl (0, ip, [], omega arith, refl, rw here e, rw (e, one) refl)
    | inr (inl (message, e)) ↦ elim (tries_lem n (earlier ++ message ∷ []) (next_tick w) h) [
      | inl (k, ip, messages, low, fail, success, same) ↦
          let shift : suc w.tick + k ≡ w.tick + suc k = omega arith in
          let shift' : suc w.tick + suc k ≡ w.tick + suc (suc k) = omega arith in
          inl (
            suc k,
            ip,
            message ∷ messages,
            omega arith,
            (e, fail),
            rw shift at success,
            rw e (rw shift' at same),
          )
      | inr (messages, fail, same) ↦
          let shift : suc w.tick + n ≡ w.tick + suc n = omega arith in
          inr (
            message ∷ messages,
            (e, fail),
            rw e (rw (shift, append_assoc earlier (message ∷ []) messages) at same),
          )
    ]
    | inr (inr e) ↦ absurd (h w.tick e)
  ]

  -- If the fetcher does not panic: either one of three calls succeeds, after which no more are made,
  -- and its address is returned with no error; or three calls were made and failed, and the result is
  -- the invalid address with an error that holds their three messages.
  pub try_and_repeat_outcomes :
      (w : World)
      → ((t : ℕ) → env.get_ip version t ≢ panic)
      → ((k : ℕ) × (ip : Addr) × (messages : List Text) × (k < 3)
          × AllFail env version w.tick k messages
          × (env.get_ip version (w.tick + k) ≡ ok ip)
          × (try_and_repeat_getting_ip env version w ≡ some ((ip, none), ticked (suc k) w)))
        ⊎ ((messages : List Text) × AllFail env version w.tick 3 messages
            × (try_and_repeat_getting_ip env version w
                ≡ some ((invalid, some (tries_failed version messages)), ticked 3 w)))
  unfolding try_and_repeat_getting_ip
  try_and_repeat_outcomes w h = tries_lem 3 [] w h
