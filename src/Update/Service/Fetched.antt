-- ===== src/Update/Service/Fetched.antt =====
-- The stages of a cycle that change no record: fetching the addresses and choosing the records.
use ddns_updater.Prelude.{
  ◌==◌, Bool-cases, length, All, Text, ℕ, zero, suc, ◌+◌, ◌≤◌, ◌<◌, ◌≡◌, refl, inl, inr, Bool, true,
  false, Option, none, some, List, [], ◌∷◌, ◌++◌, arith,
}
use ddns_updater.Result.{Result-cases}
use ddns_updater.Times.{Duration}
use ddns_updater.Netip.{Addr, IsAddr, is_valid}
use ddns_updater.IpVersion.{IpVersion, ip4or6, ip4, ip6}
use ddns_updater.Models.{Record}
use ddns_updater.Update.World.{Env, World, return, next_tick}
use ddns_updater.Update.Getip.{
  IpError, NewIps, try_getting_ip, get_if, get_new_ips, try_and_repeat_getting_ip,
}
use ddns_updater.Update.Lookup.{look_up_ips_resilient}
use ddns_updater.Update.Decide.{
  get_ip_matching_version, should_update_record, is_within_cooldown, is_within_ban_period,
  should_update_record_with_lookup, compare_addresses, get_record_ids_to_update, add_if,
}
use ddns_updater.Update.Service.{has_id}
use ddns_updater.Update.Service.Returns.{
  Returns, Any, untouched, Returns-then, Returns-at_once, IsOrderly, IsSuffix, with_suffix_returns,
  Returns-from,
}

abbrev pub IsFetched : Addr × Option IpError → Type 0
IsFetched answer = IsAddr answer.0

abbrev pub AreFetched : NewIps × List IpError → Type 0
AreFetched new = IsAddr new.0.ip × IsAddr new.0.ipv4 × IsAddr new.0.ipv6

-- The ids of a list of records, the first of which has the id `start`.
abbrev pub AreIdsFrom : ℕ → List Record → List ℕ → Type 0
AreIdsFrom start records ids =
    (i : ℕ) → has_id ids i ≡ true → (start ≤ i) × (i < start + length records)

abbrev pub AreSuffixes : List Record → Type 0
AreSuffixes records = All (λ r. IsSuffix r.provider.ipv6_suffix) records

added :
    (b : Bool) (start : ℕ) (r : Record) (records : List Record) (ids : List ℕ)
    → AreIdsFrom (suc start) records ids
    → AreIdsFrom start (r ∷ records) (add_if b start ids)
added true start r records ids h i k = elim (Bool-cases (start == i)) [
  | inl b ↦ (ground arith, ground arith)
  | inr b ↦ let (low, high) = h i (ground (arith, b, k)) in (omega arith, omega arith)
]
added false start r records ids h i k = let (low, high) = h i k in (omega arith, omega arith)

pub matching-IsAddr :
    (new : NewIps × List IpError) (version : IpVersion)
    → AreFetched new
    → IsAddr (get_ip_matching_version new.0 version)
unfolding get_ip_matching_version
matching-IsAddr new ip4or6 h = h.0
matching-IsAddr new ip4 h = h.1
matching-IsAddr new ip6 h = h.2

module _ (env : Env) (orderly : IsOrderly env) where
  try_getting_ip_lem :
      (version : IpVersion) (n : ℕ) (messages : List Text) (w : World)
      → Returns IsFetched untouched w (try_getting_ip env version n messages w)
  unfolding try_getting_ip
  try_getting_ip_lem version zero messages w = Returns-at_once IsFetched _ w w tt refl
  try_getting_ip_lem version (suc n) messages w = elim (Result-cases (env.get_ip version w.tick)) [
    | inl (a, e) ↦ rw e (
        Returns-at_once IsFetched (a, none) w (next_tick w)
          (orderly.get_ip-IsAddr version w.tick a e) refl)
    | inr (inl (m, e)) ↦
        let rest = try_getting_ip_lem version n (messages ++ m ∷ []) (next_tick w) in
        rw e (Returns-from IsFetched untouched w (next_tick w) _ refl rest)
    | inr (inr e) ↦ absurd (orderly.get_ip_returns version w.tick e)
  ]

  get_if_lem :
      (b : Bool) (version : IpVersion) (w : World)
      → Returns IsFetched untouched w (get_if env b version w)
  unfolding get_if try_and_repeat_getting_ip
  get_if_lem true version w = try_getting_ip_lem version 3 [] w
  get_if_lem false version w = Returns-at_once IsFetched _ w w tt refl

  pub get_new_ips_lem :
      (do_ip do_ip4 do_ip6 : Bool) (w : World)
      → Returns AreFetched untouched w (get_new_ips env do_ip do_ip4 do_ip6 w)
  unfolding get_new_ips
  get_new_ips_lem do_ip do_ip4 do_ip6 w =
      Returns-then IsFetched AreFetched untouched untouched (get_if env do_ip ip4or6) _ w
        (get_if_lem do_ip ip4or6 w)
        λ any w1 h1 s1.
          Returns-then IsFetched AreFetched untouched untouched (get_if env do_ip4 ip4) _ w1
            (get_if_lem do_ip4 ip4 w1)
            λ four w2 h2 s2.
              Returns-then IsFetched AreFetched untouched untouched (get_if env do_ip6 ip6) _ w2
                (get_if_lem do_ip6 ip6 w2)
                λ six w3 h3 s3. Returns-at_once AreFetched _ w3 w3 (h1, h2, h3) refl

  compare_addresses_lem :
      (r : Record) (public_ip : Addr) (w : World)
      → Returns Any untouched w (compare_addresses env r (some public_ip) w)
  unfolding compare_addresses should_update_record_with_lookup look_up_ips_resilient
  compare_addresses_lem r public_ip w = elim (Bool-cases r.provider.proxied) [
    | inl b ↦ rw b (Returns-at_once Any _ w w tt refl)
    | inr b ↦ rw b (Returns-at_once Any _ w (next_tick (next_tick w)) tt refl)
  ]

  should_update_record_lem :
      (cooldown : Duration) (new : NewIps × List IpError) (r : Record) (w : World)
      → AreFetched new
      → IsSuffix r.provider.ipv6_suffix
      → Returns Any untouched w (should_update_record env cooldown new.0 r w)
  unfolding should_update_record
  should_update_record_lem cooldown new r w fetched suffix =
      let public_ip = get_ip_matching_version new.0 r.provider.ip_version in
      let (a, e) =
        with_suffix_returns r public_ip (matching-IsAddr new r.provider.ip_version fetched)
          suffix in
      let skip : Returns Any untouched w (return false (next_tick w)) =
        Returns-at_once Any false w (next_tick w) tt refl in
      elim (Bool-cases (is_within_cooldown cooldown (env.time_now w.tick) r)) [
        | inl b ↦ rw b skip
        | inr b ↦ elim (Bool-cases (is_within_ban_period (env.time_now w.tick) r)) [
          | inl c ↦ rw (b, c) skip
          | inr c ↦ elim (Bool-cases (is_valid public_ip)) [
            | inl d ↦
                rw (b, c, d, e)
                  (Returns-from Any untouched w (next_tick w) _ refl
                    (compare_addresses_lem r a (next_tick w)))
            | inr d ↦ rw (b, c, d) skip
          ]
        ]
      ]

  pub get_record_ids_lem :
      (cooldown : Duration) (new : NewIps × List IpError) (start : ℕ) (records : List Record)
      (w : World)
      → AreFetched new
      → AreSuffixes records
      → Returns
          (AreIdsFrom start records)
          untouched
          w
          (get_record_ids_to_update env cooldown new.0 start records w)
  unfolding get_record_ids_to_update
  get_record_ids_lem cooldown new start [] w fetched suffixes =
      Returns-at_once (AreIdsFrom start []) [] w w (λ i h. cc) refl
  get_record_ids_lem cooldown new start (r ∷ records) w fetched suffixes =
      Returns-then Any (AreIdsFrom start (r ∷ records)) untouched untouched
        (should_update_record env cooldown new.0 r) _ w
        (should_update_record_lem cooldown new r w fetched suffixes.0)
        λ b w1 h1 s1.
          Returns-then (AreIdsFrom (suc start) records) (AreIdsFrom start (r ∷ records)) untouched
            untouched (get_record_ids_to_update env cooldown new.0 (suc start) records) _ w1
            (get_record_ids_lem cooldown new (suc start) records w1 fetched suffixes.1)
            λ ids w2 h2 s2.
              Returns-at_once (AreIdsFrom start (r ∷ records)) _ w2 w2
                (added b start r records ids h2) refl
