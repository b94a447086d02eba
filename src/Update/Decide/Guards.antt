-- ===== src/Update/Decide/Guards.antt =====
-- shouldUpdateRecord and doIPVersion of internal/update/service.go.
use ddns_updater.Prelude.{
  ltb, if◌then◌else◌, Bool-cases, Option-cases, ℕ, ◌+◌, ◌≤◌, ◌≡◌, refl, sym, ◌∙◌, inl, inr, Bool,
  true, false, not, Option, none, some, List, arith,
}
use ddns_updater.Prelude.Int.{pos}
use ddns_updater.Times.{Time, time_sub-lt, hour, max_duration}
use ddns_updater.Netip.{Addr, is6, is_valid, addr_eq}
use ddns_updater.IpVersion.{IpVersion, ip4or6, ip4, ip6}
use ddns_updater.Models.{Record, get_success_time, get_current_ip}
use ddns_updater.Update.World.{Env, World, next_tick}
use ddns_updater.Update.Getip.{NewIps}
use ddns_updater.Update.Lookup.{Found, look_up_ips_resilient}
use ddns_updater.Update.Decide.{
  is_error, differs, get_ips_matching_version, ips_contains_ip, should_update_record_with_lookup,
  get_ip_matching_version, is_within_cooldown, is_within_ban_period, should_update_record,
  with_suffix, compare_addresses, should_update_record_no_lookup,
}

-- The end of the cooldown and of every ban lies behind, and there is an address for the version.
pub record IsEligible (cooldown : ℕ) (t : Time) (ips : NewIps) (r : Record) : Type 0 where
  pub cooled : get_success_time r.history + cooldown ≤ t
  pub unbanned : (ban : Time) → r.last_ban ≡ some ban → ban + hour ≤ t
  pub has_ip : is_valid (get_ip_matching_version ips r.provider.ip_version) ≡ true

within_cooldown_lem :
    (d : ℕ) (t : Time) (r : Record)
    → d ≤ max_duration
    → is_within_cooldown (pos d) t r ≡ ltb t (get_success_time r.history + d)
unfolding is_within_cooldown
within_cooldown_lem d t r h = time_sub-lt t (get_success_time r.history) d h

within_ban_lem :
    (t : Time) (r : Record) (ban : Time)
    → r.last_ban ≡ some ban
    → is_within_ban_period t r ≡ ltb t (ban + hour)
unfolding is_within_ban_period
within_ban_lem t r ban e = rw e (time_sub-lt t ban hour (omega arith))

skipped {ℓ} :
    {P : Type ℓ} (w w' : World)
    → ◌≡◌ {A = Option (Bool × World)} (some (false, w)) (some (true, w'))
    → P
skipped w w' h = cc

ltb-ge : (a b : ℕ) → ltb a b ≡ false → b ≤ a
ltb-ge a b h = ground arith

ge-ltb : (a b : ℕ) → b ≤ a → ltb a b ≡ false
ge-ltb a b h = ground arith

unbanned_lem :
    (t : Time) (r : Record)
    → ((ban : Time) → r.last_ban ≡ some ban → ban + hour ≤ t)
    → is_within_ban_period t r ≡ false
unbanned_lem t r h = elim (Option-cases r.last_ban) [
  | inl e ↦ unfold is_within_ban_period in rw e refl
  | inr (ban, e) ↦ within_ban_lem t r ban e ∙ ge-ltb t (ban + hour) (h ban e)
]

-- Of two addresses, the ones that the resolver found for the kind of `ip`.
abbrev pub of_kind : IpVersion → Addr → Found → List Addr
of_kind ip4or6 ip answer = if is6 ip then answer.ipv6s else answer.ipv4s
of_kind ip4 ip answer = answer.ipv4s
of_kind ip6 ip answer = answer.ipv6s

differs_lem :
    (version : IpVersion) (ip : Addr) (answer : Found)
    → is_valid ip ≡ true
    → differs version ip answer ≡ not (ips_contains_ip (of_kind version ip answer) ip)
unfolding differs get_ips_matching_version
differs_lem ip4or6 ip answer h = rw h refl
differs_lem ip4 ip answer h = rw h refl
differs_lem ip6 ip answer h = rw h refl

module _ (env : Env) (d : ℕ) (ips : NewIps) (r : Record) (w : World)
    (range : d ≤ max_duration) where
  -- For a cooldown that is a Duration and not negative, a record is chosen only if it is over, no ban of the last hour is noted, and a public
  -- address of its version was found.
  pub should_update-IsEligible :
      (w' : World)
      → should_update_record env (pos d) ips r w ≡ some (true, w')
      → IsEligible d (env.time_now w.tick) ips r
  unfolding should_update_record
  should_update-IsEligible w' h =
      let t = env.time_now w.tick in
      elim (Bool-cases (is_within_cooldown (pos d) t r)) [
        | inl b ↦ skipped _ w' (rw b at h)
        | inr b ↦ elim (Bool-cases (is_within_ban_period t r)) [
          | inl c ↦ skipped _ w' (rw (b, c) at h)
          | inr c ↦
              elim (Bool-cases (is_valid (get_ip_matching_version ips r.provider.ip_version))) [
                | inl v ↦ record {
                  cooled = ltb-ge t _ (sym (within_cooldown_lem d t r range) ∙ b);
                  unbanned = λ ban e. ltb-ge t _ (sym (within_ban_lem t r ban e) ∙ c);
                  has_ip = v;
                }
                | inr v ↦ skipped _ w' (rw (b, c, v) at h)
              ]
        ]
      ]

  module _ (a : Addr) (eligible : IsEligible d (env.time_now w.tick) ips r)
      (suffixed : with_suffix r (get_ip_matching_version ips r.provider.ip_version) ≡ some a)
      (valid : is_valid a ≡ true) where
    past_guards :
        should_update_record env (pos d) ips r w ≡ compare_addresses env r (some a) (next_tick w)
    unfolding should_update_record
    past_guards =
        let t = env.time_now w.tick in
        let cooled =
          within_cooldown_lem d t r range
          ∙ ge-ltb t (get_success_time r.history + d) eligible.cooled in
        let unbanned = unbanned_lem t r eligible.unbanned in
        rw (cooled, unbanned, eligible.has_ip, suffixed) refl

    -- For a cooldown that is a Duration and not negative: an eligible record (past its cooldown and
    -- any ban, with an address found that stays valid with its suffix) behind a proxy is chosen exactly if its address, with the suffix, differs
    -- from the last one in its history; any other eligible record, if the lookup has no error, exactly
    -- if the address is not among those that the resolver found for its kind.
    pub should_update_decision :
        (r.provider.proxied ≡ true
          → should_update_record env (pos d) ips r w
            ≡ some (not (addr_eq a (get_current_ip r.history)), next_tick w))
        × ((answer : Found) (w' : World)
            → r.provider.proxied ≡ false
            → look_up_ips_resilient env r.provider.domain_name 5 (next_tick w) ≡ some (answer, w')
            → answer.error ≡ none
            → should_update_record env (pos d) ips r w
              ≡ some
                  (not (ips_contains_ip (of_kind r.provider.ip_version a answer) a), next_tick w'))
    unfolding compare_addresses should_update_record_no_lookup should_update_record_with_lookup
    should_update_decision = (
      λ p. past_guards ∙ (rw (p, valid) refl),
      λ answer w' p e n.
          let no_error : is_error answer.error ≡ false = rw n refl in
          past_guards ∙ rw (p, e, no_error, differs_lem r.provider.ip_version a answer valid) refl,
    )
