-- ===== src/Update/Decide.antt =====
-- internal/update/service.go: which records to update.
pub mod Kinds
pub mod Guards
use ddns_updater.Prelude.{
  if◌then◌else◌, Text, ℕ, suc, Bool, true, false, not, ◌&&◌, ◌||◌, Option, none, some, List, [],
  ◌∷◌,
}
use ddns_updater.Prelude.Int.{pos, ltb_ℤ}
use ddns_updater.Times.{Time, Duration, time_sub, hour}
use ddns_updater.Netip.{Addr, is_valid, is6, addr_eq}
use ddns_updater.IpVersion.{IpVersion, ip4or6, ip4, ip6}
use ddns_updater.Models.{Record, get_success_time, get_current_ip}
use ddns_updater.Suffix.{ipv6_with_suffix}
use ddns_updater.Update.World.{Env, Run, return, now, next_tick, ◌>>=◌}
use ddns_updater.Update.Getip.{NewIps}
use ddns_updater.Update.Lookup.{Found, look_up_ips_resilient}

abbrev pub asks : IpVersion → Record → Bool
asks ip4or6 r = elim r.provider.ip_version [ ip4or6 ↦ true | ip4 ↦ false | ip6 ↦ false ]
asks ip4 r = elim r.provider.ip_version [ ip4or6 ↦ false | ip4 ↦ true | ip6 ↦ false ]
asks ip6 r = elim r.provider.ip_version [ ip4or6 ↦ false | ip4 ↦ false | ip6 ↦ true ]

-- The loop of doIPVersion, with the three flags so far
unfoldable pub do_from : List Record → Bool → Bool → Bool → Bool × Bool × Bool
do_from [] do_ip do_ip4 do_ip6 = (do_ip, do_ip4, do_ip6)
do_from (r ∷ records) do_ip do_ip4 do_ip6 =
    let do_ip' = asks ip4or6 r || do_ip in
    let do_ip4' = asks ip4 r || do_ip4 in
    let do_ip6' = asks ip6 r || do_ip6 in
    let rest = do_from records do_ip' do_ip4' do_ip6' in
    if do_ip' && do_ip4' && do_ip6' then (true, true, true) else rest

-- doIPVersion
unfoldable pub do_ip_version : List Record → Bool × Bool × Bool
do_ip_version records = do_from records false false false

-- ipsContainsIP; two addresses compare as 0 if they are equal
unfoldable pub ips_contains_ip : List Addr → Addr → Bool
ips_contains_ip [] ip = false
ips_contains_ip (a ∷ ips) ip = if addr_eq ip a then true else ips_contains_ip ips ip

-- getIPMatchingVersion and getIPsMatchingVersion
unfoldable pub get_ip_matching_version : NewIps → IpVersion → Addr
get_ip_matching_version ips ip4or6 = ips.ip
get_ip_matching_version ips ip4 = ips.ipv4
get_ip_matching_version ips ip6 = ips.ipv6

unfoldable pub get_ips_matching_version : List Addr → List Addr → List Addr → IpVersion → List Addr
get_ips_matching_version ips ipv4s ipv6s ip4or6 = ips
get_ips_matching_version ips ipv4s ipv6s ip4 = ipv4s
get_ips_matching_version ips ipv4s ipv6s ip6 = ipv6s

-- shouldUpdateRecordNoLookup
unfoldable pub should_update_record_no_lookup : Addr → Addr → Bool
should_update_record_no_lookup last_ip public_ip =
    is_valid public_ip && not (addr_eq public_ip last_ip)

-- The end of shouldUpdateRecordWithLookup, after the lookup.
unfoldable pub differs : IpVersion → Addr → Found → Bool
differs version public_ip answer =
    let record_ips = if is6 public_ip then answer.ipv6s else answer.ipv4s in
    let record_ips = get_ips_matching_version record_ips answer.ipv4s answer.ipv6s version in
    is_valid public_ip && not (ips_contains_ip record_ips public_ip)

abbrev pub is_error {ℓ} : {A : Type ℓ} → Option A → Bool
is_error none = false
is_error (some e) = true

-- shouldUpdateRecordWithLookup, with ctx.Err()
unfoldable pub should_update_record_with_lookup : Env → Text → IpVersion → Addr → Run Bool
should_update_record_with_lookup env host version public_ip = do
  answer ← look_up_ips_resilient env host 5
  λ w. some (
    (if is_error answer.error && env.cancelled w.tick
        then false
        else differs version public_ip answer),
    next_tick w,
  )

-- now.Sub(GetSuccessTime()) < s.cooldown
unfoldable pub is_within_cooldown : Duration → Time → Record → Bool
is_within_cooldown cooldown t r = ltb_ℤ (time_sub t (get_success_time r.history)) cooldown

unfoldable pub is_within_ban_period : Time → Record → Bool
is_within_ban_period t r = elim r.last_ban [
  | none ↦ false
  | some ban ↦ ltb_ℤ (time_sub t ban) (pos hour)
]

-- The public address for a record, with its suffix; `none` is a panic.
unfoldable pub with_suffix : Record → Addr → Option Addr
with_suffix r ip = if is6 ip then ipv6_with_suffix ip r.provider.ipv6_suffix else some ip

-- What follows the guards of shouldUpdateRecord.
unfoldable pub compare_addresses : Env → Record → Option Addr → Run Bool
compare_addresses env r none w = none
compare_addresses env r (some public_ip) w =
    if r.provider.proxied
    then some (should_update_record_no_lookup (get_current_ip r.history) public_ip, w)
    else should_update_record_with_lookup env r.provider.domain_name r.provider.ip_version public_ip
        w

-- shouldUpdateRecord
unfoldable pub should_update_record : Env → Duration → NewIps → Record → Run Bool
should_update_record env cooldown ips r = do
  t ← now env
  let public_ip = get_ip_matching_version ips r.provider.ip_version
  if is_within_cooldown cooldown t r
      then return false
      else if is_within_ban_period t r
      then return false
      else if not (is_valid public_ip)
      then return false
      else compare_addresses env r (with_suffix r public_ip)

abbrev pub add_if : Bool → ℕ → List ℕ → List ℕ
add_if true id ids = id ∷ ids
add_if false id ids = ids

-- getRecordIDsToUpdate; `id` is the index of the first record
unfoldable pub get_record_ids_to_update : Env → Duration → NewIps → ℕ → List Record → Run (List ℕ)
get_record_ids_to_update env cooldown ips id [] = return []
get_record_ids_to_update env cooldown ips id (r ∷ records) = do
  update ← should_update_record env cooldown ips r
  ids ← get_record_ids_to_update env cooldown ips (suc id) records
  return (add_if update id ids)
