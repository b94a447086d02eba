-- ===== src/Tests/Serving.antt =====
-- The service (internal/update/service.go and getip.go).
use ddns_updater.Times.{time_sub}
use ddns_updater.Update.Service.Fetched.{AreSuffixes}
use ddns_updater.Prelude.{
  length, Text, bytes, ℕ, zero, suc, ◌+◌, ◌<◌, ◌≡◌, refl, subst, ◌⊎◌, true, false, not, none, some,
  List, [], ◌∷◌, arith,
}
use ddns_updater.Prelude.Int.{pos}
use ddns_updater.Result.{ok}
use ddns_updater.Netip.{Addr, IsAddr, v4, invalid, addr_eq}
use ddns_updater.IpVersion.{ip4or6, ip4, ip6}
use ddns_updater.Models.{new_record, get_current_ip, get_success_time}
use ddns_updater.Update.World.{World, found, lookup_failed, next_tick, Answer}
use ddns_updater.Update.Getip.{NewIps, try_and_repeat_getting_ip, tries_failed}
use ddns_updater.Update.Getip.Tries.{AllFail, ticked, try_and_repeat_outcomes}
use ddns_updater.Update.Lookup.{
  sent_ips, sent_error, receive_both, look_up_tries, look_up_ips_resilient, Found, receive,
}
use ddns_updater.Update.Lookup.Tries.{SettledAt, IsTransient, look_up_tries_outcomes}
use ddns_updater.Update.Decide.{
  do_ip_version, should_update_record, compare_addresses, should_update_record_with_lookup,
  ips_contains_ip, differs, get_ips_matching_version, get_ip_matching_version, is_within_cooldown,
  is_within_ban_period, with_suffix,
}
use ddns_updater.Update.Decide.Kinds.{any_asks, do_ip_version_lem}
use ddns_updater.Update.Decide.Guards.{
  IsEligible, should_update-IsEligible, should_update_decision, of_kind,
}
use ddns_updater.Update.Service.{Event, blocked, ticked as on_tick, forced, abandoned, stopped}
use ddns_updater.Update.Service.Returns.{IsOrderly}
use ddns_updater.Update.Service.Cycle.{Cycle, update_necessary_settles}
use ddns_updater.Update.Service.Loop.{ending_of, Outcome, run_settles, AreCalm}
use ddns_updater.Tests.Storing.{address, one, one_record}
use ddns_updater.Tests.Updating.{env, world}

do_ip_version_example :
    do_ip_version one.records
    ≡ (any_asks ip4or6 one.records, any_asks ip4 one.records, any_asks ip6 one.records)
do_ip_version_example = do_ip_version_lem one.records

-- The first two tries time out.
abbrev slow : ℕ → Answer
slow zero = found (v4 address ∷ [])
slow (suc n) = lookup_failed (bytes "timeout")

look_up_tries_outcomes_example :
    ((k : ℕ) × (ips : List Addr) × (look_up_tries slow 3 [] ≡ sent_ips ips)
      × SettledAt slow 3 k ips)
    ⊎ ((sent : List Text) × (look_up_tries slow 3 [] ≡ sent_error sent)
        × (length sent ≡ 0 + 3)
        × ((j : ℕ) → j < 3 → IsTransient (slow j)))
look_up_tries_outcomes_example = look_up_tries_outcomes slow 3

try_and_repeat_outcomes_example :
    ((k : ℕ) × (ip : Addr) × (messages : List Text) × (k < 3)
      × AllFail env ip4 0 k messages
      × (env.get_ip ip4 (0 + k) ≡ ok ip)
      × (try_and_repeat_getting_ip env ip4 world ≡ some ((ip, none), ticked (suc k) world)))
    ⊎ ((messages : List Text) × AllFail env ip4 0 3 messages
        × (try_and_repeat_getting_ip env ip4 world
            ≡ some ((invalid, some (tries_failed ip4 messages)), ticked 3 world)))
try_and_repeat_outcomes_example = try_and_repeat_outcomes env ip4 world (λ t e. cc)

env-IsOrderly : IsOrderly env
env-IsOrderly = record {
  get_ip_returns = λ version t e. cc;
  get_ip-IsAddr = λ version t a e. let same : v4 address ≡ a = cc in subst IsAddr same refl;
  provider_returns = λ p ip t e. cc;
  visits = λ t ids i. refl;
}

suffixes : AreSuffixes world.db.records
unfolding new_record
suffixes = (tt, tt)

one-AreCalm : AreCalm one.records
unfolding new_record
one-AreCalm zero r e k = cc
one-AreCalm (suc i) r e k = cc

update_necessary_settles_example : Cycle env (pos 300000000000) world
update_necessary_settles_example =
    update_necessary_settles env env-IsOrderly (pos 300000000000) world (omega arith) suffixes

abbrev events : List Event
events = on_tick ∷ forced ∷ abandoned ∷ stopped ∷ []

run_settles_example : Outcome env (pos 300000000000) events world
run_settles_example =
    run_settles env env-IsOrderly (pos 300000000000) events world (omega arith) suffixes one-AreCalm

-- After one result the loop is blocked, and a stop does not reach it.
events_block : ending_of events ≡ blocked
events_block = refl

abbrev found_ips : NewIps
found_ips = record { ip = invalid; ipv4 = v4 (9 ∷ 9 ∷ 9 ∷ 9 ∷ []); ipv6 = invalid }

-- The address 9.9.9.9 is not the resolver's, and the last success is two hours old.
one_is_updated :
    should_update_record env (pos 300000000000) found_ips one_record world
    ≡ some (true, next_tick (next_tick (next_tick world)))
unfolding should_update_record compare_addresses should_update_record_with_lookup
    look_up_ips_resilient look_up_tries receive_both receive differs ips_contains_ip
    get_ips_matching_version get_ip_matching_version is_within_cooldown is_within_ban_period
    with_suffix new_record time_sub get_success_time addr_eq
one_is_updated = refl

one-IsEligible : IsEligible 300000000000 7200000000000 found_ips one_record
one-IsEligible =
    should_update-IsEligible env 300000000000 found_ips one_record world (omega arith)
      (next_tick (next_tick (next_tick world))) one_is_updated

one_has_ip :
    with_suffix one_record (get_ip_matching_version found_ips one_record.provider.ip_version)
    ≡ some (v4 (9 ∷ 9 ∷ 9 ∷ 9 ∷ []))
unfolding with_suffix get_ip_matching_version new_record
one_has_ip = refl

should_update-IsEligible_example : IsEligible 300000000000 7200000000000 found_ips one_record
should_update-IsEligible_example =
    should_update-IsEligible env 300000000000 found_ips one_record world (omega arith)
      (next_tick (next_tick (next_tick world))) one_is_updated

should_update_decision_example :
    (one_record.provider.proxied ≡ true
      → should_update_record env (pos 300000000000) found_ips one_record world
        ≡ some (
          not (addr_eq (v4 (9 ∷ 9 ∷ 9 ∷ 9 ∷ [])) (get_current_ip one_record.history)),
          next_tick world,
        ))
    × ((answer : Found) (w' : World)
        → one_record.provider.proxied ≡ false
        → look_up_ips_resilient env one_record.provider.domain_name 5 (next_tick world)
          ≡ some (answer, w')
        → answer.error ≡ none
        → should_update_record env (pos 300000000000) found_ips one_record world
          ≡ some (
            not (
                ips_contains_ip
                  (of_kind one_record.provider.ip_version (v4 (9 ∷ 9 ∷ 9 ∷ 9 ∷ [])) answer)
                  (v4 (9 ∷ 9 ∷ 9 ∷ 9 ∷ []))),
            next_tick w',
          ))
should_update_decision_example =
    should_update_decision env 300000000000 found_ips one_record world (omega arith)
      (v4 (9 ∷ 9 ∷ 9 ∷ 9 ∷ [])) one-IsEligible one_has_ip refl
