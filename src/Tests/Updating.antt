-- ===== src/Tests/Updating.antt =====
-- The updater (internal/update).
use ddns_updater.Prelude.{set, bytes, ◌+◌, ◌≡◌, refl, true, false, [], ◌∷◌, ◌++◌, arith}
use ddns_updater.Result.{ok, err}
use ddns_updater.Netip.{v4}
use ddns_updater.Models.{new_record}
use ddns_updater.Persistence.{written}
use ddns_updater.Update.World.{Env, Failure, World, found}
use ddns_updater.Update.Updater.{ban_message, provider_failed, update}
use ddns_updater.Update.Updater.Final.{final, update-final, update_failure}
use ddns_updater.Tests.Storing.{address, one, one_record}

abbrev abuse : Failure
abuse = record { message = bytes "abuse"; banned_abuse = true }

-- The DNS provider answers with a ban.
abbrev pub env : Env
env = record {
  time_now = λ n. 7200000000000 + n;
  provider_update = λ p ip n. err abuse;
  get_ip = λ v n. ok (v4 address);
  look_up = λ n host t i. found [];
  ip4_first = λ n. true;
  visit = λ n ids. ids;
  persist = λ n. written;
  cancelled = λ n. false;
}

abbrev pub world : World
world = record { tick = 0; db = one; notified = []; pings = [] }

update-final_example :
    (update env 0 (v4 address) world).1.db.records
    ≡ set one.records 0 (final one_record (v4 address) 7200000000000 7200000000003 (err abuse))
unfolding new_record
update-final_example = update-final env 0 (v4 address) one_record world (omega arith) refl

update_failure_example :
    let (result, w') = update env 0 (v4 address) world in
    (result ≡ err (provider_failed abuse))
    × (w'.db.persistent ≡ one.persistent)
    × (w'.notified ≡ [] ++ ban_message (record one_record { message = bytes "abuse" }) ∷ [])
unfolding new_record
update_failure_example =
    update_failure env 0 (v4 address) one_record world (omega arith) refl abuse refl
