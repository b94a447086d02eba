-- ===== src/Update/Updater.antt =====
-- internal/update/update.go: the update of one record through its provider.
pub mod Final
use ddns_updater.Prelude.{if◌then◌else◌, Text, bytes, ℕ, ◌*◌, ◌/◌, none, some, [], ◌∷◌, ◌++◌}
use ddns_updater.Result.{Result, ok, err, panic}
use ddns_updater.Times.{Time}
use ddns_updater.Netip.{Addr}
use ddns_updater.Netip.Print.{addr_string}
use ddns_updater.Models.{HistoryEvent, Record, fail, success, updating}
use ddns_updater.Data.{DataError, select}
use ddns_updater.Update.World.{Env, Failure, World, next_tick, notify, db_update}

-- An error of Update. The text that it adds to the provider's error for a ban is left out.
pub data UpdateError : Type 0 where
  data_failed : DataError → UpdateError
  provider_failed : Failure → UpdateError
  provider_and_data_failed : Failure → DataError → UpdateError

-- time.Unix(t.Unix(), 0)
abbrev pub whole_seconds : Time → Time
whole_seconds t = t / 1000000000 * 1000000000

abbrev pub ban_message : Record → Text
ban_message r =
    r.provider.domain_name
    ++ bytes ": "
    ++ r.message
    ++ bytes ", no more updates will be attempted for an hour"

unfoldable pub mark_ban : Env → Failure → Record → World → Record × World
mark_ban env f r w =
    if f.banned_abuse
    then (
      record r { last_ban = some (whole_seconds (env.time_now w.tick)) },
      notify (ban_message r) (next_tick w),
    )
    else (record r { last_ban = none }, w)

pub after_failure :
    Failure → Result DataError (Unit {0}) × World → Result UpdateError (Unit {0}) × World
after_failure f (ok t, w) = (err (provider_failed f), w)
after_failure f (err e, w) = (err (provider_and_data_failed f e), w)
after_failure f (panic, w) = (panic, w)

pub after_success : Result DataError (Unit {0}) × World → Result UpdateError (Unit {0}) × World
after_success (ok t, w) = (ok t, w)
after_success (err e, w) = (err (data_failed e), w)
after_success (panic, w) = (panic, w)

-- The record's provider was asked.
unfoldable pub finish :
    Env → ℕ → Addr → Record → Result Failure Addr → World → Result UpdateError (Unit {0}) × World
unfolding mark_ban
finish env id ip r (err f) w =
    let (r', w') = mark_ban env f (record r { message = f.message }) w in
    after_failure f (db_update env id r' w')
finish env id ip r (ok new_ip) w =
    let message = bytes "changed to " ++ addr_string ip in
    let event : HistoryEvent = record { ip = new_ip; time = env.time_now w.tick } in
    let r' = record r { status = success; message = message; history = r.history ++ event ∷ [] } in
    after_success
      (db_update env id r' (notify (r.provider.domain_name ++ bytes " " ++ message) (next_tick w)))
finish env id ip r panic w = (panic, w)

unfoldable pub ask_provider :
    Env
    → ℕ
    → Addr
    → Record
    → Result DataError (Unit {0}) × World
    → Result UpdateError (Unit {0}) × World
ask_provider env id ip r (ok t, w) =
    finish env id ip (record r { status = fail }) (env.provider_update r.provider ip w.tick)
      (next_tick w)
ask_provider env id ip r (err e, w) = (err (data_failed e), w)
ask_provider env id ip r (panic, w) = (panic, w)

unfoldable pub update_selected :
    Env → ℕ → Addr → Result DataError Record → World → Result UpdateError (Unit {0}) × World
update_selected env id ip (ok r) w =
    let r' = record r { time = env.time_now w.tick; status = updating } in
    ask_provider env id ip r' (db_update env id r' (next_tick w))
update_selected env id ip (err e) w = (err (data_failed e), w)
update_selected env id ip panic w = (panic, w)

-- Updater.Update
unfoldable pub update : Env → ℕ → Addr → World → Result UpdateError (Unit {0}) × World
update env id ip w = update_selected env id ip (select w.db id) w
