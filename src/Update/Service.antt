-- ===== src/Update/Service.antt =====
-- updateNecessary of internal/update/service.go: one cycle over all records, and the loop `run`.
pub mod Returns
pub mod Touched
pub mod Loop
pub mod Cycle
pub mod Stages
pub mod Fetched
pub mod Settles
use ddns_updater.Prelude.{
  ◌==◌, if◌then◌else◌, get_elem?, bytes, ℕ, suc, Bool, true, false, not, ◌||◌, Option, none, some,
  List, [], ◌∷◌, ◌++◌, map,
}
use ddns_updater.Result.{Result, ok, err, panic}
use ddns_updater.Times.{Time, Duration}
use ddns_updater.Netip.{Addr, is_valid}
use ddns_updater.Models.{Status, Record, History, get_current_ip, fail, up_to_date, unset}
use ddns_updater.Data.{DataError, select, select_all}
use ddns_updater.Update.World.{
  Env, World, Run, return, now, db_update, PingState, ping_ok, ping_fail, ◌>>=◌,
}
use ddns_updater.Update.Getip.{IpError, NewIps, get_new_ips}
use ddns_updater.Update.Decide.{
  do_ip_version, get_ip_matching_version, with_suffix, get_record_ids_to_update,
}
use ddns_updater.Update.Updater.{UpdateError, update}

pub data ServiceError : Type 0 where
  getting_ip : IpError → ServiceError
  initial_fail_status : DataError → ServiceError
  initial_up_to_date_status : DataError → ServiceError
  update_failed : UpdateError → ServiceError

-- `if err != nil { errors = append(errors, err) }`
abbrev pub as_errors {ℓ} :
    {E : Type ℓ}
    → (E → ServiceError)
    → Result E (Unit {0}) × World
    → Option (List ServiceError × World)
as_errors wrap (ok t, w) = some ([], w)
as_errors wrap (err e, w) = some (wrap e ∷ [], w)
as_errors wrap (panic, w) = none

-- A record that was read is changed and written back.
abbrev pub change_and_update :
    Env
    → ℕ
    → (Record → Record)
    → Result DataError Record
    → World
    → Result DataError (Unit {0}) × World
change_and_update env id change (ok r) w = db_update env id (change r) w
change_and_update env id change (err e) w = (err e, w)
change_and_update env id change panic w = (panic, w)

unfoldable pub select_and_update :
    Env → ℕ → (Record → Record) → World → Result DataError (Unit {0}) × World
select_and_update env id change w = change_and_update env id change (select w.db id) w

abbrev pub initial_history : Addr → Time → History → History
initial_history ip t history =
    if not (is_valid (get_current_ip history))
    then history ++ record { ip = ip; time = t } ∷ []
    else history

abbrev pub initial_up_to_date : Addr → Time → Record → Record
initial_up_to_date ip t r = record r {
  status = up_to_date;
  time = t;
  history = initial_history ip t r.history;
}

abbrev pub initial_fail : Time → Record → Record
initial_fail t r = record r {
  status = fail;
  message = bytes "public IP address not found";
  time = t;
}

-- setInitialUpToDateStatus
unfoldable pub set_initial_up_to_date_status :
    Env → ℕ → Addr → Time → World → Result DataError (Unit {0}) × World
set_initial_up_to_date_status env id ip t = select_and_update env id (initial_up_to_date ip t)

-- setInitialPublicIPFailStatus
unfoldable pub set_initial_public_ip_fail_status :
    Env → ℕ → Time → World → Result DataError (Unit {0}) × World
set_initial_public_ip_fail_status env id t = select_and_update env id (initial_fail t)

abbrev pub has_id : List ℕ → ℕ → Bool
has_id [] id = false
has_id (i ∷ ids) id = i == id || has_id ids id

abbrev pub is_unset : Status → Bool
is_unset unset = true
is_unset _ = false

unfoldable pub set_up_to_date : Env → Time → ℕ → Option Addr → Run (List ServiceError)
set_up_to_date env t id none w = none
set_up_to_date env t id (some ip) w =
    as_errors initial_up_to_date_status (set_initial_up_to_date_status env id ip t w)

-- One turn of the loop that sets the initial statuses.
unfoldable pub set_initial : Env → List ℕ → Time → NewIps → ℕ → Record → Run (List ServiceError)
set_initial env ids t ips id r w =
    let ip = get_ip_matching_version ips r.provider.ip_version in
    if has_id ids id || not (is_unset r.status)
    then some ([], w)
    else if not (is_valid ip)
    then as_errors initial_fail_status (set_initial_public_ip_fail_status env id t w)
    else set_up_to_date env t id (with_suffix r ip) w

-- `id` is the index of the first record. The slice that SelectAll returns is the database's own, but
-- a turn only changes the record that it has read.
unfoldable pub set_initials :
    Env → List ℕ → Time → NewIps → ℕ → List Record → Run (List ServiceError)
set_initials env ids t ips id [] = return []
set_initials env ids t ips id (r ∷ records) = do
  errors ← set_initial env ids t ips id r
  more ← set_initials env ids t ips (suc id) records
  return (errors ++ more)

unfoldable pub update_to : Env → ℕ → Option Addr → Run (List ServiceError)
update_to env id none w = none
update_to env id (some ip) w = as_errors update_failed (update env id ip w)

-- The update of `records[id]`.
abbrev pub update_record : Env → NewIps → ℕ → Option Record → Run (List ServiceError)
update_record env ips id none w = none
update_record env ips id (some r) w =
    update_to env id (with_suffix r (get_ip_matching_version ips r.provider.ip_version)) w

-- One turn of the loop over the map of record ids.
unfoldable pub update_id : Env → NewIps → List Record → ℕ → Run (List ServiceError)
update_id env ips records id w = update_record env ips id (get_elem? records id) w

unfoldable pub update_ids : Env → NewIps → List Record → List ℕ → Run (List ServiceError)
update_ids env ips records [] = return []
update_ids env ips records (id ∷ ids) = do
  errors ← update_id env ips records id
  more ← update_ids env ips records ids
  return (errors ++ more)

abbrev pub ping_state : List ServiceError → PingState
ping_state [] = ping_ok
ping_state (e ∷ errors) = ping_fail

-- The pinging of healthchecks.io, whose error is only logged.
abbrev pub ping : PingState → Run (Unit {0})
ping state w = some (tt, record w { pings = w.pings ++ state ∷ [] })

-- The parts of updateNecessary that follow the choice of the records, last part first.
unfoldable pub conclude : List ServiceError → Run (List ServiceError)
conclude errors = do done ← ping (ping_state errors); return errors

unfoldable pub go_through_ids :
    Env → NewIps → List ServiceError → List ℕ → List Record → Run (List ServiceError)
go_through_ids env ips errors ids records = do
  updates ← (λ w. update_ids env ips records (env.visit w.tick ids) w)
  conclude (errors ++ updates)

unfoldable pub go_through_records :
    Env → NewIps → List ServiceError → List ℕ → List Record → Time → Run (List ServiceError)
go_through_records env ips errors ids records t = do
  initial ← set_initials env ids t ips 0 records
  go_through_ids env ips (errors ++ initial) ids records

unfoldable pub carry_out :
    Env → NewIps → List ServiceError → List ℕ → List Record → Run (List ServiceError)
carry_out env ips errors ids records = do
  t ← now env
  go_through_records env ips errors ids records t

-- updateNecessary
unfoldable pub update_necessary : Env → Duration → Run (List ServiceError)
update_necessary env cooldown w =
    let records = select_all w.db in
    let (do_ip, do_ip4, do_ip6) = do_ip_version records in
    (do
      new ← get_new_ips env do_ip do_ip4 do_ip6
      ids ← get_record_ids_to_update env cooldown new.0 0 records
      carry_out env new.0 (map getting_ip new.1) ids records)
      w

-- What `run` takes from its channels: the ticker, the end of its context, or a forced update. The
-- caller of the latter takes the result, or has left by the end of its own context.
pub data Event : Type 0 where
  ticked forced abandoned stopped : Event

-- Where the loop is: back from the end of its context, waiting for a further event, or blocked on
-- forceResult, which is unbuffered, and which only the caller that has left would have received from.
pub data Ending : Type 0 where
  returned waiting blocked : Ending

-- run, over the events in their order: the results that callers take from forceResult, and where the
-- loop is then
unfoldable pub run : Env → Duration → List Event → Run (List (List ServiceError) × Ending)
run env cooldown [] = return ([], waiting)
run env cooldown (ticked ∷ events) = do
  errors ← update_necessary env cooldown
  run env cooldown events
run env cooldown (forced ∷ events) = do
  errors ← update_necessary env cooldown
  (rest, ending) ← run env cooldown events
  return (errors ∷ rest, ending)
run env cooldown (abandoned ∷ events) = do
  errors ← update_necessary env cooldown
  return ([], blocked)
run env cooldown (stopped ∷ events) = return ([], returned)
