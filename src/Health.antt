-- ===== src/Health.antt =====
-- internal/health/check.go: whether every record was updated and resolves to its current address.
pub mod Records
use ddns_updater.Prelude.{
  ◌==◌, if◌then◌else◌, length, take, drop, replicate, Text, text_eq, ℕ, Bool, true, false, not,
  ◌&&◌, Option, none, some, List, [], ◌∷◌, ◌++◌,
}
use ddns_updater.Result.{Result, ok, err, panic}
use ddns_updater.Netip.{Addr, invalid, v4, v6, is_valid, addr_eq}
use ddns_updater.Models.{Status, Record, fail, success, up_to_date, updating, unset, get_current_ip}

pub data HealthError : Type 0 where
  record_update_failed record_ip_not_set look_up_failed look_up_mismatch : HealthError

abbrev pub is_fail : Status → Bool
is_fail fail = true
is_fail success = false
is_fail up_to_date = false
is_fail updating = false
is_fail unset = false

-- net.IP.To4, of 4 bytes or of 16 bytes that map an IPv4 address
unfoldable pub to4 : Text → Option Text
to4 ip =
    if length ip == 4
    then some ip
    else if length ip == 16 && text_eq (take 12 ip) (replicate {A = ℕ} 10 0 ++ 255 ∷ 255 ∷ [])
    then some (drop 12 ip)
    else none

abbrev pub sixteen : Text → Option Addr
sixteen ip = if length ip == 16 then some (v6 ip []) else none

-- The `switch` on a looked up net.IP, whose nil is the empty text; `none` is a panic.
unfoldable pub from_net_ip : Text → Option Addr
from_net_ip [] = some invalid
from_net_ip (c ∷ ip) = elim (to4 (c ∷ ip)) [ some b ↦ some (v4 b) | none ↦ sixteen (c ∷ ip) ]

abbrev pub found_or : Option Addr → Addr → Option Bool → Option Bool
found_or none current rest = none
found_or (some ip) current rest = if addr_eq ip current then some true else rest

-- The loop over the looked up addresses, to the first that is the current one.
unfoldable pub is_found : List Text → Addr → Option Bool
is_found [] current = some false
is_found (ip ∷ ips) current = found_or (from_net_ip ip) current (is_found ips current)

abbrev pub after_search :
    Option Bool → Result HealthError (Unit {0}) → Result HealthError (Unit {0})
after_search none rest = panic
after_search (some true) rest = rest
after_search (some false) rest = err look_up_mismatch

abbrev pub after_look_up :
    Addr → Result Text (List Text) → Result HealthError (Unit {0}) → Result HealthError (Unit {0})
after_look_up current (ok ips) rest = after_search (is_found ips current) rest
after_look_up current (err e) rest = err look_up_failed
after_look_up current panic rest = panic

-- isHealthy, with what the resolver answers for a host
unfoldable pub is_healthy :
    (Text → Result Text (List Text)) → List Record → Result HealthError (Unit {0})
is_healthy look_up [] = ok tt
is_healthy look_up (r ∷ records) =
    let rest = is_healthy look_up records in
    let current = get_current_ip r.history in
    if is_fail r.status
    then err record_update_failed
    else if r.provider.proxied
    then rest
    else if not (is_valid current)
    then err record_ip_not_set
    else after_look_up current (look_up r.provider.domain_name) rest
