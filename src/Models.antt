-- ===== src/Models.antt =====
-- internal/models/history.go and internal/records/records.go: a record and its history.
pub mod Previous
use ddns_updater.Prelude.{
  leb, if◌then◌else◌, length, get_elem?, get_last?, get_last?-append, Text, ℕ, zero, suc, ◌-◌, ◌≡◌,
  Bool, Option, none, some, List, [], ◌∷◌, ◌++◌,
}
use ddns_updater.Netip.{Addr, invalid, Prefix}
use ddns_updater.Times.{Time}
use ddns_updater.IpVersion.{IpVersion}

pub record HistoryEvent : Type 0 where
  pub ip : Addr
  pub time : Time

abbrev pub History : Type 0
History = List HistoryEvent

-- GetCurrentIP
unfoldable pub get_current_ip : History → Addr
get_current_ip h = elim (get_last? h) [ none ↦ invalid | some e ↦ e.ip ]

-- GetSuccessTime
unfoldable pub get_success_time : History → Time
get_success_time h = elim (get_last? h) [ none ↦ 0 | some e ↦ e.time ]

abbrev ip_at : History → ℕ → Addr
ip_at h i = elim (get_elem? h i) [ none ↦ invalid | some e ↦ e.ip ]

-- The loop of GetPreviousIPs: `n` entries are left, from index `i` of the result.
previous_from : History → ℕ → ℕ → List Addr
previous_from h i zero = []
previous_from h i (suc n) = ip_at h (length h - 2 - i) ∷ previous_from h (suc i) n

-- GetPreviousIPs
unfoldable pub get_previous_ips : History → List Addr
unfolding previous_from
get_previous_ips h = if leb (length h) 1 then [] else previous_from h 0 (length h - 1)

-- The constants of internal/constants/status.go
pub data Status : Type 0 where
  fail success up_to_date updating unset : Status

-- What the interface `provider.Provider` tells of a provider; `display` is its String().
pub record Provider : Type 0 where
  pub domain : Text
  pub owner : Text
  pub domain_name : Text
  pub display : Text
  pub ip_version : IpVersion
  pub ipv6_suffix : Prefix
  pub proxied : Bool

pub record Record : Type 0 where
  pub provider : Provider
  pub history : History
  pub status : Status
  pub message : Text
  pub time : Time
  pub last_ban : Option Time

-- records.New
unfoldable pub new_record : Provider → List HistoryEvent → Record
new_record p events = record {
  provider = p;
  history = events;
  status = unset;
  message = [];
  time = 0;
  last_ban = none;
}

-- What the two readers give after appending an event.
pub get_current_ip-append : (h : History) (e : HistoryEvent) → get_current_ip (h ++ e ∷ []) ≡ e.ip
unfolding get_current_ip
get_current_ip-append h e = rw (get_last?-append h e, get_current_ip)

pub get_success_time-append :
    (h : History) (e : HistoryEvent) → get_success_time (h ++ e ∷ []) ≡ e.time
unfolding get_success_time
get_success_time-append h e = rw (get_last?-append h e, get_success_time)
