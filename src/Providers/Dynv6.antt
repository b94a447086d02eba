-- ===== src/Providers/Dynv6.antt =====
-- internal/provider/providers/dynv6/provider.go
use ddns_updater.Prelude.{
  ◌==◌, if◌then◌else◌, Bool-cases, Text, bytes, text_eq, is_empty, ℕ, ◌≡◌, refl, inl, inr, true,
  false, Option, none, some, [], ◌++◌, arith,
}
use ddns_updater.Result.{Result, ok, err, ◌>>=◌}
use ddns_updater.IpVersion.{IpVersion}
use ddns_updater.Netip.{Addr, Prefix, is4}
use ddns_updater.Netip.Print.{addr_string}
use ddns_updater.Domain.{build_url_query_hostname}
use ddns_updater.Provider.{
  UpdateError, http_status_not_valid, SettingsError, owner_wildcard, token_not_set, Values,
  set_value, get_value, Request, Client, read_status, get, Object, string_field, after_domain,
  unless_refused, Provider, methods,
}
use ddns_updater.Provider.Laws.{
  Carries, Confirms, AnswersStatus, read_status-Confirmed, Accepted, accepted, one_field,
}

pub record Dynv6 : Type 0 where
  pub domain : Text
  pub owner : Text
  pub ip_version : IpVersion
  pub ipv6_suffix : Prefix
  pub token : Text

-- validateSettings
unfoldable pub validate_settings : Text → Text → Text → Option SettingsError
validate_settings domain owner token = after_domain domain (
    if text_eq owner (bytes "*")
    then some owner_wildcard
    else if is_empty token
    then some token_not_set
    else none)

-- New, once the raw settings are decoded
unfoldable pub build : Text → Text → IpVersion → Prefix → Text → Result SettingsError Dynv6
build domain owner version suffix token =
    unless_refused (validate_settings domain owner token) (record {
      domain = domain;
      owner = owner;
      ip_version = version;
      ipv6_suffix = suffix;
      token = token;
    })

-- New
unfoldable pub new : Object → Text → Text → IpVersion → Prefix → Result SettingsError Dynv6
new raw domain owner version suffix = do
  token ← string_field (bytes "token") raw
  build domain owner version suffix token

unfoldable pub host_for : Addr → Text
host_for ip = (if is4 ip then bytes "ipv4." else bytes "ipv6.") ++ bytes "dynv6.com"

-- The address, under the key for its kind
unfoldable pub set_address : Addr → Values → Values
set_address ip values =
    if is4 ip
    then set_value (bytes "ipv4") (addr_string ip) values
    else set_value (bytes "ipv6") (addr_string ip) values

unfoldable pub request : Dynv6 → Addr → Request
request p ip = get none (host_for ip) (bytes "/api/update") (
    set_address ip (
      set_value (bytes "zone") (build_url_query_hostname p.owner p.domain)
        (set_value (bytes "token") p.token [])))

unfoldable pub classify : Addr → ℕ → Result UpdateError Addr
classify ip status = if status == 200 then ok ip else err http_status_not_valid

-- Update
unfoldable pub update : Dynv6 → Client → Addr → Result UpdateError Addr
update p client ip = read_status (classify ip) (client 0 (request p ip))

-- The methods of the interface
unfoldable pub provider : Dynv6 → Provider
provider p =
    methods (bytes "dynv6") (bytes "<a href=\"https://dynv6.com/\">DynV6 DNS</a>") p.domain p.owner
      p.ip_version p.ipv6_suffix (update p)

pub request-Carries : (p : Dynv6) (ip : Addr) → Carries ip (request p ip)
unfolding request get set_value get_value text_eq bytes set_address
request-Carries p ip = elim (Bool-cases (is4 ip)) [
  | inl e ↦ (bytes "ipv4", rw e refl)
  | inr e ↦ (bytes "ipv6", rw e refl)
]

classify-AnswersStatus : (ip : Addr) → AnswersStatus ip (classify ip)
unfolding classify
classify-AnswersStatus ip status a h = ground arith

pub update-Confirms : (p : Dynv6) → Confirms true true (provider p).update
unfolding update request get provider methods
update-Confirms p client ip a =
    read_status-Confirmed true (provider p).update client ip a (request p ip) refl
      (λ _. request-Carries p ip) (classify ip) (λ c. refl) (classify-AnswersStatus ip)

pub new-Accepted :
    (raw : Object) (domain owner : Text) (version : IpVersion) (suffix : Prefix) (p : Dynv6)
    → new raw domain owner version suffix ≡ ok p
    → Accepted false domain version suffix (provider p)
unfolding new build validate_settings provider methods
new-Accepted raw domain owner version suffix p h =
    let made = one_field (string_field (bytes "token") raw) (build domain owner version suffix) h in
    accepted false domain version suffix provider _ _ p made.1
      (refl, (refl, (refl, λ e k. ground arith)))
