-- ===== src/Providers/Opendns.antt =====
-- internal/provider/providers/opendns/provider.go
use ddns_updater.Prelude.{
  ◌==◌, if◌then◌else◌, Text, bytes, text_eq, is_empty, has_prefix, trim_prefix, ℕ, ◌≡◌, refl, true,
  false, not, Option, none, some, [], arith,
}
use ddns_updater.Result.{Result, ok, err, ◌>>=◌}
use ddns_updater.IpVersion.{IpVersion}
use ddns_updater.Netip.{Addr, Prefix, addr_eq}
use ddns_updater.Netip.Print.{addr_string}
use ddns_updater.Netip.Parse.{parse_addr}
use ddns_updater.Domain.{build_url_query_hostname}
use ddns_updater.Provider.{
  UpdateError, http_status_not_valid, ip_received_malformed, ip_received_mismatch, unknown_response,
  SettingsError, owner_wildcard, username_not_set, password_not_set, set_value, get_value, Request,
  Client, read_reply, get, Object, string_field, after_domain, unless_refused, Provider, methods,
}
use ddns_updater.Provider.Laws.{
  Carries, Confirms, Answers, read_reply-Confirmed, Accepted, accepted, two_fields,
}

pub record Opendns : Type 0 where
  pub domain : Text
  pub owner : Text
  pub ip_version : IpVersion
  pub ipv6_suffix : Prefix
  pub username : Text
  pub password : Text

-- validateSettings
unfoldable pub validate_settings : Text → Text → Text → Text → Option SettingsError
validate_settings domain owner username password = after_domain domain (
    if text_eq owner (bytes "*")
    then some owner_wildcard
    else if is_empty username
    then some username_not_set
    else if is_empty password
    then some password_not_set
    else none)

-- New, once the raw settings are decoded
unfoldable pub build : Text → Text → IpVersion → Prefix → Text → Text → Result SettingsError Opendns
build domain owner version suffix username password =
    unless_refused (validate_settings domain owner username password) (record {
      domain = domain;
      owner = owner;
      ip_version = version;
      ipv6_suffix = suffix;
      username = username;
      password = password;
    })

-- New
unfoldable pub new : Object → Text → Text → IpVersion → Prefix → Result SettingsError Opendns
new raw domain owner version suffix = do
  username ← string_field (bytes "username") raw
  password ← string_field (bytes "password") raw
  build domain owner version suffix username password

unfoldable pub request : Opendns → Addr → Request
request p ip =
    get (some (p.username, p.password)) (bytes "updates.opendns.com") (bytes "/nic/update") (
      set_value (bytes "myip") (addr_string ip)
        (set_value (bytes "hostname") (build_url_query_hostname p.owner p.domain) []))

unfoldable pub compare_received : Addr → Option Addr → Result UpdateError Addr
compare_received ip none = err ip_received_malformed
compare_received ip (some new_ip) = if addr_eq new_ip ip then ok ip else err ip_received_mismatch

unfoldable pub classify : Addr → ℕ → Text → Result UpdateError Addr
classify ip status s =
    if not (status == 200)
    then err http_status_not_valid
    else if not (has_prefix s (bytes "good "))
    then err unknown_response
    else compare_received ip (parse_addr (trim_prefix s (bytes "good ")))

-- Update
unfoldable pub update : Opendns → Client → Addr → Result UpdateError Addr
update p client ip = read_reply (classify ip) (client 0 (request p ip))

-- The methods of the interface
unfoldable pub provider : Opendns → Provider
provider p =
    methods (bytes "opendns") (bytes "<a href=\"https://opendns.com/\">Opendns DNS</a>") p.domain
      p.owner p.ip_version p.ipv6_suffix (update p)

pub request-Carries : (p : Opendns) (ip : Addr) → Carries ip (request p ip)
unfolding request get set_value get_value text_eq bytes
request-Carries p ip = (bytes "myip", refl)

compare_received-ok :
    (ip : Addr) (o : Option Addr) (a : Addr) → compare_received ip o ≡ ok a → a ≡ ip
unfolding compare_received
compare_received-ok ip none a h = cc
compare_received-ok ip (some b) a h = ground arith

classify-Answers : (ip : Addr) → Answers ip (classify ip)
unfolding classify
classify-Answers ip status s a h =
    ground (arith, compare_received-ok ip (parse_addr (trim_prefix s (bytes "good "))) a)

pub update-Confirms : (p : Opendns) → Confirms true true (provider p).update
unfolding update request get provider methods
update-Confirms p client ip a =
    read_reply-Confirmed true (provider p).update client ip a (request p ip) refl
      (λ _. request-Carries p ip) (classify ip) (λ c. refl) (classify-Answers ip)

pub new-Accepted :
    (raw : Object) (domain owner : Text) (version : IpVersion) (suffix : Prefix) (p : Opendns)
    → new raw domain owner version suffix ≡ ok p
    → Accepted false domain version suffix (provider p)
unfolding new build validate_settings provider methods
new-Accepted raw domain owner version suffix p h =
    let made =
      two_fields (string_field (bytes "username") raw) (string_field (bytes "password") raw)
        (build domain owner version suffix) h in
    accepted false domain version suffix provider _ _ p made.2
      (refl, (refl, (refl, λ e k. ground arith)))
