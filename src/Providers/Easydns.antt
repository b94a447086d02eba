-- ===== src/Providers/Easydns.antt =====
-- internal/provider/providers/easydns/provider.go
use ddns_updater.Prelude.{
  ◌==◌, if◌then◌else◌, Bool-cases, Text, bytes, text_eq, is_empty, contains, ℕ, ◌≡◌, refl, inl, inr,
  true, not, ◌||◌, Option, none, some, [], arith,
}
use ddns_updater.Result.{Result, ok, err, ◌>>=◌}
use ddns_updater.IpVersion.{IpVersion}
use ddns_updater.Netip.{Addr, Prefix}
use ddns_updater.Netip.Print.{addr_string}
use ddns_updater.Domain.{build_url_query_hostname}
use ddns_updater.Provider.{
  UpdateError, auth, banned_abuse, http_status_not_valid, received_no_result, unknown_response,
  no_service, SettingsError, username_not_set, token_not_set, Values, set_value, get_value, Request,
  Client, read_reply, get, Object, string_field, after_domain, unless_refused, Provider, methods,
}
use ddns_updater.Provider.Laws.{
  Carries, Confirms, Answers, read_reply-Confirmed, Accepted, accepted, two_fields,
}

pub record Easydns : Type 0 where
  pub domain : Text
  pub owner : Text
  pub ip_version : IpVersion
  pub ipv6_suffix : Prefix
  pub username : Text
  pub token : Text

-- validateSettings
unfoldable pub validate_settings : Text → Text → Text → Option SettingsError
validate_settings domain username token = after_domain domain (
    if is_empty username
    then some username_not_set
    else if is_empty token
    then some token_not_set
    else none)

-- New, once the raw settings are decoded
unfoldable pub build : Text → Text → IpVersion → Prefix → Text → Text → Result SettingsError Easydns
build domain owner version suffix username token =
    unless_refused (validate_settings domain username token) (record {
      domain = domain;
      owner = owner;
      ip_version = version;
      ipv6_suffix = suffix;
      username = username;
      token = token;
    })

-- New
unfoldable pub new : Object → Text → Text → IpVersion → Prefix → Result SettingsError Easydns
new raw domain owner version suffix = do
  username ← string_field (bytes "username") raw
  token ← string_field (bytes "token") raw
  build domain owner version suffix username token

-- The flag beside a wildcard
unfoldable pub set_wildcard : Text → Values → Values
set_wildcard owner values =
    if text_eq owner (bytes "*") then set_value (bytes "wildcard") (bytes "ON") values else values

unfoldable pub request : Easydns → Addr → Request
request p ip =
    get (some (p.username, p.token)) (bytes "api.cp.easydns.com") (bytes "dyn/generic.php") (
      set_wildcard p.owner (
        set_value (bytes "myip") (addr_string ip)
          (set_value (bytes "hostname") (build_url_query_hostname p.owner p.domain) [])))

unfoldable pub classify : Addr → ℕ → Text → Result UpdateError Addr
classify ip status s =
    if not (status == 200)
    then err http_status_not_valid
    else if is_empty s
    then err received_no_result
    else if contains s (bytes "no_service")
    then err no_service
    else if contains s (bytes "no_access")
    then err auth
    else if contains s (bytes "illegal_input") || contains s (bytes "too_soon")
    then err banned_abuse
    else if contains s (bytes "no_error") || contains s (bytes "ok")
    then ok ip
    else err unknown_response

-- Update
unfoldable pub update : Easydns → Client → Addr → Result UpdateError Addr
update p client ip = read_reply (classify ip) (client 0 (request p ip))

-- The methods of the interface
unfoldable pub provider : Easydns → Provider
provider p =
    methods (bytes "easydns") (bytes "<a href=\"https://easydns.com\">EasyDNS</a>") p.domain p.owner
      p.ip_version p.ipv6_suffix (update p)

pub request-Carries : (p : Easydns) (ip : Addr) → Carries ip (request p ip)
unfolding request get set_value get_value text_eq bytes set_wildcard
request-Carries p ip = elim (Bool-cases (text_eq p.owner (bytes "*"))) [
  | inl e ↦ (bytes "myip", rw e refl)
  | inr e ↦ (bytes "myip", rw e refl)
]

classify-Answers : (ip : Addr) → Answers ip (classify ip)
unfolding classify
classify-Answers ip status s a h = ground arith

pub update-Confirms : (p : Easydns) → Confirms true true (provider p).update
unfolding update request get provider methods
update-Confirms p client ip a =
    read_reply-Confirmed true (provider p).update client ip a (request p ip) refl
      (λ _. request-Carries p ip) (classify ip) (λ c. refl) (classify-Answers ip)

pub new-Accepted :
    (raw : Object) (domain owner : Text) (version : IpVersion) (suffix : Prefix) (p : Easydns)
    → new raw domain owner version suffix ≡ ok p
    → Accepted true domain version suffix (provider p)
unfolding new build validate_settings provider methods
new-Accepted raw domain owner version suffix p h =
    let made =
      two_fields (string_field (bytes "username") raw) (string_field (bytes "token") raw)
        (build domain owner version suffix) h in
    accepted true domain version suffix provider _ _ p made.2 (refl, (refl, (refl, λ e k. cc)))
