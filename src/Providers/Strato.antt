-- ===== src/Providers/Strato.antt =====
-- internal/provider/providers/strato/provider.go
use ddns_updater.Prelude.{
  ◌==◌, if◌then◌else◌, Text, bytes, text_eq, is_empty, has_prefix, ℕ, ◌≡◌, refl, true, false, not,
  ◌||◌, Option, none, some, [], arith,
}
use ddns_updater.Result.{Result, ok, err, ◌>>=◌}
use ddns_updater.IpVersion.{IpVersion}
use ddns_updater.Netip.{Addr, Prefix}
use ddns_updater.Netip.Print.{addr_string}
use ddns_updater.Domain.{build_url_query_hostname}
use ddns_updater.Provider.{
  UpdateError, auth, bad_request, banned_abuse, hostname_not_exists, http_status_not_valid,
  unknown_response, SettingsError, owner_wildcard, password_not_set, set_value, get_value, Request,
  Client, read_reply, get, Object, string_field, after_domain, unless_refused, Provider, methods,
}
use ddns_updater.Provider.Laws.{
  Carries, Confirms, Answers, read_reply-Confirmed, Accepted, accepted, one_field,
}

pub record Strato : Type 0 where
  pub domain : Text
  pub owner : Text
  pub ip_version : IpVersion
  pub ipv6_suffix : Prefix
  pub password : Text

-- validateSettings
unfoldable pub validate_settings : Text → Text → Text → Option SettingsError
validate_settings domain owner password = after_domain domain (
    if text_eq owner (bytes "*")
    then some owner_wildcard
    else if is_empty password
    then some password_not_set
    else none)

-- New, once the raw settings are decoded
unfoldable pub build : Text → Text → IpVersion → Prefix → Text → Result SettingsError Strato
build domain owner version suffix password =
    unless_refused (validate_settings domain owner password) (record {
      domain = domain;
      owner = owner;
      ip_version = version;
      ipv6_suffix = suffix;
      password = password;
    })

-- New
unfoldable pub new : Object → Text → Text → IpVersion → Prefix → Result SettingsError Strato
new raw domain owner version suffix = do
  password ← string_field (bytes "password") raw
  build domain owner version suffix password

unfoldable pub request : Strato → Addr → Request
request p ip = get (some (p.domain, p.password)) (bytes "dyndns.strato.com") (bytes "/nic/update") (
    set_value (bytes "myip") (addr_string ip)
      (set_value (bytes "hostname") (build_url_query_hostname p.owner p.domain) []))

unfoldable pub classify : Addr → ℕ → Text → Result UpdateError Addr
classify ip status s =
    if not (status == 200)
    then err http_status_not_valid
    else if has_prefix s (bytes "notfqdn")
    then err hostname_not_exists
    else if has_prefix s (bytes "abuse")
    then err banned_abuse
    else if has_prefix s (bytes "badrequest")
    then err bad_request
    else if has_prefix s (bytes "constants.Badauth")
    then err auth
    else if has_prefix s (bytes "good") || has_prefix s (bytes "nochg")
    then ok ip
    else err unknown_response

-- Update
unfoldable pub update : Strato → Client → Addr → Result UpdateError Addr
update p client ip = read_reply (classify ip) (client 0 (request p ip))

-- The methods of the interface
unfoldable pub provider : Strato → Provider
provider p =
    methods (bytes "strato") (bytes "<a href=\"https://strato.com/\">Strato DNS</a>") p.domain
      p.owner p.ip_version p.ipv6_suffix (update p)

pub request-Carries : (p : Strato) (ip : Addr) → Carries ip (request p ip)
unfolding request get set_value get_value text_eq bytes
request-Carries p ip = (bytes "myip", refl)

classify-Answers : (ip : Addr) → Answers ip (classify ip)
unfolding classify
classify-Answers ip status s a h = ground arith

pub update-Confirms : (p : Strato) → Confirms true true (provider p).update
unfolding update request get provider methods
update-Confirms p client ip a =
    read_reply-Confirmed true (provider p).update client ip a (request p ip) refl
      (λ _. request-Carries p ip) (classify ip) (λ c. refl) (classify-Answers ip)

pub new-Accepted :
    (raw : Object) (domain owner : Text) (version : IpVersion) (suffix : Prefix) (p : Strato)
    → new raw domain owner version suffix ≡ ok p
    → Accepted false domain version suffix (provider p)
unfolding new build validate_settings provider methods
new-Accepted raw domain owner version suffix p h =
    let made =
      one_field (string_field (bytes "password") raw) (build domain owner version suffix) h in
    accepted false domain version suffix provider _ _ p made.1
      (refl, (refl, (refl, λ e k. ground arith)))
