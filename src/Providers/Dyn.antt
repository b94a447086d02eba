-- ===== src/Providers/Dyn.antt =====
-- internal/provider/providers/dyn/provider.go
use ddns_updater.Prelude.{
  ◌==◌, if◌then◌else◌, Text, bytes, text_eq, is_empty, has_prefix, ℕ, ◌≡◌, refl, true, not, Option,
  none, some, [], arith,
}
use ddns_updater.Result.{Result, ok, err, ◌>>=◌}
use ddns_updater.IpVersion.{IpVersion}
use ddns_updater.Netip.{Addr, Prefix}
use ddns_updater.Netip.Print.{addr_string}
use ddns_updater.Domain.{build_url_query_hostname}
use ddns_updater.Provider.{
  UpdateError, bad_request, hostname_not_exists, http_status_not_valid, unknown_response,
  SettingsError, username_not_set, password_not_set, set_value, get_value, Request, Client,
  read_reply, get, Object, string_field, after_domain, unless_refused, Provider, methods,
}
use ddns_updater.Provider.Laws.{
  Carries, Confirms, Answers, read_reply-Confirmed, Accepted, accepted, three_fields,
}

pub record Dyn : Type 0 where
  pub domain : Text
  pub owner : Text
  pub ip_version : IpVersion
  pub ipv6_suffix : Prefix
  pub username : Text
  pub client_key : Text

-- Retro-compatibility: the password stands for a missing client key.
unfoldable pub client_key_or : Text → Text → Text
client_key_or client_key password = if is_empty client_key then password else client_key

-- validateSettings
unfoldable pub validate_settings : Text → Text → Text → Option SettingsError
validate_settings domain username client_key = after_domain domain (
    if is_empty username
    then some username_not_set
    else if is_empty client_key
    then some password_not_set
    else none)

-- New, once the raw settings are decoded
unfoldable pub build :
    Text → Text → IpVersion → Prefix → Text → Text → Text → Result SettingsError Dyn
build domain owner version suffix username password client_key =
    unless_refused (validate_settings domain username (client_key_or client_key password)) (record {
      domain = domain;
      owner = owner;
      ip_version = version;
      ipv6_suffix = suffix;
      username = username;
      client_key = (client_key_or client_key password);
    })

-- New
unfoldable pub new : Object → Text → Text → IpVersion → Prefix → Result SettingsError Dyn
new raw domain owner version suffix = do
  username ← string_field (bytes "username") raw
  password ← string_field (bytes "password") raw
  client_key ← string_field (bytes "client_key") raw
  build domain owner version suffix username password client_key

unfoldable pub request : Dyn → Addr → Request
request p ip =
    get (some (p.username, p.client_key)) (bytes "members.dyndns.org") (bytes "/v3/update") (
      set_value (bytes "myip") (addr_string ip)
        (set_value (bytes "hostname") (build_url_query_hostname p.owner p.domain) []))

unfoldable pub classify : Addr → ℕ → Text → Result UpdateError Addr
classify ip status s =
    if not (status == 200)
    then err http_status_not_valid
    else if has_prefix s (bytes "notfqdn")
    then err hostname_not_exists
    else if has_prefix s (bytes "badrequest")
    then err bad_request
    else if has_prefix s (bytes "good")
    then ok ip
    else err unknown_response

-- Update
unfoldable pub update : Dyn → Client → Addr → Result UpdateError Addr
update p client ip = read_reply (classify ip) (client 0 (request p ip))

-- The methods of the interface
unfoldable pub provider : Dyn → Provider
provider p =
    methods (bytes "dyn") (bytes "<a href=\"https://dyn.com/\">Dyn DNS</a>") p.domain p.owner
      p.ip_version p.ipv6_suffix (update p)

pub request-Carries : (p : Dyn) (ip : Addr) → Carries ip (request p ip)
unfolding request get set_value get_value text_eq bytes
request-Carries p ip = (bytes "myip", refl)

classify-Answers : (ip : Addr) → Answers ip (classify ip)
unfolding classify
classify-Answers ip status s a h = ground arith

pub update-Confirms : (p : Dyn) → Confirms true true (provider p).update
unfolding update request get provider methods
update-Confirms p client ip a =
    read_reply-Confirmed true (provider p).update client ip a (request p ip) refl
      (λ _. request-Carries p ip) (classify ip) (λ c. refl) (classify-Answers ip)

pub new-Accepted :
    (raw : Object) (domain owner : Text) (version : IpVersion) (suffix : Prefix) (p : Dyn)
    → new raw domain owner version suffix ≡ ok p
    → Accepted true domain version suffix (provider p)
unfolding new build validate_settings provider methods
new-Accepted raw domain owner version suffix p h =
    let made =
      three_fields (string_field (bytes "username") raw) (string_field (bytes "password") raw)
        (string_field (bytes "client_key") raw) (build domain owner version suffix) h in
    accepted true domain version suffix provider _ _ p made.3 (refl, (refl, (refl, λ e k. cc)))
