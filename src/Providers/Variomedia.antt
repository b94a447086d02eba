-- ===== src/Providers/Variomedia.antt =====
-- internal/provider/providers/variomedia/provider.go
use ddns_updater.Prelude.{
  ◌==◌, if◌then◌else◌, Text, bytes, text_eq, is_empty, has_prefix, ℕ, ◌≡◌, refl, true, false, not,
  Option, none, some, [], arith,
}
use ddns_updater.Result.{Result, ok, err, ◌>>=◌}
use ddns_updater.IpVersion.{IpVersion}
use ddns_updater.Netip.{Addr, Prefix, is6}
use ddns_updater.Netip.Print.{addr_string}
use ddns_updater.Domain.{build_url_query_hostname}
use ddns_updater.Provider.{
  UpdateError, bad_request, hostname_not_exists, http_status_not_valid, unknown_response,
  SettingsError, owner_wildcard, password_not_set, email_not_set, set_value, get_value, Request,
  Client, read_reply, get, Object, string_field, after_domain, unless_refused, Provider, methods,
}
use ddns_updater.Provider.Laws.{
  Carries, Confirms, Answers, read_reply-Confirmed, Accepted, accepted, two_fields,
}

pub record Variomedia : Type 0 where
  pub domain : Text
  pub owner : Text
  pub ip_version : IpVersion
  pub ipv6_suffix : Prefix
  pub email : Text
  pub password : Text

-- validateSettings
unfoldable pub validate_settings : Text → Text → Text → Text → Option SettingsError
validate_settings domain owner email password = after_domain domain (
    if text_eq owner (bytes "*")
    then some owner_wildcard
    else if is_empty email
    then some email_not_set
    else if is_empty password
    then some password_not_set
    else none)

-- New, once the raw settings are decoded
unfoldable pub build :
    Text → Text → IpVersion → Prefix → Text → Text → Result SettingsError Variomedia
build domain owner version suffix email password =
    unless_refused (validate_settings domain owner email password) (record {
      domain = domain;
      owner = owner;
      ip_version = version;
      ipv6_suffix = suffix;
      email = email;
      password = password;
    })

-- New
unfoldable pub new : Object → Text → Text → IpVersion → Prefix → Result SettingsError Variomedia
new raw domain owner version suffix = do
  email ← string_field (bytes "email") raw
  password ← string_field (bytes "password") raw
  build domain owner version suffix email password

unfoldable pub request : Variomedia → Addr → Request
request p ip =
    get (some (p.email, p.password))
      (if is6 ip then bytes "dyndns6.variomedia.de" else bytes "dyndns4.variomedia.de")
      (bytes "/nic/update")
      (set_value (bytes "myip") (addr_string ip)
        (set_value (bytes "hostname") (build_url_query_hostname p.owner p.domain) []))

unfoldable pub classify : Addr → ℕ → Text → Result UpdateError Addr
classify ip status s =
    if not (status == 200)
    then err http_status_not_valid
    else if has_prefix s (bytes "notfqdn")
    then err hostname_not_exists
    else if has_prefix s (bytes "badrequest")
    then err bad_request
    else if has_prefix s (bytes "good")
    then ok ip
    else err unknown_response

-- Update
unfoldable pub update : Variomedia → Client → Addr → Result UpdateError Addr
update p client ip = read_reply (classify ip) (client 0 (request p ip))

-- The methods of the interface
unfoldable pub provider : Variomedia → Provider
provider p =
    methods (bytes "variomedia") (bytes "<a href=\"https://variomedia.de/\">Variomedia</a>")
      p.domain p.owner p.ip_version p.ipv6_suffix (update p)

pub request-Carries : (p : Variomedia) (ip : Addr) → Carries ip (request p ip)
unfolding request get set_value get_value text_eq bytes
request-Carries p ip = (bytes "myip", refl)

classify-Answers : (ip : Addr) → Answers ip (classify ip)
unfolding classify
classify-Answers ip status s a h = ground arith

pub update-Confirms : (p : Variomedia) → Confirms true true (provider p).update
unfolding update request get provider methods
update-Confirms p client ip a =
    read_reply-Confirmed true (provider p).update client ip a (request p ip) refl
      (λ _. request-Carries p ip) (classify ip) (λ c. refl) (classify-Answers ip)

pub new-Accepted :
    (raw : Object) (domain owner : Text) (version : IpVersion) (suffix : Prefix) (p : Variomedia)
    → new raw domain owner version suffix ≡ ok p
    → Accepted false domain version suffix (provider p)
unfolding new build validate_settings provider methods
new-Accepted raw domain owner version suffix p h =
    let made =
      two_fields (string_field (bytes "email") raw) (string_field (bytes "password") raw)
        (build domain owner version suffix) h in
    accepted false domain version suffix provider _ _ p made.2
      (refl, (refl, (refl, λ e k. ground arith)))
