-- ===== src/Providers/Domeneshop.antt =====
-- internal/provider/providers/domeneshop/provider.go
use ddns_updater.Prelude.{
  ◌==◌, if◌then◌else◌, Text, bytes, text_eq, is_empty, ℕ, ◌≡◌, refl, true, false, Option, none,
  some, [], arith,
}
use ddns_updater.Result.{Result, ok, err, ◌>>=◌}
use ddns_updater.IpVersion.{IpVersion}
use ddns_updater.Netip.{Addr, Prefix}
use ddns_updater.Netip.Print.{addr_string}
use ddns_updater.Domain.{build_url_query_hostname}
use ddns_updater.Provider.{
  UpdateError, hostname_not_exists, http_status_not_valid, SettingsError, owner_wildcard,
  token_not_set, secret_not_set, set_value, get_value, Request, Client, read_status, get, Object,
  string_field, after_domain, unless_refused, Provider, methods,
}
use ddns_updater.Provider.Laws.{
  Carries, Confirms, AnswersStatus, read_status-Confirmed, Accepted, accepted, two_fields,
}

pub record Domeneshop : Type 0 where
  pub domain : Text
  pub owner : Text
  pub ip_version : IpVersion
  pub ipv6_suffix : Prefix
  pub token : Text
  pub secret : Text

-- validateSettings
unfoldable pub validate_settings : Text → Text → Text → Text → Option SettingsError
validate_settings domain owner token secret = after_domain domain (
    if text_eq owner (bytes "*")
    then some owner_wildcard
    else if is_empty token
    then some token_not_set
    else if is_empty secret
    then some secret_not_set
    else none)

-- New, once the raw settings are decoded
unfoldable pub build :
    Text → Text → IpVersion → Prefix → Text → Text → Result SettingsError Domeneshop
build domain owner version suffix token secret =
    unless_refused (validate_settings domain owner token secret) (record {
      domain = domain;
      owner = owner;
      ip_version = version;
      ipv6_suffix = suffix;
      token = token;
      secret = secret;
    })

-- New
unfoldable pub new : Object → Text → Text → IpVersion → Prefix → Result SettingsError Domeneshop
new raw domain owner version suffix = do
  token ← string_field (bytes "token") raw
  secret ← string_field (bytes "secret") raw
  build domain owner version suffix token secret

unfoldable pub request : Domeneshop → Addr → Request
request p ip =
    get (some (p.token, p.secret)) (bytes "api.domeneshop.no") (bytes "/v0/dyndns/update") (
      set_value (bytes "myip") (addr_string ip)
        (set_value (bytes "hostname") (build_url_query_hostname p.owner p.domain) []))

unfoldable pub classify : Addr → ℕ → Result UpdateError Addr
classify ip status =
    if status == 204
    then ok ip
    else if status == 404
    then err hostname_not_exists
    else err http_status_not_valid

-- Update
unfoldable pub update : Domeneshop → Client → Addr → Result UpdateError Addr
update p client ip = read_status (classify ip) (client 0 (request p ip))

-- The methods of the interface
unfoldable pub provider : Domeneshop → Provider
provider p =
    methods (bytes "domeneshop") (bytes "<a href=\"https://domene.shop/\">Domeneshop</a>") p.domain
      p.owner p.ip_version p.ipv6_suffix (update p)

pub request-Carries : (p : Domeneshop) (ip : Addr) → Carries ip (request p ip)
unfolding request get set_value get_value text_eq bytes
request-Carries p ip = (bytes "myip", refl)

classify-AnswersStatus : (ip : Addr) → AnswersStatus ip (classify ip)
unfolding classify
classify-AnswersStatus ip status a h = ground arith

pub update-Confirms : (p : Domeneshop) → Confirms true true (provider p).update
unfolding update request get provider methods
update-Confirms p client ip a =
    read_status-Confirmed true (provider p).update client ip a (request p ip) refl
      (λ _. request-Carries p ip) (classify ip) (λ c. refl) (classify-AnswersStatus ip)

pub new-Accepted :
    (raw : Object) (domain owner : Text) (version : IpVersion) (suffix : Prefix) (p : Domeneshop)
    → new raw domain owner version suffix ≡ ok p
    → Accepted false domain version suffix (provider p)
unfolding new build validate_settings provider methods
new-Accepted raw domain owner version suffix p h =
    let made =
      two_fields (string_field (bytes "token") raw) (string_field (bytes "secret") raw)
        (build domain owner version suffix) h in
    accepted false domain version suffix provider _ _ p made.2
      (refl, (refl, (refl, λ e k. ground arith)))
