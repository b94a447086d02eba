-- ===== src/Providers/Changeip.antt =====
-- internal/provider/providers/changeip/provider.go
use ddns_updater.Prelude.{
  ◌==◌, if◌then◌else◌, Text, bytes, text_eq, is_empty, ◌≡◌, refl, true, not, Option, none, some, [],
  arith,
}
use ddns_updater.Result.{Result, ok, err, ◌>>=◌}
use ddns_updater.IpVersion.{IpVersion}
use ddns_updater.Netip.{Addr, Prefix}
use ddns_updater.Netip.Print.{addr_string}
use ddns_updater.Domain.{build_url_query_hostname}
use ddns_updater.Provider.{
  UpdateError, creating_request, doing_request, reading_response, http_status_not_valid,
  SettingsError, username_not_set, password_not_set, set_value, get_value, Request, Reply,
  not_created, not_done, unread, replied, Client, get, Object, string_field, after_domain,
  unless_refused, Provider, methods,
}
use ddns_updater.Provider.Laws.{
  Carries, Confirms, AnswersReply, reply-Confirmed, Accepted, accepted, two_fields,
}

pub record Changeip : Type 0 where
  pub domain : Text
  pub owner : Text
  pub ip_version : IpVersion
  pub ipv6_suffix : Prefix
  pub username : Text
  pub password : Text

-- validateSettings
unfoldable pub validate_settings : Text → Text → Text → Option SettingsError
validate_settings domain username password = after_domain domain (
    if is_empty username
    then some username_not_set
    else if is_empty password
    then some password_not_set
    else none)

-- New, once the raw settings are decoded
unfoldable pub build :
    Text → Text → IpVersion → Prefix → Text → Text → Result SettingsError Changeip
build domain owner version suffix username password =
    unless_refused (validate_settings domain username password) (record {
      domain = domain;
      owner = owner;
      ip_version = version;
      ipv6_suffix = suffix;
      username = username;
      password = password;
    })

-- New
unfoldable pub new : Object → Text → Text → IpVersion → Prefix → Result SettingsError Changeip
new raw domain owner version suffix = do
  username ← string_field (bytes "username") raw
  password ← string_field (bytes "password") raw
  build domain owner version suffix username password

unfoldable pub request : Changeip → Addr → Request
request p ip =
    get (some (p.username, p.password)) (bytes "nic.ChangeIP.com") (bytes "/nic/update") (
      set_value (bytes "ip") (addr_string ip)
        (set_value (bytes "hostname") (build_url_query_hostname p.owner p.domain) []))

-- A success whose body is not closed is an error.
unfoldable pub answer : Addr → Reply → Result UpdateError Addr
answer ip not_created = err creating_request
answer ip not_done = err doing_request
answer ip (unread status) =
    if not (status == 200) then err http_status_not_valid else err reading_response
answer ip (replied status body) = if not (status == 200) then err http_status_not_valid else ok ip

-- Update
unfoldable pub update : Changeip → Client → Addr → Result UpdateError Addr
update p client ip = answer ip (client 0 (request p ip))

-- The methods of the interface
unfoldable pub provider : Changeip → Provider
provider p =
    methods (bytes "changeip") (bytes "<a href=\"https://www.changeip.com\">changeip.com</a>")
      p.domain p.owner p.ip_version p.ipv6_suffix (update p)

pub request-Carries : (p : Changeip) (ip : Addr) → Carries ip (request p ip)
unfolding request get set_value get_value text_eq bytes
request-Carries p ip = (bytes "ip", refl)

answer-AnswersReply : (ip : Addr) → AnswersReply ip (answer ip)
unfolding answer
answer-AnswersReply ip not_created a h = cc
answer-AnswersReply ip not_done a h = cc
answer-AnswersReply ip (unread status) a h = ground arith
answer-AnswersReply ip (replied status body) a h = (ground arith, (status, (refl, ground arith)))

pub update-Confirms : (p : Changeip) → Confirms true true (provider p).update
unfolding update request get provider methods
update-Confirms p client ip a =
    reply-Confirmed true (provider p).update client ip a (request p ip) refl
      (λ _. request-Carries p ip) (answer ip) (λ c. refl) (answer-AnswersReply ip)

pub new-Accepted :
    (raw : Object) (domain owner : Text) (version : IpVersion) (suffix : Prefix) (p : Changeip)
    → new raw domain owner version suffix ≡ ok p
    → Accepted true domain version suffix (provider p)
unfolding new build validate_settings provider methods
new-Accepted raw domain owner version suffix p h =
    let made =
      two_fields (string_field (bytes "username") raw) (string_field (bytes "password") raw)
        (build domain owner version suffix) h in
    accepted true domain version suffix provider _ _ p made.2 (refl, (refl, (refl, λ e k. cc)))
