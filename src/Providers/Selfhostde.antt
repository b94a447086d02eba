-- ===== src/Providers/Selfhostde.antt =====
-- internal/provider/providers/selfhostde/provider.go
use ddns_updater.Prelude.{
  ◌==◌, if◌then◌else◌, Text, bytes, text_eq, is_empty, has_prefix, ℕ, ◌≡◌, refl, true, false, ◌||◌,
  Option, none, some, [], arith,
}
use ddns_updater.Result.{Result, ok, err, ◌>>=◌}
use ddns_updater.IpVersion.{IpVersion}
use ddns_updater.Netip.{Addr, Prefix}
use ddns_updater.Netip.Print.{addr_string}
use ddns_updater.Domain.{build_url_query_hostname}
use ddns_updater.Provider.{
  UpdateError, creating_request, doing_request, reading_response, auth, bad_request, banned_abuse,
  dns_server_side, hostname_not_exists, http_status_not_valid, unknown_response, zone_not_found,
  account_inactive, ip_sent_malformed, private_ip_sent, SettingsError, owner_wildcard,
  username_not_set, password_not_set, set_value, get_value, Request, Reply, not_created, not_done,
  unread, replied, Client, clean_body, get, Object, string_field, after_domain, unless_refused,
  Provider, methods,
}
use ddns_updater.Provider.Laws.{
  Carries, Confirms, AnswersStatus, AnswersReply, reply-Confirmed, Accepted, accepted, two_fields,
}

pub record Selfhostde : Type 0 where
  pub domain : Text
  pub owner : Text
  pub ip_version : IpVersion
  pub ipv6_suffix : Prefix
  pub username : Text
  pub password : Text

-- validateSettings
unfoldable pub validate_settings : Text → Text → Text → Text → Option SettingsError
validate_settings domain owner username password = after_domain domain (
    if text_eq owner (bytes "*")
    then some owner_wildcard
    else if is_empty username
    then some username_not_set
    else if is_empty password
    then some password_not_set
    else none)

-- New, once the raw settings are decoded
unfoldable pub build :
    Text → Text → IpVersion → Prefix → Text → Text → Result SettingsError Selfhostde
build domain owner version suffix username password =
    unless_refused (validate_settings domain owner username password) (record {
      domain = domain;
      owner = owner;
      ip_version = version;
      ipv6_suffix = suffix;
      username = username;
      password = password;
    })

-- New
unfoldable pub new : Object → Text → Text → IpVersion → Prefix → Result SettingsError Selfhostde
new raw domain owner version suffix = do
  username ← string_field (bytes "username") raw
  password ← string_field (bytes "password") raw
  build domain owner version suffix username password

unfoldable pub request : Selfhostde → Addr → Request
request p ip =
    get (some (p.username, p.password)) (bytes "carol.selfhost.de") (bytes "/nic/update") (
      set_value (bytes "myip") (addr_string ip)
        (set_value (bytes "hostname") (build_url_query_hostname p.owner p.domain) []))

-- The statuses but 200, whose body is not read.
unfoldable pub other_status : Addr → ℕ → Result UpdateError Addr
other_status ip status =
    if status == 204
    then ok ip
    else if status == 401
    then err auth
    else if status == 409
    then err zone_not_found
    else if status == 410
    then err account_inactive
    else if status == 411
    then err ip_sent_malformed
    else if status == 412
    then err private_ip_sent
    else if status == 503
    then err dns_server_side
    else err http_status_not_valid

unfoldable pub classify : Addr → Text → Result UpdateError Addr
classify ip s =
    if has_prefix s (bytes "notfqdn")
    then err hostname_not_exists
    else if has_prefix s (bytes "abuse")
    then err banned_abuse
    else if has_prefix s (bytes "badrequest")
    then err bad_request
    else if has_prefix s (bytes "good") || has_prefix s (bytes "nochg")
    then ok ip
    else err unknown_response

unfoldable pub answer : Addr → Reply → Result UpdateError Addr
answer ip not_created = err creating_request
answer ip not_done = err doing_request
answer ip (unread status) = if status == 200 then err reading_response else other_status ip status
answer ip (replied status body) =
    if status == 200 then classify ip (clean_body body) else other_status ip status

-- Update
unfoldable pub update : Selfhostde → Client → Addr → Result UpdateError Addr
update p client ip = answer ip (client 0 (request p ip))

-- The methods of the interface
unfoldable pub provider : Selfhostde → Provider
provider p =
    methods (bytes "selfhost.de") (bytes "<a href=\"https://selfhost.de/\">Selfhost.de</a>")
      p.domain p.owner p.ip_version p.ipv6_suffix (update p)

pub request-Carries : (p : Selfhostde) (ip : Addr) → Carries ip (request p ip)
unfolding request get set_value get_value text_eq bytes
request-Carries p ip = (bytes "myip", refl)

classify-same : (ip : Addr) (s : Text) (a : Addr) → classify ip s ≡ ok a → a ≡ ip
unfolding classify
classify-same ip s a h = ground arith

other_status-AnswersStatus : (ip : Addr) → AnswersStatus ip (other_status ip)
unfolding other_status
other_status-AnswersStatus ip status a h = ground arith

answer-AnswersReply : (ip : Addr) → AnswersReply ip (answer ip)
unfolding answer
answer-AnswersReply ip not_created a h = cc
answer-AnswersReply ip not_done a h = cc
answer-AnswersReply ip (unread status) a h = (
  ground (arith, other_status-AnswersStatus ip status a),
  (status, (refl, ground (arith, other_status-AnswersStatus ip status a))),
)
answer-AnswersReply ip (replied status body) a h =
    let other = other_status-AnswersStatus ip status a in
    (
      ground (arith, other, classify-same ip (clean_body body) a),
      (status, (refl, ground (arith, other))),
    )

pub update-Confirms : (p : Selfhostde) → Confirms true true (provider p).update
unfolding update request get provider methods
update-Confirms p client ip a =
    reply-Confirmed true (provider p).update client ip a (request p ip) refl
      (λ _. request-Carries p ip) (answer ip) (λ c. refl) (answer-AnswersReply ip)

pub new-Accepted :
    (raw : Object) (domain owner : Text) (version : IpVersion) (suffix : Prefix) (p : Selfhostde)
    → new raw domain owner version suffix ≡ ok p
    → Accepted false domain version suffix (provider p)
unfolding new build validate_settings provider methods
new-Accepted raw domain owner version suffix p h =
    let made =
      two_fields (string_field (bytes "username") raw) (string_field (bytes "password") raw)
        (build domain owner version suffix) h in
    accepted false domain version suffix provider _ _ p made.2
      (refl, (refl, (refl, λ e k. ground arith)))
