-- ===== src/Providers/Infomaniak.antt =====
-- internal/provider/providers/infomaniak/provider.go
use ddns_updater.Prelude.{
  ◌==◌, if◌then◌else◌, Text, bytes, text_eq, is_empty, has_prefix, trim_prefix, ℕ, ◌≡◌, refl, true,
  false, Option, none, some, List, [], ◌∷◌, ◌++◌, arith,
}
use ddns_updater.Result.{Result, ok, err, ◌>>=◌}
use ddns_updater.IpVersion.{IpVersion}
use ddns_updater.Netip.{Addr, Prefix, addr_eq}
use ddns_updater.Netip.Print.{addr_string}
use ddns_updater.Netip.Parse.{parse_addr}
use ddns_updater.Domain.{build_url_query_hostname}
use ddns_updater.Provider.{
  UpdateError, auth, hostname_not_exists, http_status_not_valid, ip_received_malformed,
  ip_received_mismatch, unknown_response, SettingsError, owner_wildcard, username_not_set,
  password_not_set, set_value, get_value, Request, Client, read_reply, get, Object, string_field,
  after_domain, unless_refused, Provider, methods,
}
use ddns_updater.Provider.Laws.{
  Carries, Confirms, Answers, read_reply-Confirmed, Accepted, accepted, two_fields,
}
use ddns_updater.Netip.{addr_eq_sound}

pub record Infomaniak : Type 0 where
  pub domain : Text
  pub owner : Text
  pub ip_version : IpVersion
  pub ipv6_suffix : Prefix
  pub username : Text
  pub password : Text

-- validateSettings
unfoldable pub validate_settings : Text → Text → Text → Text → Option SettingsError
validate_settings domain owner username password = after_domain domain (
    if text_eq owner (bytes "*")
    then some owner_wildcard
    else if is_empty username
    then some username_not_set
    else if is_empty password
    then some password_not_set
    else none)

-- New, once the raw settings are decoded
unfoldable pub build :
    Text → Text → IpVersion → Prefix → Text → Text → Result SettingsError Infomaniak
build domain owner version suffix username password =
    unless_refused (validate_settings domain owner username password) (record {
      domain = domain;
      owner = owner;
      ip_version = version;
      ipv6_suffix = suffix;
      username = username;
      password = password;
    })

-- New
unfoldable pub new : Object → Text → Text → IpVersion → Prefix → Result SettingsError Infomaniak
new raw domain owner version suffix = do
  username ← string_field (bytes "username") raw
  password ← string_field (bytes "password") raw
  build domain owner version suffix username password

unfoldable pub request : Infomaniak → Addr → Request
request p ip = get (some (p.username, p.password)) (bytes "infomaniak.com") (bytes "/nic/update") (
    set_value (bytes "myip") (addr_string ip)
      (set_value (bytes "hostname") (build_url_query_hostname p.owner p.domain) []))

-- The loop over the prefixes: the first one found, if any.
unfoldable pub prefix_in : Text → List Text → Text
prefix_in s [] = []
prefix_in s (prefix ∷ prefixes) = if has_prefix s prefix then prefix else prefix_in s prefixes

abbrev pub success_prefixes : List Text
success_prefixes =
    bytes "successfully_changed" ∷ bytes "no_change" ∷ bytes "good" ∷ bytes "nochg" ∷ []

unfoldable pub compare_received : Addr → Option Addr → Result UpdateError Addr
compare_received ip none = err ip_received_malformed
compare_received ip (some new_ip) =
    if addr_eq ip new_ip then ok new_ip else err ip_received_mismatch

unfoldable pub classify_ok : Addr → Text → Text → Result UpdateError Addr
classify_ok ip prefix_found s =
    if is_empty prefix_found
    then err unknown_response
    else compare_received ip (parse_addr (trim_prefix s (prefix_found ++ bytes " ")))

unfoldable pub classify_bad_request : Text → Result UpdateError Addr
classify_bad_request s =
    if text_eq s (bytes "nohost")
    then err hostname_not_exists
    else if text_eq s (bytes "badauth")
    then err auth
    else err http_status_not_valid

unfoldable pub classify : Addr → ℕ → Text → Result UpdateError Addr
classify ip status s =
    if status == 200
    then classify_ok ip (prefix_in s success_prefixes) s
    else if status == 400
    then classify_bad_request s
    else err http_status_not_valid

-- Update
unfoldable pub update : Infomaniak → Client → Addr → Result UpdateError Addr
update p client ip = read_reply (classify ip) (client 0 (request p ip))

-- The methods of the interface
unfoldable pub provider : Infomaniak → Provider
provider p =
    methods (bytes "infomaniak") (bytes "<a href=\"https://www.infomaniak.com/\">Infomaniak</a>")
      p.domain p.owner p.ip_version p.ipv6_suffix (update p)

pub request-Carries : (p : Infomaniak) (ip : Addr) → Carries ip (request p ip)
unfolding request get set_value get_value text_eq bytes
request-Carries p ip = (bytes "myip", refl)

compare_received-ok :
    (ip : Addr) (o : Option Addr) (a : Addr) → compare_received ip o ≡ ok a → a ≡ ip
unfolding compare_received
compare_received-ok ip none a h = cc
compare_received-ok ip (some b) a h = ground (arith, addr_eq_sound ip b)

classify_ok-same :
    (ip : Addr) (prefix_found s : Text) (a : Addr) → classify_ok ip prefix_found s ≡ ok a → a ≡ ip
unfolding classify_ok
classify_ok-same ip found s a h =
    ground (arith, compare_received-ok ip (parse_addr (trim_prefix s (found ++ bytes " "))) a)

classify-Answers : (ip : Addr) → Answers ip (classify ip)
unfolding classify classify_bad_request
classify-Answers ip status s a h =
    ground (arith, classify_ok-same ip (prefix_in s success_prefixes) s a)

pub update-Confirms : (p : Infomaniak) → Confirms true true (provider p).update
unfolding update request get provider methods
update-Confirms p client ip a =
    read_reply-Confirmed true (provider p).update client ip a (request p ip) refl
      (λ _. request-Carries p ip) (classify ip) (λ c. refl) (classify-Answers ip)

pub new-Accepted :
    (raw : Object) (domain owner : Text) (version : IpVersion) (suffix : Prefix) (p : Infomaniak)
    → new raw domain owner version suffix ≡ ok p
    → Accepted false domain version suffix (provider p)
unfolding new build validate_settings provider methods
new-Accepted raw domain owner version suffix p h =
    let made =
      two_fields (string_field (bytes "username") raw) (string_field (bytes "password") raw)
        (build domain owner version suffix) h in
    accepted false domain version suffix provider _ _ p made.2
      (refl, (refl, (refl, λ e k. ground arith)))
