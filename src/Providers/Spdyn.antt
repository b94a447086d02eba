-- ===== src/Providers/Spdyn.antt =====
-- internal/provider/providers/spdyn/provider.go
use ddns_updater.Prelude.{
  ◌==◌, if◌then◌else◌, Bool-cases, Text, bytes, text_eq, is_empty, has_prefix, ℕ, ◌≡◌, refl, inl,
  inr, Bool, true, false, not, ◌||◌, Option, none, some, List, [], ◌∷◌, arith,
}
use ddns_updater.Result.{Result, ok, err, ◌>>=◌}
use ddns_updater.IpVersion.{IpVersion}
use ddns_updater.Netip.{Addr, Prefix}
use ddns_updater.Netip.Print.{addr_string}
use ddns_updater.Domain.{build_url_query_hostname}
use ddns_updater.Provider.{
  UpdateError, auth, bad_request, banned_abuse, hostname_not_exists, http_status_not_valid,
  unknown_response, SettingsError, owner_wildcard, username_not_set, password_not_set, Values,
  set_value, get_value, Request, Client, read_reply, get, Object, string_field, after_domain,
  unless_refused, Provider, methods,
}
use ddns_updater.Provider.Laws.{
  Carries, Confirms, Answers, read_reply-Confirmed, Accepted, accepted, three_fields,
}

pub record Spdyn : Type 0 where
  pub domain : Text
  pub owner : Text
  pub ip_version : IpVersion
  pub ipv6_suffix : Prefix
  pub user : Text
  pub password : Text
  pub token : Text

-- validateSettings
unfoldable pub validate_settings : Text → Text → Text → Text → Text → Option SettingsError
validate_settings domain owner token user password = after_domain domain (
    if text_eq owner (bytes "*")
    then some owner_wildcard
    else if is_empty token
    then (if is_empty user
        then some username_not_set
        else if is_empty password
        then some password_not_set
        else none)
    else none)

-- New, once the raw settings are decoded
unfoldable pub build :
    Text → Text → IpVersion → Prefix → Text → Text → Text → Result SettingsError Spdyn
build domain owner version suffix user password token =
    unless_refused (validate_settings domain owner token user password) (record {
      domain = domain;
      owner = owner;
      ip_version = version;
      ipv6_suffix = suffix;
      user = user;
      password = password;
      token = token;
    })

-- New
unfoldable pub new : Object → Text → Text → IpVersion → Prefix → Result SettingsError Spdyn
new raw domain owner version suffix = do
  user ← string_field (bytes "user") raw
  password ← string_field (bytes "password") raw
  token ← string_field (bytes "token") raw
  build domain owner version suffix user password token

-- The token goes with the host name, or else the user with the password.
unfoldable pub set_credentials : Spdyn → Values → Values
set_credentials p values =
    if not (is_empty p.token)
    then set_value (bytes "pass") p.token
        (set_value (bytes "user") (build_url_query_hostname p.owner p.domain) values)
    else set_value (bytes "pass") p.password (set_value (bytes "user") p.user values)

unfoldable pub request : Spdyn → Addr → Request
request p ip = get none (bytes "update.spdyn.de") (bytes "/nic/update") (
    set_credentials p (
      set_value (bytes "myip") (addr_string ip)
        (set_value (bytes "hostname") (build_url_query_hostname p.owner p.domain) [])))

-- isAny
unfoldable pub is_any : Text → List Text → Bool
is_any s [] = false
is_any s (value ∷ values) = text_eq s value || is_any s values

unfoldable pub classify : Addr → ℕ → Text → Result UpdateError Addr
classify ip status s =
    if not (status == 200)
    then err http_status_not_valid
    else if is_any s (bytes "abuse" ∷ bytes "numhost" ∷ [])
    then err banned_abuse
    else if is_any s (bytes "badauth" ∷ bytes "!yours" ∷ [])
    then err auth
    else if has_prefix s (bytes "good")
    then ok ip
    else if text_eq s (bytes "notfqdn")
    then err bad_request
    else if has_prefix s (bytes "nochg")
    then ok ip
    else if is_any s (bytes "nohost" ∷ bytes "fatal" ∷ [])
    then err hostname_not_exists
    else err unknown_response

-- Update
unfoldable pub update : Spdyn → Client → Addr → Result UpdateError Addr
update p client ip = read_reply (classify ip) (client 0 (request p ip))

-- The methods of the interface
unfoldable pub provider : Spdyn → Provider
provider p =
    methods (bytes "spdyn") (bytes "<a href=\"https://spdyn.com/\">Spdyn DNS</a>") p.domain p.owner
      p.ip_version p.ipv6_suffix (update p)

pub request-Carries : (p : Spdyn) (ip : Addr) → Carries ip (request p ip)
unfolding request get set_value get_value text_eq bytes set_credentials
request-Carries p ip = elim (Bool-cases (not (is_empty p.token))) [
  | inl e ↦ (bytes "myip", rw e refl)
  | inr e ↦ (bytes "myip", rw e refl)
]

classify-Answers : (ip : Addr) → Answers ip (classify ip)
unfolding classify
classify-Answers ip status s a h = ground arith

pub update-Confirms : (p : Spdyn) → Confirms true true (provider p).update
unfolding update request get provider methods
update-Confirms p client ip a =
    read_reply-Confirmed true (provider p).update client ip a (request p ip) refl
      (λ _. request-Carries p ip) (classify ip) (λ c. refl) (classify-Answers ip)

pub new-Accepted :
    (raw : Object) (domain owner : Text) (version : IpVersion) (suffix : Prefix) (p : Spdyn)
    → new raw domain owner version suffix ≡ ok p
    → Accepted false domain version suffix (provider p)
unfolding new build validate_settings provider methods
new-Accepted raw domain owner version suffix p h =
    let made =
      three_fields (string_field (bytes "user") raw) (string_field (bytes "password") raw)
        (string_field (bytes "token") raw) (build domain owner version suffix) h in
    accepted false domain version suffix provider _ _ p made.3
      (refl, (refl, (refl, λ e k. ground arith)))
