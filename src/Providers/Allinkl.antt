-- ===== src/Providers/Allinkl.antt =====
-- internal/provider/providers/allinkl/provider.go
use ddns_updater.Prelude.{
  ◌==◌, if◌then◌else◌, Bool-cases, Text, bytes, text_eq, is_empty, contains, ℕ, ◌≡◌, refl, inl, inr,
  true, false, not, ◌&&◌, Option, none, some, [], arith,
}
use ddns_updater.Result.{Result, ok, err, ◌>>=◌}
use ddns_updater.IpVersion.{IpVersion}
use ddns_updater.Netip.{Addr, Prefix, is6}
use ddns_updater.Netip.Print.{addr_string}
use ddns_updater.Domain.{build_url_query_hostname}
use ddns_updater.Provider.{
  UpdateError, auth, banned_abuse, banned_user_agent, dns_server_side, feature_unavailable,
  hostname_not_exists, http_status_not_valid, received_no_result, unknown_response, SettingsError,
  owner_wildcard, username_not_set, password_not_set, Values, set_value, get_value, Request, Client,
  read_reply, extract_as4, expect_first, get, Object, string_field, after_domain, unless_refused,
  Provider, methods,
}
use ddns_updater.Provider.Laws.{
  Carries, Confirms, Answers, read_reply-Confirmed, expect_first-ok, Accepted, accepted, two_fields,
}

pub record Allinkl : Type 0 where
  pub domain : Text
  pub owner : Text
  pub ip_version : IpVersion
  pub ipv6_suffix : Prefix
  pub username : Text
  pub password : Text

-- validateSettings
unfoldable pub validate_settings : Text → Text → Text → Text → Option SettingsError
validate_settings domain owner username password = after_domain domain (
    if text_eq owner (bytes "*")
    then some owner_wildcard
    else if is_empty username
    then some username_not_set
    else if is_empty password
    then some password_not_set
    else none)

-- New, once the raw settings are decoded
unfoldable pub build : Text → Text → IpVersion → Prefix → Text → Text → Result SettingsError Allinkl
build domain owner version suffix username password =
    unless_refused (validate_settings domain owner username password) (record {
      domain = domain;
      owner = owner;
      ip_version = version;
      ipv6_suffix = suffix;
      username = username;
      password = password;
    })

-- New
unfoldable pub new : Object → Text → Text → IpVersion → Prefix → Result SettingsError Allinkl
new raw domain owner version suffix = do
  username ← string_field (bytes "username") raw
  password ← string_field (bytes "password") raw
  build domain owner version suffix username password

-- The address, under the key for its kind
unfoldable pub set_address : Addr → Values → Values
set_address ip values =
    if is6 ip
    then set_value (bytes "myip6") (addr_string ip) values
    else set_value (bytes "myip") (addr_string ip) values

unfoldable pub request : Allinkl → Addr → Request
request p ip =
    get (some (p.username, p.password)) (bytes "dyndns.kasserver.com") (bytes "/")
      (set_address ip (set_value (bytes "host") (build_url_query_hostname p.owner p.domain) []))

-- The body, once no whole text is recognised.
unfoldable pub classify_rest : Addr → ℕ → Text → Result UpdateError Addr
classify_rest ip status s =
    if not (contains s (bytes "nochg")) && not (contains s (bytes "good"))
    then err unknown_response
    else expect_first ip (extract_as4 ip s)

unfoldable pub classify : Addr → ℕ → Text → Result UpdateError Addr
classify ip status s =
    if not (status == 200)
    then err http_status_not_valid
    else if is_empty s
    then err received_no_result
    else if text_eq s (bytes "911")
    then err dns_server_side
    else if text_eq s (bytes "abuse")
    then err banned_abuse
    else if text_eq s (bytes "!donator")
    then err feature_unavailable
    else if text_eq s (bytes "badagent")
    then err banned_user_agent
    else if text_eq s (bytes "badauth")
    then err auth
    else if text_eq s (bytes "nohost")
    then err hostname_not_exists
    else classify_rest ip status s

-- Update
unfoldable pub update : Allinkl → Client → Addr → Result UpdateError Addr
update p client ip = read_reply (classify ip) (client 0 (request p ip))

-- The methods of the interface
unfoldable pub provider : Allinkl → Provider
provider p =
    methods (bytes "allinkl") (bytes "<a href=\"https://all-inkl.com/\">ALL-INKL.com</a>") p.domain
      p.owner p.ip_version p.ipv6_suffix (update p)

pub request-Carries : (p : Allinkl) (ip : Addr) → Carries ip (request p ip)
unfolding request get set_value get_value text_eq bytes set_address
request-Carries p ip = elim (Bool-cases (is6 ip)) [
  | inl e ↦ (bytes "myip6", rw e refl)
  | inr e ↦ (bytes "myip", rw e refl)
]

classify-Answers : (ip : Addr) → Answers ip (classify ip)
unfolding classify classify_rest
classify-Answers ip status s a h = ground (arith, expect_first-ok ip (extract_as4 ip s) a)

pub update-Confirms : (p : Allinkl) → Confirms true true (provider p).update
unfolding update request get provider methods
update-Confirms p client ip a =
    read_reply-Confirmed true (provider p).update client ip a (request p ip) refl
      (λ _. request-Carries p ip) (classify ip) (λ c. refl) (classify-Answers ip)

pub new-Accepted :
    (raw : Object) (domain owner : Text) (version : IpVersion) (suffix : Prefix) (p : Allinkl)
    → new raw domain owner version suffix ≡ ok p
    → Accepted false domain version suffix (provider p)
unfolding new build validate_settings provider methods
new-Accepted raw domain owner version suffix p h =
    let made =
      two_fields (string_field (bytes "username") raw) (string_field (bytes "password") raw)
        (build domain owner version suffix) h in
    accepted false domain version suffix provider _ _ p made.2
      (refl, (refl, (refl, λ e k. ground arith)))
