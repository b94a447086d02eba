-- ===== src/Providers/Noip.antt =====
-- internal/provider/providers/noip/provider.go
use ddns_updater.Prelude.{
  ltb, ◌==◌, if◌then◌else◌, length, Text, bytes, text_eq, is_empty, contains, ℕ, ◌≡◌, refl, true,
  false, not, ◌&&◌, Option, none, some, [], arith,
}
use ddns_updater.Result.{Result, ok, err, ◌>>=◌}
use ddns_updater.IpVersion.{IpVersion}
use ddns_updater.Netip.{Addr, Prefix}
use ddns_updater.Netip.Print.{addr_string}
use ddns_updater.Domain.{build_url_query_hostname}
use ddns_updater.Provider.{
  UpdateError, auth, banned_abuse, banned_user_agent, dns_server_side, feature_unavailable,
  hostname_not_exists, http_status_not_valid, received_no_result, unknown_response, SettingsError,
  owner_wildcard, username_not_set, username_not_valid, password_not_set, set_value, get_value,
  Request, Client, read_reply, extract_as4, expect_first, get, Object, string_field, after_domain,
  unless_refused, Provider, methods,
}
use ddns_updater.Provider.Laws.{
  Carries, Confirms, Answers, read_reply-Confirmed, expect_first-ok, Accepted, accepted, two_fields,
}

pub record Noip : Type 0 where
  pub domain : Text
  pub owner : Text
  pub ip_version : IpVersion
  pub ipv6_suffix : Prefix
  pub username : Text
  pub password : Text

-- validateSettings
unfoldable pub validate_settings : Text → Text → Text → Text → Option SettingsError
validate_settings domain owner username password = after_domain domain (
    if text_eq owner (bytes "*")
    then some owner_wildcard
    else if is_empty username
    then some username_not_set
    else if ltb 50 (length username)
    then some username_not_valid
    else if is_empty password
    then some password_not_set
    else none)

-- New, once the raw settings are decoded
unfoldable pub build : Text → Text → IpVersion → Prefix → Text → Text → Result SettingsError Noip
build domain owner version suffix username password =
    unless_refused (validate_settings domain owner username password) (record {
      domain = domain;
      owner = owner;
      ip_version = version;
      ipv6_suffix = suffix;
      username = username;
      password = password;
    })

-- New
unfoldable pub new : Object → Text → Text → IpVersion → Prefix → Result SettingsError Noip
new raw domain owner version suffix = do
  username ← string_field (bytes "username") raw
  password ← string_field (bytes "password") raw
  build domain owner version suffix username password

unfoldable pub request : Noip → Addr → Request
request p ip =
    get (some (p.username, p.password)) (bytes "dynupdate.no-ip.com") (bytes "/nic/update") (
      set_value (bytes "myip") (addr_string ip)
        (set_value (bytes "hostname") (build_url_query_hostname p.owner p.domain) []))

-- The body, once no whole text is recognised.
unfoldable pub classify_rest : Addr → ℕ → Text → Result UpdateError Addr
classify_rest ip status s =
    if not (status == 200)
    then err http_status_not_valid
    else if not (contains s (bytes "nochg")) && not (contains s (bytes "good"))
    then err unknown_response
    else expect_first ip (extract_as4 ip s)

unfoldable pub classify : Addr → ℕ → Text → Result UpdateError Addr
classify ip status s =
    if is_empty s
    then err received_no_result
    else if text_eq s (bytes "911")
    then err dns_server_side
    else if text_eq s (bytes "abuse")
    then err banned_abuse
    else if text_eq s (bytes "!donator")
    then err feature_unavailable
    else if text_eq s (bytes "badagent")
    then err banned_user_agent
    else if text_eq s (bytes "badauth")
    then err auth
    else if text_eq s (bytes "nohost")
    then err hostname_not_exists
    else classify_rest ip status s

-- Update
unfoldable pub update : Noip → Client → Addr → Result UpdateError Addr
update p client ip = read_reply (classify ip) (client 0 (request p ip))

-- The methods of the interface
unfoldable pub provider : Noip → Provider
provider p =
    methods (bytes "noip") (bytes "<a href=\"https://www.noip.com/\">NoIP</a>") p.domain p.owner
      p.ip_version p.ipv6_suffix (update p)

pub request-Carries : (p : Noip) (ip : Addr) → Carries ip (request p ip)
unfolding request get set_value get_value text_eq bytes
request-Carries p ip = (bytes "myip", refl)

classify-Answers : (ip : Addr) → Answers ip (classify ip)
unfolding classify classify_rest
classify-Answers ip status s a h = ground (arith, expect_first-ok ip (extract_as4 ip s) a)

pub update-Confirms : (p : Noip) → Confirms true true (provider p).update
unfolding update request get provider methods
update-Confirms p client ip a =
    read_reply-Confirmed true (provider p).update client ip a (request p ip) refl
      (λ _. request-Carries p ip) (classify ip) (λ c. refl) (classify-Answers ip)

pub new-Accepted :
    (raw : Object) (domain owner : Text) (version : IpVersion) (suffix : Prefix) (p : Noip)
    → new raw domain owner version suffix ≡ ok p
    → Accepted false domain version suffix (provider p)
unfolding new build validate_settings provider methods
new-Accepted raw domain owner version suffix p h =
    let made =
      two_fields (string_field (bytes "username") raw) (string_field (bytes "password") raw)
        (build domain owner version suffix) h in
    accepted false domain version suffix provider _ _ p made.2
      (refl, (refl, (refl, λ e k. ground arith)))
