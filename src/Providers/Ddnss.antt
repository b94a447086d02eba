-- ===== src/Providers/Ddnss.antt =====
-- internal/provider/providers/ddnss/provider.go
use ddns_updater.Prelude.{
  ◌==◌, if◌then◌else◌, Bool-cases, Text, bytes, text_eq, is_empty, contains, ℕ, ◌≡◌, refl, inl, inr,
  Bool, true, false, not, ◌&&◌, Option, none, some, [], arith,
}
use ddns_updater.Result.{Result, ok, err, ◌>>=◌}
use ddns_updater.IpVersion.{IpVersion}
use ddns_updater.Netip.{Addr, Prefix, is6}
use ddns_updater.Netip.Print.{addr_string}
use ddns_updater.Domain.{build_url_query_hostname}
use ddns_updater.Provider.{
  UpdateError, auth, hostname_not_exists, http_status_not_valid, unknown_response,
  system_param_not_valid, SettingsError, owner_wildcard, username_not_set, password_not_set,
  set_value, get_value, Request, Client, read_reply, get, Object, string_field, bool_field,
  after_domain, unless_refused, Provider, methods,
}
use ddns_updater.Provider.Laws.{
  Carries, Confirms, Answers, read_reply-Confirmed, Accepted, accepted, three_fields,
}

pub record Ddnss : Type 0 where
  pub domain : Text
  pub owner : Text
  pub ip_version : IpVersion
  pub ipv6_suffix : Prefix
  pub username : Text
  pub password : Text
  pub dual_stack : Bool

-- validateSettings
unfoldable pub validate_settings : Text → Text → Text → Text → Option SettingsError
validate_settings domain owner username password = after_domain domain (
    if text_eq owner (bytes "*")
    then some owner_wildcard
    else if is_empty username
    then some username_not_set
    else if is_empty password
    then some password_not_set
    else none)

-- New, once the raw settings are decoded
unfoldable pub build :
    Text → Text → IpVersion → Prefix → Text → Text → Bool → Result SettingsError Ddnss
build domain owner version suffix username password dual_stack =
    unless_refused (validate_settings domain owner username password) (record {
      domain = domain;
      owner = owner;
      ip_version = version;
      ipv6_suffix = suffix;
      username = username;
      password = password;
      dual_stack = dual_stack;
    })

-- New
unfoldable pub new : Object → Text → Text → IpVersion → Prefix → Result SettingsError Ddnss
new raw domain owner version suffix = do
  username ← string_field (bytes "username") raw
  password ← string_field (bytes "password") raw
  dual_stack ← bool_field (bytes "dual_stack") raw
  build domain owner version suffix username password dual_stack

unfoldable pub ip_key : Bool → Addr → Text
ip_key dual_stack ip = if dual_stack && is6 ip then bytes "ip6" else bytes "ip"

unfoldable pub request : Ddnss → Addr → Request
request p ip = get none (bytes "www.ddnss.de") (bytes "/upd.php") (
    set_value (ip_key p.dual_stack ip) (addr_string ip) (
      set_value (bytes "host") (build_url_query_hostname p.owner p.domain)
        (set_value (bytes "pwd") p.password (set_value (bytes "user") p.username []))))

unfoldable pub classify : Addr → ℕ → Text → Result UpdateError Addr
classify ip status s =
    if not (status == 200)
    then err http_status_not_valid
    else if contains s (bytes "badysys")
    then err system_param_not_valid
    else if contains s (bytes "badauth")
    then err auth
    else if contains s (bytes "notfqdn")
    then err hostname_not_exists
    else if contains s (bytes "updated 1 hostname")
    then ok ip
    else err unknown_response

-- Update
unfoldable pub update : Ddnss → Client → Addr → Result UpdateError Addr
update p client ip = read_reply (classify ip) (client 0 (request p ip))

-- The methods of the interface
unfoldable pub provider : Ddnss → Provider
provider p =
    methods (bytes "ddnss") (bytes "<a href=\"https://ddnss.de/\">DDNSS.de</a>") p.domain p.owner
      p.ip_version p.ipv6_suffix (update p)

pub request-Carries : (p : Ddnss) (ip : Addr) → Carries ip (request p ip)
unfolding request get set_value get_value text_eq bytes ip_key
request-Carries p ip = elim (Bool-cases (p.dual_stack && is6 ip)) [
  | inl e ↦ (bytes "ip6", rw e refl)
  | inr e ↦ (bytes "ip", rw e refl)
]

classify-Answers : (ip : Addr) → Answers ip (classify ip)
unfolding classify
classify-Answers ip status s a h = ground arith

pub update-Confirms : (p : Ddnss) → Confirms true true (provider p).update
unfolding update request get provider methods
update-Confirms p client ip a =
    read_reply-Confirmed true (provider p).update client ip a (request p ip) refl
      (λ _. request-Carries p ip) (classify ip) (λ c. refl) (classify-Answers ip)

pub new-Accepted :
    (raw : Object) (domain owner : Text) (version : IpVersion) (suffix : Prefix) (p : Ddnss)
    → new raw domain owner version suffix ≡ ok p
    → Accepted false domain version suffix (provider p)
unfolding new build validate_settings provider methods
new-Accepted raw domain owner version suffix p h =
    let made =
      three_fields (string_field (bytes "username") raw) (string_field (bytes "password") raw)
        (bool_field (bytes "dual_stack") raw) (build domain owner version suffix) h in
    accepted false domain version suffix provider _ _ p made.3
      (refl, (refl, (refl, λ e k. ground arith)))
