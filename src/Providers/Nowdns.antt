-- ===== src/Providers/Nowdns.antt =====
-- internal/provider/providers/nowdns/provider.go
use ddns_updater.Prelude.{
  ◌==◌, if◌then◌else◌, Text, bytes, text_eq, is_empty, contains, ℕ, ◌≡◌, refl, true, false, Option,
  none, some, [], arith,
}
use ddns_updater.IpVersion
use ddns_updater.Result.{Result, ok, err, ◌>>=◌}
use ddns_updater.IpVersion.{IpVersion}
use ddns_updater.Netip.{Addr, Prefix, addr_eq}
use ddns_updater.Netip.Print.{addr_string}
use ddns_updater.Netip.Parse.{parse_addr}
use ddns_updater.Provider.{
  UpdateError, auth, hostname_not_exists, http_status_not_valid, ip_received_malformed,
  ip_received_mismatch, received_no_result, unknown_response, SettingsError, username_not_set,
  password_not_set, set_value, get_value, Request, Client, read_reply, get, Object, string_field,
  after_domain, unless_refused, Provider, domain_link, methods,
}
use ddns_updater.Provider.Laws.{
  Carries, Confirms, Answers, read_reply-Confirmed, Accepted, accepted, two_fields,
}

pub record Nowdns : Type 0 where
  pub domain : Text
  pub ip_version : IpVersion
  pub ipv6_suffix : Prefix
  pub username : Text
  pub password : Text

-- validateSettings
unfoldable pub validate_settings : Text → Text → Text → Option SettingsError
validate_settings domain username password = after_domain domain (
    if is_empty username
    then some username_not_set
    else if is_empty password
    then some password_not_set
    else none)

-- New, once the raw settings are decoded
unfoldable pub build : Text → IpVersion → Prefix → Text → Text → Result SettingsError Nowdns
build domain version suffix username password =
    unless_refused (validate_settings domain username password) (record {
      domain = domain;
      ip_version = version;
      ipv6_suffix = suffix;
      username = username;
      password = password;
    })

-- New
unfoldable pub new : Object → Text → IpVersion → Prefix → Result SettingsError Nowdns
new raw domain version suffix = do
  username ← string_field (bytes "username") raw
  password ← string_field (bytes "password") raw
  build domain version suffix username password

unfoldable pub request : Nowdns → Addr → Request
request p ip =
    get (some (p.username, p.password)) (bytes "now-dns.com") (bytes "/update")
      (set_value (bytes "myip") (addr_string ip) (set_value (bytes "hostname") p.domain []))

-- The address sent is printed and parsed again.
unfoldable pub reparsed : Addr → Option Addr → UpdateError → Result UpdateError Addr
reparsed ip none e = err e
reparsed ip (some new_ip) e = if addr_eq ip new_ip then ok ip else err ip_received_mismatch

unfoldable pub classify_ok : Addr → Text → Result UpdateError Addr
classify_ok ip s =
    if contains s (bytes "good")
    then reparsed ip (parse_addr (addr_string ip)) ip_received_malformed
    else if contains s (bytes "nochg")
    then reparsed ip (parse_addr (addr_string ip)) received_no_result
    else err unknown_response

unfoldable pub classify_bad_request : Text → Result UpdateError Addr
classify_bad_request s =
    if text_eq s (bytes "nohost")
    then err hostname_not_exists
    else if text_eq s (bytes "badauth")
    then err auth
    else err unknown_response

unfoldable pub classify : Addr → ℕ → Text → Result UpdateError Addr
classify ip status s =
    if status == 200
    then classify_ok ip s
    else if status == 400
    then classify_bad_request s
    else err http_status_not_valid

-- Update
unfoldable pub update : Nowdns → Client → Addr → Result UpdateError Addr
update p client ip = read_reply (classify ip) (client 0 (request p ip))

-- The methods of the interface
unfoldable pub provider : Nowdns → Provider
provider p =
    record (methods (bytes "nowdns") (bytes "<a href=\"https://www.now-dns.com/\">Now-DNS</a>")
      p.domain (bytes "@") p.ip_version p.ipv6_suffix (update p)) {
        build_domain_name = p.domain;
        html = record {
          domain = domain_link p.domain;
          owner = bytes "@";
          provider = bytes "<a href=\"https://www.now-dns.com/\">Now-DNS</a>";
          ip_version = IpVersion.to_string p.ip_version;
        };
      }

pub request-Carries : (p : Nowdns) (ip : Addr) → Carries ip (request p ip)
unfolding request get set_value get_value text_eq bytes
request-Carries p ip = (bytes "myip", refl)

reparsed-ok :
    (ip : Addr) (o : Option Addr) (e : UpdateError) (a : Addr) → reparsed ip o e ≡ ok a → a ≡ ip
unfolding reparsed
reparsed-ok ip none e a h = cc
reparsed-ok ip (some b) e a h = ground arith

classify-Answers : (ip : Addr) → Answers ip (classify ip)
unfolding classify classify_ok classify_bad_request
classify-Answers ip status s a h = ground (
  arith,
  reparsed-ok ip (parse_addr (addr_string ip)) ip_received_malformed a,
  reparsed-ok ip (parse_addr (addr_string ip)) received_no_result a,
)

pub update-Confirms : (p : Nowdns) → Confirms true true (provider p).update
unfolding update request get provider methods
update-Confirms p client ip a =
    read_reply-Confirmed true (provider p).update client ip a (request p ip) refl
      (λ _. request-Carries p ip) (classify ip) (λ c. refl) (classify-Answers ip)

pub new-Accepted :
    (raw : Object) (domain : Text) (version : IpVersion) (suffix : Prefix) (p : Nowdns)
    → new raw domain version suffix ≡ ok p
    → Accepted false domain version suffix (provider p)
unfolding new build validate_settings provider methods bytes text_eq
new-Accepted raw domain version suffix p h =
    let made =
      two_fields (string_field (bytes "username") raw) (string_field (bytes "password") raw)
        (build domain version suffix) h in
    accepted false domain version suffix provider _ _ p made.2
      (refl, (refl, (refl, λ e k. ground arith)))
