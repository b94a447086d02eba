-- ===== src/Providers/Dd24.antt =====
-- internal/provider/providers/dd24/provider.go
use ddns_updater.Prelude.{
  ◌==◌, if◌then◌else◌, Text, bytes, text_eq, is_empty, contains, ℕ, ◌≡◌, refl, true, not, ◌||◌,
  Option, none, some, [], arith,
}
use ddns_updater.Result.{Result, ok, err, ◌>>=◌}
use ddns_updater.IpVersion.{IpVersion}
use ddns_updater.Netip.{Addr, Prefix}
use ddns_updater.Netip.Print.{addr_string}
use ddns_updater.Domain.{build_domain_name}
use ddns_updater.Provider.{
  UpdateError, auth, http_status_not_valid, unknown_response, SettingsError, password_not_set,
  set_value, get_value, Request, Client, read_reply, get, Object, string_field, after_domain,
  unless_refused, Provider, methods,
}
use ddns_updater.Provider.Laws.{
  Carries, Confirms, Answers, read_reply-Confirmed, Accepted, accepted, one_field,
}

pub record Dd24 : Type 0 where
  pub domain : Text
  pub owner : Text
  pub ip_version : IpVersion
  pub ipv6_suffix : Prefix
  pub password : Text

-- validateSettings
unfoldable pub validate_settings : Text → Text → Option SettingsError
validate_settings domain password =
    after_domain domain (if is_empty password then some password_not_set else none)

-- New, once the raw settings are decoded
unfoldable pub build : Text → Text → IpVersion → Prefix → Text → Result SettingsError Dd24
build domain owner version suffix password =
    unless_refused (validate_settings domain password) (record {
      domain = domain;
      owner = owner;
      ip_version = version;
      ipv6_suffix = suffix;
      password = password;
    })

-- New
unfoldable pub new : Object → Text → Text → IpVersion → Prefix → Result SettingsError Dd24
new raw domain owner version suffix = do
  password ← string_field (bytes "password") raw
  build domain owner version suffix password

unfoldable pub request : Dd24 → Addr → Request
request p ip = get none (bytes "dynamicdns.key-systems.net") (bytes "/update.php") (
    set_value (bytes "ip") (addr_string ip) (
      set_value (bytes "password") p.password
        (set_value (bytes "hostname") (build_domain_name p.owner p.domain) [])))

unfoldable pub classify : Addr → ℕ → Text → Result UpdateError Addr
classify ip status s =
    if not (status == 200)
    then err http_status_not_valid
    else if contains s (bytes "authorization failed")
    then err auth
    else if is_empty s || contains s (bytes "success")
    then ok ip
    else err unknown_response

-- Update
unfoldable pub update : Dd24 → Client → Addr → Result UpdateError Addr
update p client ip = read_reply (classify ip) (client 0 (request p ip))

-- The methods of the interface
unfoldable pub provider : Dd24 → Provider
provider p =
    methods (bytes "dd24") (bytes "<a href=\"https://www.domaindiscount24.com/\">DD24</a>") p.domain
      p.owner p.ip_version p.ipv6_suffix (update p)

pub request-Carries : (p : Dd24) (ip : Addr) → Carries ip (request p ip)
unfolding request get set_value get_value text_eq bytes
request-Carries p ip = (bytes "ip", refl)

classify-Answers : (ip : Addr) → Answers ip (classify ip)
unfolding classify
classify-Answers ip status s a h = ground arith

pub update-Confirms : (p : Dd24) → Confirms true true (provider p).update
unfolding update request get provider methods
update-Confirms p client ip a =
    read_reply-Confirmed true (provider p).update client ip a (request p ip) refl
      (λ _. request-Carries p ip) (classify ip) (λ c. refl) (classify-Answers ip)

pub new-Accepted :
    (raw : Object) (domain owner : Text) (version : IpVersion) (suffix : Prefix) (p : Dd24)
    → new raw domain owner version suffix ≡ ok p
    → Accepted true domain version suffix (provider p)
unfolding new build validate_settings provider methods
new-Accepted raw domain owner version suffix p h =
    let made =
      one_field (string_field (bytes "password") raw) (build domain owner version suffix) h in
    accepted true domain version suffix provider _ _ p made.1 (refl, (refl, (refl, λ e k. cc)))
