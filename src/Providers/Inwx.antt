-- ===== src/Providers/Inwx.antt =====
-- internal/provider/providers/inwx/provider.go
use ddns_updater.Prelude.{
  ◌==◌, if◌then◌else◌, Bool-cases, Text, bytes, text_eq, is_empty, has_prefix, ℕ, ◌≡◌, refl, inl,
  inr, true, not, ◌&&◌, Option, none, some, [], arith,
}
use ddns_updater.Result.{Result, ok, err, ◌>>=◌}
use ddns_updater.IpVersion.{IpVersion}
use ddns_updater.Netip.{Addr, Prefix, is4}
use ddns_updater.Netip.Print.{addr_string}
use ddns_updater.Domain.{build_url_query_hostname}
use ddns_updater.Provider.{
  UpdateError, http_status_not_valid, unknown_response, SettingsError, username_not_set,
  password_not_set, Values, set_value, get_value, Request, Client, read_reply, get, Object,
  string_field, after_domain, unless_refused, Provider, methods,
}
use ddns_updater.Provider.Laws.{
  Carries, Confirms, Answers, read_reply-Confirmed, Accepted, accepted, two_fields,
}

pub record Inwx : Type 0 where
  pub domain : Text
  pub owner : Text
  pub ip_version : IpVersion
  pub ipv6_suffix : Prefix
  pub username : Text
  pub password : Text

-- validateSettings
unfoldable pub validate_settings : Text → Text → Text → Option SettingsError
validate_settings domain username password = after_domain domain (
    if is_empty username
    then some username_not_set
    else if is_empty password
    then some password_not_set
    else none)

-- New, once the raw settings are decoded
unfoldable pub build : Text → Text → IpVersion → Prefix → Text → Text → Result SettingsError Inwx
build domain owner version suffix username password =
    unless_refused (validate_settings domain username password) (record {
      domain = domain;
      owner = owner;
      ip_version = version;
      ipv6_suffix = suffix;
      username = username;
      password = password;
    })

-- New
unfoldable pub new : Object → Text → Text → IpVersion → Prefix → Result SettingsError Inwx
new raw domain owner version suffix = do
  username ← string_field (bytes "username") raw
  password ← string_field (bytes "password") raw
  build domain owner version suffix username password

-- The address, under the key for its kind
unfoldable pub set_address : Addr → Values → Values
set_address ip values =
    if is4 ip
    then set_value (bytes "myip") (addr_string ip) values
    else set_value (bytes "myipv6") (addr_string ip) values

unfoldable pub request : Inwx → Addr → Request
request p ip =
    get (some (p.username, p.password)) (bytes "dyndns.inwx.com") (bytes "/nic/update")
      (set_address ip (set_value (bytes "hostname") (build_url_query_hostname p.owner p.domain) []))

unfoldable pub classify : Addr → ℕ → Text → Result UpdateError Addr
classify ip status s =
    if not (status == 200)
    then err http_status_not_valid
    else if not (has_prefix s (bytes "good")) && not (has_prefix s (bytes "nochg"))
    then err unknown_response
    else ok ip

-- Update
unfoldable pub update : Inwx → Client → Addr → Result UpdateError Addr
update p client ip = read_reply (classify ip) (client 0 (request p ip))

-- The methods of the interface
unfoldable pub provider : Inwx → Provider
provider p =
    methods (bytes "inwx") (bytes "<a href=\"https://inwx.com/\">INWX</a>") p.domain p.owner
      p.ip_version p.ipv6_suffix (update p)

pub request-Carries : (p : Inwx) (ip : Addr) → Carries ip (request p ip)
unfolding request get set_value get_value text_eq bytes set_address
request-Carries p ip = elim (Bool-cases (is4 ip)) [
  | inl e ↦ (bytes "myip", rw e refl)
  | inr e ↦ (bytes "myipv6", rw e refl)
]

classify-Answers : (ip : Addr) → Answers ip (classify ip)
unfolding classify
classify-Answers ip status s a h = ground arith

pub update-Confirms : (p : Inwx) → Confirms true true (provider p).update
unfolding update request get provider methods
update-Confirms p client ip a =
    read_reply-Confirmed true (provider p).update client ip a (request p ip) refl
      (λ _. request-Carries p ip) (classify ip) (λ c. refl) (classify-Answers ip)

pub new-Accepted :
    (raw : Object) (domain owner : Text) (version : IpVersion) (suffix : Prefix) (p : Inwx)
    → new raw domain owner version suffix ≡ ok p
    → Accepted true domain version suffix (provider p)
unfolding new build validate_settings provider methods
new-Accepted raw domain owner version suffix p h =
    let made =
      two_fields (string_field (bytes "username") raw) (string_field (bytes "password") raw)
        (build domain owner version suffix) h in
    accepted true domain version suffix provider _ _ p made.2 (refl, (refl, (refl, λ e k. cc)))
