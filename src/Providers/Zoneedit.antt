-- ===== src/Providers/Zoneedit.antt =====
-- internal/provider/providers/zoneedit/provider.go
use ddns_updater.Prelude.{
  ◌==◌, if◌then◌else◌, Bool-cases, Text, bytes, text_eq, is_empty, contains, ℕ, ◌≡◌, refl, inl, inr,
  true, not, ◌||◌, Option, none, some, List, [], ◌∷◌, arith,
}
use ddns_updater.Result.{Result, ok, err, ◌>>=◌}
use ddns_updater.IpVersion.{IpVersion}
use ddns_updater.Netip.{Addr, Prefix, addr_eq}
use ddns_updater.Netip.Print.{addr_string}
use ddns_updater.Domain.{build_url_query_hostname}
use ddns_updater.Provider.{
  UpdateError, auth, banned_abuse, http_status_not_valid, ip_received_mismatch, received_no_result,
  unknown_response, SettingsError, username_not_set, token_not_set, Values, set_value, get_value,
  Request, Client, read_reply, get, Object, string_field, after_domain, unless_refused, Provider,
  methods,
}
use ddns_updater.Provider.Laws.{
  Carries, Confirms, Answers, read_reply-Confirmed, Accepted, accepted, two_fields,
}
use ddns_updater.Ipextract.{ipv4}
use ddns_updater.Netip.{addr_eq_sound}

pub record Zoneedit : Type 0 where
  pub domain : Text
  pub owner : Text
  pub ip_version : IpVersion
  pub ipv6_suffix : Prefix
  pub username : Text
  pub token : Text

-- validateSettings
unfoldable pub validate_settings : Text → Text → Text → Option SettingsError
validate_settings domain username token = after_domain domain (
    if is_empty username
    then some username_not_set
    else if is_empty token
    then some token_not_set
    else none)

-- New, once the raw settings are decoded
unfoldable pub build :
    Text → Text → IpVersion → Prefix → Text → Text → Result SettingsError Zoneedit
build domain owner version suffix username token =
    unless_refused (validate_settings domain username token) (record {
      domain = domain;
      owner = owner;
      ip_version = version;
      ipv6_suffix = suffix;
      username = username;
      token = token;
    })

-- New
unfoldable pub new : Object → Text → Text → IpVersion → Prefix → Result SettingsError Zoneedit
new raw domain owner version suffix = do
  username ← string_field (bytes "username") raw
  token ← string_field (bytes "token") raw
  build domain owner version suffix username token

-- The flag beside a wildcard
unfoldable pub set_wildcard : Text → Values → Values
set_wildcard owner values =
    if text_eq owner (bytes "*") then set_value (bytes "wildcard") (bytes "ON") values else values

unfoldable pub request : Zoneedit → Addr → Request
request p ip =
    get (some (p.username, p.token)) (bytes "api.cp.zoneedit.com") (bytes "dyn/generic.php") (
      set_wildcard p.owner (
        set_value (bytes "myip") (addr_string ip)
          (set_value (bytes "hostname") (build_url_query_hostname p.owner p.domain) [])))

-- A success: of exactly two addresses in the body the second is compared.
unfoldable pub expect_second : Addr → List Addr → Result UpdateError Addr
expect_second ip (first ∷ new_ip ∷ []) =
    if addr_eq new_ip ip then ok new_ip else err ip_received_mismatch
expect_second ip _ = ok ip

unfoldable pub classify : Addr → ℕ → Text → Result UpdateError Addr
classify ip status s =
    if not (status == 200)
    then err http_status_not_valid
    else if contains s (bytes "success_code=\"200\"")
    then expect_second ip (ipv4 s)
    else if is_empty s
    then err received_no_result
    else if contains s (bytes "error code=\"702\"")
        || contains s (bytes "minimum 600 seconds between requests")
    then err banned_abuse
    else if contains s (bytes "error code=\"709\"") || contains s (bytes "invalid hostname")
    then err banned_abuse
    else if contains s (bytes "error code=\"708\"") || contains s (bytes "failed login")
    then err auth
    else err unknown_response

-- Update
unfoldable pub update : Zoneedit → Client → Addr → Result UpdateError Addr
update p client ip = read_reply (classify ip) (client 0 (request p ip))

-- The methods of the interface
unfoldable pub provider : Zoneedit → Provider
provider p =
    methods (bytes "zoneedit") (bytes "<a href=\"https://www.zoneedit.com/\">Zoneedit</a>") p.domain
      p.owner p.ip_version p.ipv6_suffix (update p)

pub request-Carries : (p : Zoneedit) (ip : Addr) → Carries ip (request p ip)
unfolding request get set_value get_value text_eq bytes set_wildcard
request-Carries p ip = elim (Bool-cases (text_eq p.owner (bytes "*"))) [
  | inl e ↦ (bytes "myip", rw e refl)
  | inr e ↦ (bytes "myip", rw e refl)
]

expect_second-ok : (ip : Addr) (ips : List Addr) (a : Addr) → expect_second ip ips ≡ ok a → a ≡ ip
unfolding expect_second
expect_second-ok ip [] a h = cc
expect_second-ok ip (b ∷ []) a h = cc
expect_second-ok ip (b ∷ c ∷ []) a h = ground (arith, addr_eq_sound c ip)
expect_second-ok ip (b ∷ c ∷ d ∷ ips) a h = cc

classify-Answers : (ip : Addr) → Answers ip (classify ip)
unfolding classify
classify-Answers ip status s a h = ground (arith, expect_second-ok ip (ipv4 s) a)

pub update-Confirms : (p : Zoneedit) → Confirms true true (provider p).update
unfolding update request get provider methods
update-Confirms p client ip a =
    read_reply-Confirmed true (provider p).update client ip a (request p ip) refl
      (λ _. request-Carries p ip) (classify ip) (λ c. refl) (classify-Answers ip)

pub new-Accepted :
    (raw : Object) (domain owner : Text) (version : IpVersion) (suffix : Prefix) (p : Zoneedit)
    → new raw domain owner version suffix ≡ ok p
    → Accepted true domain version suffix (provider p)
unfolding new build validate_settings provider methods
new-Accepted raw domain owner version suffix p h =
    let made =
      two_fields (string_field (bytes "username") raw) (string_field (bytes "token") raw)
        (build domain owner version suffix) h in
    accepted true domain version suffix provider _ _ p made.2 (refl, (refl, (refl, λ e k. cc)))
