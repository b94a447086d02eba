-- ===== src/Providers/Cloudflare/Settings.antt =====
-- internal/provider/providers/cloudflare/provider.go: the settings and their validation.
use ddns_updater.Prelude.{
  leb, ◌==◌, if◌then◌else◌, drop, Text, bytes, is_empty, has_prefix, ℕ, Bool, true, false, not,
  ◌&&◌, ◌||◌, Option, none, some, [], ◌∷◌,
}
use ddns_updater.Result.{Result, ◌>>=◌}
use ddns_updater.IpVersion.{IpVersion}
use ddns_updater.Netip.{Prefix}
use ddns_updater.Provider.{
  SettingsError, key_not_valid, email_not_valid, user_service_key_not_valid,
  zone_identifier_not_set, ttl_not_set, Object, string_field, bool_field, uint32_field,
  after_domain, unless_refused,
}
use ddns_updater.Providers.Godaddy.{all_alnum, is_alnum}

pub record Cloudflare : Type 0 where
  pub domain : Text
  pub owner : Text
  pub ip_version : IpVersion
  pub ipv6_suffix : Prefix
  pub key : Text
  pub token : Text
  pub email : Text
  pub user_service_key : Text
  pub zone_identifier : Text
  pub proxied : Bool
  pub ttl : ℕ

-- keyRegex: letters and digits
abbrev pub is_key : Text → Bool
is_key key = not (is_empty key) && all_alnum key

-- userServiceKeyRegex: "v1.0", and at least one character more, none a line feed
abbrev pub one_line : Text → Bool
one_line [] = true
one_line (c ∷ cs) = not (c == 10) && one_line cs

unfoldable pub is_user_service_key : Text → Bool
is_user_service_key key =
    has_prefix key (bytes "v1.0") && not (is_empty (drop 4 key)) && one_line (drop 4 key)

-- regexEmail, which matches anywhere: the classes of its bytes, then what follows a byte of the
-- domain, what follows the `@`, and the whole.
abbrev pub is_letter : ℕ → Bool
is_letter c = (leb b'A' c && leb c b'Z') || (leb b'a' c && leb c b'z')

abbrev pub is_host : ℕ → Bool
is_host c = is_alnum c || c == b'-' || c == b'_' || c == b'.'

abbrev pub is_user : ℕ → Bool
is_user c = is_host c || c == b'+'

abbrev pub has_tld : Text → Bool
has_tld (dot ∷ first ∷ second ∷ rest) = dot == b'.' && is_letter first && is_letter second
has_tld _ = false

abbrev pub has_host : Text → Bool
has_host [] = false
has_host (c ∷ cs) = is_host c && (has_tld cs || has_host cs)

abbrev pub has_at_host : Text → Bool
has_at_host [] = false
has_at_host (c ∷ cs) = c == b'@' && has_host cs

unfoldable pub has_email : Text → Bool
has_email [] = false
has_email (c ∷ cs) = (is_user c && has_at_host cs) || has_email cs

-- validateSettings
unfoldable pub check_keys : Text → Text → Text → Option SettingsError
check_keys email key user_service_key =
    if not (is_empty email) || not (is_empty key)
    then (if not (is_key key)
        then some key_not_valid
        else if not (has_email email)
        then some email_not_valid
        else none)
    else if not (is_empty user_service_key)
    then (if not (is_user_service_key user_service_key)
        then some user_service_key_not_valid
        else none)
    else none

unfoldable pub check_zone : Text → ℕ → Option SettingsError
check_zone zone_identifier ttl =
    if is_empty zone_identifier
    then some zone_identifier_not_set
    else if ttl == 0
    then some ttl_not_set
    else none

abbrev pub first_refusal : Option SettingsError → Option SettingsError → Option SettingsError
first_refusal (some e) other = some e
first_refusal none other = other

unfoldable pub validate_settings : Text → Text → Text → Text → Text → ℕ → Option SettingsError
validate_settings domain email key user_service_key zone_identifier ttl =
    after_domain domain
      (first_refusal (check_keys email key user_service_key) (check_zone zone_identifier ttl))

-- New, once the raw settings are decoded
unfoldable pub build :
    Text
    → Text
    → IpVersion
    → Prefix
    → Text
    → Text
    → Text
    → Text
    → Text
    → Bool
    → ℕ
    → Result SettingsError Cloudflare
build domain owner version suffix key token email user_service_key zone_identifier proxied ttl =
    unless_refused (validate_settings domain email key user_service_key zone_identifier ttl)
      (record {
        domain = domain;
        owner = owner;
        ip_version = version;
        ipv6_suffix = suffix;
        key = key;
        token = token;
        email = email;
        user_service_key = user_service_key;
        zone_identifier = zone_identifier;
        proxied = proxied;
        ttl = ttl;
      })

-- New
unfoldable pub new : Object → Text → Text → IpVersion → Prefix → Result SettingsError Cloudflare
new raw domain owner version suffix = do
  key ← string_field (bytes "key") raw
  token ← string_field (bytes "token") raw
  email ← string_field (bytes "email") raw
  user_service_key ← string_field (bytes "user_service_key") raw
  zone_identifier ← string_field (bytes "zone_identifier") raw
  proxied ← bool_field (bytes "proxied") raw
  ttl ← uint32_field (bytes "ttl") raw
  build domain owner version suffix key token email user_service_key zone_identifier proxied ttl
