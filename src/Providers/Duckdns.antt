-- ===== src/Providers/Duckdns.antt =====
-- internal/provider/providers/duckdns/provider.go
use ddns_updater.Prelude.{
  ltb, leb, ◌==◌, if◌then◌else◌, Bool-cases, length, take, Text, bytes, text_eq, is_empty,
  has_suffix, split, ℕ, refl, inl, inr, Bool, true, false, not, ◌&&◌, ◌||◌, Option, none, some,
  List, [], ◌∷◌, arith,
}
use ddns_updater.Result.{Result, err, ◌>>=◌}
use ddns_updater.IpVersion.{IpVersion}
use ddns_updater.Netip.{Addr, Prefix, is6}
use ddns_updater.Netip.Print.{addr_string}
use ddns_updater.Domain.{build_domain_name}
use ddns_updater.Provider.{
  UpdateError, auth, http_status_not_valid, response_too_short, unknown_response, SettingsError,
  domain_not_valid, owner_wildcard, token_not_valid, Values, set_value, get_value, Request, Client,
  count_byte, read_reply, extract_as6, expect_first, get, Object, string_field, unless_refused,
  Provider, methods,
}
use ddns_updater.Provider.Laws.{Carries, Confirms, Answers, read_reply-Confirmed, expect_first-ok}
use ddns_updater.Provider.Etld.{move_label}

pub record Duckdns : Type 0 where
  pub domain : Text
  pub owner : Text
  pub ip_version : IpVersion
  pub ipv6_suffix : Prefix
  pub token : Text

abbrev pub etld : Text
etld = bytes "duckdns.org"

-- The domain and the owner, where the domain is missing or only the effective TLD.
unfoldable pub rewritten : Text → Text → Text × Text
rewritten domain owner =
    let domain' = if is_empty domain then etld else domain in
    if text_eq domain' etld then move_label domain' owner else (domain', owner)

-- regexDomain: a text without line feeds, then the effective TLD
unfoldable pub is_subdomain : Text → Bool
is_subdomain domain =
    has_suffix domain (bytes ".duckdns.org")
    && ltb (length (bytes ".duckdns.org")) (length domain)
    && (count_byte 10 domain == 0)

-- tokenRegex: groups of lower case hexadecimal digits, of the given lengths
abbrev pub is_hex : ℕ → Bool
is_hex c = (leb b'a' c && leb c b'f') || (leb b'0' c && leb c b'9')

abbrev pub all_hex : Text → Bool
all_hex [] = true
all_hex (c ∷ cs) = is_hex c && all_hex cs

unfoldable pub matches_hex : List ℕ → List Text → Bool
matches_hex [] [] = true
matches_hex (n ∷ ns) (part ∷ parts) = length part == n && all_hex part && matches_hex ns parts
matches_hex _ _ = false

-- validateSettings
unfoldable pub validate_settings : Text → Text → Text → Option SettingsError
validate_settings domain owner token =
    if not (is_subdomain domain)
    then some (domain_not_valid none)
    else if ltb 2 (count_byte b'.' owner)
    then some (domain_not_valid none)
    else if text_eq owner (bytes "*")
    then some owner_wildcard
    else if not (matches_hex (8 ∷ 4 ∷ 4 ∷ 4 ∷ 12 ∷ []) (split b'-' token))
    then some token_not_valid
    else none

-- New, once the raw settings are decoded
unfoldable pub build : Text → Text → IpVersion → Prefix → Text → Result SettingsError Duckdns
build domain owner version suffix token =
    unless_refused (validate_settings domain owner token) (record {
      domain = domain;
      owner = owner;
      ip_version = version;
      ipv6_suffix = suffix;
      token = token;
    })

-- New
unfoldable pub new : Object → Text → Text → IpVersion → Prefix → Result SettingsError Duckdns
new raw domain owner version suffix = do
  token ← string_field (bytes "token") raw
  let moved = rewritten domain owner
  build moved.0 moved.1 version suffix token

-- The address, under the key for its kind
unfoldable pub set_address : Addr → Values → Values
set_address ip values =
    if is6 ip
    then set_value (bytes "ipv6") (addr_string ip) values
    else set_value (bytes "ip") (addr_string ip) values

unfoldable pub request : Duckdns → Addr → Request
request p ip = get none (bytes "www.duckdns.org") (bytes "/update") (
    set_address ip (
      set_value (bytes "token") p.token (
        set_value (bytes "domains") (build_domain_name p.owner p.domain)
          (set_value (bytes "verbose") (bytes "true") []))))

unfoldable pub classify : Addr → ℕ → Text → Result UpdateError Addr
classify ip status s =
    if not (status == 200)
    then err http_status_not_valid
    else if ltb (length s) 2
    then err response_too_short
    else if text_eq (take 2 s) (bytes "ko")
    then err auth
    else if text_eq (take 2 s) (bytes "ok")
    then expect_first ip (extract_as6 ip s)
    else err unknown_response

-- Update
unfoldable pub update : Duckdns → Client → Addr → Result UpdateError Addr
update p client ip = read_reply (classify ip) (client 0 (request p ip))

-- The methods of the interface
unfoldable pub provider : Duckdns → Provider
provider p =
    methods (bytes "duckdns") (bytes "<a href=\"https://www.duckdns.org/\">DuckDNS</a>") p.domain
      p.owner p.ip_version p.ipv6_suffix (update p)

pub request-Carries : (p : Duckdns) (ip : Addr) → Carries ip (request p ip)
unfolding request get set_value get_value text_eq bytes set_address
request-Carries p ip = elim (Bool-cases (is6 ip)) [
  | inl e ↦ (bytes "ipv6", rw e refl)
  | inr e ↦ (bytes "ip", rw e refl)
]

classify-Answers : (ip : Addr) → Answers ip (classify ip)
unfolding classify
classify-Answers ip status s a h = ground (arith, expect_first-ok ip (extract_as6 ip s) a)

pub update-Confirms : (p : Duckdns) → Confirms true true (provider p).update
unfolding update request get provider methods
update-Confirms p client ip a =
    read_reply-Confirmed true (provider p).update client ip a (request p ip) refl
      (λ _. request-Carries p ip) (classify ip) (λ c. refl) (classify-Answers ip)
