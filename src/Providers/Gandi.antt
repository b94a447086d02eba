-- ===== src/Providers/Gandi.antt =====
-- internal/provider/providers/gandi/provider.go
use ddns_updater.Prelude.{
  ◌==◌, if◌then◌else◌, Text, bytes, is_empty, ℕ, ◌≡◌, refl, true, false, not, ◌&&◌, Option, none,
  some, List, [], ◌∷◌, ◌++◌, arith,
}
use ddns_updater.Result.{Result, ok, err, ◌>>=◌}
use ddns_updater.IpVersion.{IpVersion}
use ddns_updater.Netip.{Addr, Prefix, is6, unmap}
use ddns_updater.Netip.Print.{addr_string}
use ddns_updater.Provider.{
  UpdateError, http_status_not_valid, SettingsError, Values, set_value, Field, number_of, texts_of,
  json, Request, Client, read_status, user_agent, get, Object, string_field, uint32_field,
  after_domain, unless_refused, Provider, methods, key_not_set,
}
use ddns_updater.Provider.Laws.{
  Confirms, AnswersStatus, read_status-Confirmed, Accepted, accepted, three_fields,
}

pub record Gandi : Type 0 where
  pub domain : Text
  pub owner : Text
  pub ip_version : IpVersion
  pub ipv6_suffix : Prefix
  pub ttl : ℕ
  pub personal_access_token : Text
  pub api_key : Text

-- validateSettings
unfoldable pub validate_settings : Text → Text → Text → Option SettingsError
validate_settings domain api_key personal_access_token =
    after_domain domain
      (if is_empty api_key && is_empty personal_access_token then some key_not_set else none)

-- New, once the raw settings are decoded
unfoldable pub build :
    Text → Text → IpVersion → Prefix → Text → Text → ℕ → Result SettingsError Gandi
build domain owner version suffix personal_access_token api_key ttl =
    unless_refused (validate_settings domain api_key personal_access_token) (record {
      domain = domain;
      owner = owner;
      ip_version = version;
      ipv6_suffix = suffix;
      ttl = ttl;
      personal_access_token = personal_access_token;
      api_key = api_key;
    })

-- New
unfoldable pub new : Object → Text → Text → IpVersion → Prefix → Result SettingsError Gandi
new raw domain owner version suffix = do
  personal_access_token ← string_field (bytes "personal_access_token") raw
  api_key ← string_field (bytes "key") raw
  ttl ← uint32_field (bytes "ttl") raw
  build domain owner version suffix personal_access_token api_key ttl

-- The token, or else the deprecated key
unfoldable pub set_authorization : Gandi → Values → Values
set_authorization p values =
    if not (is_empty p.personal_access_token)
    then set_value (bytes "Authorization") (bytes "Bearer " ++ p.personal_access_token) values
    else set_value (bytes "X-Api-Key") p.api_key values

-- The object that is sent; a TTL of 0 is left out.
unfoldable pub record_fields : Gandi → Addr → List (Text × Field)
record_fields p ip =
    (bytes "rrset_values", texts_of (addr_string (unmap ip) ∷ []))
    ∷ (if p.ttl == 0 then [] else (bytes "rrset_ttl", number_of p.ttl) ∷ [])

unfoldable pub request : Gandi → Addr → Request
request p ip =
    record (get none (bytes "api.gandi.net")
      (bytes "v5/livedns/domains/"
        ++ (p.domain
            ++ (bytes "/records/"
                ++ (p.owner ++ (bytes "/" ++ (if is6 ip then bytes "AAAA" else bytes "A"))))))
      []) {
        method = bytes "PUT";
        headers = set_authorization p (
            set_value (bytes "Accept") (bytes "application/json")
              (set_value (bytes "Content-Type") (bytes "application/json") user_agent));
        body = json (record_fields p ip);
      }

unfoldable pub classify : Addr → ℕ → Result UpdateError Addr
classify ip status = if status == 201 then ok ip else err http_status_not_valid

-- Update
unfoldable pub update : Gandi → Client → Addr → Result UpdateError Addr
update p client ip = read_status (classify ip) (client 0 (request p ip))

-- The methods of the interface
unfoldable pub provider : Gandi → Provider
provider p =
    methods (bytes "gandi") (bytes "<a href=\"https://www.gandi.net/\">gandi</a>") p.domain p.owner
      p.ip_version p.ipv6_suffix (update p)

classify-AnswersStatus : (ip : Addr) → AnswersStatus ip (classify ip)
unfolding classify
classify-AnswersStatus ip status a h = ground arith

pub update-Confirms : (p : Gandi) → Confirms true false (provider p).update
unfolding update request get provider methods
update-Confirms p client ip a =
    read_status-Confirmed false (provider p).update client ip a (request p ip) refl (λ e. cc)
      (classify ip) (λ c. refl) (classify-AnswersStatus ip)

pub new-Accepted :
    (raw : Object) (domain owner : Text) (version : IpVersion) (suffix : Prefix) (p : Gandi)
    → new raw domain owner version suffix ≡ ok p
    → Accepted true domain version suffix (provider p)
unfolding new build validate_settings provider methods
new-Accepted raw domain owner version suffix p h =
    let made =
      three_fields (string_field (bytes "personal_access_token") raw)
        (string_field (bytes "key") raw) (uint32_field (bytes "ttl") raw)
        (build domain owner version suffix) h in
    accepted true domain version suffix provider _ _ p made.3 (refl, (refl, (refl, λ e k. cc)))
