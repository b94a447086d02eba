-- ===== src/Providers/Goip.antt =====
-- internal/provider/providers/goip/provider.go
use ddns_updater.Prelude.{
  ltb, ◌==◌, if◌then◌else◌, Bool-cases, length, Text, bytes, text_eq, is_empty, has_prefix,
  has_suffix, ◌≡◌, refl, inl, inr, Bool, true, not, ◌&&◌, ◌||◌, Option, none, some, [], ◌++◌, arith,
}
use ddns_updater.Result.{Result, ok, err, ◌>>=◌}
use ddns_updater.IpVersion.{IpVersion}
use ddns_updater.Netip.{Addr, Prefix, is4}
use ddns_updater.Netip.Print.{addr_string}
use ddns_updater.Domain.{build_domain_name}
use ddns_updater.Provider.{
  UpdateError, creating_request, doing_request, reading_response, auth, http_status_not_valid,
  unknown_response, SettingsError, domain_not_valid, owner_wildcard, username_not_set,
  password_not_set, Values, set_value, get_value, Request, Reply, not_created, not_done, unread,
  replied, Client, count_byte, clean_body, get, Object, string_field, unless_refused, to_string,
  Provider, methods,
}
use ddns_updater.Provider.Laws.{Carries, Confirms, AnswersReply, reply-Confirmed}
use ddns_updater.Provider.Etld.{move_label}

pub record Goip : Type 0 where
  pub domain : Text
  pub owner : Text
  pub ip_version : IpVersion
  pub ipv6_suffix : Prefix
  pub username : Text
  pub password : Text

-- The domain and the owner, where the domain is missing or only an effective TLD.
unfoldable pub rewritten : Text → Text → Text × Text
rewritten domain owner =
    let domain' = if is_empty domain then bytes "goip.de" else domain in
    if text_eq domain' (bytes "goip.de") || text_eq domain' (bytes "goip.it")
    then move_label domain' owner
    else (domain', owner)

-- regexDomain, for one of its two ends: a text without line feeds, then the end
unfoldable pub is_subdomain : Text → Text → Bool
is_subdomain end domain =
    has_suffix domain end && ltb (length end) (length domain) && (count_byte 10 domain == 0)

-- validateSettings
unfoldable pub validate_settings : Text → Text → Text → Text → Option SettingsError
validate_settings domain owner username password =
    if is_empty username
    then some username_not_set
    else if is_empty password
    then some password_not_set
    else if not (is_subdomain (bytes ".goip.de") domain || is_subdomain (bytes ".goip.it") domain)
    then some (domain_not_valid none)
    else if ltb 2 (count_byte b'.' owner)
    then some (domain_not_valid none)
    else if text_eq owner (bytes "*")
    then some owner_wildcard
    else none

-- New, once the raw settings are decoded
unfoldable pub build : Text → Text → IpVersion → Prefix → Text → Text → Result SettingsError Goip
build domain owner version suffix username password =
    unless_refused (validate_settings domain owner username password) (record {
      domain = domain;
      owner = owner;
      ip_version = version;
      ipv6_suffix = suffix;
      username = username;
      password = password;
    })

-- New
unfoldable pub new : Object → Text → Text → IpVersion → Prefix → Result SettingsError Goip
new raw domain owner version suffix = do
  username ← string_field (bytes "username") raw
  password ← string_field (bytes "password") raw
  let moved = rewritten domain owner
  build moved.0 moved.1 version suffix username password

-- The address, under the key for its kind
unfoldable pub set_address : Addr → Values → Values
set_address ip values =
    if is4 ip
    then set_value (bytes "ip") (addr_string ip) values
    else set_value (bytes "ip6") (addr_string ip) values

unfoldable pub request : Goip → Addr → Request
request p ip = get (some (p.username, p.password)) (bytes "www.goip.de") (bytes "/setip") (
    set_address ip (
      set_value (bytes "shortResponse") (bytes "true") (
        set_value (bytes "password") p.password (
          set_value (bytes "username") p.username
            (set_value (bytes "subdomain") (build_domain_name p.owner p.domain) [])))))

-- What a success begins with
unfoldable pub confirmation : Goip → Addr → Text
confirmation p ip =
    build_domain_name p.owner p.domain ++ (bytes " (" ++ (addr_string ip ++ bytes ")"))

unfoldable pub classify : Goip → Addr → Text → Result UpdateError Addr
classify p ip s =
    if has_prefix s (confirmation p ip)
    then ok ip
    else if has_prefix s (bytes "zugriff verweigert")
    then err auth
    else err unknown_response

unfoldable pub answer : Goip → Addr → Reply → Result UpdateError Addr
answer p ip not_created = err creating_request
answer p ip not_done = err doing_request
answer p ip (unread status) =
    if not (status == 200) then err http_status_not_valid else err reading_response
answer p ip (replied status body) =
    if not (status == 200) then err http_status_not_valid else classify p ip (clean_body body)

-- Update
unfoldable pub update : Goip → Client → Addr → Result UpdateError Addr
update p client ip = answer p ip (client 0 (request p ip))

-- The methods of the interface
unfoldable pub provider : Goip → Provider
provider p =
    let link =
      bytes "<a href=\"https://www."
      ++ (p.domain ++ (bytes "/\">" ++ (p.domain ++ bytes "</a>"))) in
    record (methods (bytes "goip") link p.domain p.owner p.ip_version p.ipv6_suffix (update p)) {
      string = to_string p.owner p.domain (bytes "goip") p.ip_version;
    }

pub request-Carries : (p : Goip) (ip : Addr) → Carries ip (request p ip)
unfolding request get set_value get_value text_eq bytes set_address
request-Carries p ip = elim (Bool-cases (is4 ip)) [
  | inl e ↦ (bytes "ip", rw e refl)
  | inr e ↦ (bytes "ip6", rw e refl)
]

classify-same : (p : Goip) (ip : Addr) (s : Text) (a : Addr) → classify p ip s ≡ ok a → a ≡ ip
unfolding classify
classify-same p ip s a h = ground arith

answer-AnswersReply : (p : Goip) (ip : Addr) → AnswersReply ip (answer p ip)
unfolding answer
answer-AnswersReply p ip not_created a h = cc
answer-AnswersReply p ip not_done a h = cc
answer-AnswersReply p ip (unread status) a h = ground arith
answer-AnswersReply p ip (replied status body) a h =
    (ground (arith, classify-same p ip (clean_body body) a), (status, (refl, ground arith)))

pub update-Confirms : (p : Goip) → Confirms true true (provider p).update
unfolding update request get provider methods
update-Confirms p client ip a =
    reply-Confirmed true (provider p).update client ip a (request p ip) refl
      (λ _. request-Carries p ip) (answer p ip) (λ c. refl) (answer-AnswersReply p ip)
