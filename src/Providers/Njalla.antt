-- ===== src/Providers/Njalla.antt =====
-- internal/provider/providers/njalla/provider.go; the decoding of the reply's body is encoding/json,
-- a parameter.
use ddns_updater.Prelude.{
  ◌==◌, if◌then◌else◌, Bool-cases, Text, bytes, text_eq, is_empty, ℕ, ◌≡◌, refl, inl, inr, true,
  not, Option, none, some, [], arith,
}
use ddns_updater.Result.{Result, ok, err, ◌>>=◌}
use ddns_updater.IpVersion.{IpVersion}
use ddns_updater.Netip.{Addr, Prefix, is6, addr_eq}
use ddns_updater.Netip.Print.{addr_string}
use ddns_updater.Netip.Parse.{parse_addr}
use ddns_updater.Domain.{build_url_query_hostname}
use ddns_updater.Provider.{
  UpdateError, creating_request, doing_request, auth, bad_request, http_status_not_valid,
  ip_received_malformed, ip_received_mismatch, unknown_response, decoding_body, SettingsError,
  Values, set_value, get_value, Request, Reply, not_created, not_done, unread, replied, Client,
  user_agent, get, Object, string_field, after_domain, unless_refused, Provider, methods,
  key_not_set,
}
use ddns_updater.Provider.Laws.{
  is_success, Carries, Confirms, AnswersReply, reply-Confirmed, Accepted, accepted, one_field,
}
use ddns_updater.Netip.{addr_eq_sound}

pub record Njalla : Type 0 where
  pub domain : Text
  pub owner : Text
  pub ip_version : IpVersion
  pub ipv6_suffix : Prefix
  pub key : Text

-- validateSettings
unfoldable pub validate_settings : Text → Text → Option SettingsError
validate_settings domain key = after_domain domain (if is_empty key then some key_not_set else none)

-- New, once the raw settings are decoded
unfoldable pub build : Text → Text → IpVersion → Prefix → Text → Result SettingsError Njalla
build domain owner version suffix key = unless_refused (validate_settings domain key) (record {
  domain = domain;
  owner = owner;
  ip_version = version;
  ipv6_suffix = suffix;
  key = key;
})

-- New
unfoldable pub new : Object → Text → Text → IpVersion → Prefix → Result SettingsError Njalla
new raw domain owner version suffix = do
  key ← string_field (bytes "key") raw
  build domain owner version suffix key

-- The address, under the key for its kind
unfoldable pub set_address : Addr → Values → Values
set_address ip values =
    if is6 ip
    then set_value (bytes "aaaa") (addr_string ip) values
    else set_value (bytes "a") (addr_string ip) values

unfoldable pub request : Njalla → Addr → Request
request p ip =
    record (get none (bytes "njal.la") (bytes "/update/") (
      set_address ip (
        set_value (bytes "k") p.key
          (set_value (bytes "h") (build_url_query_hostname p.owner p.domain) [])))) {
            headers = set_value (bytes "Accept") (bytes "application/json") user_agent;
          }

-- The decoded body: its message and the values A and AAAA
pub record Message : Type 0 where
  pub message : Text
  pub a : Text
  pub aaaa : Text

unfoldable pub compare_received : Addr → Option Addr → Result UpdateError Addr
compare_received ip none = err ip_received_malformed
compare_received ip (some new_ip) =
    if addr_eq ip new_ip then ok new_ip else err ip_received_mismatch

-- With status 200: the message, then the address of the kind of the one that was sent
unfoldable pub classify_ok : Addr → Message → Result UpdateError Addr
classify_ok ip m =
    if not (text_eq m.message (bytes "record updated"))
    then err unknown_response
    else compare_received ip (parse_addr (if is6 ip then m.aaaa else m.a))

unfoldable pub classify : Addr → ℕ → Option Message → Result UpdateError Addr
classify ip status none = err decoding_body
classify ip status (some m) =
    if status == 200
    then classify_ok ip m
    else if status == 401
    then err auth
    else if status == 500
    then err bad_request
    else err http_status_not_valid

-- The reply; its body is decoded before its status is looked at.
unfoldable pub answer : (Text → Option Message) → Addr → Reply → Result UpdateError Addr
answer decode ip not_created = err creating_request
answer decode ip not_done = err doing_request
answer decode ip (unread status) = err decoding_body
answer decode ip (replied status body) = classify ip status (decode body)

-- Update
unfoldable pub update : (Text → Option Message) → Njalla → Client → Addr → Result UpdateError Addr
update decode p client ip = answer decode ip (client 0 (request p ip))

-- The methods of the interface
unfoldable pub provider : (Text → Option Message) → Njalla → Provider
provider decode p =
    methods (bytes "njalla") (bytes "<a href=\"https://njal.la/\">Njalla</a>") p.domain p.owner
      p.ip_version p.ipv6_suffix (update decode p)

pub request-Carries : (p : Njalla) (ip : Addr) → Carries ip (request p ip)
unfolding request get set_value get_value text_eq bytes set_address
request-Carries p ip = elim (Bool-cases (is6 ip)) [
  | inl e ↦ (bytes "aaaa", rw e refl)
  | inr e ↦ (bytes "a", rw e refl)
]

compare_received-ok :
    (ip : Addr) (o : Option Addr) (a : Addr) → compare_received ip o ≡ ok a → a ≡ ip
unfolding compare_received
compare_received-ok ip none a h = cc
compare_received-ok ip (some b) a h = ground (arith, addr_eq_sound ip b)

classify_ok-same : (ip : Addr) (m : Message) (a : Addr) → classify_ok ip m ≡ ok a → a ≡ ip
unfolding classify_ok
classify_ok-same ip m a h =
    ground (arith, compare_received-ok ip (parse_addr (if is6 ip then m.aaaa else m.a)) a)

classify-same :
    (ip : Addr) (status : ℕ) (o : Option Message) (a : Addr)
    → classify ip status o ≡ ok a
    → (a ≡ ip) × (is_success status ≡ true)
unfolding classify
classify-same ip status none a h = cc
classify-same ip status (some m) a h = ground (arith, classify_ok-same ip m a)

answer-AnswersReply :
    (decode : Text → Option Message) (ip : Addr) → AnswersReply ip (answer decode ip)
unfolding answer
answer-AnswersReply decode ip not_created a h = cc
answer-AnswersReply decode ip not_done a h = cc
answer-AnswersReply decode ip (unread status) a h = cc
answer-AnswersReply decode ip (replied status body) a h =
    let (same, success) = classify-same ip status (decode body) a h in
    (same, (status, (refl, success)))

pub update-Confirms :
    (decode : Text → Option Message) (p : Njalla) → Confirms true true (provider decode p).update
unfolding update request get provider methods
update-Confirms decode p client ip a =
    reply-Confirmed true (provider decode p).update client ip a (request p ip) refl
      (λ _. request-Carries p ip) (answer decode ip) (λ c. refl) (answer-AnswersReply decode ip)

pub new-Accepted :
    (decode : Text → Option Message) (raw : Object) (domain owner : Text) (version : IpVersion)
    (suffix : Prefix) (p : Njalla)
    → new raw domain owner version suffix ≡ ok p
    → Accepted true domain version suffix (provider decode p)
unfolding new build validate_settings provider methods
new-Accepted decode raw domain owner version suffix p h =
    let made = one_field (string_field (bytes "key") raw) (build domain owner version suffix) h in
    accepted true domain version suffix (provider decode) _ _ p made.1
      (refl, (refl, (refl, λ e k. cc)))
