-- ===== src/Providers/Cloudflare.antt =====
-- internal/provider/providers/cloudflare/provider.go: the record is looked up, created if there is
-- none, and then set. The decoding of the three replies is encoding/json, a parameter.
mod Settings
pub mod Writes
pub mod Lookup
pub mod Update
unfoldable pub use Settings.*
use ddns_updater.Prelude.{
  ltb, if◌then◌else◌, Text, bytes, text_eq, is_empty, ℕ, Bool, true, false, not, ◌&&◌, Option, none,
  some, List, [], ◌∷◌, ◌++◌,
}
use ddns_updater.Result.{Result, ok, err, panic, ◌>>=◌}
use ddns_updater.IpVersion.{IpVersion}
use ddns_updater.Netip.{Addr, Prefix, addr_eq}
use ddns_updater.Netip.Parse.{parse_addr}
use ddns_updater.Netip.Print.{addr_string}
use ddns_updater.Domain.{build_url_query_hostname}
use ddns_updater.Provider.{
  UpdateError, SettingsError, unsuccessful, results_count_received, received_no_result,
  decoding_body, ip_received_malformed, ip_received_mismatch, key_not_valid, email_not_valid,
  user_service_key_not_valid, zone_identifier_not_set, ttl_not_set, Values, set_value, user_agent,
  Field, text_of, number_of, flag_of, json, Request, Client, get, after_status, not_ok, record_type,
  Object, string_field, bool_field, uint32_field, after_domain, unless_refused, Provider, methods,
}

-- setHeaders, on a request with the user agent
unfoldable pub credentials : Cloudflare → Values → Values
credentials p headers =
    if not (is_empty p.token)
    then set_value (bytes "Authorization") (bytes "Bearer " ++ p.token) headers
    else if not (is_empty p.user_service_key)
    then set_value (bytes "X-Auth-User-Service-Key") p.user_service_key headers
    else if not (is_empty p.email) && not (is_empty p.key)
    then set_value (bytes "X-Auth-Key") p.key (set_value (bytes "X-Auth-Email") p.email headers)
    else headers

unfoldable pub headers_of : Cloudflare → Values
unfolding credentials
headers_of p = credentials p (
    set_value (bytes "Accept") (bytes "application/json")
      (set_value (bytes "Content-Type") (bytes "application/json") user_agent))

abbrev pub records_path : Cloudflare → Text
records_path p = bytes "/client/v4/zones/" ++ (p.zone_identifier ++ bytes "/dns_records")

-- The request of getRecordID
unfoldable pub list_request : Cloudflare → Addr → Request
list_request p ip =
    let values = set_value (bytes "type") (record_type ip) (
      set_value (bytes "name") (build_url_query_hostname p.owner p.domain)
        (set_value (bytes "page") (bytes "1") (set_value (bytes "per_page") (bytes "1") []))) in
    record (get none (bytes "api.cloudflare.com") (records_path p) values) {
      headers = headers_of p;
    }

-- A request that writes the record, at a path
unfoldable pub write_request : Cloudflare → Text → Text → Addr → Request
write_request p method path ip = record (get none (bytes "api.cloudflare.com") path []) {
  method = method;
  headers = headers_of p;
  body = json (
      (bytes "type", text_of (record_type ip))
      ∷ (bytes "name", text_of (build_url_query_hostname p.owner p.domain))
      ∷ (bytes "content", text_of (addr_string ip))
      ∷ (bytes "proxied", flag_of p.proxied)
      ∷ (bytes "ttl", number_of p.ttl)
      ∷ []);
}

-- The request of createRecord
unfoldable pub post_request : Cloudflare → Addr → Request
unfolding write_request
post_request p ip = write_request p (bytes "POST") (records_path p) ip

-- The last request of Update
unfoldable pub put_request : Cloudflare → Text → Addr → Request
unfolding write_request
put_request p identifier ip =
    write_request p (bytes "PUT") (records_path p ++ (bytes "/" ++ identifier)) ip

-- listRecordsResponse: each result is an id and a content.
pub record Listed : Type 0 where
  pub success : Bool
  pub errors : List Text
  pub result : List (Text × Text)

-- parsedJSON, in createRecord with the id and in Update with the content of its result
pub record Written : Type 0 where
  pub success : Bool
  pub result : Text

-- What getRecordID returns without an error
pub data Identifier : Type 0 where
  up_to_date : Identifier
  found : Text → Identifier

unfoldable pub identify : Addr → List (Text × Text) → Result UpdateError Identifier
identify ip [] = err received_no_result
identify ip ((id, content) ∷ []) =
    if text_eq content (addr_string ip) then ok up_to_date else ok (found id)
identify ip (first ∷ second ∷ rest) = err results_count_received

abbrev pub is_none : List Text → Bool
is_none [] = true
is_none (e ∷ es) = false

unfoldable pub read_listed : Addr → Option Listed → Result UpdateError Identifier
unfolding identify
read_listed ip none = err decoding_body
read_listed ip (some l) =
    if not (is_none l.errors)
    then err unsuccessful
    else if not l.success
    then err unsuccessful
    else identify ip l.result

unfoldable pub read_created : Option Written → Result UpdateError Text
read_created none = err decoding_body
read_created (some w) = if not w.success then err unsuccessful else ok w.result

unfoldable pub compare_received : Addr → Option Addr → Result UpdateError Addr
compare_received ip none = err ip_received_malformed
compare_received ip (some new_ip) =
    if addr_eq new_ip ip then ok new_ip else err ip_received_mismatch

unfoldable pub read_updated : Addr → Option Written → Result UpdateError Addr
unfolding compare_received
read_updated ip none = err decoding_body
read_updated ip (some w) =
    if not w.success then err unsuccessful else compare_received ip (parse_addr w.result)

-- Above http.StatusUnsupportedMediaType
abbrev pub past_media_type : ℕ → Bool
past_media_type status = ltb 415 status

abbrev pub is_no_result : UpdateError → Bool
is_no_result received_no_result = true
is_no_result _ = false

module _ (decode_listed : Text → Option Listed) where
  -- getRecordID
  unfoldable pub get_record_id : Cloudflare → Client → Addr → Result UpdateError Identifier
  get_record_id p client ip =
      after_status not_ok (λ body. read_listed ip (decode_listed body))
        (client 0 (list_request p ip))

module _ (decode_created : Text → Option Written) where
  -- createRecord
  unfoldable pub create_record : Cloudflare → Client → Addr → Result UpdateError Text
  create_record p client ip =
      after_status past_media_type (λ body. read_created (decode_created body))
        (client 1 (post_request p ip))

module _ (decode_updated : Text → Option Written) where
  -- Update from its last request on, which is the n-th
  unfoldable pub put_record : Cloudflare → Client → ℕ → Addr → Text → Result UpdateError Addr
  put_record p client n ip identifier =
      after_status past_media_type (λ body. read_updated ip (decode_updated body))
        (client n (put_request p identifier ip))

  unfoldable pub after_create :
      Cloudflare → Client → Addr → Result UpdateError Text → Result UpdateError Addr
  after_create p client ip (ok identifier) = put_record p client 2 ip identifier
  after_create p client ip (err e) = err e
  after_create p client ip panic = panic

module _ (decode_created decode_updated : Text → Option Written) where
  unfoldable pub after_get :
      Cloudflare → Client → Addr → Result UpdateError Identifier → Result UpdateError Addr
  after_get p client ip (ok up_to_date) = ok ip
  after_get p client ip (ok (found identifier)) = put_record decode_updated p client 1 ip identifier
  after_get p client ip (err e) =
      if is_no_result e
      then after_create decode_updated p client ip (create_record decode_created p client ip)
      else err e
  after_get p client ip panic = panic

module _ (decode_listed : Text → Option Listed)
    (decode_created decode_updated : Text → Option Written) where
  -- Update
  unfoldable pub update : Cloudflare → Client → Addr → Result UpdateError Addr
  update p client ip =
      after_get decode_created decode_updated p client ip (get_record_id decode_listed p client ip)

  -- The methods of the interface
  unfoldable pub provider : Cloudflare → Provider
  provider p =
      record (methods (bytes "cloudflare")
        (bytes "<a href=\"https://www.cloudflare.com\">Cloudflare</a>") p.domain p.owner
        p.ip_version p.ipv6_suffix (update p)) { proxied = p.proxied }
