-- ===== src/Providers/Digitalocean.antt =====
-- internal/provider/providers/digitalocean/provider.go: the record is looked up, then changed. The
-- decoding of the two replies is encoding/json, a parameter: the ids of the records in the first, and
-- the text of the record in the second.
pub mod Update
use ddns_updater.Prelude.{
  ◌==◌, if◌then◌else◌, Text, bytes, is_empty, suc, Bool, false, Option, none, some, List, [], ◌∷◌,
  ◌++◌,
}
use ddns_updater.Prelude.Digits.{itoa}
use ddns_updater.Prelude.Int.{ℤ, pos, negsuc}
use ddns_updater.Result.{Result, ok, err, panic, ◌>>=◌}
use ddns_updater.IpVersion.{IpVersion}
use ddns_updater.Netip.{Addr, Prefix, is6, addr_eq}
use ddns_updater.Netip.Parse.{parse_addr}
use ddns_updater.Netip.Print.{addr_string}
use ddns_updater.Domain.{build_url_query_hostname}
use ddns_updater.Provider.{
  record_type, after_status, not_ok, text_of, UpdateError, SettingsError, token_not_set,
  creating_request, doing_request, http_status_not_valid, decoding_body, received_no_result,
  domain_id_not_found, ip_received_malformed, ip_received_mismatch, Client, Reply, not_created,
  not_done, unread, replied, Request, json, Values, set_value, get, user_agent, Object,
  string_field, after_domain, unless_refused, Provider, methods,
}

pub record Digitalocean : Type 0 where
  pub domain : Text
  pub owner : Text
  pub ip_version : IpVersion
  pub ipv6_suffix : Prefix
  pub token : Text

-- validateSettings
unfoldable pub validate_settings : Text → Text → Option SettingsError
validate_settings domain token =
    after_domain domain (if is_empty token then some token_not_set else none)

-- New, once the raw settings are decoded
unfoldable pub build : Text → Text → IpVersion → Prefix → Text → Result SettingsError Digitalocean
build domain owner version suffix token = unless_refused (validate_settings domain token) (record {
  domain = domain;
  owner = owner;
  ip_version = version;
  ipv6_suffix = suffix;
  token = token;
})

-- New
unfoldable pub new : Object → Text → Text → IpVersion → Prefix → Result SettingsError Digitalocean
new raw domain owner version suffix = do
  token ← string_field (bytes "token") raw
  build domain owner version suffix token

-- setCommonHeaders
unfoldable pub common_headers : Digitalocean → Values
common_headers p =
    set_value (bytes "Authorization") (bytes "Bearer " ++ p.token)
      (set_value (bytes "Accept") (bytes "application/json") user_agent)

-- The request of getRecordID
unfoldable pub records_request : Digitalocean → Text → Request
records_request p type =
    let path = bytes "/v2/domains/" ++ (p.domain ++ bytes "/records") in
    let values =
      set_value (bytes "type") type
        (set_value (bytes "name") (build_url_query_hostname p.owner p.domain) []) in
    record (get none (bytes "api.digitalocean.com") path values) { headers = common_headers p }

-- An int, as %d prints it
abbrev pub int_string : ℤ → Text
int_string (pos n) = itoa n
int_string (negsuc n) = bytes "-" ++ itoa (suc n)

abbrev pub is_zero : ℤ → Bool
is_zero (pos n) = n == 0
is_zero (negsuc n) = false

-- The id in the decoded records
unfoldable pub first_id : Option (List ℤ) → Result UpdateError ℤ
first_id none = err decoding_body
first_id (some []) = err received_no_result
first_id (some (id ∷ ids)) = if is_zero id then err domain_id_not_found else ok id

-- The request that changes the record
unfoldable pub put_request : Digitalocean → ℤ → Addr → Request
put_request p id ip =
    let path = bytes "/v2/domains/" ++ (p.domain ++ (bytes "/records/" ++ int_string id)) in
    record (get none (bytes "api.digitalocean.com") path []) {
      method = bytes "PUT";
      headers = set_value (bytes "Content-Type") (bytes "application/json") (common_headers p);
      body = json (
          (bytes "type", text_of (record_type ip))
          ∷ (bytes "name", text_of p.owner)
          ∷ (bytes "data", text_of (addr_string ip))
          ∷ []);
    }

unfoldable pub compare_received : Addr → Option Addr → Result UpdateError Addr
compare_received ip none = err ip_received_malformed
compare_received ip (some new_ip) =
    if addr_eq new_ip ip then ok new_ip else err ip_received_mismatch

-- The text in the decoded record
unfoldable pub compare_data : Addr → Option Text → Result UpdateError Addr
unfolding compare_received
compare_data ip none = err decoding_body
compare_data ip (some t) = compare_received ip (parse_addr t)

module _ (decode_records : Text → Option (List ℤ)) where
  -- getRecordID
  unfoldable pub get_record_id : Digitalocean → Text → Client → Result UpdateError ℤ
  get_record_id p type client =
      after_status not_ok (λ body. first_id (decode_records body))
        (client 0 (records_request p type))

module _ (decode_records : Text → Option (List ℤ)) (decode_record : Text → Option Text) where
  unfoldable pub update_record :
      Digitalocean → Client → Addr → Result UpdateError ℤ → Result UpdateError Addr
  update_record p client ip (ok id) =
      after_status not_ok (λ body. compare_data ip (decode_record body))
        (client 1 (put_request p id ip))
  update_record p client ip (err e) = err e
  update_record p client ip panic = panic

  -- Update
  unfoldable pub update : Digitalocean → Client → Addr → Result UpdateError Addr
  unfolding update_record get_record_id
  update p client ip =
      update_record p client ip (get_record_id decode_records p (record_type ip) client)

  -- The methods of the interface
  unfoldable pub provider : Digitalocean → Provider
  provider p =
      methods (bytes "digitalocean")
        (bytes "<a href=\"https://www.digitalocean.com/\">DigitalOcean</a>") p.domain p.owner
        p.ip_version p.ipv6_suffix (update p)
