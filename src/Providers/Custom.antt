-- ===== src/Providers/Custom.antt =====
-- internal/provider/providers/custom/provider.go: the client of a service that the settings describe.
-- Its Update writes to the client's URL, so it returns the client as well. net/url and regexp are
-- parameters: Parse and String of a URL, and MatchString and compilation of an expression.
pub mod Query
use ddns_updater.Prelude.{
  ◌==◌, if◌then◌else◌, Text, bytes, text_eq, is_empty, Bool, not, Option, none, some, [], ◌∷◌,
}
use ddns_updater.Result.{Result, ok, err, ◌>>=◌}
use ddns_updater.IpVersion
use ddns_updater.IpVersion.{IpVersion}
use ddns_updater.Netip.{Addr, Prefix, is6}
use ddns_updater.Netip.Print.{addr_string}
use ddns_updater.Provider.{
  UpdateError, SettingsError, url_not_set, url_not_https, url_malformed, success_regex_not_set,
  unmarshal, parsing_query, creating_request, doing_request, reading_response,
  http_status_not_valid, unknown_response, Client, Reply, not_created, not_done, unread, replied,
  Request, no_body, Values, user_agent, Object, string_field, after_domain, unless_refused,
}

-- url.URL; the query is what url.ParseQuery makes of it, `none` for an error.
pub record Url : Type 0 where
  pub scheme : Text
  pub user : Option (Text × Text)
  pub host : Text
  pub path : Text
  pub query : Option Values

pub record Custom : Type 0 where
  pub domain : Text
  pub owner : Text
  pub ip_version : IpVersion
  pub ipv6_suffix : Prefix
  pub url : Url
  pub ipv4_key : Text
  pub ipv6_key : Text
  pub success_regex : Text

-- values.Set on a query whose keys may be repeated
unfoldable pub remove : Text → Values → Values
remove key [] = []
remove key ((k, v) ∷ values) =
    if text_eq k key then remove key values else (k, v) ∷ remove key values

unfoldable pub set_only : Text → Text → Values → Values
unfolding remove
set_only key value values = (key, value) ∷ remove key values

abbrev pub ip_key : Custom → Addr → Text
ip_key p ip = if is6 ip then p.ipv6_key else p.ipv4_key

-- The query with the address, unless its key is empty
unfoldable pub set_address : Custom → Addr → Values → Values
unfolding set_only
set_address p ip values =
    if not (is_empty (ip_key p ip)) then set_only (ip_key p ip) (addr_string ip) values else values

unfoldable pub request : Custom → Values → Request
request p values = record {
  method = bytes "GET";
  scheme = p.url.scheme;
  user = p.url.user;
  host = p.url.host;
  path = p.url.path;
  query = values;
  headers = user_agent;
  body = no_body;
}

-- The client with the new query
unfoldable pub with_query : Values → Custom → Custom
with_query values p = record p { url = record p.url { query = some values } }

module _ (parse_url : Text → Option Url) (url_string : Url → Text) where
  -- validateSettings
  unfoldable pub validate_settings : Text → Url → Text → Option SettingsError
  validate_settings domain url success_regex = after_domain domain (
      if is_empty (url_string url)
      then some url_not_set
      else if not (text_eq url.scheme (bytes "https"))
      then some url_not_https
      else if is_empty success_regex
      then some success_regex_not_set
      else none)

  unfoldable pub build :
      Text
      → Text
      → IpVersion
      → Prefix
      → Text
      → Text
      → Text
      → Option Url
      → Result SettingsError Custom
  build domain owner version suffix ipv4_key ipv6_key success_regex none = err url_malformed
  build domain owner version suffix ipv4_key ipv6_key success_regex (some url) =
      unless_refused (validate_settings domain url success_regex) (record {
        domain = domain;
        owner = owner;
        ip_version = version;
        ipv6_suffix = suffix;
        url = url;
        ipv4_key = ipv4_key;
        ipv6_key = ipv6_key;
        success_regex = success_regex;
      })

module _ (matches : Text → Text → Bool) where
  -- The reply; its body is taken as it is.
  unfoldable pub answer : Custom → Addr → Reply → Result UpdateError Addr
  answer p ip not_created = err creating_request
  answer p ip not_done = err doing_request
  answer p ip (unread status) = err reading_response
  answer p ip (replied status body) =
      if not (status == 200)
      then err http_status_not_valid
      else if matches p.success_regex body
      then ok ip
      else err unknown_response

  unfoldable pub update_query :
      Custom → Client → Addr → Option Values → Result UpdateError Addr × Custom
  update_query p client ip none = (err parsing_query, p)
  update_query p client ip (some values) =
      let values' = set_address p ip values in
      (answer p ip (client 0 (request p values')), with_query values' p)

  -- Update
  unfoldable pub update : Custom → Client → Addr → Result UpdateError Addr × Custom
  unfolding update_query
  update p client ip = update_query p client ip p.url.query

-- New; `compiles` tells whether the text of an expression is one.
unfoldable pub new :
    (Text → Option Url)
    → (Url → Text)
    → (Text → Bool)
    → Object
    → Text
    → Text
    → IpVersion
    → Prefix
    → Result SettingsError Custom
new parse_url url_string compiles raw domain owner version suffix = do
  url ← string_field (bytes "url") raw
  ipv4_key ← string_field (bytes "ipv4key") raw
  ipv6_key ← string_field (bytes "ipv6key") raw
  success_regex ← string_field (bytes "success_regex") raw
  let made =
      build parse_url url_string domain owner version suffix ipv4_key ipv6_key success_regex
        (parse_url url)
  if compiles success_regex then made else err unmarshal
