-- ===== src/Provider/Http.antt =====
-- internal/provider: requests, replies and errors of an Update, with the helpers of utils and headers.
-- The texts that an error carries besides its sentinel are left out. The context is left out: a
-- cancelled request is one that was not done.
use ddns_updater.Prelude.{
  ◌==◌, if◌then◌else◌, Text, bytes, text_eq, trim_space, ℕ, ◌+◌, Bool, not, Option, none, some,
  List, [], ◌∷◌,
}
use ddns_updater.Result.{Result, ok, err}
use ddns_updater.IpVersion.{to_lower}
use ddns_updater.Netip.{Addr, addr_eq, is4, is6}
use ddns_updater.Ipextract.{ipv4, ipv6}

-- The sentinels of errors/update.go that the modelled providers return, behind the three failures of
-- a request: it is not created, not done, or its reply's body is not read; and those of
-- url.ParseQuery and of the decoding of a document.
-- `key_refused` is ErrKeyNotValid, on a reply.
pub data UpdateError : Type 0 where
  creating_request doing_request reading_response : UpdateError
  auth bad_request banned_abuse banned_user_agent dns_server_side : UpdateError
  feature_unavailable hostname_not_exists http_status_not_valid : UpdateError
  ip_received_malformed ip_received_mismatch received_no_ip received_no_result : UpdateError
  response_too_short unknown_response key_refused : UpdateError
  no_service system_param_not_valid zone_not_found account_inactive : UpdateError
  ip_sent_malformed private_ip_sent parsing_query decoding_body domain_id_not_found : UpdateError
  unsuccessful results_count_received : UpdateError

-- url.Values and http.Header, as keys with their value: each is set, never added to.
abbrev pub Values : Type 0
Values = List (Text × Text)

unfoldable pub set_value : Text → Text → Values → Values
set_value key value [] = (key, value) ∷ []
set_value key value ((k, v) ∷ values) =
    if text_eq k key then (k, value) ∷ values else (k, v) ∷ set_value key value values

unfoldable pub get_value : Text → Values → Option Text
get_value key [] = none
get_value key ((k, v) ∷ values) = if text_eq k key then some v else get_value key values

-- The value of a field of a JSON object that is sent
pub data Field : Type 0 where
  text_of : Text → Field
  number_of : ℕ → Field
  texts_of : List Text → Field
  flag_of : Bool → Field

-- A form, or a JSON object by its fields
pub data Body : Type 0 where
  no_body : Body
  form : Values → Body
  json : List (Text × Field) → Body

-- A request; `user` is its basic authentication, in the URL or in the header.
pub record Request : Type 0 where
  pub method : Text
  pub scheme : Text
  pub user : Option (Text × Text)
  pub host : Text
  pub path : Text
  pub query : Values
  pub headers : Values
  pub body : Body

pub data Reply : Type 0 where
  not_created not_done : Reply
  unread : ℕ → Reply
  replied : ℕ → Text → Reply

-- Whatever answers: the reply to the n-th request of an Update.
abbrev pub Client : Type 0
Client = ℕ → Request → Reply

-- strings.Count of one byte
unfoldable pub count_byte : ℕ → Text → ℕ
count_byte c [] = 0
count_byte c (x ∷ xs) = if x == c then count_byte c xs + 1 else count_byte c xs

-- ReadAndCleanBody, on a body that is read
unfoldable pub clean_body : Text → Text
unfolding trim_space to_lower
clean_body b = to_lower (trim_space b)

-- An Update that reads and cleans the body of the reply first.
unfoldable pub read_reply : (ℕ → Text → Result UpdateError Addr) → Reply → Result UpdateError Addr
read_reply f not_created = err creating_request
read_reply f not_done = err doing_request
read_reply f (unread status) = err reading_response
read_reply f (replied status body) = f status (clean_body body)

-- An Update that decides by the status, and reads a body for a message at most.
unfoldable pub read_status : (ℕ → Result UpdateError Addr) → Reply → Result UpdateError Addr
read_status f not_created = err creating_request
read_status f not_done = err doing_request
read_status f (unread status) = f status
read_status f (replied status body) = f status

-- A reply whose status is checked before its body is decoded
unfoldable pub after_status {ℓ} :
    {A : Type ℓ} → (ℕ → Bool) → (Text → Result UpdateError A) → Reply → Result UpdateError A
after_status refused f not_created = err creating_request
after_status refused f not_done = err doing_request
after_status refused f (unread status) =
    if refused status then err http_status_not_valid else err decoding_body
after_status refused f (replied status body) =
    if refused status then err http_status_not_valid else f body

abbrev pub not_ok : ℕ → Bool
not_ok status = not (status == 200)

-- The type of the record for an address
abbrev pub record_type : Addr → Text
record_type ip = if is6 ip then bytes "AAAA" else bytes "A"

-- The addresses in a body that are of the kind of `ip`, by either test of the kind.
unfoldable pub extract_as4 : Addr → Text → List Addr
unfolding ipv4 ipv6
extract_as4 ip s = if is4 ip then ipv4 s else ipv6 s

unfoldable pub extract_as6 : Addr → Text → List Addr
unfolding ipv4 ipv6
extract_as6 ip s = if is6 ip then ipv6 s else ipv4 s

-- The first address received must be the one sent.
unfoldable pub expect_first : Addr → List Addr → Result UpdateError Addr
expect_first ip [] = err received_no_ip
expect_first ip (new_ip ∷ ips) = if addr_eq ip new_ip then ok new_ip else err ip_received_mismatch

-- headers.SetUserAgent on a request without headers
abbrev pub user_agent : Values
user_agent = (bytes "User-Agent", bytes "DDNS-Updater quentin.mcgaw@gmail.com") ∷ []

-- http.NewRequestWithContext with MethodGet and no body, for a https URL, with the user agent
unfoldable pub get : Option (Text × Text) → Text → Text → Values → Request
get user host path query = record {
  method = bytes "GET";
  scheme = bytes "https";
  user = user;
  host = host;
  path = path;
  query = query;
  headers = user_agent;
  body = no_body;
}
