-- ===== src/Providers/Godaddy.antt =====
-- internal/provider/providers/godaddy/provider.go
use ddns_updater.Prelude.{
  leb, ◌==◌, if◌then◌else◌, length, Text, bytes, text_eq, is_empty, split, ℕ, ◌≡◌, refl, Bool, true,
  false, not, ◌&&◌, ◌||◌, Option, none, some, List, [], ◌∷◌, ◌++◌, arith,
}
use ddns_updater.Result.{Result, ok, err, ◌>>=◌}
use ddns_updater.IpVersion.{IpVersion}
use ddns_updater.Netip.{Addr, Prefix, is6}
use ddns_updater.Netip.Print.{addr_string}
use ddns_updater.Provider.{
  UpdateError, creating_request, doing_request, reading_response, http_status_not_valid,
  SettingsError, set_value, get_value, text_of, json, Request, Reply, not_created, not_done, unread,
  replied, Client, user_agent, get, Object, string_field, after_domain, unless_refused, Provider,
  methods, key_not_valid, secret_not_set,
}
use ddns_updater.Provider.Laws.{
  Carries, Confirms, AnswersReply, reply-Confirmed, Accepted, accepted, two_fields,
}

pub record Godaddy : Type 0 where
  pub domain : Text
  pub owner : Text
  pub ip_version : IpVersion
  pub ipv6_suffix : Prefix
  pub key : Text
  pub secret : Text

-- keyRegex: two groups of letters and digits, joined by an underscore
abbrev pub is_alnum : ℕ → Bool
is_alnum c = (leb b'A' c && leb c b'Z') || (leb b'a' c && leb c b'z') || (leb b'0' c && leb c b'9')

abbrev pub all_alnum : Text → Bool
all_alnum [] = true
all_alnum (c ∷ cs) = is_alnum c && all_alnum cs

unfoldable pub is_key : List Text → Bool
is_key (first ∷ second ∷ []) =
    leb 8 (length first)
    && leb (length first) 14
    && leb 21 (length second)
    && leb (length second) 22
    && all_alnum first
    && all_alnum second
is_key _ = false

-- validateSettings
unfoldable pub validate_settings : Text → Text → Text → Option SettingsError
validate_settings domain key secret = after_domain domain (
    if not (is_key (split b'_' key))
    then some key_not_valid
    else if is_empty secret
    then some secret_not_set
    else none)

-- New, once the raw settings are decoded
unfoldable pub build : Text → Text → IpVersion → Prefix → Text → Text → Result SettingsError Godaddy
build domain owner version suffix key secret =
    unless_refused (validate_settings domain key secret) (record {
      domain = domain;
      owner = owner;
      ip_version = version;
      ipv6_suffix = suffix;
      key = key;
      secret = secret;
    })

-- New
unfoldable pub new : Object → Text → Text → IpVersion → Prefix → Result SettingsError Godaddy
new raw domain owner version suffix = do
  key ← string_field (bytes "key") raw
  secret ← string_field (bytes "secret") raw
  build domain owner version suffix key secret

unfoldable pub request : Godaddy → Addr → Request
request p ip =
    record (get none (bytes "api.godaddy.com")
      (bytes "/v1/domains/"
        ++ (p.domain
            ++ (bytes "/records/"
                ++ ((if is6 ip then bytes "AAAA" else bytes "A") ++ (bytes "/" ++ p.owner)))))
      []) {
        method = bytes "PUT";
        headers = set_value (bytes "Accept") (bytes "application/json") (
            set_value (bytes "Content-Type") (bytes "application/json") (
              set_value (bytes "Authorization")
                (bytes "sso-key " ++ (p.key ++ (bytes ":" ++ p.secret))) user_agent));
        body = json ((bytes "data", text_of (addr_string ip)) ∷ []);
      }

-- The reply; the message in the body of an error is left out.
unfoldable pub answer : Addr → Reply → Result UpdateError Addr
answer ip not_created = err creating_request
answer ip not_done = err doing_request
answer ip (unread status) = if status == 200 then ok ip else err reading_response
answer ip (replied status body) = if status == 200 then ok ip else err http_status_not_valid

-- Update
unfoldable pub update : Godaddy → Client → Addr → Result UpdateError Addr
update p client ip = answer ip (client 0 (request p ip))

-- The methods of the interface
unfoldable pub provider : Godaddy → Provider
provider p =
    methods (bytes "godaddy") (bytes "<a href=\"https://www.godaddy.com/en-ie\">GoDaddy</a>")
      p.domain p.owner p.ip_version p.ipv6_suffix (update p)

pub request-Carries : (p : Godaddy) (ip : Addr) → Carries ip (request p ip)
unfolding request get set_value get_value text_eq bytes
request-Carries p ip = (bytes "data", refl)

answer-AnswersReply : (ip : Addr) → AnswersReply ip (answer ip)
unfolding answer
answer-AnswersReply ip not_created a h = cc
answer-AnswersReply ip not_done a h = cc
answer-AnswersReply ip (unread status) a h = (ground arith, (status, (refl, ground arith)))
answer-AnswersReply ip (replied status body) a h = (ground arith, (status, (refl, ground arith)))

pub update-Confirms : (p : Godaddy) → Confirms true true (provider p).update
unfolding update request get provider methods
update-Confirms p client ip a =
    reply-Confirmed true (provider p).update client ip a (request p ip) refl
      (λ _. request-Carries p ip) (answer ip) (λ c. refl) (answer-AnswersReply ip)

pub new-Accepted :
    (raw : Object) (domain owner : Text) (version : IpVersion) (suffix : Prefix) (p : Godaddy)
    → new raw domain owner version suffix ≡ ok p
    → Accepted true domain version suffix (provider p)
unfolding new build validate_settings provider methods
new-Accepted raw domain owner version suffix p h =
    let made =
      two_fields (string_field (bytes "key") raw) (string_field (bytes "secret") raw)
        (build domain owner version suffix) h in
    accepted true domain version suffix provider _ _ p made.2 (refl, (refl, (refl, λ e k. cc)))
