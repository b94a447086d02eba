-- ===== src/Providers/Desec.antt =====
-- internal/provider/providers/desec/provider.go
use ddns_updater.Prelude.{
  ◌==◌, if◌then◌else◌, Bool-cases, Text, bytes, text_eq, is_empty, has_prefix, ℕ, ◌≡◌, refl, inl,
  inr, true, not, Option, none, some, [], arith,
}
use ddns_updater.Result.{Result, ok, err, ◌>>=◌}
use ddns_updater.IpVersion.{IpVersion}
use ddns_updater.Netip.{Addr, Prefix, is6}
use ddns_updater.Netip.Print.{addr_string}
use ddns_updater.Domain.{build_url_query_hostname, build_domain_name}
use ddns_updater.Provider.{
  UpdateError, auth, bad_request, hostname_not_exists, http_status_not_valid, unknown_response,
  SettingsError, token_not_set, Values, set_value, get_value, Request, Client, read_reply, get,
  Object, string_field, after_domain, unless_refused, Provider, methods,
}
use ddns_updater.Provider.Laws.{
  Carries, Confirms, Answers, read_reply-Confirmed, Accepted, accepted, one_field,
}

pub record Desec : Type 0 where
  pub domain : Text
  pub owner : Text
  pub ip_version : IpVersion
  pub ipv6_suffix : Prefix
  pub token : Text

-- The default owner
unfoldable pub owner_or_root : Text → Text
owner_or_root owner = if is_empty owner then bytes "@" else owner

-- validateSettings
unfoldable pub validate_settings : Text → Text → Option SettingsError
validate_settings domain token =
    after_domain domain (if is_empty token then some token_not_set else none)

-- New, once the raw settings are decoded
unfoldable pub build : Text → Text → IpVersion → Prefix → Text → Result SettingsError Desec
build domain owner version suffix token = unless_refused (validate_settings domain token) (record {
  domain = domain;
  owner = (owner_or_root owner);
  ip_version = version;
  ipv6_suffix = suffix;
  token = token;
})

-- New
unfoldable pub new : Object → Text → Text → IpVersion → Prefix → Result SettingsError Desec
new raw domain owner version suffix = do
  token ← string_field (bytes "token") raw
  build domain owner version suffix token

-- The address of one kind is set, and that of the other kind preserved.
unfoldable pub set_addresses : Addr → Values → Values
set_addresses ip values =
    if is6 ip
    then set_value (bytes "myipv4") (bytes "preserve")
        (set_value (bytes "myipv6") (addr_string ip) values)
    else set_value (bytes "myipv6") (bytes "preserve")
        (set_value (bytes "myipv4") (addr_string ip) values)

unfoldable pub request : Desec → Addr → Request
request p ip =
    get (some (build_domain_name p.owner p.domain, p.token)) (bytes "update.dedyn.io") [] (
      set_value (bytes "myip") (addr_string ip) (
        set_addresses ip
          (set_value (bytes "hostname") (build_url_query_hostname p.owner p.domain) [])))

unfoldable pub classify : Addr → ℕ → Text → Result UpdateError Addr
classify ip status s =
    if status == 401
    then err auth
    else if status == 404
    then err hostname_not_exists
    else if not (status == 200)
    then err http_status_not_valid
    else if has_prefix s (bytes "notfqdn")
    then err hostname_not_exists
    else if has_prefix s (bytes "badrequest")
    then err bad_request
    else if has_prefix s (bytes "good")
    then ok ip
    else err unknown_response

-- Update
unfoldable pub update : Desec → Client → Addr → Result UpdateError Addr
update p client ip = read_reply (classify ip) (client 0 (request p ip))

-- The methods of the interface
unfoldable pub provider : Desec → Provider
provider p =
    methods (bytes "desec") (bytes "<a href=\"https://desec.io/\">deSEC</a>") p.domain p.owner
      p.ip_version p.ipv6_suffix (update p)

pub request-Carries : (p : Desec) (ip : Addr) → Carries ip (request p ip)
unfolding request get set_value get_value text_eq bytes set_addresses
request-Carries p ip = elim (Bool-cases (is6 ip)) [
  | inl e ↦ (bytes "myip", rw e refl)
  | inr e ↦ (bytes "myip", rw e refl)
]

classify-Answers : (ip : Addr) → Answers ip (classify ip)
unfolding classify
classify-Answers ip status s a h = ground arith

pub update-Confirms : (p : Desec) → Confirms true true (provider p).update
unfolding update request get provider methods
update-Confirms p client ip a =
    read_reply-Confirmed true (provider p).update client ip a (request p ip) refl
      (λ _. request-Carries p ip) (classify ip) (λ c. refl) (classify-Answers ip)

pub new-Accepted :
    (raw : Object) (domain owner : Text) (version : IpVersion) (suffix : Prefix) (p : Desec)
    → new raw domain owner version suffix ≡ ok p
    → Accepted true domain version suffix (provider p)
unfolding new build validate_settings provider methods
new-Accepted raw domain owner version suffix p h =
    let made = one_field (string_field (bytes "token") raw) (build domain owner version suffix) h in
    accepted true domain version suffix provider _ _ p made.1 (refl, (refl, (refl, λ e k. cc)))
