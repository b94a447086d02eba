-- ===== src/Providers/Myaddr.antt =====
-- internal/provider/providers/myaddr/provider.go
use ddns_updater.Prelude.{
  ◌==◌, if◌then◌else◌, Text, bytes, text_eq, is_empty, ℕ, ◌≡◌, refl, true, Option, none, some, [],
  arith,
}
use ddns_updater.Result.{Result, ok, err, ◌>>=◌}
use ddns_updater.IpVersion.{IpVersion}
use ddns_updater.Netip.{Addr, Prefix}
use ddns_updater.Netip.Print.{addr_string}
use ddns_updater.Provider.{
  UpdateError, bad_request, http_status_not_valid, key_refused, SettingsError, key_not_set,
  set_value, get_value, form, Request, Client, read_status, get, Object, string_field, after_domain,
  unless_refused, Provider, methods,
}
use ddns_updater.Provider.Laws.{
  Carries, Confirms, AnswersStatus, read_status-Confirmed, Accepted, accepted, one_field,
}

pub record Myaddr : Type 0 where
  pub domain : Text
  pub owner : Text
  pub ip_version : IpVersion
  pub ipv6_suffix : Prefix
  pub key : Text

-- validateSettings
unfoldable pub validate_settings : Text → Text → Option SettingsError
validate_settings domain key = after_domain domain (if is_empty key then some key_not_set else none)

-- New, once the raw settings are decoded
unfoldable pub build : Text → Text → IpVersion → Prefix → Text → Result SettingsError Myaddr
build domain owner version suffix key = unless_refused (validate_settings domain key) (record {
  domain = domain;
  owner = owner;
  ip_version = version;
  ipv6_suffix = suffix;
  key = key;
})

-- New
unfoldable pub new : Object → Text → Text → IpVersion → Prefix → Result SettingsError Myaddr
new raw domain owner version suffix = do
  key ← string_field (bytes "key") raw
  build domain owner version suffix key

unfoldable pub request : Myaddr → Addr → Request
request p ip = record (get none (bytes "myaddr.tools") (bytes "/update") []) {
  method = bytes "POST";
  headers =
      set_value (bytes "User-Agent") (bytes "DDNS-Updater quentin.mcgaw@gmail.com")
        (set_value (bytes "Content-Type") (bytes "application/x-www-form-urlencoded") []);
  body = form (set_value (bytes "ip") (addr_string ip) (set_value (bytes "key") p.key []));
}

unfoldable pub classify : Addr → ℕ → Result UpdateError Addr
classify ip status =
    if status == 200
    then ok ip
    else if status == 400
    then err bad_request
    else if status == 404
    then err key_refused
    else err http_status_not_valid

-- Update
unfoldable pub update : Myaddr → Client → Addr → Result UpdateError Addr
update p client ip = read_status (classify ip) (client 0 (request p ip))

-- The methods of the interface
unfoldable pub provider : Myaddr → Provider
provider p =
    methods (bytes "myaddr") (bytes "<a href=\"https://myaddr.tools/\">myaddr</a>") p.domain p.owner
      p.ip_version p.ipv6_suffix (update p)

pub request-Carries : (p : Myaddr) (ip : Addr) → Carries ip (request p ip)
unfolding request get set_value get_value text_eq bytes
request-Carries p ip = (bytes "ip", refl)

classify-AnswersStatus : (ip : Addr) → AnswersStatus ip (classify ip)
unfolding classify
classify-AnswersStatus ip status a h = ground arith

pub update-Confirms : (p : Myaddr) → Confirms true true (provider p).update
unfolding update request get provider methods
update-Confirms p client ip a =
    read_status-Confirmed true (provider p).update client ip a (request p ip) refl
      (λ _. request-Carries p ip) (classify ip) (λ c. refl) (classify-AnswersStatus ip)

pub new-Accepted :
    (raw : Object) (domain owner : Text) (version : IpVersion) (suffix : Prefix) (p : Myaddr)
    → new raw domain owner version suffix ≡ ok p
    → Accepted true domain version suffix (provider p)
unfolding new build validate_settings provider methods
new-Accepted raw domain owner version suffix p h =
    let made = one_field (string_field (bytes "key") raw) (build domain owner version suffix) h in
    accepted true domain version suffix provider _ _ p made.1 (refl, (refl, (refl, λ e k. cc)))
