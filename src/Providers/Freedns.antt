-- ===== src/Providers/Freedns.antt =====
-- internal/provider/providers/freedns/provider.go
use ddns_updater.Prelude.{
  ◌==◌, if◌then◌else◌, Text, bytes, is_empty, has_prefix, ℕ, ◌≡◌, refl, true, false, not, ◌||◌,
  Option, none, some, [], ◌++◌, arith,
}
use ddns_updater.Result.{Result, ok, err, ◌>>=◌}
use ddns_updater.IpVersion.{IpVersion}
use ddns_updater.Netip.{Addr, Prefix, is6}
use ddns_updater.Provider.{
  UpdateError, http_status_not_valid, received_no_result, unknown_response, SettingsError,
  token_not_set, Request, Client, read_reply, get, Object, string_field, after_domain,
  unless_refused, Provider, methods,
}
use ddns_updater.Provider.Laws.{
  Confirms, Answers, read_reply-Confirmed, Accepted, accepted, one_field,
}

pub record Freedns : Type 0 where
  pub domain : Text
  pub owner : Text
  pub ip_version : IpVersion
  pub ipv6_suffix : Prefix
  pub token : Text

-- validateSettings
unfoldable pub validate_settings : Text → Text → Option SettingsError
validate_settings domain token =
    after_domain domain (if is_empty token then some token_not_set else none)

-- New, once the raw settings are decoded
unfoldable pub build : Text → Text → IpVersion → Prefix → Text → Result SettingsError Freedns
build domain owner version suffix token = unless_refused (validate_settings domain token) (record {
  domain = domain;
  owner = owner;
  ip_version = version;
  ipv6_suffix = suffix;
  token = token;
})

-- New
unfoldable pub new : Object → Text → Text → IpVersion → Prefix → Result SettingsError Freedns
new raw domain owner version suffix = do
  token ← string_field (bytes "token") raw
  build domain owner version suffix token

unfoldable pub request : Freedns → Addr → Request
request p ip =
    get none ((if is6 ip then bytes "v6." else []) ++ bytes "sync.afraid.org")
      (bytes "/u/" ++ (p.token ++ bytes "/")) []

unfoldable pub classify : Addr → ℕ → Text → Result UpdateError Addr
classify ip status s =
    if not (status == 200)
    then err http_status_not_valid
    else if is_empty s
    then err received_no_result
    else if has_prefix s (bytes "no ip change detected") || has_prefix s (bytes "updated ")
    then ok ip
    else err unknown_response

-- Update
unfoldable pub update : Freedns → Client → Addr → Result UpdateError Addr
update p client ip = read_reply (classify ip) (client 0 (request p ip))

-- The methods of the interface
unfoldable pub provider : Freedns → Provider
provider p =
    methods (bytes "freedns") (bytes "<a href=\"https://freedns.afraid.org/\">FreeDNS</a>") p.domain
      p.owner p.ip_version p.ipv6_suffix (update p)

classify-Answers : (ip : Addr) → Answers ip (classify ip)
unfolding classify
classify-Answers ip status s a h = ground arith

pub update-Confirms : (p : Freedns) → Confirms true false (provider p).update
unfolding update request get provider methods
update-Confirms p client ip a =
    read_reply-Confirmed false (provider p).update client ip a (request p ip) refl (λ e. cc)
      (classify ip) (λ c. refl) (classify-Answers ip)

pub new-Accepted :
    (raw : Object) (domain owner : Text) (version : IpVersion) (suffix : Prefix) (p : Freedns)
    → new raw domain owner version suffix ≡ ok p
    → Accepted true domain version suffix (provider p)
unfolding new build validate_settings provider methods
new-Accepted raw domain owner version suffix p h =
    let made = one_field (string_field (bytes "token") raw) (build domain owner version suffix) h in
    accepted true domain version suffix provider _ _ p made.1 (refl, (refl, (refl, λ e k. cc)))
