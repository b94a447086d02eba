-- ===== src/Providers/Dynu.antt =====
-- internal/provider/providers/dynu/provider.go
use ddns_updater.Prelude.{
  ◌==◌, if◌then◌else◌, Bool-cases, Text, bytes, text_eq, is_empty, contains, ℕ, ◌≡◌, refl, inl, inr,
  true, false, not, Option, none, some, [], arith,
}
use ddns_updater.Result.{Result, ok, err, ◌>>=◌}
use ddns_updater.IpVersion.{IpVersion}
use ddns_updater.Netip.{Addr, Prefix, is6}
use ddns_updater.Netip.Print.{addr_string}
use ddns_updater.Domain.{build_domain_name}
use ddns_updater.Provider.{
  UpdateError, auth, banned_abuse, hostname_not_exists, http_status_not_valid, unknown_response,
  SettingsError, owner_wildcard, username_not_set, password_not_set, Values, set_value, get_value,
  Request, Client, read_reply, get, Object, string_field, after_domain, unless_refused, Provider,
  methods,
}
use ddns_updater.Provider.Laws.{
  Carries, Confirms, Answers, read_reply-Confirmed, Accepted, accepted, three_fields,
}

pub record Dynu : Type 0 where
  pub domain : Text
  pub owner : Text
  pub ip_version : IpVersion
  pub ipv6_suffix : Prefix
  pub group : Text
  pub username : Text
  pub password : Text

-- The default owner
unfoldable pub owner_or_root : Text → Text
owner_or_root owner = if is_empty owner then bytes "@" else owner

-- validateSettings
unfoldable pub validate_settings : Text → Text → Text → Text → Option SettingsError
validate_settings domain owner username password = after_domain domain (
    if text_eq owner (bytes "*")
    then some owner_wildcard
    else if is_empty username
    then some username_not_set
    else if is_empty password
    then some password_not_set
    else none)

-- New, once the raw settings are decoded
unfoldable pub build :
    Text → Text → IpVersion → Prefix → Text → Text → Text → Result SettingsError Dynu
build domain owner version suffix username password group =
    unless_refused (validate_settings domain (owner_or_root owner) username password) (record {
      domain = domain;
      owner = (owner_or_root owner);
      ip_version = version;
      ipv6_suffix = suffix;
      group = group;
      username = username;
      password = password;
    })

-- New
unfoldable pub new : Object → Text → Text → IpVersion → Prefix → Result SettingsError Dynu
new raw domain owner version suffix = do
  username ← string_field (bytes "username") raw
  password ← string_field (bytes "password") raw
  group ← string_field (bytes "group") raw
  build domain owner version suffix username password group

-- The address, under the key for its kind
unfoldable pub set_address : Addr → Values → Values
set_address ip values =
    if is6 ip
    then set_value (bytes "myipv6") (addr_string ip) values
    else set_value (bytes "myip") (addr_string ip) values

unfoldable pub request : Dynu → Addr → Request
request p ip = get none (bytes "api.dynu.com") (bytes "/nic/update") (
    set_address ip (
      set_value (bytes "hostname") (build_domain_name p.owner p.domain) (
        set_value (bytes "location") p.group
          (set_value (bytes "password") p.password (set_value (bytes "username") p.username [])))))

unfoldable pub classify : Addr → ℕ → Text → Result UpdateError Addr
classify ip status s =
    if not (status == 200)
    then err http_status_not_valid
    else if contains s (bytes "badauth")
    then err auth
    else if contains s (bytes "notfqdn")
    then err hostname_not_exists
    else if contains s (bytes "abuse")
    then err banned_abuse
    else if contains s (bytes "good")
    then ok ip
    else if contains s (bytes "nochg")
    then ok ip
    else err unknown_response

-- Update
unfoldable pub update : Dynu → Client → Addr → Result UpdateError Addr
update p client ip = read_reply (classify ip) (client 0 (request p ip))

-- The methods of the interface
unfoldable pub provider : Dynu → Provider
provider p =
    methods (bytes "dynu") (bytes "<a href=\"https://dynu.com/\">Dynu</a>") p.domain p.owner
      p.ip_version p.ipv6_suffix (update p)

pub request-Carries : (p : Dynu) (ip : Addr) → Carries ip (request p ip)
unfolding request get set_value get_value text_eq bytes set_address
request-Carries p ip = elim (Bool-cases (is6 ip)) [
  | inl e ↦ (bytes "myipv6", rw e refl)
  | inr e ↦ (bytes "myip", rw e refl)
]

classify-Answers : (ip : Addr) → Answers ip (classify ip)
unfolding classify
classify-Answers ip status s a h = ground arith

pub update-Confirms : (p : Dynu) → Confirms true true (provider p).update
unfolding update request get provider methods
update-Confirms p client ip a =
    read_reply-Confirmed true (provider p).update client ip a (request p ip) refl
      (λ _. request-Carries p ip) (classify ip) (λ c. refl) (classify-Answers ip)

pub new-Accepted :
    (raw : Object) (domain owner : Text) (version : IpVersion) (suffix : Prefix) (p : Dynu)
    → new raw domain owner version suffix ≡ ok p
    → Accepted false domain version suffix (provider p)
unfolding new build validate_settings provider methods
new-Accepted raw domain owner version suffix p h =
    let made =
      three_fields (string_field (bytes "username") raw) (string_field (bytes "password") raw)
        (string_field (bytes "group") raw) (build domain owner version suffix) h in
    accepted false domain version suffix provider _ _ p made.3
      (refl, (refl, (refl, λ e k. ground arith)))
