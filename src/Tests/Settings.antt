-- ===== src/Tests/Settings.antt =====
-- The settings (internal/params) and the health check (internal/health).
use mathlib.Core.Option.{some_inj}
use ddns_updater.Prelude.{
  if◌then◌else◌, Bool-cases, length, All, Text, bytes, text_eq, text_eq_sound, is_empty, has_prefix,
  trim_suffix, split, trim_space, ◌≤◌, ◌≡◌, refl, sym, ap, subst, ◌∙◌, ◌↔◌, ◌⊎◌, inl, inr, true,
  false, Option, none, some, List, [], ◌∷◌, ◌++◌, map,
}
use ddns_updater.Result.{Result, ok}
use ddns_updater.Netip.{no_prefix, addr_eq}
use ddns_updater.IpVersion
use ddns_updater.IpVersion.{IpVersion, ip4or6}
use ddns_updater.Domain.{build_url_query_hostname}
use ddns_updater.Models.{new_record, get_current_ip}
use ddns_updater.Params.{
  CommonSettings, Request, request_for, suffix_or, version_text, extract_from_domain_field,
  make_settings_from_object, extract_owners, registered_with, owner_of, make_enabled_settings,
  owners_in, with_owners, new_providers, later_warnings,
}
use ddns_updater.Params.Owners.{IsRegistrar, extract_from_domain_field_lem}
use ddns_updater.Params.Requests.{AreChosen, make_settings_requests}
use ddns_updater.Health.{is_healthy, is_found, from_net_ip, to4}
use ddns_updater.Health.Records.{IsHealthyRecord, is_healthy_iff}
use ddns_updater.Tests.Storing.{address, one}

-- A registrar of the domains a.com and www.a.com only.
abbrev registered : Text → Option Text
registered x =
    if text_eq x (bytes "a.com")
    then some (bytes "a.com")
    else if text_eq x (bytes "www" ++ (bytes "." ++ bytes "a.com"))
    then some (bytes "a.com")
    else none

named_so :
    (x d : Text)
    → registered x ≡ some d
    → (d ≡ bytes "a.com") × ((x ≡ d) ⊎ ((pre : Text) × (x ≡ pre ++ (bytes "." ++ d))))
named_so x d h = elim (Bool-cases (text_eq x (bytes "a.com"))) [
  | inl b ↦
      let same : bytes "a.com" ≡ d = some_inj.0 (rw b at h) in
      (sym same, inl (text_eq_sound x (bytes "a.com") b ∙ same))
  | inr b ↦ elim (Bool-cases (text_eq x (bytes "www" ++ (bytes "." ++ bytes "a.com")))) [
    | inl c ↦
        let same : bytes "a.com" ≡ d = some_inj.0 (rw (b, c) at h) in
        (
          sym same,
          inr (bytes "www", text_eq_sound x _ c ∙ ap (λ z. bytes "www" ++ (bytes "." ++ z)) same),
        )
    | inr c ↦ absurd (no_registered (rw (b, c) at h))
  ]
]
  where
    no_registered : none ≡ some d → ⊥
    no_registered k = cc

registered-IsRegistrar : IsRegistrar registered
registered-IsRegistrar = record {
  not_empty = λ x d h. subst (λ z. is_empty z ≡ false) (sym (named_so x d h).0) not_empty_name;
  is_parent = λ x d h. (named_so x d h).1;
}
  where
    not_empty_name : is_empty (bytes "a.com") ≡ false
    not_empty_name = unfold bytes in refl

plain_domains : All (λ x. has_prefix x (bytes "@.") ≡ false) (split b',' (bytes "a.com,www.a.com"))
unfolding has_prefix split bytes
plain_domains = (refl, (refl, tt))

field_is_accepted :
    extract_from_domain_field registered (bytes "a.com,www.a.com")
    ≡ ok (bytes "a.com", bytes "@" ∷ bytes "www" ∷ [])
unfolding extract_from_domain_field extract_owners registered_with owner_of split text_eq bytes
    trim_suffix
field_is_accepted = refl

extract_from_domain_field_example :
    All (λ x. registered x ≡ some (bytes "a.com")) (split b',' (bytes "a.com,www.a.com"))
    × (map (λ o. build_url_query_hostname o (bytes "a.com")) (bytes "@" ∷ bytes "www" ∷ [])
        ≡ split b',' (bytes "a.com,www.a.com"))
extract_from_domain_field_example =
    extract_from_domain_field_lem registered registered-IsRegistrar (bytes "a.com,www.a.com")
      (bytes "a.com") (bytes "@" ∷ bytes "www" ∷ []) plain_domains field_is_accepted

abbrev common : CommonSettings
common = record {
  provider = bytes "noip";
  domain = bytes "a.com,www.a.com";
  disabled = false;
  host = [];
  owner = [];
  ip_version = [];
  ipv6_suffix = no_prefix;
  provider_ip = false;
}

-- Every request is granted.
abbrev granted : Request → Result Text Request
granted request = ok request

abbrev requests : List Request
requests =
    request_for common (bytes "a.com") ip4or6 no_prefix (bytes "@")
    ∷ request_for common (bytes "a.com") ip4or6 no_prefix (bytes "www")
    ∷ []

common_is_accepted :
    make_settings_from_object registered granted common no_prefix ≡ ok (requests, [])
unfolding make_settings_from_object make_enabled_settings owners_in with_owners new_providers
    later_warnings extract_from_domain_field extract_owners registered_with owner_of split text_eq
    bytes trim_suffix trim_space IpVersion.parse IpVersion.to_lower
common_is_accepted = refl

make_settings_requests_example :
    (domain : Text) × (owners : List Text) × (version : IpVersion) × AreChosen registered
      common.domain
      (if is_empty common.owner then common.host else common.owner)
      domain
      owners
    × (text_eq common.provider (bytes "google") ≡ false)
    × (IpVersion.parse (version_text common.ip_version) ≡ some version)
    × (map
          (λ o.
            granted
              (request_for common domain version (suffix_or no_prefix no_prefix) (trim_space o)))
          owners
        ≡ map ok requests)
    × (text_eq common.provider (bytes "myaddr") ≡ true → length owners ≤ 1)
make_settings_requests_example =
    make_settings_requests granted registered common no_prefix requests []
      registered-IsRegistrar.not_empty refl common_is_accepted

-- The resolver answers with the current address.
abbrev resolver : Text → Result Text (List Text)
resolver host = ok (address ∷ [])

is_healthy_example :
    (is_healthy resolver one.records ≡ ok tt) ↔ All (IsHealthyRecord resolver) one.records
is_healthy_example = is_healthy_iff resolver one.records

one_is_healthy : is_healthy resolver one.records ≡ ok tt
unfolding is_healthy is_found from_net_ip to4 new_record get_current_ip addr_eq text_eq
one_is_healthy = refl
