-- ===== src/Params.antt =====
-- internal/params/json.go: from the settings file to the providers to build. The JSON text is decoded
-- by encoding/json into the data here; publicsuffix.EffectiveTLDPlusOne and the constructor of a
-- provider from its raw settings are parameters.
pub mod Owners
pub mod Requests
use ddns_updater.Prelude.{
  ltb, if◌then◌else◌, length, Text, bytes, text_eq, is_empty, trim_suffix, split, join, trim_space,
  Bool, true, false, ◌&&◌, Option, none, some, List, [], ◌∷◌, ◌++◌, map,
}
use ddns_updater.Result.{Result, ok, err, panic, ◌>>=◌}
use ddns_updater.Netip.{Prefix, prefix_is_valid}
use ddns_updater.IpVersion
use ddns_updater.IpVersion.{IpVersion, ip4or6, ip4, ip6}
use ddns_updater.Domain.{build_url_query_hostname}

-- commonSettings; whether the pointer provider_ip is set
pub record CommonSettings : Type 0 where
  pub provider : Text
  pub domain : Text
  pub disabled : Bool
  pub host : Text
  pub owner : Text
  pub ip_version : Text
  pub ipv6_suffix : Prefix
  pub provider_ip : Bool

pub data ParamsError : Type 0 where
  no_longer_supported no_registered_domain multiple_domains several_owners invalid_ip_version :
      ParamsError
  provider_refused : Text → ParamsError

pub data Warning : Type 0 where
  owner_in_domain : Text → Text → Warning
  suffix_for_ip4 provider_ip_unused hetzner_legacy : Warning

-- The arguments of provider.New but the raw settings.
pub record Request : Type 0 where
  pub name : Text
  pub domain : Text
  pub owner : Text
  pub version : IpVersion
  pub ipv6_suffix : Prefix

-- The owner of one domain, given the registered domain.
unfoldable pub owner_of : Text → Text → Text
owner_of registered domain =
    if text_eq domain registered then bytes "@" else trim_suffix domain (bytes "." ++ registered)

abbrev pub cons_owner :
    Text → Result ParamsError (Text × List Text) → Result ParamsError (Text × List Text)
cons_owner owner (ok (domain, owners)) = ok (domain, owner ∷ owners)
cons_owner owner (err e) = err e
cons_owner owner panic = panic

-- The `switch` for a domain: the registered domain from there on.
unfoldable pub registered_with : Text → Option Text → Result ParamsError Text
registered_with so_far none = err no_registered_domain
registered_with so_far (some new) =
    if is_empty so_far
    then ok new
    else if text_eq so_far new
    then ok so_far
    else err multiple_domains

abbrev pub and_then :
    Result ParamsError Text
    → (Text → Result ParamsError (Text × List Text))
    → Result ParamsError (Text × List Text)
and_then (ok d) f = f d
and_then (err e) f = err e
and_then panic f = panic

abbrev pub unwarned :
    Result ParamsError (Text × List Text) → Result ParamsError ((Text × List Text) × List Warning)
unwarned (ok p) = ok (p, [])
unwarned (err e) = err e
unwarned panic = panic

abbrev pub version_text : Text → Text
version_text t = if is_empty t then bytes "ipv4 or ipv6" else t

abbrev pub suffix_or : Prefix → Prefix → Prefix
suffix_or own retro = if prefix_is_valid own then own else retro

abbrev pub is_ip4 : IpVersion → Bool
is_ip4 ip4 = true
is_ip4 ip4or6 = false
is_ip4 ip6 = false

abbrev pub warn : Bool → Warning → List Warning
warn b w = if b then w ∷ [] else []

-- The warnings that follow the choice of version and suffix.
unfoldable pub later_warnings : CommonSettings → IpVersion → Prefix → List Warning
later_warnings common version suffix =
    warn (is_ip4 version && prefix_is_valid suffix) suffix_for_ip4
    ++ (warn common.provider_ip provider_ip_unused
        ++ warn (text_eq common.provider (bytes "hetzner")) hetzner_legacy)

abbrev pub parsed : Option IpVersion → Result ParamsError IpVersion
parsed none = err invalid_ip_version
parsed (some version) = ok version

abbrev pub refused {ℓ} : {P : Type ℓ} → Result Text P → Result ParamsError P
refused (ok p) = ok p
refused (err e) = err (provider_refused e)
refused panic = panic

-- The loop over the owners.
unfoldable pub new_providers {ℓ} :
    {P : Type ℓ}
    → (Request → Result Text P)
    → (Text → Request)
    → List Text
    → Result ParamsError (List P)
new_providers new request [] = ok []
new_providers new request (owner ∷ owners) = refused (new (request (trim_space owner))) >>= λ p.
    new_providers new request owners >>= λ rest. ok (p ∷ rest)

abbrev pub request_for : CommonSettings → Text → IpVersion → Prefix → Text → Request
request_for common domain version suffix owner = record {
  name = common.provider;
  domain = domain;
  owner = owner;
  version = version;
  ipv6_suffix = suffix;
}

module _ (registered_of : Text → Option Text) where
  -- The loop of extractFromDomainField, with the registered domain so far.
  unfoldable pub extract_owners : Text → List Text → Result ParamsError (Text × List Text)
  extract_owners so_far [] = ok (so_far, [])
  extract_owners so_far (domain ∷ domains) =
      and_then (registered_with so_far (registered_of domain))
        (λ d. cons_owner (owner_of d domain) (extract_owners d domains))

  -- extractFromDomainField
  unfoldable pub extract_from_domain_field : Text → Result ParamsError (Text × List Text)
  extract_from_domain_field field = extract_owners [] (split b',' field)

  -- The owners in the settings, or else those in the domain field; the warning for the former.
  unfoldable pub owners_in :
      CommonSettings → Text → Result ParamsError ((Text × List Text) × List Warning)
  owners_in common owner =
      if is_empty owner
      then unwarned (extract_from_domain_field common.domain)
      else (let owners = split b',' owner in
          ok (
            (common.domain, owners),
            owner_in_domain owner
                  (join (bytes ",") (map (λ o. build_url_query_hostname o common.domain) owners))
                ∷ [],
          ))

-- What follows the choice of the owners. The warnings that come with an error are left out.
unfoldable pub with_owners {ℓ} :
    {P : Type ℓ}
    → (Request → Result Text P)
    → CommonSettings
    → Prefix
    → (Text × List Text) × List Warning
    → Result ParamsError (List P × List Warning)
with_owners new common retro ((domain, owners), warnings) =
    if text_eq common.provider (bytes "myaddr") && ltb 1 (length owners)
    then err several_owners
    else parsed (IpVersion.parse (version_text common.ip_version)) >>= λ version.
        let suffix = suffix_or common.ipv6_suffix retro in
        new_providers new (request_for common domain version suffix) owners >>= λ providers.
        ok (providers, warnings ++ later_warnings common version suffix)

module _ {Provider : Type 0} (registered_of : Text → Option Text)
    (new : Request → Result Text Provider) where
  -- makeSettingsFromObject, for a setting that is not disabled
  unfoldable pub make_enabled_settings :
      CommonSettings → Prefix → Result ParamsError (List Provider × List Warning)
  make_enabled_settings common retro =
      if text_eq common.provider (bytes "google")
      then err no_longer_supported
      else owners_in registered_of common
          (if is_empty common.owner then common.host else common.owner)
        >>= λ found. with_owners new common retro found

  -- makeSettingsFromObject
  unfoldable pub make_settings_from_object :
      CommonSettings → Prefix → Result ParamsError (List Provider × List Warning)
  make_settings_from_object common retro =
      if common.disabled then ok ([], []) else make_enabled_settings common retro

  -- The loop of extractAllSettings
  unfoldable pub extract_all_settings :
      List CommonSettings → Prefix → Result ParamsError (List Provider × List Warning)
  extract_all_settings [] retro = ok ([], [])
  extract_all_settings (common ∷ rest) retro = make_settings_from_object common retro >>= λ first.
      extract_all_settings rest retro >>= λ others. ok (first.0 ++ others.0, first.1 ++ others.1)
