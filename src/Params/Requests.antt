-- ===== src/Params/Requests.antt =====
-- makeSettingsFromObject of internal/params/json.go: which providers are built.
use ddns_updater.Prelude.{
  ltb, if◌then◌else◌, Bool-cases, length, Text, bytes, text_eq, is_empty, split, trim_space, ℕ, ◌≤◌,
  ◌≡◌, refl, sym, ap, ◌∙◌, ◌⊎◌, inl, inr, Bool, true, false, ◌&&◌, Option, none, some, List, [],
  ◌∷◌, map, arith,
}
use ddns_updater.Result.{Result, ok, err, panic, ◌>>=◌}
use ddns_updater.Netip.{Prefix}
use ddns_updater.IpVersion
use ddns_updater.IpVersion.{IpVersion}
use ddns_updater.Params.{unwarned, ParamsError, extract_from_domain_field}
use ddns_updater.Params.Owners.{IsNamed, AreOwners, extract_from_domain_field-AreOwners}
use ddns_updater.Prelude.{split, ◌⊎◌}
use ddns_updater.Params.{
  make_enabled_settings, no_longer_supported, Warning, CommonSettings, Request, several_owners,
  parsed, refused, version_text, suffix_or, owners_in, new_providers, with_owners,
  make_settings_from_object, request_for,
}

-- A chain that succeeds.
bind-ok {ℓ κ ι} :
    {E : Type ℓ} {A : Type κ} {B : Type ι} (m : Result E A) (f : A → Result E B) (b : B)
    → (m >>= f) ≡ ok b
    → (a : A) × (m ≡ ok a) × (f a ≡ ok b)
bind-ok (ok a) f b h = (a, refl, h)
bind-ok (err e) f b h = cc
bind-ok panic f b h = cc

ok_inj {ℓ κ} : {E : Type ℓ} {A : Type κ} (a b : A) → ◌≡◌ {A = Result E A} (ok a) (ok b) → a ≡ b
ok_inj {E} {A} a b h = ap value h
  where
    value : Result E A → A
    value (ok x) = x
    value (err e) = a
    value panic = a

not_ok {ℓ κ ι} :
    {E : Type ℓ} {A : Type κ} {P : Type ι} (e : E) (a : A) → ◌≡◌ {A = Result E A} (err e) (ok a) → P
not_ok e a h = cc

if_false {ℓ} : {A : Type ℓ} (b : Bool) (x y : A) → b ≡ false → (if b then x else y) ≡ y
if_false b x y h = rw h refl

at_most_one : (b : Bool) (n : ℕ) → b ≡ true → (b && ltb 1 n) ≡ false → n ≤ 1
at_most_one b n h k = ground arith

parsed-ok : (o : Option IpVersion) (v : IpVersion) → parsed o ≡ ok v → o ≡ some v
parsed-ok none v h = cc
parsed-ok (some u) v h = ap some (ok_inj u v h)

refused-ok {ℓ} : {P : Type ℓ} (m : Result Text P) (p : P) → refused m ≡ ok p → m ≡ ok p
refused-ok (ok q) p h = ap ok (ok_inj q p h)
refused-ok (err e) p h = cc
refused-ok panic p h = cc

-- Where the domain and the owners come from: the settings, whose owners are separated by commas; or,
-- where these name no owner, the domain field, whose domains all have this registered domain.
abbrev pub AreChosen : (Text → Option Text) → Text → Text → Text → List Text → Type 0
AreChosen registered_of field owner domain owners =
    ((is_empty owner ≡ false) × (domain ≡ field) × (owners ≡ split b',' owner))
    ⊎ ((is_empty owner ≡ true) × AreOwners registered_of domain (split b',' field) owners)

abbrev no_warning : List Warning
no_warning = []

owners_in-AreChosen :
    (registered_of : Text → Option Text) (common : CommonSettings) (owner domain : Text)
    (owners : List Text) (warnings : List Warning)
    → IsNamed registered_of
    → owners_in registered_of common owner ≡ ok ((domain, owners), warnings)
    → AreChosen registered_of common.domain owner domain owners
unfolding owners_in
owners_in-AreChosen registered_of common owner domain owners warnings named h =
    elim (Bool-cases (is_empty owner)) [
      | inl none_given ↦ inr (
        none_given,
        extract_from_domain_field-AreOwners registered_of named common.domain domain owners (
            extracted (extract_from_domain_field registered_of common.domain) (rw none_given at h)),
      )
      | inr given ↦
          let same = ok_inj _ ((domain, owners), warnings) (rw given at h) in
          inl (given, ap (λ p. p.0.0) (sym same), ap (λ p. p.0.1) (sym same))
    ]
  where
    extracted :
        (m : Result ParamsError (Text × List Text))
        → unwarned m ≡ ok ((domain, owners), warnings)
        → m ≡ ok (domain, owners)
    extracted (ok p) k = ap (λ q. ok q.0) (ok_inj (p, no_warning) ((domain, owners), warnings) k)
    extracted (err e) k = cc
    extracted panic k = cc

module _ {Provider : Type 0} (new : Request → Result Text Provider) where
  new_providers-ok :
      (request : Text → Request) (owners : List Text) (providers : List Provider)
      → new_providers new request owners ≡ ok providers
      → map (λ o. new (request (trim_space o))) owners ≡ map ok providers
  unfolding new_providers
  new_providers-ok request [] providers h = ap (map ok) (ok_inj [] providers h)
  new_providers-ok request (o ∷ owners) providers h =
      let (p, first, h') = bind-ok (refused (new (request (trim_space o)))) _ providers h in
      let (rest, others, h'') = bind-ok (new_providers new request owners) _ providers h' in
      let head = refused-ok (new (request (trim_space o))) p first in
      let tail = new_providers-ok request owners rest others in
      rw (head, tail) refl ∙ ap (map ok) (ok_inj (p ∷ rest) providers h'')

  with_owners-ok :
      (common : CommonSettings) (retro : Prefix) (domain : Text) (owners : List Text)
      (earlier warnings : List Warning) (providers : List Provider)
      → with_owners new common retro ((domain, owners), earlier) ≡ ok (providers, warnings)
      → (version : IpVersion) × (IpVersion.parse (version_text common.ip_version) ≡ some version)
        × (map
              (λ o. new (
                request_for common domain version
                  (suffix_or common.ipv6_suffix retro)
                  (trim_space o)))
              owners
            ≡ map ok providers)
        × (text_eq common.provider (bytes "myaddr") ≡ true → length owners ≤ 1)
  unfolding with_owners
  with_owners-ok common retro domain owners earlier warnings providers h =
      elim (Bool-cases (text_eq common.provider (bytes "myaddr") && ltb 1 (length owners))) [
        | inl b ↦ not_ok several_owners (providers, warnings) (rw b at h)
        | inr b ↦
            let (version, e, h') =
              bind-ok (parsed (IpVersion.parse (version_text common.ip_version))) _
                (providers, warnings) (rw b at h) in
            let request = request_for common domain version (suffix_or common.ipv6_suffix retro) in
            let (built, e', h'') =
              bind-ok (new_providers new request owners) _ (providers, warnings) h' in
            let same : built ≡ providers = ap first_of (ok_inj _ (providers, warnings) h'') in
            (
              version,
              parsed-ok (IpVersion.parse (version_text common.ip_version)) version e,
              new_providers-ok request owners built e' ∙ ap (map ok) same,
              λ m. at_most_one (text_eq common.provider (bytes "myaddr")) (length owners) m b,
            )
      ]
    where
      first_of : List Provider × List Warning → List Provider
      first_of p = p.0

  -- If registered domains are not empty, and a setting that is not disabled is accepted, then its
  -- provider is not the withdrawn `google`, its IP version can be parsed, and exactly one provider is
  -- built for each of its owners, in their order, from the trimmed owner, the domain, the version, and
  -- the setting's own IPv6 suffix or else the global one. The owners are those that the field `owner`,
  -- or else `host`, separates by commas, and the domain is the field `domain`; where these two are
  -- empty, the domains in the field `domain` all have the registered domain that is taken, and the
  -- owners are what stands before it in each, or `@`. `myaddr` gets at most one owner.
  pub make_settings_requests :
      (registered_of : Text → Option Text) (common : CommonSettings) (retro : Prefix)
      (providers : List Provider) (warnings : List Warning)
      → IsNamed registered_of
      → common.disabled ≡ false
      → make_settings_from_object registered_of new common retro ≡ ok (providers, warnings)
      → (domain : Text) × (owners : List Text) × (version : IpVersion) × AreChosen registered_of
          common.domain
          (if is_empty common.owner then common.host else common.owner)
          domain
          owners
        × (text_eq common.provider (bytes "google") ≡ false)
        × (IpVersion.parse (version_text common.ip_version) ≡ some version)
        × (map
              (λ o. new (
                request_for common domain version
                  (suffix_or common.ipv6_suffix retro)
                  (trim_space o)))
              owners
            ≡ map ok providers)
        × (text_eq common.provider (bytes "myaddr") ≡ true → length owners ≤ 1)
  unfolding make_settings_from_object make_enabled_settings
  make_settings_requests registered_of common retro providers warnings named enabled h =
      let h' =
        sym (
          if_false common.disabled (ok ([], []))
            (make_enabled_settings registered_of new common retro) enabled)
        ∙ h in
      elim (Bool-cases (text_eq common.provider (bytes "google"))) [
        | inl b ↦ not_ok no_longer_supported (providers, warnings) (rw b at h')
        | inr b ↦
            let (((domain, owners), earlier), e, h'') =
              bind-ok
                (owners_in registered_of common
                  (if is_empty common.owner then common.host else common.owner))
                _ (providers, warnings) (rw b at h') in
            let (version, parsed, built, single) =
              with_owners-ok common retro domain owners earlier warnings providers h'' in
            (
              domain,
              owners,
              version,
              owners_in-AreChosen registered_of common _ domain owners earlier named e,
              b,
              parsed,
              built,
              single,
            )
      ]
