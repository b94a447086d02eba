-- ===== src/Provider/Laws/Settings.antt =====
-- The constructors of the clients in internal/provider/providers: what becomes of accepted settings.
use ddns_updater.Prelude.{
  Text, bytes, text_eq, ◌≡◌, refl, sym, subst, Bool, false, Option, none, some, arith,
}
use ddns_updater.Result.{Result, ok, err, panic, ◌>>=◌}
use ddns_updater.Netip.{Prefix}
use ddns_updater.Domain.{check_domain, DomainError}
use ddns_updater.Provider.{SettingsError, after_domain, unless_refused, IpVersion, Provider}

pub unless_refused-ok {ℓ} :
    {A : Type ℓ} (refusal : Option SettingsError) (p q : A)
    → unless_refused refusal p ≡ ok q
    → (refusal ≡ none) × (p ≡ q)
unfolding unless_refused
unless_refused-ok none p q h = (refl, cc)
unless_refused-ok (some e) p q h = cc

pub after_domain-none :
    (domain : Text) (rest : Option SettingsError)
    → after_domain domain rest ≡ none
    → (check_domain domain ≡ none) × (rest ≡ none)
unfolding after_domain
after_domain-none domain rest h = by_check (check_domain domain) refl
  where
    by_check :
        (o : Option DomainError)
        → check_domain domain ≡ o
        → (check_domain domain ≡ none) × (rest ≡ none)
    by_check none e = (e, sym (ground (arith)))
    by_check (some d) e = ground arith

-- What New owes for accepted settings: a valid domain, the one it was given with the version and the
-- suffix, and an owner other than `*` where the provider does not take one.
pub record Accepted (wildcard : Bool) (domain : Text) (version : IpVersion) (suffix : Prefix)
    (p : Provider) : Type 0 where
  pub valid : check_domain p.domain ≡ none
  pub same_domain : p.domain ≡ domain
  pub same_version : p.ip_version ≡ version
  pub same_suffix : p.ipv6_suffix ≡ suffix
  pub no_wildcard : wildcard ≡ false → text_eq p.owner (bytes "*") ≡ false

module _ {ℓ} {A : Type ℓ} where
  pub accepted :
      (wildcard : Bool) (domain : Text) (version : IpVersion) (suffix : Prefix)
      (provider : A → Provider) (rest : Option SettingsError) (p q : A)
      → unless_refused (after_domain domain rest) p ≡ ok q
      → ((provider p).domain ≡ domain)
        × (((provider p).ip_version ≡ version)
            × (((provider p).ipv6_suffix ≡ suffix)
                × (rest ≡ none
                    → wildcard ≡ false
                    → text_eq (provider p).owner (bytes "*") ≡ false)))
      → Accepted wildcard domain version suffix (provider q)
  accepted wildcard domain version suffix provider rest p q h (d, (v, (s, w))) =
      let settled = unless_refused-ok (after_domain domain rest) p q h in
      let checked = after_domain-none domain rest settled.0 in
      subst (λ x. Accepted wildcard domain version suffix (provider x)) settled.1
        (record {
          valid = rw d checked.0;
          same_domain = d;
          same_version = v;
          same_suffix = s;
          no_wildcard = w checked.1;
        })

  -- The values that New decodes first: one, two or three.
  pub one_field :
      {B : Type 0} (decoded : Result SettingsError B) (f : B → Result SettingsError A) {p : A}
      → (decoded >>= f) ≡ ok p
      → (b : B) × (f b ≡ ok p)
  one_field (ok b) f h = (b, h)
  one_field (err _) f h = cc
  one_field panic f h = cc

  pub two_fields :
      {B : Type 0} (s : Result SettingsError Text) (u : Result SettingsError B)
      (f : Text → B → Result SettingsError A) {p : A}
      → (s >>= λ b. u >>= f b) ≡ ok p
      → (b : Text) × (c : B) × (f b c ≡ ok p)
  two_fields s u f h =
      let (b, rest) = one_field s (λ b. u >>= f b) h in
      let (c, made) = one_field u (f b) rest in (b, c, made)

  pub three_fields :
      {B : Type 0} (r s : Result SettingsError Text) (u : Result SettingsError B)
      (f : Text → Text → B → Result SettingsError A) {p : A}
      → (r >>= λ a. s >>= λ b. u >>= f a b) ≡ ok p
      → (a : Text) × (b : Text) × (c : B) × (f a b c ≡ ok p)
  three_fields r s u f h =
      let (a, rest) = one_field r (λ a. s >>= λ b. u >>= f a b) h in
      let (b, c, made) = two_fields s u (f a) rest in (a, b, c, made)
