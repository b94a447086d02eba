-- ===== src/Params/Owners.antt =====
-- extractFromDomainField of internal/params/json.go: owners and domains.
use ddns_updater.Prelude.{
  Bool-cases, Option-cases, length, All, length-append, Text, bytes, text_eq, text_eq_refl,
  text_eq_sound, is_empty, has_prefix, trim_suffix, split, text_eq-longer, trim_suffix-append, ◌<◌,
  ◌≡◌, refl, sym, ap, subst, ◌∙◌, ◌⊎◌, inl, inr, Bool, true, false, Option, some, List, [], ◌∷◌,
  ◌++◌, map, append_assoc, arith,
}
use ddns_updater.Result.{Result, ok, err, panic, Result-cases}
use ddns_updater.Domain.{build_url_query_hostname}
use ddns_updater.Params.{
  ParamsError, owner_of, cons_owner, registered_with, extract_owners, extract_from_domain_field,
  no_registered_domain, multiple_domains,
}

-- What EffectiveTLDPlusOne documents: the result is not empty, and it is the domain itself or what
-- follows one of its dots.
pub record IsRegistrar (registered_of : Text → Option Text) : Type 0 where
  pub not_empty : (x d : Text) → registered_of x ≡ some d → is_empty d ≡ false
  pub is_parent :
      (x d : Text)
      → registered_of x ≡ some d
      → (x ≡ d) ⊎ ((pre : Text) × (x ≡ pre ++ (bytes "." ++ d)))

longer : (pre d : Text) → length d < length (pre ++ (bytes "." ++ d))
unfolding bytes
longer pre d = omega (arith, length-append pre (b'.' ∷ d))

at_prefix : (d : Text) → has_prefix (bytes "@" ++ (bytes "." ++ d)) (bytes "@.") ≡ true
unfolding bytes has_prefix
at_prefix [] = refl
at_prefix (c ∷ d) = refl

true-false : {b : Bool} → b ≡ true → b ≡ false → ⊥
true-false p q = cc

not_at :
    (x pre d : Text)
    → x ≡ pre ++ (bytes "." ++ d)
    → has_prefix x (bytes "@.") ≡ false
    → text_eq pre (bytes "@") ≡ false
not_at x pre d e h = elim (Bool-cases (text_eq pre (bytes "@"))) [
  | inl k ↦
      let at : x ≡ bytes "@" ++ (bytes "." ++ d) =
        e ∙ ap (λ p. p ++ (bytes "." ++ d)) (text_eq_sound pre (bytes "@") k) in
      let yes : has_prefix x (bytes "@.") ≡ true = rw at (at_prefix d) in absurd (true-false yes h)
  | inr k ↦ k
]

hostname_lem :
    (x d : Text)
    → has_prefix x (bytes "@.") ≡ false
    → (x ≡ d) ⊎ ((pre : Text) × (x ≡ pre ++ (bytes "." ++ d)))
    → build_url_query_hostname (owner_of d x) d ≡ x
unfolding build_url_query_hostname owner_of
hostname_lem x d h (inl e) =
    let same : text_eq x d ≡ true = rw e (text_eq_refl d) in
    rw (same, text_eq_refl (bytes "@")) (sym e)
hostname_lem x d h (inr (pre, e)) =
    let other : text_eq x d ≡ false = text_eq-longer x d (rw e (longer pre d)) in
    let owner : trim_suffix x (bytes "." ++ d) ≡ pre =
      rw e (trim_suffix-append pre (bytes "." ++ d)) in
    let named : text_eq pre (bytes "@") ≡ false = not_at x pre d e h in
    rw (other, owner, named) (append_assoc pre (bytes ".") d ∙ sym e)

abbrev ok_both : Text → List Text → Result ParamsError (Text × List Text)
ok_both d owners = ok (d, owners)

ok_pair : (a b : Text) (l m : List Text) → ok_both a l ≡ ok_both b m → (a ≡ b) × (l ≡ m)
ok_pair a b l m h = (ap domain_of h, ap owners_of h)
  where
    domain_of : Result ParamsError (Text × List Text) → Text
    domain_of (ok p) = p.0
    domain_of (err e) = []
    domain_of panic = []

    owners_of : Result ParamsError (Text × List Text) → List Text
    owners_of (ok p) = p.1
    owners_of (err e) = []
    owners_of panic = []

abbrev NotOk : Result ParamsError (Text × List Text) → Type 0
NotOk (ok p) = ⊥
NotOk (err e) = Unit
NotOk panic = Unit

not_ok {ℓ} :
    {P : Type ℓ} (m : Result ParamsError (Text × List Text)) (d : Text) (owners : List Text)
    → NotOk m
    → m ≡ ok_both d owners
    → P
not_ok m d owners n h = absurd (subst NotOk h n)

-- EffectiveTLDPlusOne gives no empty domain.
abbrev pub IsNamed : (Text → Option Text) → Type 0
IsNamed registered_of = (x d : Text) → registered_of x ≡ some d → is_empty d ≡ false

-- All the domains have the registered domain `d`, and the owners are what stands before it in each.
abbrev pub AreOwners : (Text → Option Text) → Text → List Text → List Text → Type 0
AreOwners registered_of d domains owners =
    All (λ x. registered_of x ≡ some d) domains × (owners ≡ map (owner_of d) domains)

module _ (registered_of : Text → Option Text) (named : IsNamed registered_of) where
  step :
      (x : Text) (domains owners : List Text) (new d : Text)
      → registered_of x ≡ some new
      → ((owners' : List Text) (d' : Text)
          → extract_owners registered_of new domains ≡ ok (d', owners')
          → (is_empty new ≡ false → d' ≡ new) × AreOwners registered_of d' domains owners')
      → cons_owner (owner_of new x) (extract_owners registered_of new domains) ≡ ok (d, owners)
      → (d ≡ new) × AreOwners registered_of d (x ∷ domains) owners
  step x domains owners new d e ih h =
      elim (Result-cases (extract_owners registered_of new domains)) [
        | inl ((d', owners'), k) ↦
            let (same, agree) = ih owners' d' k in
            let (p, q) = ok_pair d' d (owner_of new x ∷ owners') owners (rw k at h) in
            let d_is_new : d ≡ new = sym p ∙ same (named x new e) in
            let (all, split) = subst (λ z. AreOwners registered_of z domains owners') p agree in
            let first : owner_of new x ≡ owner_of d x = ap (λ z. owner_of z x) (sym d_is_new) in
            (d_is_new, ((e ∙ ap some (sym d_is_new), all), sym q ∙ rw (first, split) refl))
        | inr (inl (m, k)) ↦ not_ok (err m) d owners tt (rw k at h)
        | inr (inr k) ↦ not_ok panic d owners tt (rw k at h)
      ]

  extract_owners_lem :
      (domains owners : List Text) (so_far d : Text)
      → extract_owners registered_of so_far domains ≡ ok (d, owners)
      → (is_empty so_far ≡ false → d ≡ so_far) × AreOwners registered_of d domains owners
  unfolding extract_owners registered_with
  extract_owners_lem [] owners so_far d h =
      let (p, q) = ok_pair so_far d [] owners h in (λ k. sym p, (tt, sym q))
  extract_owners_lem (x ∷ domains) owners so_far d h = elim (Option-cases (registered_of x)) [
    | inl k ↦ not_ok (err no_registered_domain) d owners tt (rw k at h)
    | inr (new, k) ↦ elim (Bool-cases (is_empty so_far)) [
      | inl b ↦
          let (same, agree) =
            step x domains owners new d k
              (λ owners' d' e. extract_owners_lem domains owners' new d' e) (rw (k, b) at h) in
          (λ c. absurd (true-false b c), agree)
      | inr b ↦ elim (Bool-cases (text_eq so_far new)) [
        | inl t ↦
            let kept = k ∙ ap some (sym (text_eq_sound so_far new t)) in
            let (same, agree) =
              step x domains owners so_far d kept
                (λ owners' d' e. extract_owners_lem domains owners' so_far d' e)
                (rw (k, b, t) at h) in
            (λ c. same, agree)
        | inr t ↦ not_ok (err multiple_domains) d owners tt (rw (k, b, t) at h)
      ]
    ]
  ]

  pub extract_from_domain_field-AreOwners :
      (field d : Text) (owners : List Text)
      → extract_from_domain_field registered_of field ≡ ok (d, owners)
      → AreOwners registered_of d (split b',' field) owners
  unfolding extract_from_domain_field
  extract_from_domain_field-AreOwners field d owners h =
      (extract_owners_lem (split b',' field) owners [] d h).1

module _ (registered_of : Text → Option Text) (registrar : IsRegistrar registered_of) where
  hostnames :
      (d : Text) (domains : List Text)
      → All (λ x. has_prefix x (bytes "@.") ≡ false) domains
      → All (λ x. registered_of x ≡ some d) domains
      → map (λ o. build_url_query_hostname o d) (map (owner_of d) domains) ≡ domains
  hostnames d [] plain all = refl
  hostnames d (x ∷ domains) plain all =
      rw
        (
          hostname_lem x d plain.0 (registrar.is_parent x d all.0),
          hostnames d domains plain.1 all.1,
        )
        refl

  -- If the domain field is accepted, then all its domains have the registered domain that is returned,
  -- and each is the host name of the owner in its place, provided that no domain begins with `@.`.
  pub extract_from_domain_field_lem :
      (field d : Text) (owners : List Text)
      → All (λ x. has_prefix x (bytes "@.") ≡ false) (split b',' field)
      → extract_from_domain_field registered_of field ≡ ok (d, owners)
      → All (λ x. registered_of x ≡ some d) (split b',' field)
        × (map (λ o. build_url_query_hostname o d) owners ≡ split b',' field)
  extract_from_domain_field_lem field d owners plain h =
      let (all, split) =
        extract_from_domain_field-AreOwners registered_of registrar.not_empty field d owners h in
      (all, rw split (hostnames d _ plain all))
