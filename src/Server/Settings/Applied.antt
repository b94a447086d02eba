-- ===== src/Server/Settings/Applied.antt =====
-- What the handlers of internal/server/settings.go leave behind.
use ddns_updater.Prelude.{
  ltb, if◌then◌else◌, Bool-cases, Option-cases, length, ℕ, ◌≡◌, inl, inr, Bool, true, false, not,
  Option, none, some, List, [], ◌∷◌, ◌++◌,
}
use ddns_updater.Prelude.Int.{ℤ, pos, negsuc}
use ddns_updater.Server.{Response}
use ddns_updater.Server.Settings.{
  Setting, Checks, Config, validate_and_apply, guarded, at_index, delete_setting, toggle_setting,
  save_setting,
}

module _ {Field Provider : Type 0} (validate : List (Setting Field) → Option (List Provider)) where
  -- The providers in the database are those of the settings in the file.
  abbrev pub IsApplied : Config validate → Type 0
  IsApplied config = validate config.settings ≡ some config.providers

  apply-IsApplied :
      (write_ok : Bool) (settings : List (Setting Field)) (config : Config validate)
      → IsApplied config
      → IsApplied (validate_and_apply validate write_ok settings config).1
  unfolding validate_and_apply
  apply-IsApplied write_ok settings config h = elim (Option-cases (validate settings)) [
    | inl e ↦ rw e h
    | inr (providers, e) ↦ elim (Bool-cases write_ok) [ inl w ↦ rw (e, w) e | inr w ↦ rw (e, w) h ]
  ]

  guarded-IsApplied :
      (checks : Checks) (continued : Response × Config validate) (config : Config validate)
      → IsApplied config
      → IsApplied continued.1
      → IsApplied (guarded validate checks continued config).1
  unfolding guarded
  guarded-IsApplied checks continued config h k = elim (Bool-cases checks.config_editable) [
    | inr a ↦ rw a h
    | inl a ↦ elim (Bool-cases checks.unlocked) [
      | inr b ↦ rw (a, b) h
      | inl b ↦ elim (Bool-cases checks.form_ok) [ inr c ↦ rw (a, b, c) h | inl c ↦ rw (a, b, c) k ]
    ]
  ]

  if-IsApplied :
      (b : Bool) (x y : Response × Config validate)
      → IsApplied x.1
      → IsApplied y.1
      → IsApplied (if b then x else y).1
  if-IsApplied true x y h k = h
  if-IsApplied false x y h k = k

  at_index-IsApplied :
      (checks : Checks) (index : Option ℤ) (change : ℕ → List (Setting Field))
      (config : Config validate)
      → IsApplied config
      → IsApplied (at_index validate checks index change config).1
  unfolding at_index
  at_index-IsApplied checks none change config h = h
  at_index-IsApplied checks (some (negsuc n)) change config h =
      if-IsApplied (not checks.read_ok) _ _ h h
  at_index-IsApplied checks (some (pos n)) change config h =
      if-IsApplied (not checks.read_ok) _ _ h (
        if-IsApplied (ltb n (length config.settings)) _ _
          (apply-IsApplied checks.write_ok (change n) config h) h)

  -- Saving, deleting or toggling a setting keeps the providers in the database those of the settings in
  -- the file, whatever the request and however the handler ends.
  pub edits-IsApplied :
      (checks : Checks) (setting : Option (Setting Field)) (target : Option (Option ℤ))
      (index : Option ℤ) (config : Config validate)
      → IsApplied config
      → IsApplied (save_setting validate checks setting target config).1
        × IsApplied (delete_setting validate checks index config).1
        × IsApplied (toggle_setting validate checks index config).1
  unfolding delete_setting toggle_setting save_setting
  edits-IsApplied checks setting target index config h = (
    save setting target,
    guarded-IsApplied checks _ config h (at_index-IsApplied checks index _ config h),
    guarded-IsApplied checks _ config h (at_index-IsApplied checks index _ config h),
  )
    where
      save :
          (setting : Option (Setting Field)) (target : Option (Option ℤ))
          → IsApplied (save_setting validate checks setting target config).1
      save none target = guarded-IsApplied checks _ config h h
      save (some s) none = guarded-IsApplied checks _ config h (
          if-IsApplied (not checks.read_ok) _ _ h
            (apply-IsApplied checks.write_ok (config.settings ++ s ∷ []) config h))
      save (some s) (some none) =
          guarded-IsApplied checks _ config h (if-IsApplied (not checks.read_ok) _ _ h h)
      save (some s) (some (some i)) =
          guarded-IsApplied checks _ config h (at_index-IsApplied checks (some i) _ config h)
