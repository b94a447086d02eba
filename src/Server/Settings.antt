-- ===== src/Server/Settings.antt =====
-- The handlers of internal/server/settings.go that edit the settings, and validateAndApplyConfig of
-- internal/server/configui.go. The validation of settings is a parameter.
pub mod Applied
pub mod Undo
use ddns_updater.Prelude.{
  ltb, if◌then◌else◌, length, set, take, drop, ℕ, zero, suc, ◌+◌, Bool, true, false, not, Option,
  none, some, List, [], ◌∷◌, ◌++◌,
}
use ddns_updater.Prelude.Int.{ℤ, pos, negsuc}
use ddns_updater.Server.{Response, succeeded, bad_request, unauthorized, internal_error}

-- The value of the key `disabled` of a setting: there is none, it is a Boolean, or something else.
pub data Disabled : Type 0 where
  not_given : Disabled
  flag : Bool → Disabled
  other_value : Disabled

pub record Setting {ℓ} (Field : Type ℓ) : Type ℓ where
  pub disabled : Disabled
  pub fields : List Field

-- `disabled, _ := setting["disabled"].(bool)`
abbrev pub is_disabled : Disabled → Bool
is_disabled not_given = false
is_disabled (flag b) = b
is_disabled other_value = false

abbrev pub toggled {ℓ} : {Field : Type ℓ} → Setting Field → Setting Field
toggled s = record s { disabled = (if is_disabled s.disabled then not_given else flag true) }

-- What the requests of a handler come to before the settings are read.
pub record Checks : Type 0 where
  pub config_editable : Bool
  pub unlocked : Bool
  pub form_ok : Bool
  pub read_ok : Bool
  pub write_ok : Bool

module _ {Field Provider : Type 0} (validate : List (Setting Field) → Option (List Provider)) where
  -- The settings in the file, and the providers in the database.
  pub record Config : Type 0 where
    pub settings : List (Setting Field)
    pub providers : List Provider

  abbrev after_validation :
      Bool → List (Setting Field) → Option (List Provider) → Config → Response × Config
  after_validation write_ok settings none config = (bad_request, config)
  after_validation write_ok settings (some providers) config =
      if write_ok
      then (succeeded, record { settings = settings; providers = providers })
      else (bad_request, config)

  -- validateAndApplyConfig; the errors of the forced update do not change the response
  unfoldable pub validate_and_apply : Bool → List (Setting Field) → Config → Response × Config
  validate_and_apply write_ok settings config =
      after_validation write_ok settings (validate settings) config

  -- The guards that the three handlers begin with.
  unfoldable pub guarded : Checks → Response × Config → Config → Response × Config
  guarded checks continued config =
      if not checks.config_editable
      then (bad_request, config)
      else if not checks.unlocked
      then (unauthorized, config)
      else if not checks.form_ok
      then (bad_request, config)
      else continued

  abbrev replace_at :
      List (Setting Field) → ℕ → (Setting Field → Setting Field) → List (Setting Field)
  replace_at [] i f = []
  replace_at (s ∷ settings) zero f = f s ∷ settings
  replace_at (s ∷ settings) (suc i) f = s ∷ replace_at settings i f

  -- An index, which strconv.Atoi may refuse, and the change of the settings at it.
  unfoldable pub at_index :
      Checks → Option ℤ → (ℕ → List (Setting Field)) → Config → Response × Config
  at_index checks none change config = (bad_request, config)
  at_index checks (some (negsuc n)) change config =
      if not checks.read_ok then (internal_error, config) else (bad_request, config)
  at_index checks (some (pos n)) change config =
      if not checks.read_ok
      then (internal_error, config)
      else if ltb n (length config.settings)
      then validate_and_apply checks.write_ok (change n) config
      else (bad_request, config)

  -- deleteSetting
  unfoldable pub delete_setting : Checks → Option ℤ → Config → Response × Config
  delete_setting checks index config =
      guarded checks
        (at_index checks index (λ n. take n config.settings ++ drop (n + 1) config.settings) config)
        config

  -- toggleSetting
  unfoldable pub toggle_setting : Checks → Option ℤ → Config → Response × Config
  toggle_setting checks index config =
      guarded checks (at_index checks index (λ n. replace_at config.settings n toggled) config)
        config

  -- saveSetting, with the setting that the payload decodes to, if it does; an empty index text is
  -- `none`, and one that is not a number is `some none`. The settings are read before the index is
  -- parsed.
  unfoldable pub save_setting :
      Checks → Option (Setting Field) → Option (Option ℤ) → Config → Response × Config
  save_setting checks none index config = guarded checks (bad_request, config) config
  save_setting checks (some s) none config =
      guarded checks
        (if not checks.read_ok
          then (internal_error, config)
          else validate_and_apply checks.write_ok (config.settings ++ s ∷ []) config)
        config
  save_setting checks (some s) (some none) config =
      guarded checks
        (if not checks.read_ok then (internal_error, config) else (bad_request, config)) config
  save_setting checks (some s) (some (some index)) config =
      guarded checks (at_index checks (some index) (λ n. set config.settings n s) config) config
