-- ===== src/Tests/Editing.antt =====
-- The handlers of the settings (internal/server/settings.go).
use ddns_updater.Prelude.{ℕ, refl, Option, none, some, List, [], ◌∷◌, map}
use ddns_updater.Prelude.Int.{pos}
use ddns_updater.Server.Settings.{
  Setting, not_given, Config, delete_setting, toggle_setting, save_setting,
}
use ddns_updater.Server.Settings.Applied.{IsApplied, edits-IsApplied}
use ddns_updater.Server.Settings.Undo.{all_ok}

-- Every list of settings is valid, and a provider is the list of the fields of its setting.
abbrev validate : List (Setting ℕ) → Option (List (List ℕ))
validate settings = some (map (λ s. s.fields) settings)

abbrev setting : ℕ → Setting ℕ
setting n = record { disabled = not_given; fields = n ∷ [] }

abbrev config : Config validate
config = record { settings = setting 1 ∷ setting 2 ∷ []; providers = (1 ∷ []) ∷ (2 ∷ []) ∷ [] }

edits-IsApplied_example :
    IsApplied validate (save_setting validate all_ok (some (setting 3)) none config).1
    × IsApplied validate (delete_setting validate all_ok (some (pos 0)) config).1
    × IsApplied validate (toggle_setting validate all_ok (some (pos 0)) config).1
edits-IsApplied_example =
    edits-IsApplied validate all_ok (some (setting 3)) none (some (pos 0)) config refl
