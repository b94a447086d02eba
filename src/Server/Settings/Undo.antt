-- ===== src/Server/Settings/Undo.antt =====
-- Saving a new setting and deleting it again (internal/server/settings.go).
use ddns_updater.Prelude.{
  ltb, lt→ltb, length, take, drop, length-append, suc, ◌+◌, ◌≡◌, refl, ap, true, Option, none, some,
  List, [], ◌∷◌, ◌++◌, append-nil, arith,
}
use ddns_updater.Prelude.Int.{pos}
use ddns_updater.Server.{succeeded}
use ddns_updater.Server.Settings.{
  Setting, Checks, Config, validate_and_apply, guarded, at_index, delete_setting, save_setting,
}
use ddns_updater.Server.Settings.Applied.{IsApplied}

-- Every check of the handlers passes.
abbrev pub all_ok : Checks
all_ok = record {
  config_editable = true;
  unlocked = true;
  form_ok = true;
  read_ok = true;
  write_ok = true;
}

take-append {ℓ} : {A : Type ℓ} (xs ys : List A) → take (length xs) (xs ++ ys) ≡ xs
take-append [] ys = refl
take-append (x ∷ xs) ys = ap (◌∷◌ x) (take-append xs ys)

drop-append_one {ℓ} :
    {A : Type ℓ} (xs : List A) (y : A) → drop (suc (length xs)) (xs ++ y ∷ []) ≡ []
drop-append_one [] y = refl
drop-append_one (x ∷ xs) y = drop-append_one xs y

module _ {Field Provider : Type 0} (validate : List (Setting Field) → Option (List Provider)) where
  -- If every check passes, the settings with the new one at their end are valid, and the providers are
  -- those of the settings in the file, then saving the new setting succeeds with the providers of both,
  -- and deleting the last setting after it gives back the settings and the providers from before.
  pub save-delete :
      (s : Setting Field) (providers : List Provider) (config : Config validate)
      → validate (config.settings ++ s ∷ []) ≡ some providers
      → IsApplied validate config
      → let (response, saved) = save_setting validate all_ok (some s) none config in
        (response ≡ succeeded)
        × (saved.providers ≡ providers)
        × (delete_setting validate all_ok (some (pos (length config.settings))) saved
            ≡ (succeeded, config))
  unfolding save_setting delete_setting guarded at_index validate_and_apply
  save-delete s providers config h applied =
      let size = length-append config.settings (s ∷ []) in
      let within : ltb (length config.settings) (length (config.settings ++ s ∷ [])) ≡ true =
        lt→ltb _ _ (omega arith) in
      let next : length config.settings + 1 ≡ suc (length config.settings) = omega arith in
      let front = take-append config.settings (s ∷ []) in
      let back = drop-append_one config.settings s in
      let whole = append-nil config.settings in
      rw (h, within, next, front, back, whole, applied) (refl, refl, refl)
