-- ===== src/Provider/Raw.antt =====
-- internal/provider: the raw settings of a client, their decoding and their refusal.
use ddns_updater.Prelude.{
  ltb, if◌then◌else◌, Text, text_eq, ℕ, ◌^◌, Bool, false, Option, none, some, List, [], ◌∷◌,
}
use ddns_updater.Result.{Result, ok, err}
use ddns_updater.Domain.{DomainError, check_domain}

-- The sentinels of errors/validation.go that the modelled providers return, the failures of
-- json.Unmarshal and url.Parse, and ErrProviderUnknown of provider.go. The domain's own error is kept where CheckDomain gave it.
pub data SettingsError : Type 0 where
  unmarshal : SettingsError
  domain_not_valid : Option DomainError → SettingsError
  owner_wildcard username_not_set username_not_valid password_not_set : SettingsError
  token_not_set token_not_valid secret_not_set key_not_set key_not_valid email_not_set :
      SettingsError
  url_not_set url_not_https url_malformed success_regex_not_set : SettingsError
  email_not_valid user_service_key_not_valid zone_identifier_not_set ttl_not_set provider_unknown :
      SettingsError

-- The raw settings, as encoding/json decodes their object: each key once, and spelled like the tag
-- of the field that takes it.
pub data Value : Type 0 where
  null : Value
  string : Text → Value
  flag : Bool → Value
  number : ℕ → Value
  other : Value

abbrev pub Object : Type 0
Object = List (Text × Value)

unfoldable pub as_string : Value → Result SettingsError Text
as_string null = ok []
as_string (string t) = ok t
as_string (flag b) = err unmarshal
as_string (number n) = err unmarshal
as_string other = err unmarshal

-- The field of type string that json.Unmarshal fills for a key.
unfoldable pub string_field : Text → Object → Result SettingsError Text
unfolding as_string
string_field key [] = ok []
string_field key ((k, v) ∷ object) = if text_eq k key then as_string v else string_field key object

unfoldable pub as_bool : Value → Result SettingsError Bool
as_bool null = ok false
as_bool (string t) = err unmarshal
as_bool (flag b) = ok b
as_bool (number n) = err unmarshal
as_bool other = err unmarshal

-- The field of type bool that json.Unmarshal fills for a key.
unfoldable pub bool_field : Text → Object → Result SettingsError Bool
unfolding as_bool
bool_field key [] = ok false
bool_field key ((k, v) ∷ object) = if text_eq k key then as_bool v else bool_field key object

unfoldable pub as_uint32 : Value → Result SettingsError ℕ
as_uint32 null = ok 0
as_uint32 (string t) = err unmarshal
as_uint32 (flag b) = err unmarshal
as_uint32 (number n) = if ltb n (2 ^ 32) then ok n else err unmarshal
as_uint32 other = err unmarshal

-- The field of type uint32 that json.Unmarshal fills for a key.
unfoldable pub uint32_field : Text → Object → Result SettingsError ℕ
unfolding as_uint32
uint32_field key [] = ok 0
uint32_field key ((k, v) ∷ object) = if text_eq k key then as_uint32 v else uint32_field key object

-- The head of most validateSettings: CheckDomain, then the provider's own tests.
unfoldable pub after_domain : Text → Option SettingsError → Option SettingsError
after_domain domain rest = elim (check_domain domain) [
  | some e ↦ some (domain_not_valid (some e))
  | none ↦ rest
]

-- The end of most New: the provider, unless its settings were refused.
unfoldable pub unless_refused {ℓ} : {A : Type ℓ} → Option SettingsError → A → Result SettingsError A
unless_refused none p = ok p
unless_refused (some e) p = err e
