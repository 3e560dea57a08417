-- ===== src/StorageSettings/Verdict.antt =====
-- The validators against a table of what each provider allows in each field
-- (apps/control-plane/src/lib/validation/storage.ts).
pub mod Providers
use byos_email.Base.{
  ◌≡◌, ◌∙◌, ◌⊎◌, ap, refl, sym, String, Bool, true, false, ◌||◌, Option, none, some, List, [], ◌∷◌,
  ◌++◌, if◌then◌else◌, any, str_eq, eq_iff, eq_refl, arith, Bool-cases, inl, inr,
}
use byos_email.Base.Text.{Text, codes}
use byos_email.StorageSettings.{
  Config, ValidationResult, text, flag, something_else, valid, invalid, lookup, is_filled,
  is_text_or_missing, is_flag_or_missing, require, require_each, require_known, s3_required,
  s3_allowed, must_be_string, validate_s3_config, validate_mock_config,
  validate_google_drive_config, validate_storage_config, Value,
}

-- What a provider allows in a field.
pub data Rule : Type 0 where
  needed_text optional_text optional_flag unknown_field : Rule

abbrev pub accepts : Rule → Option Value → Bool
accepts needed_text v = is_filled v
accepts optional_text v = is_text_or_missing v
accepts optional_flag v = is_flag_or_missing v
accepts unknown_field none = true
accepts unknown_field (some v) = false

abbrev pub s3_rule : String → Rule
s3_rule k =
    if any (str_eq k) s3_required
    then needed_text
    else if str_eq k "region"
    then optional_text
    else if str_eq k "path_style"
    then optional_flag
    else unknown_field

abbrev pub mock_rule : String → Rule
mock_rule k = if str_eq k "root" then optional_text else unknown_field

abbrev pub google_drive_rule : String → Rule
google_drive_rule k =
    if str_eq k "access_token"
    then needed_text
    else if any (str_eq k) ("refresh_token" ∷ "folder_id" ∷ [])
    then optional_text
    else unknown_field

-- The table of a provider, where there is such a provider.
abbrev pub rules_of : String → Option (String → Rule)
rules_of provider =
    if str_eq provider "s3" || (str_eq provider "minio" || str_eq provider "s3_compatible")
    then some s3_rule
    else if str_eq provider "google_drive_mock"
    then some mock_rule
    else if str_eq provider "google_drive"
    then some google_drive_rule
    else none

-- An acceptance means that every field passes; a refusal names a field that does not.
abbrev pub Judged : (String → Bool) → ValidationResult → Type 0
Judged passes valid = (field : String) → passes field ≡ true
Judged passes (invalid field message) = passes field ≡ false

module _ (passes : String → Bool) where
  pub require-Judged :
      (test : Bool) (field : String) (message : Text) (rest : ValidationResult)
      → (test ≡ false → passes field ≡ false)
      → (test ≡ true → Judged passes rest)
      → Judged passes (require test field message rest)
  require-Judged true field message rest f g = g refl
  require-Judged false field message rest f g = f refl

  pub require_each-Judged :
      (test : Option Value → Bool) (message : String → Text) (ks : List String) (config : Config)
      (rest : ValidationResult)
      → ((k : String)
          → any (str_eq k) ks ≡ true
          → test (lookup k config) ≡ false
          → passes k ≡ false)
      → (((k : String) → any (str_eq k) ks ≡ true → test (lookup k config) ≡ true)
          → Judged passes rest)
      → Judged passes (require_each test message ks config rest)
  unfolding require_each
  require_each-Judged test message [] config rest f g = g (λ k e. cc e)
  require_each-Judged test message (k ∷ ks) config rest f g =
      require-Judged (test (lookup k config)) k _ _ (f k (rw (eq_refl k) refl)) (λ e.
        require_each-Judged test message ks config rest (λ k' h. f k' (ground (arith, h)))
          (λ all. g (λ k' h. elim (Bool-cases (str_eq k' k)) [
            | inl same ↦ ap (λ x. test (lookup x config)) ((eq_iff k' k).0 same) ∙ e
            | inr other ↦ all k' (rw other at h)
          ])))

-- A key that occurs, with what it holds.
abbrev Occurs : String → Config → Type 0
Occurs k config = (v : Value) × (lookup k config ≡ some v)

module _ (passes : String → Bool) (allowed : List String) where
  pub require_known-Judged :
      (config : Config) (rest : ValidationResult)
      → ((k : String) → any (str_eq k) allowed ≡ false → Occurs k config → passes k ≡ false)
      → (((k : String) → any (str_eq k) allowed ≡ false → lookup k config ≡ none)
          → Judged passes rest)
      → Judged passes (require_known allowed config rest)
  unfolding require_known
  require_known-Judged [] rest f g = g (λ k e. refl)
  require_known-Judged ((key, v) ∷ config) rest f g =
      require-Judged passes (any (str_eq key) allowed) key _ _
        (λ e. f key e (v, rw (eq_refl key) refl))
        (λ e.
          require_known-Judged config rest
            (λ k h (w, occurs). f k h (elim (Bool-cases (str_eq key k)) [
              | inl same ↦ (v, rw same refl)
              | inr other ↦ (w, rw other occurs)
            ]))
            (λ gone. g (λ k h. elim (Bool-cases (str_eq key k)) [
              | inl same ↦ cc (ap (λ x. any (str_eq x) allowed) ((eq_iff key k).0 same), e, h)
              | inr other ↦ rw other (gone k h)
            ])))

-- The verdict on a configuration: for a provider with a table, an acceptance means that every field
-- passes and a refusal names one that does not; every other provider is itself what is refused.
abbrev pub JudgedBy : Option (String → Rule) → Config → ValidationResult → Type 0
JudgedBy (some rule) config result = Judged (λ k. accepts (rule k) (lookup k config)) result
JudgedBy none config result = result ≡ invalid "provider" (codes "Invalid provider")
