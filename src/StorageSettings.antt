-- ===== src/StorageSettings.antt =====
-- Validation of storage settings, apps/control-plane/src/lib/validation/storage.ts. A configuration
-- is the list of its own properties, a key with its value, in the order of `Object.keys`.
pub mod Verdict
mod Tests
use byos_email.Base.{
  String, Bool, true, false, not, ◌||◌, Option, none, some, List, [], ◌∷◌, ◌++◌, if◌then◌else◌, any,
  str_eq,
}
use byos_email.Base.Text.{Text, codes, trim, is_empty}

-- A value of type `unknown`, as far as `typeof` and `trim` are applied to it.
pub data Value : Type 0 where
  text : Text → Value
  flag : Bool → Value
  something_else : Value

abbrev pub Config : Type 0
Config = List (String × Value)

pub data ValidationResult : Type 0 where
  valid : ValidationResult
  invalid : String → Text → ValidationResult

-- `config[k]`, with nothing where `k in config` does not hold
abbrev pub lookup : String → Config → Option Value
lookup k [] = none
lookup k (entry ∷ config) =
    let rest = lookup k config in if str_eq entry.0 k then some entry.1 else rest

-- `typeof v !== "string" || v.trim() === ""` does not hold
unfoldable pub is_filled : Option Value → Bool
unfolding trim
is_filled (some (text t)) = not (is_empty (trim t))
is_filled _ = false

abbrev pub is_text_or_missing : Option Value → Bool
is_text_or_missing none = true
is_text_or_missing (some (text t)) = true
is_text_or_missing (some _) = false

abbrev pub is_flag_or_missing : Option Value → Bool
is_flag_or_missing none = true
is_flag_or_missing (some (flag b)) = true
is_flag_or_missing (some _) = false

-- A test with its early `return`.
abbrev pub require : Bool → String → Text → ValidationResult → ValidationResult
require test field message rest = if test then rest else invalid field message

-- `for (const k of [ … ]) …`, with the test and the message of a key.
unfoldable pub require_each :
    (Option Value → Bool)
    → (String → Text)
    → List String
    → Config
    → ValidationResult
    → ValidationResult
require_each test message [] config rest = rest
require_each test message (k ∷ ks) config rest =
    let later = require_each test message ks config rest in
    require (test (lookup k config)) k (message k) later

-- `for (const k of Object.keys(config)) …`
unfoldable pub require_known : List String → Config → ValidationResult → ValidationResult
require_known allowed [] rest = rest
require_known allowed (entry ∷ config) rest =
    let later = require_known allowed config rest in
    require (any (str_eq entry.0) allowed) entry.0 (codes "Unknown field: " ++ codes entry.0) later

abbrev pub s3_required : List String
s3_required = "endpoint" ∷ "bucket" ∷ "access_key" ∷ "secret_key" ∷ []

abbrev pub s3_allowed : List String
s3_allowed = "endpoint" ∷ "bucket" ∷ "access_key" ∷ "secret_key" ∷ "region" ∷ "path_style" ∷ []

abbrev pub s3_texts : List String
s3_texts = "endpoint" ∷ "bucket" ∷ "access_key" ∷ "secret_key" ∷ "region" ∷ []

abbrev pub must_be_filled : String → Text
must_be_filled k = codes "Field " ++ codes k ++ codes " must be non-empty string"

abbrev pub must_be_a_string : String → Text
must_be_a_string key = codes key ++ codes " must be a string"

abbrev pub must_be_string : String → Text
must_be_string k = codes "Field " ++ codes k ++ codes " must be string"

unfoldable pub validate_s3_config : Config → ValidationResult
unfolding is_filled require_each require_known
validate_s3_config config = require_each is_filled must_be_filled s3_required config (
    require_known s3_allowed config (
      require (is_text_or_missing (lookup "region" config)) "region"
        (codes "Field region must be string")
        (require (is_flag_or_missing (lookup "path_style" config)) "path_style"
          (codes "Field path_style must be boolean")
          (require_each is_text_or_missing must_be_string s3_texts config valid))))

unfoldable pub validate_mock_config : Config → ValidationResult
unfolding require_known
validate_mock_config config = require_known ("root" ∷ []) config (
    require (is_text_or_missing (lookup "root" config)) "root" (codes "Field root must be string")
      valid)

unfoldable pub validate_google_drive_config : Config → ValidationResult
unfolding is_filled require_each require_known
validate_google_drive_config config =
    require (is_filled (lookup "access_token" config)) "access_token"
      (codes "Access token must be non-empty")
      (require_known ("access_token" ∷ "refresh_token" ∷ "folder_id" ∷ []) config (
        require_each is_text_or_missing must_be_a_string ("refresh_token" ∷ "folder_id" ∷ []) config
          valid))

unfoldable pub validate_storage_config : String → Config → ValidationResult
unfolding validate_s3_config validate_mock_config validate_google_drive_config
validate_storage_config provider config =
    if str_eq provider "s3" || (str_eq provider "minio" || str_eq provider "s3_compatible")
    then validate_s3_config config
    else if str_eq provider "google_drive_mock"
    then validate_mock_config config
    else if str_eq provider "google_drive"
    then validate_google_drive_config config
    else invalid "provider" (codes "Invalid provider")
