-- ===== src/StorageSettings/Tests.antt =====
-- Runs of the validators, and the theorem at two configurations.
use byos_email.Base.{◌≡◌, refl, true, [], ◌∷◌}
use byos_email.Base.Text.{codes}
use byos_email.StorageSettings.{Config, text, flag, valid, invalid, validate_storage_config}
use byos_email.StorageSettings.Verdict.{JudgedBy, rules_of}
use byos_email.StorageSettings.Verdict.Providers.{validate_storage_config-JudgedBy}

abbrev bucket : Config
bucket =
    ("endpoint", text (codes "https://s3"))
    ∷ ("bucket", text (codes "mail"))
    ∷ ("access_key", text (codes "k"))
    ∷ ("secret_key", text (codes "s"))
    ∷ ("path_style", flag true)
    ∷ []

bucket_is_valid : validate_storage_config "s3" bucket ≡ valid
unfolding validate_storage_config
bucket_is_valid = refl

blank_token :
    validate_storage_config "google_drive" (("access_token", text (codes "  ")) ∷ [])
    ≡ invalid "access_token" (codes "Access token must be non-empty")
unfolding validate_storage_config
blank_token = refl

validate_storage_config-JudgedBy_example :
    JudgedBy (rules_of "minio") bucket (validate_storage_config "minio" bucket)
validate_storage_config-JudgedBy_example = validate_storage_config-JudgedBy "minio" bucket
