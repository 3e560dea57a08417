-- ===== src/StorageSettings/Verdict/Providers.antt =====
-- Each provider's validator against its table (apps/control-plane/src/lib/validation/storage.ts).
use byos_email.Base.{
  ◌≡◌, ◌∙◌, ap, refl, String, Bool, true, false, ◌||◌, Option, none, some, [], ◌∷◌, any, str_eq,
  eq_iff, arith, Bool-cases, inl, inr,
}
use byos_email.StorageSettings.{
  Config, text, flag, something_else, valid, lookup, is_filled, is_text_or_missing,
  is_flag_or_missing, s3_required, s3_allowed, s3_texts, must_be_filled, must_be_a_string,
  must_be_string, validate_s3_config, validate_mock_config, validate_google_drive_config,
  validate_storage_config, Value,
}
use byos_email.StorageSettings.Verdict.{
  unknown_field, optional_text, accepts, s3_rule, mock_rule, google_drive_rule, rules_of, Judged,
  JudgedBy, require-Judged, require_each-Judged, require_known-Judged,
}

filled-text : (v : Option Value) → is_filled v ≡ true → is_text_or_missing v ≡ true
unfolding is_filled
filled-text none h = refl
filled-text (some (text t)) h = refl
filled-text (some (flag b)) h = cc h
filled-text (some something_else) h = cc h

abbrev s3_passes : Config → String → Bool
s3_passes config k = accepts (s3_rule k) (lookup k config)

needed :
    (config : Config) (k : String)
    → any (str_eq k) s3_required ≡ true
    → s3_passes config k ≡ is_filled (lookup k config)
needed config k h = rw h refl

unknown :
    (config : Config) (k : String)
    → any (str_eq k) s3_allowed ≡ false
    → s3_passes config k ≡ accepts unknown_field (lookup k config)
unknown config k h = ground (arith, h)

texted :
    (config : Config) (k : String)
    → any (str_eq k) s3_required ≡ false
    → str_eq k "region" ≡ true
    → s3_passes config k ≡ is_text_or_missing (lookup k config)
texted config k e f = rw (e, f) refl

-- A test on the field of a key, for a key that equals it.
same_field :
    (test : Option Value → Bool) (config : Config) (k field : String)
    → str_eq k field ≡ true
    → test (lookup k config) ≡ test (lookup field config)
same_field test config k field e = ap (λ x. test (lookup x config)) ((eq_iff k field).0 e)

all_pass :
    (config : Config) (k : String)
    → ((x : String) → any (str_eq x) s3_required ≡ true → is_filled (lookup x config) ≡ true)
    → ((x : String) → any (str_eq x) s3_allowed ≡ false → lookup x config ≡ none)
    → is_text_or_missing (lookup "region" config) ≡ true
    → is_flag_or_missing (lookup "path_style" config) ≡ true
    → s3_passes config k ≡ true
all_pass config k filled gone region style = elim (Bool-cases (any (str_eq k) s3_required)) [
  | inl e ↦ needed config k e ∙ filled k e
  | inr e ↦ elim (Bool-cases (str_eq k "region")) [
    | inl f ↦ texted config k e f ∙ (same_field is_text_or_missing config k "region" f ∙ region)
    | inr f ↦ elim (Bool-cases (str_eq k "path_style")) [
      | inl g ↦ rw (e, f, g) (same_field is_flag_or_missing config k "path_style" g ∙ style)
      | inr g ↦ rw (e, f, g) (ap (accepts unknown_field) (gone k (ground (arith, e, f, g))))
    ]
  ]
]

validate_s3_config-Judged :
    (config : Config) → Judged (s3_passes config) (validate_s3_config config)
unfolding validate_s3_config
validate_s3_config-Judged config =
    require_each-Judged (s3_passes config) is_filled must_be_filled s3_required config _
      (λ k h e. needed config k h ∙ e)
      (λ filled.
        require_known-Judged (s3_passes config) s3_allowed config _
          (λ k h (v, e). unknown config k h ∙ ap (accepts unknown_field) e)
          (λ gone.
            require-Judged (s3_passes config) (is_text_or_missing (lookup "region" config)) "region"
              _ _ (λ e. e)
              (λ region.
                require-Judged (s3_passes config) (is_flag_or_missing (lookup "path_style" config))
                  "path_style" _ _ (λ e. e)
                  (λ style.
                    require_each-Judged (s3_passes config) is_text_or_missing must_be_string
                      s3_texts config valid
                      (λ k h bad. elim (Bool-cases (any (str_eq k) s3_required)) [
                        | inl e ↦ cc (filled-text (lookup k config) (filled k e), bad)
                        | inr e ↦ texted config k e (ground (arith, h, e)) ∙ bad
                      ])
                      (λ texts k. all_pass config k filled gone region style)))))

mock_unknown : (k : String) → any (str_eq k) ("root" ∷ []) ≡ false → mock_rule k ≡ unknown_field
mock_unknown k h = ground (arith, h)

abbrev mock_passes : Config → String → Bool
mock_passes config k = accepts (mock_rule k) (lookup k config)

validate_mock_config-Judged :
    (config : Config) → Judged (mock_passes config) (validate_mock_config config)
unfolding validate_mock_config
validate_mock_config-Judged config =
    require_known-Judged (mock_passes config) ("root" ∷ []) config _
      (λ k h (v, e). rw (mock_unknown k h) (ap (accepts unknown_field) e))
      (λ gone.
        require-Judged (mock_passes config) (is_text_or_missing (lookup "root" config)) "root" _ _
          (λ e. e)
          (λ root k. elim (Bool-cases (str_eq k "root")) [
            | inl e ↦ rw e (same_field is_text_or_missing config k "root" e ∙ root)
            | inr e ↦ rw e (ap (accepts unknown_field) (gone k (ground (arith, e))))
          ]))

abbrev drive_passes : Config → String → Bool
drive_passes config k = accepts (google_drive_rule k) (lookup k config)

drive_unknown :
    (k : String)
    → any (str_eq k) ("access_token" ∷ "refresh_token" ∷ "folder_id" ∷ []) ≡ false
    → google_drive_rule k ≡ unknown_field
drive_unknown k h = ground (arith, h)

drive_texted :
    (k : String)
    → any (str_eq k) ("refresh_token" ∷ "folder_id" ∷ []) ≡ true
    → str_eq k "access_token" ≡ false
    → google_drive_rule k ≡ optional_text
drive_texted k h e = rw (e, h) refl

validate_google_drive_config-Judged :
    (config : Config) → Judged (drive_passes config) (validate_google_drive_config config)
unfolding validate_google_drive_config
validate_google_drive_config-Judged config =
    require-Judged (drive_passes config) (is_filled (lookup "access_token" config)) "access_token" _
      _ (λ e. e)
      (λ token.
        require_known-Judged (drive_passes config)
          ("access_token" ∷ "refresh_token" ∷ "folder_id" ∷ []) config _
          (λ k h (v, e). rw (drive_unknown k h) (ap (accepts unknown_field) e))
          (λ gone.
            require_each-Judged (drive_passes config) is_text_or_missing must_be_a_string
              ("refresh_token" ∷ "folder_id" ∷ []) config valid
              (λ k h bad. elim (Bool-cases (str_eq k "access_token")) [
                | inl e ↦ cc (
                  filled-text (lookup "access_token" config) token,
                  same_field is_text_or_missing config k "access_token" e,
                  bad,
                )
                | inr e ↦ rw (drive_texted k h e) bad
              ])
              (λ texts k. elim (Bool-cases (str_eq k "access_token")) [
                | inl e ↦ rw e (same_field is_filled config k "access_token" e ∙ token)
                | inr e ↦ elim (Bool-cases (any (str_eq k) ("refresh_token" ∷ "folder_id" ∷ []))) [
                  | inl f ↦ rw (drive_texted k f e) (texts k f)
                  | inr f ↦
                      rw (drive_unknown k (ground (arith, e, f)))
                        (ap (accepts unknown_field) (gone k (ground (arith, e, f))))
                ]
              ])))

-- For every provider and configuration: where the provider has a table, the settings are accepted
-- only if every field, the missing and the unknown ones included, holds what the table allows, and a
-- refusal names a field that does not; a provider without a table is refused as such.
pub validate_storage_config-JudgedBy :
    (provider : String) (config : Config)
    → JudgedBy (rules_of provider) config (validate_storage_config provider config)
unfolding validate_storage_config
validate_storage_config-JudgedBy provider config =
    elim (Bool-cases
      (str_eq provider "s3" || (str_eq provider "minio" || str_eq provider "s3_compatible"))) [
        | inl e ↦ rw e (validate_s3_config-Judged config)
        | inr e ↦ elim (Bool-cases (str_eq provider "google_drive_mock")) [
          | inl f ↦ rw (e, f) (validate_mock_config-Judged config)
          | inr f ↦ elim (Bool-cases (str_eq provider "google_drive")) [
            | inl g ↦ rw (e, f, g) (validate_google_drive_config-Judged config)
            | inr g ↦ rw (e, f, g) refl
          ]
        ]
      ]
