-- ===== src/MailboxKey.antt =====
-- The mailbox key: unlocking, unwrapping and wrapping in apps/webmail/src/message_crypto.ts.
-- `json_parse` is `JSON.parse` as the fields of an object that are strings.
pub mod RoundTrip
pub mod Length
mod Tests
use byos_email.Base.{
  ℕ, ◌≤◌, Bool, true, false, not, ◌&&◌, ◌||◌, Option, none, some, List, [], ◌∷◌, ◌++◌,
  if◌then◌else◌, leb, ◌==◌, all, take, drop, length,
}
use byos_email.Base.Text.{Text, codes, trim, starts_with, includes, is_empty}
use byos_email.Encoding.{
  Failure, Result, ok, throws, ◌>>=◌, ◌>>◌, check, call, bytes_to_hex, hex_to_bytes, mailbox_id_hex,
  base64_to_bytes, phrase_required, unwrap_failed, missing_wrapped, invalid_json, invalid_format,
  invalid_salt_length, invalid_key_length, core_failed, digit_value,
}
use byos_email.Envelope.{Core, field_text}

-- `if (sk.length !== 32) throw`
abbrev pub key_of_hex : Failure → Text → Result (List ℕ)
key_of_hex failure hex = do sk ← hex_to_bytes hex; check (length sk == 32) failure; ok sk

-- `/^[0-9a-fA-F]{64}$/`
abbrev pub is_hex_digit : ℕ → Bool
is_hex_digit c = elim (digit_value c) [ none ↦ false | some _ ↦ true ]

unfoldable pub is_raw_key : Text → Bool
unfolding digit_value
is_raw_key words = length words == 64 && all is_hex_digit words

-- `a || b || ""` on two fields of a parsed object
abbrev pub field_or : (Text → Option Text) → Text → Text → Text
field_or object a b =
    if is_empty (field_text (object a)) then field_text (object b) else field_text (object a)

-- `split(":")`: the part before the first colon, and what follows it up to the next one.
unfoldable pub before_colon : Text → Text
before_colon [] = []
before_colon (c ∷ s) = let rest = before_colon s in if c == b':' then [] else c ∷ rest

unfoldable pub after_colon : Text → Text
after_colon [] = []
after_colon (c ∷ s) = let rest = after_colon s in if c == b':' then s else rest

-- Salt and envelope of a wrapped key, in one of its three formats.
unfoldable pub salt_and_envelope :
    (Text → Option (Text → Option Text)) → Text → Result (Text × Text)
unfolding before_colon after_colon
salt_and_envelope json_parse trimmed =
    if starts_with trimmed (codes "{")
    then (do
      parsed ← call invalid_json (json_parse trimmed)
      ok (
        field_or parsed (codes "salt") (codes "salt_hex"),
        field_or parsed (codes "envelope") (codes "envelope_hex"),
      ))
    else if includes trimmed (codes ":")
    then ok (before_colon trimmed, before_colon (after_colon trimmed))
    else if leb 32 (length trimmed)
    then ok (take 32 trimmed, drop 32 trimmed)
    else throws invalid_format

module _ (core : Core) where
  unfoldable pub auto_unwrap_mailbox_key :
      (Text → Option (Text → Option Text)) → Text → Text → Result (List ℕ)
  unfolding hex_to_bytes trim salt_and_envelope
  auto_unwrap_mailbox_key json_parse password wrapped_sk_user = do
    let trimmed = trim wrapped_sk_user
    check (not (is_empty trimmed)) missing_wrapped
    parts ← salt_and_envelope json_parse trimmed
    check (length parts.0 == 32) invalid_salt_length
    sk_hex ← call core_failed (core.passphrase_unwrap_key password parts.0 parts.1)
    key_of_hex invalid_key_length sk_hex

  -- `salt` is what `crypto.getRandomValues` fills in.
  unfoldable pub wrap_mailbox_key_with_passphrase : List ℕ → List ℕ → Text → List ℕ → Result Text
  unfolding bytes_to_hex
  wrap_mailbox_key_with_passphrase nonce salt password mailbox_sk = do
    let salt_hex = bytes_to_hex salt
    envelope_hex ←
        call core_failed
          (core.passphrase_wrap_key nonce password salt_hex (bytes_to_hex mailbox_sk))
    ok (salt_hex ++ b':' ∷ envelope_hex)

  unfoldable pub derive_search_key_from_mnemonic : Text → Result Text
  unfolding trim is_raw_key
  derive_search_key_from_mnemonic mnemonic =
      let words = trim mnemonic in
      if is_raw_key words then call core_failed (core.derive_search_key words) else (do
        root_hex ← call core_failed (core.recover_root_secret words)
        call core_failed (core.derive_search_key root_hex))

  unfoldable pub unlock_mailbox_key :
      (Text → Option (List ℕ)) → Text → Text → Text → Result (List ℕ)
  unfolding trim is_raw_key hex_to_bytes bytes_to_hex mailbox_id_hex base64_to_bytes
  unlock_mailbox_key atob mnemonic mailbox_id mailbox_sk_wrapped_b64 =
      let words = trim mnemonic in
      if is_empty words
      then throws phrase_required
      else if is_raw_key words
      then hex_to_bytes words
      else (do
        root_hex ← call core_failed (core.recover_root_secret words)
        wrapped ← base64_to_bytes atob mailbox_sk_wrapped_b64
        id_hex ← mailbox_id_hex mailbox_id
        sk_hex ← call core_failed (core.unwrap_mailbox_key root_hex (bytes_to_hex wrapped) id_hex)
        key_of_hex unwrap_failed sk_hex)

  -- The envelope for the recovery phrase: the field of a JSON text, or else the text itself.
  unfoldable pub root_envelope : (Text → Option (Text → Option Text)) → Text → Text
  root_envelope json_parse trimmed =
      if starts_with trimmed (codes "{")
      then elim (json_parse trimmed) [
        | none ↦ trimmed
        | some parsed ↦
            let field = field_text (parsed (codes "root_wrapped")) in
            if is_empty field then trimmed else field
      ]
      else trimmed

  unfoldable pub unwrap_mailbox_key_with_recovery_phrase :
      (Text → Option (Text → Option Text)) → Text → Text → Text → Result (List ℕ)
  unfolding trim hex_to_bytes mailbox_id_hex root_envelope
  unwrap_mailbox_key_with_recovery_phrase json_parse mnemonic_phrase mailbox_id wrapped_sk_user = do
    let trimmed = trim wrapped_sk_user
    check (not (is_empty trimmed)) missing_wrapped
    root_hex ← call core_failed (core.recover_root_secret (trim mnemonic_phrase))
    id_hex ← mailbox_id_hex mailbox_id
    sk_hex ←
        call core_failed
          (core.unwrap_mailbox_key root_hex (root_envelope json_parse trimmed) id_hex)
    key_of_hex invalid_key_length sk_hex
