-- ===== src/Envelope.antt =====
-- The envelopes of drafts, contacts and messages of apps/webmail/src/message_crypto.ts, and
-- `encryptAttachmentBytes` and `decryptAttachmentBytes` of attachment_crypto.ts. The crypto core that
-- the build makes and the coders of the browser are parameters; a call of the core that throws is
-- `none`.
pub mod Aad
pub mod RoundTrip
pub mod Clear
mod Tests
use byos_email.Base.{
  ℕ, ◌≤◌, Bool, true, false, not, ◌&&◌, ◌||◌, Option, none, some, List, [], ◌∷◌, ◌++◌,
  if◌then◌else◌, leb, ◌==◌, all, take, drop, length,
}
use byos_email.Base.Text.{Text, codes, trim, starts_with, includes, is_empty}
use byos_email.Encoding.{
  Result, ok, throws, ◌>>=◌, ◌>>◌, check, call, bytes_to_hex, hex_to_bytes, mailbox_id_hex,
  bytes_to_base64, base64_to_bytes, phrase_required, unwrap_failed, missing_wrapped, invalid_json,
  invalid_format, invalid_salt_length, invalid_key_length, invalid_sequence, core_failed,
  digit_value,
}

-- The exports of the crypto core that the code calls. Encryption draws a nonce, its first argument.
pub record Core : Type 0 where
  pub recover_root_secret : Text → Option Text
  pub unwrap_mailbox_key : Text → Text → Text → Option Text
  pub passphrase_wrap_key : List ℕ → Text → Text → Text → Option Text
  pub passphrase_unwrap_key : Text → Text → Text → Option Text
  pub canonical_aad : Text → ℕ → ℕ → Option Text
  pub hpke_open : Text → Text → Text → Option Text
  pub aes_gcm_encrypt : List ℕ → Text → Text → Text → Option Text
  pub aes_gcm_decrypt : Text → Text → Text → Option Text
  pub derive_search_key : Text → Option Text

-- `TextEncoder`, `TextDecoder`, `btoa`, `atob`, and `JSON.parse` as the fields of an object that
-- are strings.
pub record Browser : Type 0 where
  pub encode : Text → List ℕ
  pub decode : List ℕ → Text
  pub btoa : List ℕ → Text
  pub atob : Text → Option (List ℕ)
  pub json_parse : Text → Option (Text → Option Text)

abbrev pub draft_aad_prefix : Text
draft_aad_prefix = codes "byos-draft-v1"

abbrev pub contact_aad_prefix : Text
contact_aad_prefix = codes "byos-contact-v1"

module _ (core : Core) where
  unfoldable pub encrypt_attachment_bytes : List ℕ → List ℕ → List ℕ → List ℕ → Result (List ℕ)
  unfolding bytes_to_hex hex_to_bytes
  encrypt_attachment_bytes nonce plaintext key aad = do
    check (length key == 32) invalid_key_length
    envelope_hex ←
        call core_failed (
          core.aes_gcm_encrypt nonce (bytes_to_hex key) (bytes_to_hex plaintext) (bytes_to_hex aad))
    hex_to_bytes envelope_hex

  unfoldable pub decrypt_attachment_bytes : List ℕ → List ℕ → List ℕ → Result (List ℕ)
  unfolding bytes_to_hex hex_to_bytes
  decrypt_attachment_bytes envelope key aad = do
    check (length key == 32) invalid_key_length
    plaintext_hex ←
        call core_failed
          (core.aes_gcm_decrypt (bytes_to_hex key) (bytes_to_hex envelope) (bytes_to_hex aad))
    hex_to_bytes plaintext_hex

-- `message_seq` as `Number.isInteger` and the sign test see it.
pub data MessageSeq : Type 0 where
  natural : ℕ → MessageSeq
  fraction_or_negative : MessageSeq

pub record MessageDecryptInput : Type 0 where
  pub message_seq : MessageSeq
  pub encryption_version : ℕ
  pub encrypted_body : Text
  pub content_key_hpke_wrapped : Text

-- `ContactPlaintext`
pub record Contact : Type 0 where
  pub name : Text
  pub email : Text
  pub notes : Text

-- `typeof field === "string" ? field : ""`
abbrev pub field_text : Option Text → Text
field_text none = []
field_text (some t) = t

abbrev pub seq_of : MessageSeq → Result ℕ
seq_of (natural n) = ok n
seq_of fraction_or_negative = throws invalid_sequence

module _ (core : Core) (browser : Browser) where
  unfoldable pub envelope_aad_hex : Text → Text → Result Text
  unfolding mailbox_id_hex hex_to_bytes bytes_to_hex
  envelope_aad_hex mailbox_id prefix = do
    id_hex ← mailbox_id_hex mailbox_id
    mid ← hex_to_bytes id_hex
    ok (bytes_to_hex (browser.encode prefix ++ mid))

  -- The body that drafts and contacts share: `text` is the draft, or the contact as JSON. The
  -- arguments of the call are computed in the order of the code.
  unfoldable pub encrypt_envelope : Text → List ℕ → List ℕ → Text → Text → Result Text
  unfolding envelope_aad_hex bytes_to_hex hex_to_bytes bytes_to_base64
  encrypt_envelope prefix nonce mailbox_key mailbox_id text = do
    aad ← envelope_aad_hex mailbox_id prefix
    envelope_hex ← call core_failed (
        core.aes_gcm_encrypt nonce (bytes_to_hex mailbox_key) (bytes_to_hex (browser.encode text))
          aad)
    envelope ← hex_to_bytes envelope_hex
    ok (bytes_to_base64 browser.btoa envelope)

  unfoldable pub decrypt_envelope : Text → List ℕ → Text → Text → Result Text
  unfolding envelope_aad_hex bytes_to_hex hex_to_bytes base64_to_bytes
  decrypt_envelope prefix mailbox_key mailbox_id envelope_b64 = do
    envelope ← base64_to_bytes browser.atob envelope_b64
    aad ← envelope_aad_hex mailbox_id prefix
    plaintext_hex ←
        call core_failed
          (core.aes_gcm_decrypt (bytes_to_hex mailbox_key) (bytes_to_hex envelope) aad)
    plaintext ← hex_to_bytes plaintext_hex
    ok (browser.decode plaintext)

  unfoldable pub encrypt_draft_envelope : List ℕ → List ℕ → Text → Text → Result Text
  unfolding encrypt_envelope
  encrypt_draft_envelope = encrypt_envelope draft_aad_prefix

  unfoldable pub decrypt_draft_envelope : List ℕ → Text → Text → Result Text
  unfolding decrypt_envelope
  decrypt_draft_envelope = decrypt_envelope draft_aad_prefix

  unfoldable pub encrypt_contact_envelope :
      (Contact → Text) → List ℕ → List ℕ → Text → Contact → Result Text
  unfolding encrypt_envelope
  encrypt_contact_envelope json_stringify nonce mailbox_key mailbox_id contact =
      encrypt_envelope contact_aad_prefix nonce mailbox_key mailbox_id (json_stringify contact)

  -- A field that is no string is read as the empty text.
  unfoldable pub decrypt_contact_envelope : List ℕ → Text → Text → Result Contact
  unfolding decrypt_envelope
  decrypt_contact_envelope mailbox_key mailbox_id envelope_b64 = do
    plaintext ← decrypt_envelope contact_aad_prefix mailbox_key mailbox_id envelope_b64
    parsed ← call invalid_json (browser.json_parse plaintext)
    ok (record {
      name = field_text (parsed (codes "name"));
      email = field_text (parsed (codes "email"));
      notes = field_text (parsed (codes "notes"));
    })

  unfoldable pub decrypt_message_envelope : List ℕ → Text → MessageDecryptInput → Result Text
  unfolding mailbox_id_hex bytes_to_hex hex_to_bytes base64_to_bytes
  decrypt_message_envelope mailbox_key mailbox_id input = do
    seq ← seq_of input.message_seq
    id_hex ← mailbox_id_hex mailbox_id
    aad ← call core_failed (core.canonical_aad id_hex seq input.encryption_version)
    wrapped ← base64_to_bytes browser.atob input.content_key_hpke_wrapped
    content_key_hex ←
        call core_failed (core.hpke_open (bytes_to_hex mailbox_key) (bytes_to_hex wrapped) aad)
    body ← base64_to_bytes browser.atob input.encrypted_body
    plaintext_hex ← call core_failed (core.aes_gcm_decrypt content_key_hex (bytes_to_hex body) aad)
    plaintext ← hex_to_bytes plaintext_hex
    ok (browser.decode plaintext)
