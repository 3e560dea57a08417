-- ===== src/Envelope/RoundTrip.antt =====
-- Sealing and opening of attachments, drafts and contacts (message_crypto.ts and
-- attachment_crypto.ts). The crypto core and the coders of the browser are those of the sections.
use byos_email.Base.{
  ℕ, ◌<◌, ◌≡◌, ◌≢◌, ◌∙◌, ap, sym, refl, none, some, List, ◌++◌, All, arith, length,
}
use byos_email.Base.Text.{Text, trim}
use byos_email.Encoding.{ok, throws, core_failed, ◌>>=◌, bytes_to_hex, mailbox_id_hex}
use byos_email.Encoding.HexRoundTrip.{IsByte, hex-roundtrip}
use byos_email.Encoding.Base64.{base64-roundtrip}
use byos_email.Envelope.{
  Core, Browser, draft_aad_prefix, contact_aad_prefix, envelope_aad_hex, encrypt_envelope,
  decrypt_envelope, encrypt_draft_envelope, decrypt_draft_envelope, decrypt_contact_envelope,
  encrypt_attachment_bytes, decrypt_attachment_bytes,
}
use byos_email.Envelope.Aad.{ok-eq, All-append, aad_bytes, draft_aad-ne-contact_aad}

module _ (core : Core)
    (seals : (nonce key plain aad : List ℕ)
      → length key ≡ 32
      → All IsByte key
      → All IsByte plain
      → All IsByte aad
      → (sealed : List ℕ) × (All IsByte sealed
          × ((core.aes_gcm_encrypt nonce (bytes_to_hex key) (bytes_to_hex plain) (bytes_to_hex aad)
                ≡ some (bytes_to_hex sealed))
              × (core.aes_gcm_decrypt (bytes_to_hex key) (bytes_to_hex sealed) (bytes_to_hex aad)
                  ≡ some (bytes_to_hex plain))))) where
  -- With a core that seals under every key of 32 bytes and opens what it sealed, encrypting an
  -- attachment and decrypting the result with the same key and additional data gives its bytes.
  pub attachment-roundtrip :
      (nonce plain key aad : List ℕ)
      → length key ≡ 32
      → All IsByte key
      → All IsByte plain
      → All IsByte aad
      → (do
        envelope ← encrypt_attachment_bytes core nonce plain key aad
        decrypt_attachment_bytes core envelope key aad)
        ≡ ok plain
  unfolding encrypt_attachment_bytes decrypt_attachment_bytes
  attachment-roundtrip nonce plain key aad len hk hp ha =
      let (sealed, (bytes, (sealing, opening))) = seals nonce key plain aad len hk hp ha in
      rw (len, sealing, hex-roundtrip sealed bytes, opening) (hex-roundtrip plain hp)

  module _ (browser : Browser)
      (atob-btoa : (bytes : List ℕ)
        → All IsByte bytes
        → browser.atob (trim (browser.btoa bytes)) ≡ some bytes)
      (encode-ascii : (t : Text) → All (λ c. c < 128) t → browser.encode t ≡ t)
      (encode-IsByte : (t : Text) → All IsByte (browser.encode t)) where
    envelope-roundtrip :
        (prefix : Text) (nonce key : List ℕ) (id hex text : Text)
        → All (λ c. c < 128) prefix
        → All IsByte prefix
        → length key ≡ 32
        → All IsByte key
        → mailbox_id_hex id ≡ ok hex
        → browser.decode (browser.encode text) ≡ text
        → (do
          envelope ← encrypt_envelope core browser prefix nonce key id text
          decrypt_envelope core browser prefix key id envelope)
          ≡ ok text
    unfolding encrypt_envelope decrypt_envelope
    envelope-roundtrip prefix nonce key id hex text ascii pb len hk valid same =
        let plain : List ℕ = browser.encode text in
        let (mid, (mb, (_, (_, aad_is)))) =
          aad_bytes core browser encode-ascii id hex prefix valid ascii pb in
        let (sealed, (bytes, (sealing, opening))) =
          seals nonce key plain (prefix ++ mid) len hk (encode-IsByte text)
            (All-append prefix mid pb mb) in
        rw
          (
            aad_is,
            sealing,
            hex-roundtrip sealed bytes,
            base64-roundtrip browser.btoa browser.atob atob-btoa sealed bytes,
            opening,
            hex-roundtrip plain (encode-IsByte text),
            same,
          )
          refl

    -- With such a core and coders that undo each other, a draft that is encrypted for a mailbox and
    -- decrypted for the same mailbox and key is the same text.
    pub draft-roundtrip :
        (nonce key : List ℕ) (id hex text : Text)
        → length key ≡ 32
        → All IsByte key
        → mailbox_id_hex id ≡ ok hex
        → browser.decode (browser.encode text) ≡ text
        → (do
          envelope ← encrypt_draft_envelope core browser nonce key id text
          decrypt_draft_envelope core browser key id envelope)
          ≡ ok text
    unfolding encrypt_draft_envelope decrypt_draft_envelope
    draft-roundtrip nonce key id hex text =
        envelope-roundtrip draft_aad_prefix nonce key id hex text (omega arith) (omega arith)

module _ (core : Core) (browser : Browser)
    (atob-btoa : (bytes : List ℕ)
      → All IsByte bytes
      → browser.atob (trim (browser.btoa bytes)) ≡ some bytes)
    (encode-ascii : (t : Text) → All (λ c. c < 128) t → browser.encode t ≡ t)
    (authentic : (nonce key plain sealed aad other : List ℕ)
      → All IsByte sealed
      → All IsByte aad
      → All IsByte other
      → aad ≢ other
      → core.aes_gcm_encrypt nonce (bytes_to_hex key) (bytes_to_hex plain) (bytes_to_hex aad)
        ≡ some (bytes_to_hex sealed)
      → core.aes_gcm_decrypt (bytes_to_hex key) (bytes_to_hex sealed) (bytes_to_hex other)
        ≡ none) where
  -- With a core that opens an envelope under no other bytes of additional data than its own, a draft
  -- envelope of one mailbox is refused as a contact of any mailbox under the same key.
  pub draft_is_no_contact :
      (nonce key sealed : List ℕ) (id hex other other_hex text aad : Text)
      → mailbox_id_hex id ≡ ok hex
      → mailbox_id_hex other ≡ ok other_hex
      → envelope_aad_hex core browser id draft_aad_prefix ≡ ok aad
      → core.aes_gcm_encrypt nonce (bytes_to_hex key) (bytes_to_hex (browser.encode text)) aad
        ≡ some (bytes_to_hex sealed)
      → All IsByte sealed
      → (do
        envelope ← encrypt_draft_envelope core browser nonce key id text
        decrypt_contact_envelope core browser key other envelope)
        ≡ throws core_failed
  unfolding encrypt_draft_envelope encrypt_envelope decrypt_contact_envelope decrypt_envelope
  draft_is_no_contact nonce key sealed id hex other other_hex text aad own_valid valid aad_is
        sealing bytes =
      let (own, (own_bytes, (_, (_, own_aad)))) =
        aad_bytes core browser encode-ascii id hex draft_aad_prefix own_valid (omega arith)
          (omega arith) in
      let (mid, (mb, (_, (_, other_aad)))) =
        aad_bytes core browser encode-ascii other other_hex contact_aad_prefix valid (omega arith)
          (omega arith) in
      let apart : draft_aad_prefix ++ own ≢ contact_aad_prefix ++ mid = λ same.
        draft_aad-ne-contact_aad core browser encode-ascii id other _ _ own_aad other_aad
          (ap bytes_to_hex same) in
      let same_aad : aad ≡ bytes_to_hex (draft_aad_prefix ++ own) =
        ok-eq aad (bytes_to_hex (draft_aad_prefix ++ own)) (sym aad_is ∙ own_aad) in
      rw
        (
          aad_is,
          sealing,
          hex-roundtrip sealed bytes,
          base64-roundtrip browser.btoa browser.atob atob-btoa sealed bytes,
          other_aad,
          authentic nonce key (browser.encode text) sealed (draft_aad_prefix ++ own)
              (contact_aad_prefix ++ mid) bytes
              (All-append draft_aad_prefix own (omega arith) own_bytes)
              (All-append contact_aad_prefix mid (omega arith) mb) apart (rw same_aad at sealing),
        )
        refl
