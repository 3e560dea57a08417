-- ===== src/Compose/Drafts/Saved.antt =====
-- What `handleSaveDraft` gives to the server (App.tsx).
use byos_email.Base.{
  ℕ, ◌<◌, ◌≡◌, ◌⊎◌, inl, inr, refl, ◌∙◌, ap, Option, none, some, List, [], ◌∷◌, ◌++◌, All, length,
  Option-cases, String,
}
use byos_email.Base.Text.{Text, codes, trim}
use byos_email.Encoding.{
  Failure, Result, ok, throws, ◌>>=◌, >>=-inversion, bytes_to_hex, mailbox_id_hex,
}
use byos_email.Encoding.HexRoundTrip.{IsByte}
use byos_email.Envelope.{
  Core, Browser, draft_aad_prefix, envelope_aad_hex, encrypt_envelope, encrypt_draft_envelope,
  decrypt_draft_envelope,
}
use byos_email.Envelope.RoundTrip.{draft-roundtrip}
use byos_email.Mail.{Mailbox}
use byos_email.Reading.{key_for}
use byos_email.Compose.{DraftInput, Desk}
use byos_email.Compose.Drafts.{
  DraftReply, stored, conflict, failed, update_draft, create_draft, store_as, store_envelope,
  save_in, handle_save_draft,
}

module _ (core : Core) (browser : Browser) where
  -- An id under which a draft is encrypted is a mailbox id.
  encrypted-valid :
      (nonce key : List ℕ) (id text envelope : Text)
      → encrypt_draft_envelope core browser nonce key id text ≡ ok envelope
      → (hex : Text) × (mailbox_id_hex id ≡ ok hex)
  unfolding encrypt_draft_envelope encrypt_envelope envelope_aad_hex
  encrypted-valid nonce key id text envelope h =
      let (aad, (aad_is, _)) =
        >>=-inversion (envelope_aad_hex core browser id draft_aad_prefix) _ h in
      let (hex, (hex_is, _)) = >>=-inversion (mailbox_id_hex id) _ aad_is in (hex, hex_is)

  -- The server was called once, with an envelope that opens to the body of the form under the key
  -- and the mailbox that are in use.
  pub record IsSealed (before after : Desk) : Type 0 where
    pub box : Mailbox
    pub key : List ℕ
    pub input : DraftInput
    pub chosen : before.screen.mail.selected_mailbox ≡ some box
    pub unlocked : key_for box before.screen.reader ≡ some key
    pub called : after.draft_calls ≡ before.draft_calls ++ input ∷ []
    pub opens_to :
        decrypt_draft_envelope core browser key (codes box.id) input.encrypted_envelope
        ≡ ok before.form.body

  abbrev pub SealsOrNothing : Desk → Desk → Type 0
  SealsOrNothing before after = (after.draft_calls ≡ before.draft_calls) ⊎ IsSealed before after

update-calls :
    (envelope : Text) (editing : String × ℕ) (reply : DraftReply) (box : Mailbox) (desk : Desk)
    → (input : DraftInput) × (((update_draft envelope editing reply box desk).draft_calls
          ≡ desk.draft_calls ++ input ∷ [])
        × (input.encrypted_envelope ≡ envelope))
unfolding update_draft
update-calls envelope editing (stored id v) box desk = (_, (refl, refl))
update-calls envelope editing (conflict t) box desk = (_, (refl, refl))
update-calls envelope editing (failed t) box desk = (_, (refl, refl))

create-calls :
    (envelope : Text) (reply : DraftReply) (desk : Desk)
    → (input : DraftInput) × (((create_draft envelope reply desk).draft_calls
          ≡ desk.draft_calls ++ input ∷ [])
        × (input.encrypted_envelope ≡ envelope))
unfolding create_draft
create-calls envelope (stored id v) desk = (_, (refl, refl))
create-calls envelope (conflict t) desk = (_, (refl, refl))
create-calls envelope (failed t) desk = (_, (refl, refl))

store_as-calls :
    (envelope : Text) (reply : DraftReply) (box : Mailbox) (editing : Option (String × ℕ))
    (desk : Desk)
    → (input : DraftInput) × (((store_as envelope reply box editing desk).draft_calls
          ≡ desk.draft_calls ++ input ∷ [])
        × (input.encrypted_envelope ≡ envelope))
unfolding store_as
store_as-calls envelope reply box none desk = create-calls envelope reply desk
store_as-calls envelope reply box (some editing) desk = update-calls envelope editing reply box desk

module _ (core : Core)
    (seals : (nonce key plain aad : List ℕ)
      → length key ≡ 32
      → All IsByte key
      → All IsByte plain
      → All IsByte aad
      → (sealed : List ℕ) × (All IsByte sealed
          × ((core.aes_gcm_encrypt nonce (bytes_to_hex key) (bytes_to_hex plain) (bytes_to_hex aad)
                ≡ some (bytes_to_hex sealed))
              × (core.aes_gcm_decrypt (bytes_to_hex key) (bytes_to_hex sealed) (bytes_to_hex aad)
                  ≡ some (bytes_to_hex plain)))))
    (browser : Browser)
    (atob-btoa : (bytes : List ℕ)
      → All IsByte bytes
      → browser.atob (trim (browser.btoa bytes)) ≡ some bytes)
    (encode-ascii : (t : Text) → All (λ c. c < 128) t → browser.encode t ≡ t)
    (encode-IsByte : (t : Text) → All IsByte (browser.encode t)) (message_of : Failure → Text)
    (nonce : List ℕ) (reply : DraftReply) where
  opens_again :
      (key : List ℕ) (id text envelope : Text)
      → (length key ≡ 32) × All IsByte key
      → browser.decode (browser.encode text) ≡ text
      → encrypt_draft_envelope core browser nonce key id text ≡ ok envelope
      → decrypt_draft_envelope core browser key id envelope ≡ ok text
  opens_again key id text envelope (len, bytes) same h =
      let (hex, valid) = encrypted-valid core browser nonce key id text envelope h in
      let there : (encrypt_draft_envelope core browser nonce key id text
            >>= decrypt_draft_envelope core browser key id)
          ≡ ok text =
        draft-roundtrip core seals browser atob-btoa encode-ascii encode-IsByte nonce key id hex
          text len bytes valid same in
      rw h at there

  store_envelope-Seals :
      (r : Result Text) (box : Mailbox) (key : List ℕ) (before desk : Desk)
      → before.screen.mail.selected_mailbox ≡ some box
      → key_for box before.screen.reader ≡ some key
      → desk.draft_calls ≡ before.draft_calls
      → ((envelope : Text)
          → r ≡ ok envelope
          → decrypt_draft_envelope core browser key (codes box.id) envelope ≡ ok before.form.body)
      → SealsOrNothing core browser before
          (store_envelope core browser message_of nonce reply r box desk)
  unfolding store_envelope
  store_envelope-Seals (throws e) box key before desk chosen unlocked same opening = inl same
  store_envelope-Seals (ok envelope) box key before desk chosen unlocked same opening =
      let (input, (called, sealed)) =
        store_as-calls envelope reply box desk.form.editing_draft desk in
      inr (record {
        box = box;
        key = key;
        input = input;
        chosen = chosen;
        unlocked = unlocked;
        called = called ∙ ap (λ calls. calls ++ input ∷ []) same;
        opens_to = rw sealed (opening envelope refl);
      })

  save_in-Seals :
      (chosen : Option Mailbox) (desk : Desk)
      → desk.screen.mail.selected_mailbox ≡ chosen
      → ((box : Mailbox) (key : List ℕ)
          → key_for box desk.screen.reader ≡ some key
          → (length key ≡ 32) × All IsByte key)
      → browser.decode (browser.encode desk.form.body) ≡ desk.form.body
      → SealsOrNothing core browser desk (save_in core browser message_of nonce reply chosen desk)
  unfolding save_in
  save_in-Seals none desk e held same = inl refl
  save_in-Seals (some box) desk e held same = elim (Option-cases (key_for box desk.screen.reader)) [
    | inl f ↦ rw (save_in, f) (inl refl)
    | inr (key, f) ↦
        rw (save_in, f)
          (store_envelope-Seals
            (encrypt_draft_envelope core browser nonce key (codes box.id) desk.form.body) box key
            desk _ e f refl
            (λ envelope h.
              opens_again key (codes box.id) desk.form.body envelope (held box key f) same h))
  ]

  -- With a core that seals under every key of 32 bytes and opens what it sealed, and with such keys
  -- in memory: saving a draft either calls the server not at all, or once, with an envelope that
  -- opens to the typed body under the key of the chosen mailbox, which is then unlocked.
  pub handle_save_draft-Seals :
      (desk : Desk)
      → ((box : Mailbox) (key : List ℕ)
          → key_for box desk.screen.reader ≡ some key
          → (length key ≡ 32) × All IsByte key)
      → browser.decode (browser.encode desk.form.body) ≡ desk.form.body
      → SealsOrNothing core browser desk
          (handle_save_draft core browser message_of nonce reply desk)
  unfolding handle_save_draft
  handle_save_draft-Seals desk held same =
      save_in-Seals desk.screen.mail.selected_mailbox desk refl held same
