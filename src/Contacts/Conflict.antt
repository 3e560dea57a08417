-- ===== src/Contacts/Conflict.antt =====
-- A contact that was changed elsewhere (App.tsx).
use byos_email.Base.{ℕ, ◌≡◌, refl, true, false, Option, none, some, List, any, ◌==◌}
use byos_email.Base.Text.{Text, codes, is_empty}
use byos_email.Encoding.{Failure, ok}
use byos_email.Envelope.{Core, Browser, Contact, encrypt_contact_envelope}
use byos_email.Mail.{Mailbox}
use byos_email.Compose.Sending.{answered}
use byos_email.Contacts.{
  DisplayContact, ContactItem, conflict, ContactPane, chosen_key, open_with, open_contacts,
  update_contact, store_contact, contact_fields, updates, call_server, with_conflict_notice,
  store_sealed, save_with, handle_save_contact,
}

-- The notice of the conflict is gone, and the form still edits the old version.
pub record IsSilent (before after : ContactPane) : Type 0 where
  pub no_notice : after.contacts_error ≡ none
  pub same_editing : after.editing_contact ≡ before.editing_contact
  pub same_name : after.contact_name ≡ before.contact_name

module _ (core : Core) (browser : Browser) (items : List ContactItem) where
  opened-IsSilent :
      (chosen : Option (Mailbox × List ℕ)) (box : Mailbox) (key : List ℕ) (pane : ContactPane)
      → chosen ≡ some (box, key)
      → IsSilent pane (open_with core browser chosen (answered items) pane)
  unfolding open_with
  opened-IsSilent none box key pane h = cc h
  opened-IsSilent (some (b, k)) box key pane h = record {
    no_notice = refl;
    same_editing = refl;
    same_name = refl;
  }

  stored-IsSilent :
      (envelope : Text) (editing : Option DisplayContact) (c : DisplayContact) (fields : Contact)
      (text : Text) (box : Mailbox) (key : List ℕ) (pane : ContactPane)
      → editing ≡ some c
      → chosen_key pane ≡ some (box, key)
      → IsSilent pane (
          store_contact core browser box envelope editing fields
            (conflict text)
            (answered items)
            pane)
  unfolding store_contact update_contact open_contacts
  stored-IsSilent envelope none c fields text box key pane e h = cc e
  stored-IsSilent envelope (some d) c fields text box key pane e h =
      let noticed : ContactPane =
        with_conflict_notice (call_server (updates box.id d.id d.version envelope) pane) in
      let there : IsSilent noticed
          (open_with core browser (chosen_key pane) (answered items) noticed) =
        opened-IsSilent (chosen_key pane) box key noticed h in
      record {
        no_notice = there.no_notice;
        same_editing = there.same_editing;
        same_name = there.same_name;
      }

  module _ (message_of : Failure → Text) (json_stringify : Contact → Text) (nonce : List ℕ) where
    saved-IsSilent :
        (chosen : Option (Mailbox × List ℕ)) (c : DisplayContact) (text envelope : Text)
        (box : Mailbox) (key : List ℕ) (pane : ContactPane)
        → chosen ≡ some (box, key)
        → chosen_key pane ≡ some (box, key)
        → pane.editing_contact ≡ some c
        → is_empty (contact_fields pane).name ≡ false
        → any (λ x. x == 64) (contact_fields pane).email ≡ true
        → encrypt_contact_envelope core browser json_stringify nonce key
            (codes box.id)
            (contact_fields pane)
          ≡ ok envelope
        → IsSilent pane (
            save_with core browser message_of json_stringify nonce
              (conflict text)
              (answered items)
              chosen
              pane)
    unfolding save_with store_sealed
    saved-IsSilent chosen c text envelope box key pane chosen_is held editing named addressed
          sealed =
        let there : IsSilent _ (
            store_contact core browser box envelope pane.editing_contact (contact_fields pane)
              (conflict text) (answered items) (record pane { contacts_error = none })) =
          stored-IsSilent envelope pane.editing_contact c (contact_fields pane) text box key _
            editing held in
        rw (chosen_is, named, addressed, sealed)
          (record {
            no_notice = there.no_notice;
            same_editing = there.same_editing;
            same_name = there.same_name;
          })

    -- Where a valid change of a contact meets a conflict of versions and the contacts then load, no
    -- notice of the conflict is left to read, and the form still edits the old version.
    pub conflict-IsSilent :
        (c : DisplayContact) (text envelope : Text) (box : Mailbox) (key : List ℕ)
        (pane : ContactPane)
        → chosen_key pane ≡ some (box, key)
        → pane.editing_contact ≡ some c
        → is_empty (contact_fields pane).name ≡ false
        → any (λ x. x == 64) (contact_fields pane).email ≡ true
        → encrypt_contact_envelope core browser json_stringify nonce key
            (codes box.id)
            (contact_fields pane)
          ≡ ok envelope
        → IsSilent pane (
            handle_save_contact core browser message_of json_stringify nonce
              (conflict text)
              (answered items)
              pane)
    unfolding handle_save_contact
    conflict-IsSilent c text envelope box key pane held =
        saved-IsSilent (chosen_key pane) c text envelope box key pane held held
