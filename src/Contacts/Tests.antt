-- ===== src/Contacts/Tests.antt =====
-- Runs of the contacts, and the theorems at a pane with one contact.
use byos_email.Base.{◌≡◌, refl, true, false, none, some, [], ◌∷◌}
use byos_email.Base.Text.{Text, codes}
use byos_email.Encoding.{Failure, ok}
use byos_email.Envelope.{Contact, encrypt_contact_envelope}
use byos_email.Envelope.Clear.{clear_core, plain_browser}
use byos_email.Reading.Sample.{mailbox, quiet}
use byos_email.Compose.Sending.{answered, refused}
use byos_email.Contacts.{
  DisplayContact, stored, conflict, ContactPane, updates, contact_fields, handle_save_contact,
  handle_delete_contact,
}
use byos_email.Contacts.Conflict.{IsSilent, conflict-IsSilent}
use byos_email.Contacts.Kept.{Ends, handle_save_contact-Ends}

abbrev ann : DisplayContact
ann = record { id = "c1"; version = 3; name = codes "Ann"; email = codes "ann@a.org"; notes = [] }

abbrev pane : ContactPane
pane = record {
  screen = quiet;
  contacts = ann ∷ [];
  contacts_open = true;
  contacts_loading = false;
  contacts_error = none;
  editing_contact = some ann;
  contact_name = codes " Anna ";
  contact_email = codes "ann@a.org";
  contact_notes = [];
  contact_calls = [];
}

abbrev no_text : Failure → Text
no_text e = []

abbrev name_only : Contact → Text
name_only c = c.name

deleted : (handle_delete_contact true (answered tt) "c1" pane).contacts ≡ []
unfolding handle_delete_contact
deleted = refl

sealed :
    encrypt_contact_envelope clear_core plain_browser name_only []
      (1 ∷ [])
      (codes mailbox.id)
      (contact_fields pane)
    ≡ ok (codes "416e6e61")
unfolding encrypt_contact_envelope contact_fields
sealed = refl

conflict-IsSilent_example : IsSilent pane (
    handle_save_contact clear_core plain_browser no_text name_only []
      (conflict [])
      (answered [])
      pane)
unfolding contact_fields
conflict-IsSilent_example =
    conflict-IsSilent clear_core plain_browser [] no_text name_only [] ann [] (codes "416e6e61")
      mailbox (1 ∷ []) pane refl refl refl refl sealed

handle_save_contact-Ends_example : Ends clear_core plain_browser name_only [] (stored "c1" 4) pane (
    handle_save_contact clear_core plain_browser no_text name_only []
      (stored "c1" 4)
      (refused [])
      pane)
handle_save_contact-Ends_example =
    handle_save_contact-Ends clear_core plain_browser (refused []) no_text name_only []
      (stored "c1" 4) pane

-- The change that is sent, with its envelope.
sent :
    (handle_save_contact clear_core plain_browser no_text name_only []
      (stored "c1" 4)
      (refused [])
      pane).contact_calls
    ≡ updates mailbox.id "c1" 3 (codes "416e6e61") ∷ []
unfolding handle_save_contact
sent = refl
