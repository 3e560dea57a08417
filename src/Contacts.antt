-- ===== src/Contacts.antt =====
-- The contacts, apps/webmail/src/App.tsx: `openContacts`, `startEditContact`, `handleSaveContact` and
-- `handleDeleteContact`. Each is one step; the nonce, the JSON printer and the answers of the server
-- are parameters.
pub mod Conflict
pub mod Kept
mod Tests
use byos_email.Base.{
  ℕ, String, Bool, true, false, not, ◌||◌, Option, none, some, List, [], ◌∷◌, ◌++◌, if◌then◌else◌,
  str_eq, filter, ◌==◌, any,
}
use byos_email.Base.Text.{Text, codes, trim, is_empty}
use byos_email.Encoding.{Failure, Result, ok, throws}
use byos_email.Envelope.{Core, Browser, Contact, encrypt_contact_envelope, decrypt_contact_envelope}
use byos_email.Mail.{Mailbox}
use byos_email.Reading.{Screen, key_for, lock_mailbox}
use byos_email.Compose.Sending.{Reply, answered, refused}

pub record DisplayContact : Type 0 where
  pub id : String
  pub version : ℕ
  pub name : Text
  pub email : Text
  pub notes : Text

-- A contact as the server holds it.
pub record ContactItem : Type 0 where
  pub id : String
  pub version : ℕ
  pub encrypted_envelope : Text

-- What the server answers to a change or a new contact: the id and the version, a conflict of
-- versions, or an error with its message.
pub data ContactReply : Type 0 where
  stored : String → ℕ → ContactReply
  conflict failed : Text → ContactReply

-- The calls to the server: each with the mailbox, a change with the id and the version of the contact.
pub data ContactCall : Type 0 where
  fetches : String → ContactCall
  creates : String → Text → ContactCall
  updates : String → String → ℕ → Text → ContactCall
  deletes : String → String → ContactCall

pub record ContactPane : Type 0 where
  pub screen : Screen
  pub contacts : List DisplayContact
  pub contacts_open : Bool
  pub contacts_loading : Bool
  pub contacts_error : Option Text
  pub editing_contact : Option DisplayContact
  pub contact_name : Text
  pub contact_email : Text
  pub contact_notes : Text
  pub contact_calls : List ContactCall

abbrev pub call_server : ContactCall → ContactPane → ContactPane
call_server call pane = record pane { contact_calls = pane.contact_calls ++ call ∷ [] }

abbrev pub sign_in_notice : Text
sign_in_notice = codes "Please sign in with your password to view contacts."

-- `startEditContact(c)`
unfoldable pub start_edit_contact : Option DisplayContact → ContactPane → ContactPane
start_edit_contact none pane = record pane {
  editing_contact = none;
  contact_name = [];
  contact_email = [];
  contact_notes = [];
  contacts_error = none;
}
start_edit_contact (some c) pane = record pane {
  editing_contact = some c;
  contact_name = c.name;
  contact_email = c.email;
  contact_notes = c.notes;
  contacts_error = none;
}

abbrev pub unlocked_key : Option Mailbox → Screen → Option (Mailbox × List ℕ)
unlocked_key none screen = none
unlocked_key (some box) screen = elim (key_for box screen.reader) [
  | none ↦ none
  | some key ↦ some (box, key)
]

abbrev pub chosen_key : ContactPane → Option (Mailbox × List ℕ)
chosen_key pane = unlocked_key pane.screen.mail.selected_mailbox pane.screen

-- The fields of the form, without the blanks around them.
unfoldable pub contact_fields : ContactPane → Contact
unfolding trim
contact_fields pane = record {
  name = trim pane.contact_name;
  email = trim pane.contact_email;
  notes = trim pane.contact_notes;
}

abbrev pub save_contact_failed : Text → ContactPane → ContactPane
save_contact_failed t pane = record pane {
  contacts_error = some (codes "Failed to save contact: " ++ t);
}

-- `name`, `email` and `notes` of the contact in the list are those of the form.
abbrev pub with_fields : Contact → ℕ → DisplayContact → DisplayContact
with_fields fields version c = record c {
  version = version;
  name = fields.name;
  email = fields.email;
  notes = fields.notes;
}

abbrev pub replace_contact :
    String → (DisplayContact → DisplayContact) → List DisplayContact → List DisplayContact
replace_contact id f [] = []
replace_contact id f (c ∷ cs) = (if str_eq c.id id then f c else c) ∷ replace_contact id f cs

abbrev pub new_contact : Contact → String → ℕ → DisplayContact
new_contact fields id version = record {
  id = id;
  version = version;
  name = fields.name;
  email = fields.email;
  notes = fields.notes;
}

abbrev pub with_conflict_notice : ContactPane → ContactPane
with_conflict_notice pane = record pane {
  contacts_error = some (codes "This contact changed elsewhere. Reload to get the latest version.");
}

module _ (core : Core) (browser : Browser) where
  -- An envelope that cannot be read is left out.
  unfoldable pub shown_contacts : List ℕ → String → List ContactItem → List DisplayContact
  unfolding decrypt_contact_envelope
  shown_contacts key id [] = []
  shown_contacts key id (c ∷ items) =
      let rest = shown_contacts key id items in
      elim (decrypt_contact_envelope core browser key (codes id) c.encrypted_envelope) [
        | throws e ↦ rest
        | ok pt ↦
            record {
              id = c.id;
              version = c.version;
              name = pt.name;
              email = pt.email;
              notes = pt.notes;
            }
            ∷ rest
      ]

  -- The pane with what the server has.
  unfoldable pub load_contacts :
      List ℕ → String → Reply (List ContactItem) → ContactPane → ContactPane
  unfolding shown_contacts
  load_contacts key id (answered items) pane = record pane {
    contacts_open = true;
    contacts_loading = false;
    contacts_error = none;
    contacts = shown_contacts key id items;
  }
  load_contacts key id (refused t) pane = record pane {
    contacts_open = true;
    contacts_loading = false;
    contacts_error = some (codes "Failed to load contacts: " ++ t);
    contacts = [];
  }

  unfoldable pub open_with :
      Option (Mailbox × List ℕ) → Reply (List ContactItem) → ContactPane → ContactPane
  unfolding load_contacts
  open_with none items pane = record pane {
    contacts_error = some sign_in_notice;
    contacts = [];
    contacts_open = true;
  }
  open_with (some (box, key)) items pane =
      load_contacts key box.id items (call_server (fetches box.id) pane)

  unfoldable pub open_contacts : Reply (List ContactItem) → ContactPane → ContactPane
  unfolding open_with
  open_contacts items pane = open_with (chosen_key pane) items pane

  -- A contact that is changed, with its envelope.
  unfoldable pub update_contact :
      Mailbox
      → Text
      → DisplayContact
      → Contact
      → ContactReply
      → Reply (List ContactItem)
      → ContactPane
      → ContactPane
  unfolding start_edit_contact open_contacts
  update_contact box envelope editing fields (stored id version) items pane =
      start_edit_contact none
        (record (call_server (updates box.id editing.id editing.version envelope) pane) {
          contacts = replace_contact editing.id (with_fields fields version) pane.contacts;
        })
  update_contact box envelope editing fields (conflict t) items pane =
      open_contacts items (
        with_conflict_notice
          (call_server (updates box.id editing.id editing.version envelope) pane))
  update_contact box envelope editing fields (failed t) items pane =
      save_contact_failed t (call_server (updates box.id editing.id editing.version envelope) pane)

  -- A new contact, with its envelope.
  unfoldable pub create_contact :
      Mailbox → Text → Contact → ContactReply → ContactPane → ContactPane
  unfolding start_edit_contact
  create_contact box envelope fields (stored id version) pane =
      start_edit_contact none (record (call_server (creates box.id envelope) pane) {
        contacts = new_contact fields id version ∷ pane.contacts;
      })
  create_contact box envelope fields (conflict t) pane =
      save_contact_failed t (call_server (creates box.id envelope) pane)
  create_contact box envelope fields (failed t) pane =
      save_contact_failed t (call_server (creates box.id envelope) pane)

  unfoldable pub store_contact :
      Mailbox
      → Text
      → Option DisplayContact
      → Contact
      → ContactReply
      → Reply (List ContactItem)
      → ContactPane
      → ContactPane
  unfolding update_contact create_contact
  store_contact box envelope none fields reply items pane =
      create_contact box envelope fields reply pane
  store_contact box envelope (some editing) fields reply items pane =
      update_contact box envelope editing fields reply items pane

  module _ (message_of : Failure → Text) (json_stringify : Contact → Text) (nonce : List ℕ)
      (reply : ContactReply) (items : Reply (List ContactItem)) where
    -- After the encryption.
    unfoldable pub store_sealed : Mailbox → Result Text → ContactPane → ContactPane
    unfolding store_contact contact_fields
    store_sealed box (throws e) pane = save_contact_failed (message_of e) pane
    store_sealed box (ok envelope) pane =
        store_contact box envelope pane.editing_contact (contact_fields pane) reply items
          (record pane { contacts_error = none })

    unfoldable pub save_with : Option (Mailbox × List ℕ) → ContactPane → ContactPane
    unfolding store_sealed contact_fields encrypt_contact_envelope
    save_with none pane = record pane { contacts_error = some sign_in_notice }
    save_with (some (box, key)) pane =
        let fields = contact_fields pane in
        if is_empty fields.name
        then record pane { contacts_error = some (codes "Contact name is required.") }
        else if not (any (λ c. c == 64) fields.email)
        then record pane { contacts_error = some (codes "Contact email must contain @.") }
        else store_sealed box
            (encrypt_contact_envelope core browser json_stringify nonce key (codes box.id) fields)
            pane

    unfoldable pub handle_save_contact : ContactPane → ContactPane
    unfolding save_with
    handle_save_contact pane = save_with (chosen_key pane) pane

abbrev pub edits_contact : String → Option DisplayContact → Bool
edits_contact id none = false
edits_contact id (some c) = str_eq c.id id

abbrev pub without_contact : String → ContactPane → ContactPane
without_contact id pane = record pane {
  contacts = filter (λ c. not (str_eq c.id id)) pane.contacts;
}

-- With the answer of the dialog and that of the server.
unfoldable pub delete_answered : Reply (Unit {0}) → String → ContactPane → ContactPane
unfolding start_edit_contact
delete_answered (refused t) id pane = record pane {
  contacts_error = some (codes "Failed to delete contact: " ++ t);
}
delete_answered (answered _) id pane =
    if edits_contact id pane.editing_contact
    then start_edit_contact none (without_contact id pane)
    else without_contact id pane

unfoldable pub handle_delete_contact : Bool → Reply (Unit {0}) → String → ContactPane → ContactPane
unfolding delete_answered
handle_delete_contact confirmed reply id pane = elim pane.screen.mail.selected_mailbox [
  | none ↦ pane
  | some box ↦
      if confirmed then delete_answered reply id (call_server (deletes box.id id) pane) else pane
]

-- What `lockMailbox` does to the contacts.
unfoldable pub lock_contacts : ContactPane → ContactPane
unfolding lock_mailbox
lock_contacts pane = record pane {
  screen = lock_mailbox pane.screen;
  contacts = [];
  contacts_open = false;
  editing_contact = none;
  contact_name = [];
  contact_email = [];
  contact_notes = [];
  contacts_error = none;
}
