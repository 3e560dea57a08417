-- ===== src/Contacts/Kept.antt =====
-- What saving a contact gives to the server, and what it does to the form and the list (App.tsx).
use byos_email.Base.{
  ℕ, ◌≡◌, ◌∙◌, ap, ◌⊎◌, inl, inr, refl, String, true, false, Option, none, some, List, [], ◌∷◌,
  ◌++◌, any, ◌==◌, Bool-cases, append_assoc,
}
use byos_email.Base.Text.{Text, codes, is_empty, trim}
use byos_email.Encoding.{Failure, Result, ok, throws}
use byos_email.Envelope.{Core, Browser, Contact, encrypt_contact_envelope}
use byos_email.Mail.{Mailbox}
use byos_email.Compose.Sending.{Reply, answered, refused}
use byos_email.Contacts.{
  DisplayContact, ContactItem, ContactReply, stored, conflict, failed, ContactCall, fetches,
  creates, updates, ContactPane, call_server, chosen_key, load_contacts, open_with, open_contacts,
  start_edit_contact, with_fields, replace_contact, new_contact, with_conflict_notice,
  update_contact, create_contact, store_contact, contact_fields, store_sealed, save_with,
  handle_save_contact,
}

-- The form is as it was typed.
pub record IsTyped (before after : ContactPane) : Type 0 where
  pub same_name : after.contact_name ≡ before.contact_name
  pub same_email : after.contact_email ≡ before.contact_email
  pub same_notes : after.contact_notes ≡ before.contact_notes
  pub same_editing : after.editing_contact ≡ before.editing_contact

-- The form is as it was typed, the list as it was, and there is an error to read.
pub record IsUnsaved (before after : ContactPane) : Type 0 where
  pub typed : IsTyped before after
  pub same_contacts : after.contacts ≡ before.contacts
  pub text : Text
  pub told : after.contacts_error ≡ some text

-- The form is empty and without an error, and the list is the given one.
pub record IsSaved (contacts : List DisplayContact) (after : ContactPane) : Type 0 where
  pub no_name : after.contact_name ≡ []
  pub no_email : after.contact_email ≡ []
  pub no_notes : after.contact_notes ≡ []
  pub no_editing : after.editing_contact ≡ none
  pub no_error : after.contacts_error ≡ none
  pub listed : after.contacts ≡ contacts

-- What the answer to a new contact, or to a change of one, leads to.
abbrev pub Answered : Option DisplayContact → ContactReply → ContactPane → ContactPane → Type 0
Answered none (stored id v) before after =
    IsSaved (new_contact (contact_fields before) id v ∷ before.contacts) after
Answered (some c) (stored id v) before after =
    IsSaved (replace_contact c.id (with_fields (contact_fields before) v) before.contacts) after
Answered none (conflict t) before after = IsUnsaved before after
Answered (some c) (conflict t) before after = IsTyped before after
Answered _ (failed t) before after = IsUnsaved before after

-- The calls that belong to it: one with the envelope, and after a conflict one for the list.
abbrev pub calls_of : Mailbox → Text → Option DisplayContact → ContactReply → List ContactCall
calls_of box envelope none reply = creates box.id envelope ∷ []
calls_of box envelope (some c) (conflict t) =
    updates box.id c.id c.version envelope ∷ fetches box.id ∷ []
calls_of box envelope (some c) _ = updates box.id c.id c.version envelope ∷ []

-- What a call of the server with the given answer leads to.
pub record IsAnswered (box : Mailbox) (envelope : Text) (editing : Option DisplayContact)
    (reply : ContactReply) (before after : ContactPane) : Type 0 where
  pub calls : after.contact_calls ≡ before.contact_calls ++ calls_of box envelope editing reply
  pub result : Answered editing reply before after

-- No call was made.
pub record IsRefused (before after : ContactPane) : Type 0 where
  pub unsaved : IsUnsaved before after
  pub same_calls : after.contact_calls ≡ before.contact_calls

module _ (core : Core) (browser : Browser) (json_stringify : Contact → Text) (nonce : List ℕ)
    (reply : ContactReply) where
  -- The fields of the form, which have a name and an address with an @, went to the server sealed for
  -- the chosen mailbox under the key that is in use.
  pub record IsCalled (before after : ContactPane) : Type 0 where
    pub box : Mailbox
    pub key : List ℕ
    pub envelope : Text
    pub chosen : chosen_key before ≡ some (box, key)
    pub has_name : is_empty (trim before.contact_name) ≡ false
    pub has_address : any (λ c. c == 64) (trim before.contact_email) ≡ true
    pub sealed :
        encrypt_contact_envelope core browser json_stringify nonce key
          (codes box.id)
          (contact_fields before)
        ≡ ok envelope
    pub answer : IsAnswered box envelope before.editing_contact reply before after

  abbrev pub Ends : ContactPane → ContactPane → Type 0
  Ends before after = IsRefused before after ⊎ IsCalled before after

abbrev id_or : String → Option (Mailbox × List ℕ) → String
id_or id none = id
id_or id (some (box, key)) = box.id

error-IsRefused :
    (e : Text) (pane : ContactPane) → IsRefused pane (record pane { contacts_error = some e })
error-IsRefused e pane = record {
  unsaved = record {
    typed = record { same_name = refl; same_email = refl; same_notes = refl; same_editing = refl };
    same_contacts = refl;
    text = e;
    told = refl;
  };
  same_calls = refl;
}

called-with :
    (e : Text) (call : ContactCall) (pane : ContactPane)
    → IsUnsaved pane (record (call_server call pane) { contacts_error = some e })
called-with e call pane = record {
  typed = record { same_name = refl; same_email = refl; same_notes = refl; same_editing = refl };
  same_contacts = refl;
  text = e;
  told = refl;
}

module _ (core : Core) (browser : Browser) where
  loaded-IsTyped :
      (items : Reply (List ContactItem)) (box : Mailbox) (key : List ℕ) (pane : ContactPane)
      → IsTyped pane (load_contacts core browser key box.id items pane)
        × ((load_contacts core browser key box.id items pane).contact_calls ≡ pane.contact_calls)
  unfolding load_contacts
  loaded-IsTyped (answered l) box key pane =
      (record { same_name = refl; same_email = refl; same_notes = refl; same_editing = refl }, refl)
  loaded-IsTyped (refused t) box key pane =
      (record { same_name = refl; same_email = refl; same_notes = refl; same_editing = refl }, refl)

  opened-IsTyped :
      (items : Reply (List ContactItem)) (chosen : Option (Mailbox × List ℕ)) (box : Mailbox)
      (key : List ℕ) (pane : ContactPane)
      → chosen ≡ some (box, key)
      → IsTyped pane (open_with core browser chosen items pane)
        × ((open_with core browser chosen items pane).contact_calls
            ≡ pane.contact_calls ++ fetches box.id ∷ [])
  unfolding open_with
  opened-IsTyped items none box key pane e = cc e
  opened-IsTyped items (some (b, k)) box key pane e =
      let (typed, calls) = loaded-IsTyped items b k (call_server (fetches b.id) pane) in
      let same : b.id ≡ box.id = ap (id_or b.id) e in
      (
        record {
          same_name = typed.same_name;
          same_email = typed.same_email;
          same_notes = typed.same_notes;
          same_editing = typed.same_editing;
        },
        calls ∙ ap (λ i. pane.contact_calls ++ fetches i ∷ []) same,
      )

  module _ (items : Reply (List ContactItem)) where
    stored-IsAnswered :
        (box : Mailbox) (key : List ℕ) (envelope : Text) (editing : Option DisplayContact)
        (reply : ContactReply) (pane : ContactPane)
        → chosen_key pane ≡ some (box, key)
        → IsAnswered box envelope editing reply pane (
            store_contact core browser box envelope editing
              (contact_fields pane)
              reply
              items
              (record pane { contacts_error = none }))
    unfolding store_contact update_contact create_contact start_edit_contact open_contacts
    stored-IsAnswered box key envelope none (stored id v) pane h = record {
      calls = refl;
      result = record {
        no_name = refl;
        no_email = refl;
        no_notes = refl;
        no_editing = refl;
        no_error = refl;
        listed = refl;
      };
    }
    stored-IsAnswered box key envelope (some c) (stored id v) pane h = record {
      calls = refl;
      result = record {
        no_name = refl;
        no_email = refl;
        no_notes = refl;
        no_editing = refl;
        no_error = refl;
        listed = refl;
      };
    }
    stored-IsAnswered box key envelope none (conflict t) pane h = record {
      calls = refl;
      result = called-with _ (creates box.id envelope) pane;
    }
    stored-IsAnswered box key envelope none (failed t) pane h = record {
      calls = refl;
      result = called-with _ (creates box.id envelope) pane;
    }
    stored-IsAnswered box key envelope (some c) (failed t) pane h = record {
      calls = refl;
      result = called-with _ (updates box.id c.id c.version envelope) pane;
    }
    stored-IsAnswered box key envelope (some c) (conflict t) pane h =
        let noticed : ContactPane = with_conflict_notice (
          call_server (updates box.id c.id c.version envelope)
            (record pane { contacts_error = none })) in
        let (typed, calls) = opened-IsTyped items (chosen_key pane) box key noticed h in
        record {
          calls =
              calls
              ∙ append_assoc pane.contact_calls (updates box.id c.id c.version envelope ∷ [])
                  (fetches box.id ∷ []);
          result = record {
            same_name = typed.same_name;
            same_email = typed.same_email;
            same_notes = typed.same_notes;
            same_editing = typed.same_editing;
          };
        }

    module _ (message_of : Failure → Text) (json_stringify : Contact → Text) (nonce : List ℕ) where
      sealed-Ends :
          (r : Result Text) (box : Mailbox) (key : List ℕ) (reply : ContactReply)
          (pane : ContactPane)
          → chosen_key pane ≡ some (box, key)
          → is_empty (trim pane.contact_name) ≡ false
          → any (λ c. c == 64) (trim pane.contact_email) ≡ true
          → encrypt_contact_envelope core browser json_stringify nonce key
              (codes box.id)
              (contact_fields pane)
            ≡ r
          → Ends core browser json_stringify nonce reply pane
              (store_sealed core browser message_of json_stringify nonce reply items box r pane)
      unfolding store_sealed
      sealed-Ends (throws e) box key reply pane h named addressed sealed =
          inl (error-IsRefused _ pane)
      sealed-Ends (ok envelope) box key reply pane h named addressed sealed = inr (record {
        box = box;
        key = key;
        envelope = envelope;
        chosen = h;
        has_name = named;
        has_address = addressed;
        sealed = sealed;
        answer = stored-IsAnswered box key envelope pane.editing_contact reply pane h;
      })

      saved-Ends :
          (chosen : Option (Mailbox × List ℕ)) (reply : ContactReply) (pane : ContactPane)
          → chosen_key pane ≡ chosen
          → Ends core browser json_stringify nonce reply pane
              (save_with core browser message_of json_stringify nonce reply items chosen pane)
      unfolding save_with contact_fields
      saved-Ends none reply pane h = inl (error-IsRefused _ pane)
      saved-Ends (some (box, key)) reply pane h =
          elim (Bool-cases (is_empty (trim pane.contact_name))) [
            | inl e ↦ rw e (inl (error-IsRefused _ pane))
            | inr e ↦ elim (Bool-cases (any (λ c. c == 64) (trim pane.contact_email))) [
              | inl f ↦ rw (e, f) (sealed-Ends _ box key reply pane h e f refl)
              | inr f ↦ rw (e, f) (inl (error-IsRefused _ pane))
            ]
          ]

      -- Saving a contact ends in one of two ways. Either no call is made, the form and the list stay, and
      -- there is an error to read. Or the fields of the form, with a name and an address, go to the server
      -- in one call, sealed for the chosen mailbox under its key: a stored contact empties the form and
      -- stands in the list with these fields; an error leaves both; a conflict of versions leaves the form
      -- and, where a contact was changed, asks the server for the list again.
      pub handle_save_contact-Ends :
          (reply : ContactReply) (pane : ContactPane)
          → Ends core browser json_stringify nonce reply pane
              (handle_save_contact core browser message_of json_stringify nonce reply items pane)
      unfolding handle_save_contact
      handle_save_contact-Ends reply pane = saved-Ends (chosen_key pane) reply pane refl
