-- ===== src/Compose/Drafts.antt =====
-- Saving a draft, apps/webmail/src/App.tsx: `handleSaveDraft`. The body leaves the client encrypted
-- only. The nonce, the answers of the server and the messages of errors are parameters.
pub mod Saved
use byos_email.Base.{
  ℕ, String, Bool, true, false, Option, none, some, List, [], ◌∷◌, ◌++◌, if◌then◌else◌, str_eq,
  length, take, ltb,
}
use byos_email.Base.Text.{Text, codes, trim, is_empty}
use byos_email.Encoding.{Failure, Result, ok, throws}
use byos_email.Envelope.{Core, Browser, encrypt_draft_envelope}
use byos_email.Mail.{drafts, Message, Mailbox, update_if, id_is}
use byos_email.Reading.{key_for}
use byos_email.Compose.{Form, DraftInput, Desk, clear_compose_form}

-- What the server answers: the id and the version of the stored draft, a conflict of versions, which
-- only a change of a draft tells from other errors, or an error with its message.
pub data DraftReply : Type 0 where
  stored : String → ℕ → DraftReply
  conflict failed : Text → DraftReply

abbrev pub or_text : Text → Text → Text
or_text s alternative = if is_empty s then alternative else s

-- `body.slice(0, 80) + (body.length > 80 ? "…" : "")`
abbrev pub draft_snippet : Text → Text
draft_snippet body = take 80 body ++ (if ltb 80 (length body) then codes "…" else [])

abbrev pub user_or_default : Option Text → Text
user_or_default none = codes "me@byos.local"
user_or_default (some email) = or_text email (codes "me@byos.local")

abbrev pub save_failed : Text → Desk → Desk
save_failed text desk = record desk {
  error_message = some (codes "Failed to save draft: " ++ text);
  compose_status = none;
}

abbrev pub conflict_notice : Text
conflict_notice =
    codes
      "This draft changed elsewhere (version conflict). Reload the mailbox to get the latest version, then re-apply your edits."

-- The listed draft with the fields of the form.
abbrev pub with_form : Form → Text → ℕ → Message → Message
with_form form envelope version m = record m {
  recipient = or_text (trim form.to) (codes "(no recipient)");
  subject = or_text (trim form.subject) (codes "(no subject)");
  snippet = draft_snippet form.body;
  encrypted_body = envelope;
  version = some version;
  date = "Just now";
}

-- The message that a new draft becomes in the list.
abbrev pub draft_display : Desk → Text → String → ℕ → Message
draft_display desk envelope id version = record {
  id = id;
  message_seq = none;
  version = some version;
  folder = drafts;
  folder_id = none;
  label_ids = none;
  sender = user_or_default desk.user_email;
  recipient = or_text (trim desk.form.to) (codes "(no recipient)");
  subject = or_text (trim desk.form.subject) (codes "Untitled Draft");
  snippet = draft_snippet desk.form.body;
  encrypted_body = envelope;
  date = "Just now";
  read = true;
  starred = false;
  is_real_api = true;
  message_id = none;
}

abbrev pub with_messages : (List Message → List Message) → Desk → Desk
with_messages f desk = record desk {
  screen = record desk.screen {
    mail = record desk.screen.mail { messages = f desk.screen.mail.messages };
  };
}

abbrev pub call_drafts : Option (String × ℕ) → Text → Desk → Desk
call_drafts replaced envelope desk = record desk {
  draft_calls =
      desk.draft_calls
      ++ record {
        recipient = trim desk.form.to;
        subject = or_text (trim desk.form.subject) (codes "Untitled Draft");
        encrypted_envelope = envelope;
        replaced = replaced;
      }
        ∷ [];
}

-- A draft that is changed.
unfoldable pub update_draft : Text → String × ℕ → DraftReply → Mailbox → Desk → Desk
unfolding trim
update_draft envelope editing (stored id version) box desk =
    record (clear_compose_form (
      with_messages (update_if (id_is editing.0) (with_form desk.form envelope version))
        (call_drafts (some editing) envelope desk))) { compose_open = false; compose_status = none }
update_draft envelope editing (conflict text) box desk =
    let called = call_drafts (some editing) envelope desk in
    record called {
      error_message = some conflict_notice;
      reloads = called.reloads ++ box.id ∷ [];
      compose_status = none;
    }
update_draft envelope editing (failed text) box desk =
    save_failed text (call_drafts (some editing) envelope desk)

-- A new draft.
unfoldable pub create_draft : Text → DraftReply → Desk → Desk
unfolding trim
create_draft envelope (stored id version) desk =
    record (with_messages (λ ms. draft_display desk envelope id version ∷ ms)
      (call_drafts none envelope desk)) { compose_open = false; compose_status = none }
create_draft envelope (conflict text) desk = save_failed text (call_drafts none envelope desk)
create_draft envelope (failed text) desk = save_failed text (call_drafts none envelope desk)

-- A draft that is edited is changed, any other is a new one.
unfoldable pub store_as : Text → DraftReply → Mailbox → Option (String × ℕ) → Desk → Desk
unfolding update_draft create_draft
store_as envelope reply box none desk = create_draft envelope reply desk
store_as envelope reply box (some editing) desk = update_draft envelope editing reply box desk

module _ (core : Core) (browser : Browser) (message_of : Failure → Text) (nonce : List ℕ)
    (reply : DraftReply) where
  -- The encrypted body goes to the server.
  unfoldable pub store_envelope : Result Text → Mailbox → Desk → Desk
  unfolding store_as
  store_envelope (throws e) box desk = save_failed (message_of e) desk
  store_envelope (ok envelope) box desk = store_as envelope reply box desk.form.editing_draft desk

  unfoldable pub save_in : Option Mailbox → Desk → Desk
  unfolding store_envelope encrypt_draft_envelope
  save_in none desk = desk
  save_in (some box) desk = elim (key_for box desk.screen.reader) [
    | none ↦ record desk {
      error_message = some (codes "Sign in again to save drafts.");
      compose_status = none;
    }
    | some key ↦
        store_envelope (encrypt_draft_envelope core browser nonce key (codes box.id) desk.form.body)
          box (record desk { compose_status = some (codes "Saving draft to mailbox storage…") })
  ]

  unfoldable pub handle_save_draft : Desk → Desk
  unfolding save_in
  handle_save_draft desk = save_in desk.screen.mail.selected_mailbox desk
