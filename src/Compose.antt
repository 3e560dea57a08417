-- ===== src/Compose.antt =====
-- The composer, apps/webmail/src/App.tsx: its form and status beside the mailbox and the reading
-- pane, and the ways to begin a message: `clearComposeForm`, `startEditDraft`, `startReply`,
-- `startForward`, and what `handleDeleteMessage` does to the composer.
pub mod Sending
pub mod Drafts
pub mod Replies
mod Tests
use byos_email.Base.{
  ℕ, zero, suc, String, Bool, true, false, ◌&&◌, ◌||◌, Option, none, some, List, [], ◌∷◌, ◌++◌,
  if◌then◌else◌, ◌==◌, str_eq, map, length,
}
use byos_email.Base.Text.{Text, codes, is_blank, is_empty, lower_unit, text_eq}
use byos_email.Base.Decimal.{decimal}
use byos_email.Mail.{drafts, folder_eq, Message, Mailbox}
use byos_email.Mail.Actions.{handle_delete_message}
use byos_email.Mime.{join_with}
use byos_email.Reading.{Screen, lock_mailbox}

-- `editing_draft` is the id and the version of the draft.
pub record Form : Type 0 where
  pub to : Text
  pub subject : Text
  pub body : Text
  pub body_html : Text
  pub scheduled_time : Text
  pub track_opens : Bool
  pub attachments : List String
  pub editing_draft : Option (String × ℕ)

-- A message that is sent, with the time where it is scheduled.
pub record Outbound : Type 0 where
  pub reservation_id : String
  pub mailbox_id : String
  pub recipient : Text
  pub encrypted_message : Text
  pub send_token_wrapped : Text
  pub outbox_seq : ℕ
  pub encryption_version : ℕ
  pub aad_version : ℕ
  pub encryption_iv : Text
  pub scheduled_at : Option Text
  pub attachment_ids : Option (List String)

-- The fields of a draft at the server; the id and the version for one that is changed.
pub record DraftInput : Type 0 where
  pub recipient : Text
  pub subject : Text
  pub encrypted_envelope : Text
  pub replaced : Option (String × ℕ)

-- The component with its composer: `outbox` and `draft_calls` are the calls to the server, and
-- `reloads` the calls of `loadMailboxData`.
pub record Desk : Type 0 where
  pub screen : Screen
  pub form : Form
  pub compose_open : Bool
  pub compose_status : Option Text
  pub error_message : Option Text
  pub signatures : Option (List (Text × Text))
  pub user_email : Option Text
  pub outbox : List Outbound
  pub draft_calls : List DraftInput
  pub reloads : List String

abbrev pub empty_form : Form
empty_form = record {
  to = [];
  subject = [];
  body = [];
  body_html = [];
  scheduled_time = [];
  track_opens = false;
  attachments = [];
  editing_draft = none;
}

abbrev pub clear_compose_form : Desk → Desk
clear_compose_form desk = record desk { form = empty_form }

abbrev pub or_one : Option ℕ → ℕ
or_one none = 1
or_one (some n) = n

unfoldable pub start_edit_draft : Message → Text → Desk → Desk
start_edit_draft msg plaintext desk = record desk {
  form = record desk.form {
    to = if text_eq msg.recipient (codes "(no recipient)") then [] else msg.recipient;
    subject = if text_eq msg.subject (codes "(no subject)") then [] else msg.subject;
    body = plaintext;
    scheduled_time = [];
    attachments = [];
    editing_draft = some (msg.id, or_one msg.version);
  };
  compose_open = true;
}

-- Whether a text begins with a prefix, in upper or lower case, and a blank: `^prefix\s` with `i`.
unfoldable pub has_prefix : Text → Text → Bool
has_prefix [] [] = false
has_prefix [] (c ∷ s) = is_blank c
has_prefix (p ∷ prefix) [] = false
has_prefix (p ∷ prefix) (c ∷ s) =
    let rest = has_prefix prefix s in lower_unit p == lower_unit c && rest

unfoldable pub with_subject_prefix : Text → Text → Text
unfolding has_prefix
with_subject_prefix subject prefix =
    let clean = if text_eq subject (codes "(Encrypted message)") then [] else subject in
    if has_prefix prefix clean
    then clean
    else if is_empty clean
    then prefix
    else prefix ++ 32 ∷ clean

-- The last line with more characters before it.
abbrev pub onto_line : ℕ → List Text → List Text
onto_line c [] = (c ∷ []) ∷ []
onto_line c (l ∷ ls) = (c ∷ l) ∷ ls

-- `split("\n")`
unfoldable pub split_lines : Text → List Text
split_lines [] = [] ∷ []
split_lines (c ∷ s) = let rest = split_lines s in if c == 10 then [] ∷ rest else onto_line c rest

abbrev pub quote_line : Text → Text
quote_line line = codes "> " ++ line

abbrev pub quoted_text : Text → Text
quoted_text plaintext = join_with (10 ∷ []) (map quote_line (split_lines plaintext))

abbrev pub quote_heading : Message → Text
quote_heading msg =
    10 ∷ 10 ∷ codes "--- On "
    ++ (codes msg.date ++ (codes ", " ++ (msg.sender ++ codes " wrote: ---")))

unfoldable pub quote_original : Message → Text → Text
unfolding split_lines join_with
quote_original msg plaintext = quote_heading msg ++ 10 ∷ quoted_text plaintext

-- A message that is begun from another one: the fields that all ways set.
abbrev pub compose_from : Text → Text → Text → Desk → Desk
compose_from to subject body desk = record desk {
  form = record desk.form {
    to = to;
    subject = subject;
    body = body;
    scheduled_time = [];
    attachments = [];
    editing_draft = none;
  };
  compose_open = true;
}

-- With the text of the message that is open, or without one.
unfoldable pub reply_to : Message → Option Text → Desk → Desk
unfolding with_subject_prefix quote_original
reply_to msg none desk = desk
reply_to msg (some plaintext) desk =
    compose_from msg.sender (with_subject_prefix msg.subject (codes "Re:"))
      (quote_original msg plaintext) desk

unfoldable pub start_reply : Message → Desk → Desk
unfolding reply_to
start_reply msg desk = reply_to msg desk.screen.reader.message_plaintext desk

abbrev pub attach_note : ℕ → Text
attach_note zero = []
attach_note (suc n) =
    10 ∷ codes "[Note: "
    ++ (decimal (suc n)
        ++ (codes " original attachment(s) not carried by forwarding in V1.]" ++ 10 ∷ []))

unfoldable pub start_forward : Message → Desk → Desk
unfolding with_subject_prefix
start_forward msg desk = elim desk.screen.reader.message_plaintext [
  | none ↦ desk
  | some plaintext ↦
      compose_from [] (with_subject_prefix msg.subject (codes "Fwd:"))
        (attach_note (length desk.screen.reader.message_attachments)
          ++ (10 ∷ codes "--- Forwarded message from "
              ++ (msg.sender
                  ++ (codes " (" ++ (codes msg.date ++ (codes ") ---" ++ 10 ∷ plaintext))))))
        desk
]

abbrev pub edits : String → Option (String × ℕ) → Bool
edits id none = false
edits id (some draft) = str_eq draft.0 id

abbrev pub is_some : Option Mailbox → Bool
is_some none = false
is_some (some b) = true

-- `handleDeleteMessage`: the composer is closed where it edits the draft that goes.
unfoldable pub delete_message : Message → Desk → Desk
delete_message msg desk =
    let mail = handle_delete_message msg desk.screen.mail in
    let after = record desk { screen = record desk.screen { mail = mail } } in
    if (msg.is_real_api
        && (folder_eq msg.folder drafts && is_some desk.screen.mail.selected_mailbox))
      && edits msg.id desk.form.editing_draft
    then clear_compose_form (record after { compose_open = false })
    else after

-- `lockMailbox`, apart from the contacts: of the form only the draft that it edits is forgotten.
unfoldable pub lock_desk : Desk → Desk
unfolding lock_mailbox
lock_desk desk = record desk {
  screen = lock_mailbox desk.screen;
  form = record desk.form { editing_draft = none };
}
