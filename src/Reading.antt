-- ===== src/Reading.antt =====
-- Opening a message, apps/webmail/src/App.tsx: `openMessage` with its waits, beside the list handlers
-- and `lockMailbox`. A call of `openMessage` that waits is a `Pending` value, with what it holds
-- across the wait; the steps below run one call from a wait to the next one.
pub mod Machine
pub mod Sample
mod Tests
use byos_email.Base.{
  ℕ, suc, ◌+◌, ◌≡◌, String, Bool, true, false, not, ◌&&◌, ◌||◌, Option, none, some, List, [], ◌∷◌,
  ◌++◌, str_eq, ◌==◌, if◌then◌else◌, filter,
}
use byos_email.Base.Text.{Text, codes, trim, includes, is_empty}
use byos_email.Encoding.{Failure, Result, ok, throws}
use byos_email.Envelope.{
  Core, Browser, MessageDecryptInput, natural, decrypt_draft_envelope, decrypt_message_envelope,
}
use byos_email.Mail.{
  drafts, folder_eq, Message, Mailbox, State, set_message_read, update_if, id_is, request,
}
use byos_email.Mail.Actions.{set_read, with_box}
use byos_email.Mime.{or_all, extract_subject, extract_body, snippet_of}
use byos_email.Keywords.{extract_keywords}

-- What the reading pane shows: a notice, an error with its text, or the text of the message.
pub data Content : Type 0 where
  no_mailbox locked_draft locked_message : Content
  failed body : Text → Content

-- The fields of an attachment that the code reads; `legacy_message_id` is the older spelling.
pub record Attachment : Type 0 where
  pub id : String
  pub message_id : Option String
  pub legacy_message_id : Option String

pub record Body : Type 0 where
  pub encryption_version : ℕ
  pub encrypted_body : Text
  pub content_key_hpke_wrapped : Text

pub data Pending : Type 0 where
  fetching : ℕ → Message → Mailbox → Pending
  importing_draft : ℕ → Message → Mailbox → List ℕ → Pending
  importing : ℕ → Message → Mailbox → List ℕ → Body → Pending

abbrev pub seq_of : Pending → ℕ
seq_of (fetching n m b) = n
seq_of (importing_draft n m b k) = n
seq_of (importing n m b k c) = n

-- How a wait ends: the body and the attachments, which the import of the core has none of, or an
-- error with its message.
pub data Answer : Type 0 where
  arrives : Body → List Attachment → Answer
  fails : Text → Answer

-- `subject_items` and `snippet_items` are items of `sessionStorage`; `indexed` the terms that are
-- sent as tokens, each list for a mailbox and a message.
pub record Reader : Type 0 where
  pub current_decrypt_seq : ℕ
  pub is_decrypting : Bool
  pub decrypted_content : Option Content
  pub editable_plaintext : Option Text
  pub message_plaintext : Option Text
  pub message_attachments : List Attachment
  pub storage_error_banner : Bool
  pub mailbox_key : Option (List ℕ)
  pub search_key : Option Text
  pub unlocked_box_id : Option String
  pub subject_items : List (String × Text)
  pub snippet_items : List (String × Text)
  pub indexed : List (String × String × List Text)

pub record Screen : Type 0 where
  pub mail : State
  pub reader : Reader
  pub pending : List Pending

-- `setDecryptedContent(…)` and `setIsDecrypting(false)`
abbrev pub show : Content → Reader → Reader
show content r = record r { decrypted_content = some content; is_decrypting = false }

-- The key, where the mailbox is unlocked.
abbrev pub key_for : Mailbox → Reader → Option (List ℕ)
key_for box r = elim r.unlocked_box_id [
  | none ↦ none
  | some id ↦ if str_eq id box.id then r.mailbox_key else none
]

-- The message is marked as read in the list and at the server.
unfoldable pub mark_read : Message → State → State
mark_read msg s =
    if msg.read
    then s
    else with_box s.selected_mailbox (λ box. request (set_message_read box.id msg.id true))
        (record s { messages = update_if (id_is msg.id) (set_read true) s.messages })

abbrev pub wait_for : Pending → Screen → Screen
wait_for p screen = record screen { pending = screen.pending ++ p ∷ [] }

abbrev pub on_reader : (Reader → Reader) → Screen → Screen
on_reader f screen = record screen { reader = f screen.reader }

-- The beginning of a call, up to its first wait.
unfoldable pub start_reading : Message → Option Mailbox → Screen → Screen
start_reading msg none screen = on_reader (show no_mailbox) screen
start_reading msg (some box) screen =
    if folder_eq msg.folder drafts
    then (elim (key_for box screen.reader) [
      | none ↦ on_reader (show locked_draft) screen
      | some key ↦ wait_for (importing_draft screen.reader.current_decrypt_seq msg box key) screen
    ])
    else wait_for (fetching screen.reader.current_decrypt_seq msg box) screen

-- What a call writes before it looks at the mailbox.
abbrev pub opened : Message → Screen → Screen
opened msg screen = record screen {
  mail = mark_read msg (record screen.mail { selected_msg = some msg });
  reader = record screen.reader {
    current_decrypt_seq = suc screen.reader.current_decrypt_seq;
    is_decrypting = true;
    decrypted_content = none;
    editable_plaintext = none;
    message_plaintext = none;
    message_attachments = [];
  };
}

unfoldable pub open_message : Message → Screen → Screen
unfolding mark_read start_reading
open_message msg screen =
    start_reading msg (opened msg screen).mail.selected_mailbox (opened msg screen)

-- The `catch` of a call.
unfoldable pub catch_error : ℕ → Text → Screen → Screen
catch_error seq text screen =
    if seq == screen.reader.current_decrypt_seq
    then on_reader
        (λ r. show (failed text) (record r {
          storage_error_banner =
              r.storage_error_banner
              || (includes text (codes "503")
                  || (includes text (codes "storage_disconnected")
                      || includes text (codes "storage disconnected")));
        }))
        screen
    else screen

-- `a.message_id ?? a.messageId`, compared with `msg.messageId ?? msg.id`
abbrev pub or_id : Option String → String → String
or_id none id = id
or_id (some a) id = a

abbrev pub belongs_to : String → Attachment → Bool
belongs_to target a = elim a.message_id [
  | some id ↦ not (str_eq id "") && str_eq id target
  | none ↦ elim a.legacy_message_id [
    | none ↦ false
    | some id ↦ not (str_eq id "") && str_eq id target
  ]
]

-- `setMessageAttachments(…)` with the attachments of the message.
abbrev pub with_attachments : Message → List Attachment → Screen → Screen
with_attachments msg attachments screen =
    on_reader
      (λ r. record r {
        message_attachments = filter (belongs_to (or_id msg.message_id msg.id)) attachments;
      })
      screen

-- After the body has arrived.
unfoldable pub continue_reading : ℕ → Message → Mailbox → Body → Screen → Screen
continue_reading seq msg box content screen = elim (key_for box screen.reader) [
  | none ↦ on_reader (show locked_message) screen
  | some key ↦ elim msg.message_seq [
    | none ↦ on_reader (show locked_message) screen
    | some n ↦ wait_for (importing seq msg box key content) screen
  ]
]

-- The message as the decrypted text makes it: all its other fields are those that it had when it
-- was opened.
unfoldable pub updated_message : Message → Text → Message
unfolding extract_subject extract_body snippet_of
updated_message msg plaintext =
    let snippet = snippet_of (extract_body plaintext) in
    record msg {
      subject = extract_subject msg.subject plaintext;
      snippet = if is_empty snippet then msg.snippet else snippet;
      read = true;
    }

-- What a call writes when its sequence number is still the current one.
unfoldable pub show_message : Message → Text → Screen → Screen
unfolding updated_message extract_body trim
show_message msg plaintext screen =
    let updated = updated_message msg plaintext in
    let shown = or_all (trim (extract_body plaintext)) plaintext in
    record screen {
      mail = record screen.mail {
        selected_msg = some updated;
        messages = update_if (id_is msg.id) (λ m. updated) screen.mail.messages;
      };
      reader = record (show (body shown) screen.reader) { message_plaintext = some shown };
    }

-- The subject and the snippet go to `sessionStorage`, whether the call is still the current one or
-- not.
unfoldable pub store_texts : Message → Text → Screen → Screen
unfolding extract_subject extract_body snippet_of
store_texts msg plaintext screen =
    on_reader
      (λ r. record r {
        subject_items = (msg.id, extract_subject msg.subject plaintext) ∷ r.subject_items;
        snippet_items = (msg.id, snippet_of (extract_body plaintext)) ∷ r.snippet_items;
      })
      screen

unfoldable pub write_message : ℕ → Message → Text → Screen → Screen
unfolding show_message
write_message seq msg plaintext screen =
    if seq == screen.reader.current_decrypt_seq then show_message msg plaintext screen else screen

-- The terms of the message are indexed where there is a search key.
unfoldable pub index_terms : (ℕ → Bool) → Option Text → Message → Mailbox → Text → Screen → Screen
unfolding extract_keywords
index_terms is_letter_or_number none msg box plaintext screen = screen
index_terms is_letter_or_number (some _) msg box plaintext screen =
    on_reader
      (λ r. record r {
        indexed =
            r.indexed
            ++ (
              box.id,
              msg.id,
              extract_keywords is_letter_or_number (msg.subject ++ 32 ∷ plaintext),
            )
              ∷ [];
      })
      screen

abbrev pub input_of : Message → Body → MessageDecryptInput
input_of msg content = record {
  message_seq = elim msg.message_seq [ none ↦ natural 0 | some n ↦ natural n ];
  encryption_version = content.encryption_version;
  encrypted_body = content.encrypted_body;
  content_key_hpke_wrapped = content.content_key_hpke_wrapped;
}

module _ (core : Core) (browser : Browser) (message_of : Failure → Text)
    (is_letter_or_number : ℕ → Bool) where
  -- The end of a call that has decrypted a message.
  unfoldable pub finish_message : ℕ → Message → Mailbox → Result Text → Screen → Screen
  unfolding catch_error store_texts write_message index_terms
  finish_message seq msg box (throws e) screen = catch_error seq (message_of e) screen
  finish_message seq msg box (ok plaintext) screen =
      index_terms is_letter_or_number screen.reader.search_key msg box plaintext
        (write_message seq msg plaintext (store_texts msg plaintext screen))

  unfoldable pub finish_draft : ℕ → Result Text → Screen → Screen
  unfolding catch_error
  finish_draft seq (throws e) screen = catch_error seq (message_of e) screen
  finish_draft seq (ok plaintext) screen =
      if seq == screen.reader.current_decrypt_seq
      then on_reader (λ r. record (show (body plaintext) r) { editable_plaintext = some plaintext })
          screen
      else screen

  -- A wait ends.
  unfoldable pub settle : Pending → Answer → Screen → Screen
  unfolding catch_error continue_reading finish_message finish_draft decrypt_draft_envelope
      decrypt_message_envelope
  settle p (fails text) screen = catch_error (seq_of p) text screen
  settle (fetching seq msg box) (arrives content attachments) screen =
      if seq == screen.reader.current_decrypt_seq
      then continue_reading seq msg box content (with_attachments msg attachments screen)
      else screen
  settle (importing_draft seq msg box key) (arrives _ _) screen =
      finish_draft seq (decrypt_draft_envelope core browser key (codes box.id) msg.encrypted_body)
        screen
  settle (importing seq msg box key content) (arrives _ _) screen =
      finish_message seq msg box
        (decrypt_message_envelope core browser key (codes box.id) (input_of msg content)) screen

-- `lockMailbox`, apart from the contacts and the composer.
unfoldable pub lock_mailbox : Screen → Screen
lock_mailbox screen =
    let s = screen.mail in
    record screen {
      reader = record screen.reader {
        mailbox_key = none;
        search_key = none;
        unlocked_box_id = none;
        decrypted_content = none;
        editable_plaintext = none;
        message_plaintext = none;
      };
      mail = record s {
        selected_ids = [];
        selected_msg = none;
        custom_folders = [];
        labels = [];
        browse = record s.browse {
          server_matched_msg_ids = [];
          current_page = 1;
          active_custom_folder = none;
          active_label = none;
        };
      };
    }
