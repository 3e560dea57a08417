-- ===== src/Mail.antt =====
-- The webmail client's in-memory mailbox, apps/webmail/src/App.tsx: the signals of the component as
-- the fields of one record, each message with the fields that the list code reads or writes.
pub mod View
pub mod Lookup
pub mod Actions
pub mod Batch
mod Tests
pub mod UndoToast
pub mod Counts
pub mod Keeps
pub mod Trace
pub mod Folders
use byos_email.Base.{
  ℕ, zero, suc, ◌+◌, String, Bool, true, false, ◌&&◌, ◌||◌, Option, none, some, List, [], ◌∷◌, ◌++◌,
  str_eq, ◌==◌, if◌then◌else◌,
}
use byos_email.Base.Text.{Text}

-- `Folder`, with the texts that a cast `as Folder` lets through.
pub data Folder : Type 0 where
  inbox sent drafts archive spam trash : Folder
  other : String → Folder

-- `x as Folder`
pub folder_of : String → Folder
folder_of s =
    if str_eq s "inbox"
    then inbox
    else if str_eq s "sent"
    then sent
    else if str_eq s "drafts"
    then drafts
    else if str_eq s "archive"
    then archive
    else if str_eq s "spam"
    then spam
    else if str_eq s "trash"
    then trash
    else other s

-- `===` on folders
abbrev pub folder_eq : Folder → Folder → Bool
folder_eq inbox inbox = true
folder_eq sent sent = true
folder_eq drafts drafts = true
folder_eq archive archive = true
folder_eq spam spam = true
folder_eq trash trash = true
folder_eq (other s) (other t) = str_eq s t
folder_eq _ _ = false

pub record Message : Type 0 where
  pub id : String
  pub message_seq : Option ℕ
  pub version : Option ℕ
  pub folder : Folder
  pub folder_id : Option String
  pub label_ids : Option (List String)
  pub sender : Text
  pub recipient : Text
  pub subject : Text
  pub snippet : Text
  pub encrypted_body : Text
  pub date : String
  pub read : Bool
  pub starred : Bool
  pub is_real_api : Bool
  pub message_id : Option String

-- `MailboxFolder`
pub record CustomFolder : Type 0 where
  pub id : String
  pub name : Text
  pub parent_id : Option String
  pub notify : Bool

-- `MailboxLabel`
pub record Label : Type 0 where
  pub id : String
  pub name : Text
  pub color : String
  pub color_name : String

pub record Mailbox : Type 0 where
  pub id : String
  pub local_part : String
  pub domain_id : String
  pub mode : String

pub record Undo : Type 0 where
  pub message_id : String
  pub previous_folder : Folder
  pub timer : ℕ

pub data SortOrder : Type 0 where
  newest oldest unread : SortOrder

pub data SelectionFilter : Type 0 where
  select_none select_all select_read select_unread select_starred select_unstarred : SelectionFilter

-- The toast texts, before their values are put in.
pub data Toast : Type 0 where
  deleted_forever bin_emptied : Toast
  archived to_spam to_trash permanently_deleted : ℕ → Toast
  marked : ℕ → Bool → Toast
  star_set : ℕ → Bool → Toast
  moved_to : ℕ → Text → Toast
  label_applied_to : Text → ℕ → Toast
  label_applied label_removed : Text → Toast
  folder_exists folder_updated folder_created folder_deleted : Text → Toast
  label_exists label_updated label_created label_deleted : Text → Toast
  save_failed : Text → Toast

-- The calls to the server, whose answers the list code ignores.
pub data Request : Type 0 where
  set_message_read : String → String → Bool → Request
  update_message_folder : String → String → String → Option String → Request
  attach_message_label detach_message_label : String → String → String → Request
  delete_draft : String → String → Request

-- What the list shows: folder, search and order.
pub record Browse : Type 0 where
  pub current_folder : Folder
  pub active_custom_folder : Option CustomFolder
  pub active_label : Option Label
  pub search_query : Text
  pub server_matched_msg_ids : List String
  pub sort_order : SortOrder
  pub current_page : ℕ

-- `undo_timers` and `toast_timers` are the timeouts that are set and have neither fired nor been
-- cleared; `next_timer` is the handle that `setTimeout` returns next.
pub record State : Type 0 where
  pub messages : List Message
  pub selected_msg : Option Message
  pub selected_ids : List String
  pub undo_action : Option Undo
  pub undo_timers : List ℕ
  pub toast_message : Option Toast
  pub toast_timer : Option ℕ
  pub toast_timers : List ℕ
  pub next_timer : ℕ
  pub selected_mailbox : Option Mailbox
  pub custom_folders : List CustomFolder
  pub labels : List Label
  pub browse : Browse
  pub requests : List Request

-- `prev.map((m) => (p(m) ? g(m) : m))`
abbrev pub update_if : (Message → Bool) → (Message → Message) → List Message → List Message
update_if p g [] = []
update_if p g (m ∷ ms) = (if p m then g m else m) ∷ update_if p g ms

abbrev pub id_is : String → Message → Bool
id_is id m = str_eq m.id id

abbrev pub id_in : List String → Message → Bool
id_in [] m = false
id_in (id ∷ ids) m = str_eq id m.id || id_in ids m

-- `clearTimeout`: a handle that is not pending is ignored.
abbrev pub clear_timeout : Option ℕ → List ℕ → List ℕ
clear_timeout none ts = ts
clear_timeout (some t) [] = []
clear_timeout (some t) (u ∷ ts) =
    let rest = clear_timeout (some t) ts in if u == t then rest else u ∷ rest

-- `showToast`
abbrev pub show_toast : Toast → State → State
show_toast msg s = record s {
  toast_message = some msg;
  toast_timer = some s.next_timer;
  toast_timers = clear_timeout s.toast_timer s.toast_timers ++ s.next_timer ∷ [];
  next_timer = suc s.next_timer;
}

-- The selected message, where its id is among `ids`.
abbrev pub selected_in : List String → Option Message → Bool
selected_in ids none = false
selected_in ids (some m) = id_in ids m

-- `setSelectedMsg({ ...selectedMsg()!, … })` where the selected message passes the test.
abbrev pub update_selected :
    (Message → Bool) → (Message → Message) → Option Message → Option Message
update_selected p g none = none
update_selected p g (some m) = some (if p m then g m else m)

-- `setSelectedMsg(null)` where the selected message passes the test.
abbrev pub close_selected : (Message → Bool) → Option Message → Option Message
close_selected p none = none
close_selected p (some m) = if p m then none else some m

abbrev pub request : Request → State → State
request r s = record s { requests = s.requests ++ r ∷ [] }

abbrev pub request_each : (String → Request) → List String → State → State
request_each f [] s = s
request_each f (id ∷ ids) s = request_each f ids (request (f id) s)
