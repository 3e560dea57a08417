-- ===== src/Mail/Batch.antt =====
-- The handlers of the selection (App.tsx): `handleSelectFilter`, the `handleBatch…` family,
-- `handleEmptyTrash`, `handleMoveMessages`, `handleAttachLabel` and `toggleMessageLabel`.
use byos_email.Base.{
  ℕ, String, Bool, true, false, not, ◌&&◌, Option, none, some, List, [], ◌∷◌, ◌++◌, str_eq, ◌==◌,
  ltb, if◌then◌else◌, set_delete, set_of, filter, length, has, all, find,
}
use byos_email.Base.Text.{Text, codes}
use byos_email.Mail.{
  Folder, inbox, archive, spam, trash, folder_eq, folder_of, Message, CustomFolder, Label,
  SelectionFilter, select_none, select_all, select_read, select_unread, select_starred,
  select_unstarred, Toast, archived, to_spam, to_trash, permanently_deleted, bin_emptied, marked,
  star_set, moved_to, label_applied_to, label_applied, label_removed, set_message_read,
  update_message_folder, attach_message_label, detach_message_label, State, update_if, id_in,
  show_toast, update_selected, close_selected, request_each,
}
use byos_email.Mail.View.{has_label, paginated_messages}
use byos_email.Mail.Actions.{set_read, set_starred, set_folder, with_box}

abbrev ids_of : List Message → List String
ids_of [] = []
ids_of (m ∷ ms) = m.id ∷ ids_of ms

abbrev chosen : SelectionFilter → List Message → List Message
chosen select_none visible = []
chosen select_all visible = visible
chosen select_read visible = filter (λ m. m.read) visible
chosen select_unread visible = filter (λ m. not m.read) visible
chosen select_starred visible = filter (λ m. m.starred) visible
chosen select_unstarred visible = filter (λ m. not m.starred) visible

unfoldable pub handle_select_filter : (String → Option ℕ) → SelectionFilter → State → State
handle_select_filter get_time f s = record s {
  selected_ids = set_of (ids_of (chosen f (paginated_messages get_time s)));
}

abbrev pub is_none_selected : List String → Bool
is_none_selected [] = true
is_none_selected (_ ∷ _) = false

-- The common body of `handleBatchArchive`, `handleBatchSpam` and `handleBatchTrash`.
abbrev pub batch_move : Folder → (ℕ → Toast) → State → State
batch_move target toast s =
    if is_none_selected s.selected_ids
    then s
    else record (show_toast (toast (length s.selected_ids)) s) {
      messages = update_if (id_in s.selected_ids) (set_folder target) s.messages;
      selected_msg = close_selected (id_in s.selected_ids) s.selected_msg;
      selected_ids = [];
    }

unfoldable pub handle_batch_archive : State → State
handle_batch_archive = batch_move archive archived

unfoldable pub handle_batch_spam : State → State
handle_batch_spam = batch_move spam to_spam

unfoldable pub handle_batch_trash : State → State
handle_batch_trash = batch_move trash to_trash

unfoldable pub handle_batch_delete_forever : State → State
handle_batch_delete_forever s =
    if is_none_selected s.selected_ids
    then s
    else record (show_toast (permanently_deleted (length s.selected_ids)) s) {
      messages = filter (λ m. not (id_in s.selected_ids m)) s.messages;
      selected_msg = close_selected (id_in s.selected_ids) s.selected_msg;
      selected_ids = [];
    }

abbrev pub is_trashed : Message → Bool
is_trashed m = folder_eq m.folder trash

-- `confirmed` is the answer to the `confirm` dialogue.
unfoldable pub handle_empty_trash : Bool → State → State
handle_empty_trash confirmed s =
    if length (filter is_trashed s.messages) == 0
    then s
    else if not confirmed
    then s
    else record (show_toast bin_emptied s) {
      messages = filter (λ m. not (is_trashed m)) s.messages;
      selected_msg = close_selected is_trashed s.selected_msg;
      selected_ids = [];
    }

unfoldable pub handle_batch_toggle_read : Bool → State → State
handle_batch_toggle_read read s =
    if is_none_selected s.selected_ids
    then s
    else (let s' : State = record (show_toast (marked (length s.selected_ids) read) s) {
      messages = update_if (id_in s.selected_ids) (set_read read) s.messages;
      selected_msg = update_selected (id_in s.selected_ids) (set_read read) s.selected_msg;
      selected_ids = [];
    } in
        with_box s.selected_mailbox
          (λ box. request_each (λ id. set_message_read box.id id read) s.selected_ids) s')

unfoldable pub handle_batch_toggle_starred : Bool → State → State
handle_batch_toggle_starred starred s =
    if is_none_selected s.selected_ids
    then s
    else record (show_toast (star_set (length s.selected_ids) starred) s) {
      messages = update_if (id_in s.selected_ids) (set_starred starred) s.messages;
      selected_msg = update_selected (id_in s.selected_ids) (set_starred starred) s.selected_msg;
      selected_ids = [];
    }

-- What `handleMoveMessages` takes from `customFolders().find(…)`.
pub record Target : Type 0 where
  pub folder : Folder
  pub folder_id : Option String
  pub backend : String
  pub name : Text

abbrev target_of : Option CustomFolder → String → Target
target_of (some cf) target = record {
  folder = inbox;
  folder_id = some cf.id;
  backend = "custom";
  name = cf.name;
}
target_of none target = record {
  folder = folder_of target;
  folder_id = none;
  backend = target;
  name = codes target;
}

abbrev find_folder : String → List CustomFolder → Option CustomFolder
find_folder id fs = find (λ cf. str_eq cf.id id) fs

abbrev pub place_in : Folder → Option String → Message → Message
place_in f id m = record m { folder = f; folder_id = id }

abbrev delete_each : List String → List String → List String
delete_each xs [] = xs
delete_each xs (id ∷ ids) = delete_each (set_delete xs id) ids

abbrev pub move_to_target : Target → List String → State → State
move_to_target t ids s =
    let s' : State = record s {
      messages = update_if (id_in ids) (place_in t.folder t.folder_id) s.messages;
      selected_msg = close_selected (id_in ids) s.selected_msg;
      selected_ids = delete_each s.selected_ids ids;
    } in
    show_toast (moved_to (length ids) t.name) (
      with_box s.selected_mailbox
        (λ box. request_each (λ id. update_message_folder box.id id t.backend t.folder_id) ids) s')

unfoldable pub handle_move_messages : List String → String → State → State
handle_move_messages [] target s = s
handle_move_messages (id ∷ ids) target s =
    move_to_target (target_of (find_folder target s.custom_folders) target) (id ∷ ids) s

-- `m.labelIds || []`
abbrev pub labels_of : Message → List String
labels_of m = elim m.label_ids [ none ↦ [] | some ids ↦ ids ]

abbrev pub add_label : String → Message → Message
add_label id m =
    if has (labels_of m) id then m else record m { label_ids = some (labels_of m ++ id ∷ []) }

abbrev pub drop_label : String → Message → Message
drop_label id m = record m { label_ids = some (filter (λ i. not (str_eq i id)) (labels_of m)) }

-- `label ? label.name : "Label"`
abbrev label_name : String → List Label → Text
label_name id ls = elim (find (λ (l : Label). str_eq l.id id) ls) [
  | none ↦ codes "Label"
  | some l ↦ l.name
]

-- What `handleAttachLabel` and the second branch of `toggleMessageLabel` share.
abbrev pub attach : Toast → List String → String → State → State
attach toast ids label s =
    let s' : State = record s {
      messages = update_if (id_in ids) (add_label label) s.messages;
      selected_msg = update_selected (id_in ids) (add_label label) s.selected_msg;
    } in
    show_toast toast (
      with_box s.selected_mailbox
        (λ box. request_each (λ id. attach_message_label box.id id label) ids) s')

abbrev pub detach : Toast → List String → String → State → State
detach toast ids label s =
    let s' : State = record s {
      messages = update_if (id_in ids) (drop_label label) s.messages;
      selected_msg = update_selected (id_in ids) (drop_label label) s.selected_msg;
    } in
    show_toast toast (
      with_box s.selected_mailbox
        (λ box. request_each (λ id. detach_message_label box.id id label) ids) s')

unfoldable pub handle_attach_label : List String → String → State → State
handle_attach_label [] label s = s
handle_attach_label (id ∷ ids) label s =
    attach (label_applied_to (label_name label s.labels) (length (id ∷ ids))) (id ∷ ids) label s

abbrev pub all_have_label : List String → String → List Message → Bool
all_have_label ids label ms =
    let targets = filter (id_in ids) ms in ltb 0 (length targets) && all (has_label label) targets

unfoldable pub toggle_message_label : List String → String → State → State
toggle_message_label [] label s = s
toggle_message_label (id ∷ ids) label s =
    if all_have_label (id ∷ ids) label s.messages
    then detach (label_removed (label_name label s.labels)) (id ∷ ids) label s
    else attach (label_applied (label_name label s.labels)) (id ∷ ids) label s

unfoldable pub handle_batch_toggle_label : String → State → State
unfolding toggle_message_label
handle_batch_toggle_label label s =
    if is_none_selected s.selected_ids
    then elim s.selected_msg [ none ↦ s | some m ↦ toggle_message_label (m.id ∷ []) label s ]
    else toggle_message_label s.selected_ids label s

unfoldable pub handle_batch_move_to : String → State → State
unfolding handle_move_messages
handle_batch_move_to target s = handle_move_messages s.selected_ids target s
