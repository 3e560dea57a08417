-- ===== src/Mail/Actions.antt =====
-- The handlers of one message and the undo toast (App.tsx): `toggleMessageStarred` to `handleUndo`,
-- `handleToggleCheck`, `handleDeleteMessage` and the two timeouts.
use byos_email.Base.{
  ℕ, suc, Bool, true, false, not, ◌&&◌, Option, none, some, List, [], ◌∷◌, ◌++◌, str_eq, ◌==◌,
  if◌then◌else◌, set_add, set_delete, filter,
}
use byos_email.Mail.{
  Folder, archive, drafts, trash, folder_eq, Message, Mailbox, Undo, deleted_forever,
  set_message_read, delete_draft, State, update_if, id_is, clear_timeout, show_toast,
  update_selected, close_selected, request,
}

abbrev pub set_starred : Bool → Message → Message
set_starred b m = record m { starred = b }

abbrev pub set_read : Bool → Message → Message
set_read b m = record m { read = b }

abbrev pub set_folder : Folder → Message → Message
set_folder f m = record m { folder = f }

unfoldable pub toggle_message_starred : Message → State → State
toggle_message_starred msg s = record s {
  messages = update_if (id_is msg.id) (set_starred (not msg.starred)) s.messages;
  selected_msg = update_selected (id_is msg.id) (set_starred (not msg.starred)) s.selected_msg;
}

-- `if (box) …`: a call to the server for the selected mailbox.
abbrev pub with_box : Option Mailbox → (Mailbox → State → State) → State → State
with_box none f s = s
with_box (some box) f s = f box s

unfoldable pub toggle_message_read : Message → State → State
toggle_message_read msg s =
    let s' : State = record s {
      messages = update_if (id_is msg.id) (set_read (not msg.read)) s.messages;
      selected_msg = update_selected (id_is msg.id) (set_read (not msg.read)) s.selected_msg;
    } in
    with_box s.selected_mailbox (λ box. request (set_message_read box.id msg.id (not msg.read))) s'

abbrev pub timer_of : Option Undo → Option ℕ
timer_of none = none
timer_of (some u) = some u.timer

-- The common body of `handleArchiveMessage` and `handleTrashMessage`.
unfoldable pub move_with_undo : Folder → Message → State → State
move_with_undo target msg s = record s {
  messages = update_if (id_is msg.id) (set_folder target) s.messages;
  selected_msg = close_selected (id_is msg.id) s.selected_msg;
  undo_action =
      some (record { message_id = msg.id; previous_folder = msg.folder; timer = s.next_timer });
  undo_timers = clear_timeout (timer_of s.undo_action) s.undo_timers ++ s.next_timer ∷ [];
  next_timer = suc s.next_timer;
}

unfoldable pub handle_archive_message : Message → State → State
unfolding move_with_undo
handle_archive_message = move_with_undo archive

unfoldable pub handle_trash_message : Message → State → State
unfolding move_with_undo
handle_trash_message = move_with_undo trash

unfoldable pub handle_delete_forever : Message → State → State
handle_delete_forever msg s = show_toast deleted_forever (record s {
  messages = filter (λ m. not (str_eq m.id msg.id)) s.messages;
  selected_msg = close_selected (id_is msg.id) s.selected_msg;
  selected_ids = set_delete s.selected_ids msg.id;
})

-- `handleUndo` on the value of `undoAction()`.
unfoldable pub take_back : Option Undo → State → State
take_back none s = s
take_back (some action) s = record s {
  messages = update_if (id_is action.message_id) (set_folder action.previous_folder) s.messages;
  undo_action = none;
  undo_timers = clear_timeout (some action.timer) s.undo_timers;
}

unfoldable pub handle_undo : State → State
unfolding take_back
handle_undo s = take_back s.undo_action s

abbrev pub is_pending : ℕ → List ℕ → Bool
is_pending t [] = false
is_pending t (u ∷ ts) = if u == t then true else is_pending t ts

-- `() => setUndoAction(null)`, run when a pending undo timeout is due.
unfoldable pub fire_undo_timer : ℕ → State → State
fire_undo_timer t s =
    if is_pending t s.undo_timers
    then record s { undo_action = none; undo_timers = clear_timeout (some t) s.undo_timers }
    else s

-- `() => setToastMessage(null)`, run when a pending toast timeout is due.
unfoldable pub fire_toast_timer : ℕ → State → State
fire_toast_timer t s =
    if is_pending t s.toast_timers
    then record s { toast_message = none; toast_timers = clear_timeout (some t) s.toast_timers }
    else s

unfoldable pub handle_toggle_check : Message → Bool → State → State
handle_toggle_check msg checked s = record s {
  selected_ids =
      if checked then set_add s.selected_ids msg.id else set_delete s.selected_ids msg.id;
}

abbrev pub is_server_draft : Message → Bool
is_server_draft msg = msg.is_real_api && folder_eq msg.folder drafts

-- `handleDeleteMessage`, less the compose form, which `Compose` models. A failed call is only
-- logged, so its outcome does not change the list.
unfoldable pub handle_delete_message : Message → State → State
handle_delete_message msg s =
    let s' : State =
      if is_server_draft msg
      then with_box s.selected_mailbox (λ box. request (delete_draft box.id msg.id)) s
      else s in
    record s' {
      messages = update_if (id_is msg.id) (set_folder trash) s'.messages;
      selected_msg = none;
    }
