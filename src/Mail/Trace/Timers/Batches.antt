-- ===== src/Mail/Trace/Timers/Batches.antt =====
-- The pending timeouts and the handlers that also call the server (App.tsx).
use byos_email.Base.{ℕ, Bool, not, Option, none, some, List, [], ◌∷◌, String, ◌==◌, length, filter}
use byos_email.Mail.{
  Folder, Message, State, Toast, permanently_deleted, bin_emptied, marked, star_set,
  set_message_read, delete_draft, update_message_folder, attach_message_label, detach_message_label,
}
use byos_email.Mail.Actions.{toggle_message_read, handle_delete_message, is_server_draft}
use byos_email.Mail.Batch.{
  handle_batch_delete_forever, handle_empty_trash, handle_batch_toggle_read,
  handle_batch_toggle_starred, handle_move_messages, handle_attach_label, toggle_message_label,
  handle_batch_toggle_label, Target, move_to_target, attach, detach, batch_move, is_none_selected,
  all_have_label, is_trashed,
}
use byos_email.Mail.Keeps.{if-keeps, with_box_request-keeps, with_box_each-keeps}
use byos_email.Mail.Trace.Timers.Single.{TimersMatch, skip, show_toast-TimersMatch}

pub toggle_read-TimersMatch :
    (m : Message) (s : State) → TimersMatch s → TimersMatch (toggle_message_read m s)
unfolding toggle_message_read
toggle_read-TimersMatch m s v =
    with_box_request-keeps TimersMatch skip s.selected_mailbox
      (λ box. set_message_read box.id m.id (not m.read)) _
      (record { undo_pending = v.undo_pending; toast_pending = v.toast_pending })

pub delete_message-TimersMatch :
    (m : Message) (s : State) → TimersMatch s → TimersMatch (handle_delete_message m s)
unfolding handle_delete_message
delete_message-TimersMatch m s v =
    let w =
      if-keeps TimersMatch (is_server_draft m)
        (with_box_request-keeps TimersMatch skip s.selected_mailbox
          (λ box. delete_draft box.id m.id) s v)
        v in
    record { undo_pending = w.undo_pending; toast_pending = w.toast_pending }

pub move_to_target-TimersMatch :
    (t : Target) (ids : List String) (s : State)
    → TimersMatch s
    → TimersMatch (move_to_target t ids s)
move_to_target-TimersMatch t ids s v = show_toast-TimersMatch _ _ (
    with_box_each-keeps TimersMatch skip s.selected_mailbox
      (λ box id. update_message_folder box.id id t.backend t.folder_id) ids _
      (record { undo_pending = v.undo_pending; toast_pending = v.toast_pending }))

pub move-TimersMatch :
    (ids : List String) (target : String) (s : State)
    → TimersMatch s
    → TimersMatch (handle_move_messages ids target s)
unfolding handle_move_messages
move-TimersMatch [] target s v = v
move-TimersMatch (id ∷ ids) target s v = move_to_target-TimersMatch _ (id ∷ ids) s v

pub attach-TimersMatch :
    (t : Toast) (ids : List String) (l : String) (s : State)
    → TimersMatch s
    → TimersMatch (attach t ids l s)
attach-TimersMatch t ids l s v = show_toast-TimersMatch _ _ (
    with_box_each-keeps TimersMatch skip s.selected_mailbox
      (λ box id. attach_message_label box.id id l) ids _
      (record { undo_pending = v.undo_pending; toast_pending = v.toast_pending }))

pub detach-TimersMatch :
    (t : Toast) (ids : List String) (l : String) (s : State)
    → TimersMatch s
    → TimersMatch (detach t ids l s)
detach-TimersMatch t ids l s v = show_toast-TimersMatch _ _ (
    with_box_each-keeps TimersMatch skip s.selected_mailbox
      (λ box id. detach_message_label box.id id l) ids _
      (record { undo_pending = v.undo_pending; toast_pending = v.toast_pending }))

pub label-TimersMatch :
    (ids : List String) (l : String) (s : State)
    → TimersMatch s
    → TimersMatch (handle_attach_label ids l s)
unfolding handle_attach_label
label-TimersMatch [] l s v = v
label-TimersMatch (id ∷ ids) l s v = attach-TimersMatch _ (id ∷ ids) l s v

pub toggle_label-TimersMatch :
    (ids : List String) (l : String) (s : State)
    → TimersMatch s
    → TimersMatch (toggle_message_label ids l s)
unfolding toggle_message_label
toggle_label-TimersMatch [] l s v = v
toggle_label-TimersMatch (id ∷ ids) l s v =
    if-keeps TimersMatch (all_have_label (id ∷ ids) l s.messages)
      (detach-TimersMatch _ (id ∷ ids) l s v) (attach-TimersMatch _ (id ∷ ids) l s v)

pub batch_move-TimersMatch :
    (f : Folder) (t : ℕ → Toast) (s : State) → TimersMatch s → TimersMatch (batch_move f t s)
batch_move-TimersMatch f t s v =
    let w = show_toast-TimersMatch (t (length s.selected_ids)) s v in
    if-keeps TimersMatch (is_none_selected s.selected_ids) v
      (record { undo_pending = w.undo_pending; toast_pending = w.toast_pending })

pub batch_delete-TimersMatch :
    (s : State) → TimersMatch s → TimersMatch (handle_batch_delete_forever s)
unfolding handle_batch_delete_forever
batch_delete-TimersMatch s v =
    let w = show_toast-TimersMatch (permanently_deleted (length s.selected_ids)) s v in
    if-keeps TimersMatch (is_none_selected s.selected_ids) v
      (record { undo_pending = w.undo_pending; toast_pending = w.toast_pending })

pub empty_trash-TimersMatch :
    (b : Bool) (s : State) → TimersMatch s → TimersMatch (handle_empty_trash b s)
unfolding handle_empty_trash
empty_trash-TimersMatch b s v =
    let w = show_toast-TimersMatch bin_emptied s v in
    if-keeps TimersMatch (length (filter is_trashed s.messages) == 0) v (
      if-keeps TimersMatch (not b) v
        (record { undo_pending = w.undo_pending; toast_pending = w.toast_pending }))

pub batch_read-TimersMatch :
    (b : Bool) (s : State) → TimersMatch s → TimersMatch (handle_batch_toggle_read b s)
unfolding handle_batch_toggle_read
batch_read-TimersMatch b s v =
    let w = show_toast-TimersMatch (marked (length s.selected_ids) b) s v in
    if-keeps TimersMatch (is_none_selected s.selected_ids) v (
      with_box_each-keeps TimersMatch skip s.selected_mailbox
        (λ box id. set_message_read box.id id b) s.selected_ids _
        (record { undo_pending = w.undo_pending; toast_pending = w.toast_pending }))

pub batch_star-TimersMatch :
    (b : Bool) (s : State) → TimersMatch s → TimersMatch (handle_batch_toggle_starred b s)
unfolding handle_batch_toggle_starred
batch_star-TimersMatch b s v =
    let w = show_toast-TimersMatch (star_set (length s.selected_ids) b) s v in
    if-keeps TimersMatch (is_none_selected s.selected_ids) v
      (record { undo_pending = w.undo_pending; toast_pending = w.toast_pending })

pub batch_label-TimersMatch :
    (l : String) (s : State) → TimersMatch s → TimersMatch (handle_batch_toggle_label l s)
unfolding handle_batch_toggle_label
batch_label-TimersMatch l s v =
    if-keeps TimersMatch (is_none_selected s.selected_ids) (on_open s.selected_msg)
      (toggle_label-TimersMatch s.selected_ids l s v)
  where
    on_open :
        (o : Option Message)
        → TimersMatch (elim o [ none ↦ s | some m ↦ toggle_message_label (m.id ∷ []) l s ])
    on_open none = v
    on_open (some m) = toggle_label-TimersMatch (m.id ∷ []) l s v
