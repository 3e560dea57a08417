-- ===== src/Mail/Trace.antt =====
-- The list handlers of App.tsx as the actions of one machine: the user and the two timeouts choose
-- the next action.
pub mod Timers
pub mod Selection
use byos_email.Base.{ℕ, String, Bool, Option, List, [], ◌∷◌}
use byos_email.Mail.{Message, SelectionFilter, State}
use byos_email.Mail.Actions.{
  toggle_message_starred, toggle_message_read, handle_archive_message, handle_trash_message,
  handle_delete_forever, handle_undo, fire_undo_timer, fire_toast_timer, handle_toggle_check,
  handle_delete_message,
}
use byos_email.Mail.Batch.{
  handle_select_filter, handle_batch_archive, handle_batch_spam, handle_batch_trash,
  handle_batch_delete_forever, handle_empty_trash, handle_batch_toggle_read,
  handle_batch_toggle_starred, handle_move_messages, handle_attach_label, toggle_message_label,
  handle_batch_toggle_label, handle_batch_move_to,
}

pub data Action : Type 0 where
  star read archive_one trash_one delete_one drop_one : Message → Action
  undo : Action
  undo_due toast_due : ℕ → Action
  check : Message → Bool → Action
  select : SelectionFilter → Action
  batch_archive batch_spam batch_trash batch_delete : Action
  empty_trash : Bool → Action
  batch_read batch_star : Bool → Action
  move label toggle_label : List String → String → Action
  batch_label batch_move_to : String → Action

module _ (get_time : String → Option ℕ) where
  unfoldable pub perform : Action → State → State
  perform (star m) = toggle_message_starred m
  perform (read m) = toggle_message_read m
  perform (archive_one m) = handle_archive_message m
  perform (trash_one m) = handle_trash_message m
  perform (delete_one m) = handle_delete_forever m
  perform (drop_one m) = handle_delete_message m
  perform undo = handle_undo
  perform (undo_due t) = fire_undo_timer t
  perform (toast_due t) = fire_toast_timer t
  perform (check m b) = handle_toggle_check m b
  perform (select f) = handle_select_filter get_time f
  perform batch_archive = handle_batch_archive
  perform batch_spam = handle_batch_spam
  perform batch_trash = handle_batch_trash
  perform batch_delete = handle_batch_delete_forever
  perform (empty_trash b) = handle_empty_trash b
  perform (batch_read b) = handle_batch_toggle_read b
  perform (batch_star b) = handle_batch_toggle_starred b
  perform (move ids f) = handle_move_messages ids f
  perform (label ids l) = handle_attach_label ids l
  perform (toggle_label ids l) = toggle_message_label ids l
  perform (batch_label l) = handle_batch_toggle_label l
  perform (batch_move_to f) = handle_batch_move_to f

  unfoldable pub run : List Action → State → State
  unfolding perform
  run [] s = s
  run (a ∷ rest) s = run rest (perform a s)
