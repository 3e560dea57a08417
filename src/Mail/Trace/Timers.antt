-- ===== src/Mail/Trace/Timers.antt =====
-- The timeouts of the undo and toast messages (App.tsx) under any sequence of actions.
pub mod Single
pub mod Batches
use byos_email.Base.{
  ℕ, ◌≡◌, ◌≢◌, refl, ap, Bool, true, false, not, Option, none, some, List, [], ◌∷◌, ◌++◌, ◌∙◌,
  arith, String, ◌==◌, inl, inr, Bool-cases, length, filter,
}
use byos_email.Mail.{
  Folder, archive, spam, trash, Message, State, Toast, archived, to_spam, to_trash,
  permanently_deleted, bin_emptied, marked, star_set, Undo, Request, set_message_read, delete_draft,
  update_message_folder, attach_message_label, detach_message_label, clear_timeout, show_toast,
  request,
}
use byos_email.Mail.Actions.{
  toggle_message_starred, toggle_message_read, move_with_undo, handle_archive_message,
  handle_trash_message, handle_delete_forever, handle_undo, fire_undo_timer, fire_toast_timer,
  handle_toggle_check, handle_delete_message, timer_of, take_back, is_pending, is_server_draft,
}
use byos_email.Mail.Batch.{
  handle_select_filter, handle_batch_archive, handle_batch_spam, handle_batch_trash,
  handle_batch_delete_forever, handle_empty_trash, handle_batch_toggle_read,
  handle_batch_toggle_starred, handle_move_messages, handle_attach_label, toggle_message_label,
  handle_batch_toggle_label, handle_batch_move_to, Target, move_to_target, attach, detach,
  batch_move, is_none_selected, all_have_label, is_trashed,
}
use byos_email.Mail.Keeps.{if-keeps, with_box_request-keeps, with_box_each-keeps}
use byos_email.Mail.Trace.{
  Action, star, read, archive_one, trash_one, delete_one, drop_one, undo, undo_due, toast_due,
  check, select, batch_archive, batch_spam, batch_trash, batch_delete, empty_trash, batch_read,
  batch_star, move, label, toggle_label, batch_label, batch_move_to, perform, run,
}
use byos_email.Mail.Trace.Timers.Single.{
  pending, Shown, TimersMatch, skip, clear-Shown, show_toast-TimersMatch, clear_own,
  move_with_undo-TimersMatch, take_back-TimersMatch, handle_undo-TimersMatch, clear_due,
  fire_undo-TimersMatch, clear-Shown_due, fire_toast-TimersMatch,
}
use byos_email.Mail.Trace.Timers.Batches.{
  toggle_read-TimersMatch, delete_message-TimersMatch, move_to_target-TimersMatch, move-TimersMatch,
  attach-TimersMatch, detach-TimersMatch, label-TimersMatch, toggle_label-TimersMatch,
  batch_move-TimersMatch, batch_delete-TimersMatch, empty_trash-TimersMatch, batch_read-TimersMatch,
  batch_star-TimersMatch, batch_label-TimersMatch,
}

module _ (get_time : String → Option ℕ) where
  perform-TimersMatch :
      (a : Action) (s : State) → TimersMatch s → TimersMatch (perform get_time a s)
  unfolding perform toggle_message_starred handle_archive_message handle_trash_message
      handle_delete_forever handle_toggle_check handle_select_filter handle_batch_archive
      handle_batch_spam handle_batch_trash handle_batch_move_to
  perform-TimersMatch (star m) s v = record {
    undo_pending = v.undo_pending;
    toast_pending = v.toast_pending;
  }
  perform-TimersMatch (read m) s v = toggle_read-TimersMatch m s v
  perform-TimersMatch (archive_one m) s v = move_with_undo-TimersMatch archive m s v
  perform-TimersMatch (trash_one m) s v = move_with_undo-TimersMatch trash m s v
  perform-TimersMatch (delete_one m) s v =
      show_toast-TimersMatch _ _
        (record { undo_pending = v.undo_pending; toast_pending = v.toast_pending })
  perform-TimersMatch (drop_one m) s v = delete_message-TimersMatch m s v
  perform-TimersMatch undo s v = handle_undo-TimersMatch s v
  perform-TimersMatch (undo_due t) s v = fire_undo-TimersMatch t s v
  perform-TimersMatch (toast_due t) s v = fire_toast-TimersMatch t s v
  perform-TimersMatch (check m b) s v = record {
    undo_pending = v.undo_pending;
    toast_pending = v.toast_pending;
  }
  perform-TimersMatch (select f) s v = record {
    undo_pending = v.undo_pending;
    toast_pending = v.toast_pending;
  }
  perform-TimersMatch batch_archive s v = batch_move-TimersMatch archive archived s v
  perform-TimersMatch batch_spam s v = batch_move-TimersMatch spam to_spam s v
  perform-TimersMatch batch_trash s v = batch_move-TimersMatch trash to_trash s v
  perform-TimersMatch batch_delete s v = batch_delete-TimersMatch s v
  perform-TimersMatch (empty_trash b) s v = empty_trash-TimersMatch b s v
  perform-TimersMatch (batch_read b) s v = batch_read-TimersMatch b s v
  perform-TimersMatch (batch_star b) s v = batch_star-TimersMatch b s v
  perform-TimersMatch (move ids f) s v = move-TimersMatch ids f s v
  perform-TimersMatch (label ids l) s v = label-TimersMatch ids l s v
  perform-TimersMatch (toggle_label ids l) s v = toggle_label-TimersMatch ids l s v
  perform-TimersMatch (batch_label l) s v = batch_label-TimersMatch l s v
  perform-TimersMatch (batch_move_to f) s v = move-TimersMatch s.selected_ids f s v

  -- Whatever the actions, and whenever the timeouts fire: if at the start exactly the timeout of
  -- the undo on offer is pending and a toast that is shown has exactly its own timeout pending,
  -- so it is at the end.
  pub run-TimersMatch :
      (acts : List Action) (s : State) → TimersMatch s → TimersMatch (run get_time acts s)
  unfolding run
  run-TimersMatch [] s v = v
  run-TimersMatch (a ∷ acts) s v =
      run-TimersMatch acts (perform get_time a s) (perform-TimersMatch a s v)

  due_of_none :
      (t : ℕ) (ts : List ℕ) (u : Undo)
      → ts ≡ pending (timer_of (some u))
      → t ≢ u.timer
      → is_pending t ts ≡ false
  due_of_none t ts u h n = ground arith

  -- After any actions from such a start, a timeout other than that of the undo on offer changes
  -- nothing when it fires: an old timeout never ends a newer undo.
  pub stale_timer_harmless :
      (acts : List Action) (s : State) (t : ℕ) (u : Undo)
      → TimersMatch s
      → (run get_time acts s).undo_action ≡ some u
      → t ≢ u.timer
      → fire_undo_timer t (run get_time acts s) ≡ run get_time acts s
  unfolding fire_undo_timer
  stale_timer_harmless acts s t u v e n =
      let w = run-TimersMatch acts s v in
      rw (
        due_of_none t (run get_time acts s).undo_timers u
          (w.undo_pending ∙ ap (λ a. pending (timer_of a)) e) n)
