-- ===== src/Mail/Tests.antt =====
-- Runs of the list handlers, and the theorems at a mailbox with three messages.
use byos_email.Base.{
  ℕ, ◌≡◌, refl, String, Bool, true, false, Option, none, some, List, [], ◌∷◌, arith, eq_iff, length,
  map,
}
use byos_email.Base.Text.{codes, trim, to_lower_case}
use byos_email.Mail.{
  Folder, inbox, archive, trash, Message, CustomFolder, Label, newest, Browse, State,
}
use byos_email.Mail.View.{filtered_messages}
use byos_email.Mail.Actions.{
  toggle_message_starred, handle_toggle_check, handle_archive_message, handle_trash_message,
  handle_undo, fire_undo_timer,
}
use byos_email.Mail.Batch.{handle_batch_archive}
use byos_email.Mail.Counts.{folder_counts}
use byos_email.Mail.Counts.Agree.{count_of, folder_counts-eq-filtered}
use byos_email.Mail.Actions.{set_folder}
use byos_email.Mail.Lookup.{find_message}
use byos_email.Mail.UndoToast.{undo-move, undo_out_of_sync}
use byos_email.Mail.Trace.{Action, archive_one, trash_one, star, batch_archive, check, run}
use byos_email.Mail.Trace.Timers.Single.{TimersMatch}
use byos_email.Mail.Trace.Timers.{run-TimersMatch, stale_timer_harmless}
use byos_email.Mail.Trace.Selection.{InSync, run-InSync}

handlers : Unit {0}
unfolding run handle_trash_message handle_batch_archive handle_toggle_check toggle_message_starred
    handle_archive_message trim to_lower_case
handlers = tt

abbrev letter : String → Folder → Option String → Option (List String) → Bool → Message
letter id folder folder_id label_ids seen = record {
  id = id;
  message_seq = some 1;
  version = none;
  folder = folder;
  folder_id = folder_id;
  label_ids = label_ids;
  sender = codes "Ann";
  recipient = codes "me";
  subject = codes "Hello";
  snippet = codes "text";
  encrypted_body = [];
  date = "2024-01-01";
  read = seen;
  starred = false;
  is_real_api = true;
  message_id = some id;
}

abbrev m_1 : Message
m_1 = letter "m1" inbox none none false

abbrev m_2 : Message
m_2 = letter "m2" inbox (some "f1") (some ("l1" ∷ [])) true

abbrev m_3 : Message
m_3 = letter "m3" trash none (some ("l1" ∷ "l2" ∷ [])) false

abbrev work : CustomFolder
work = record { id = "f1"; name = codes "Work"; parent_id = none; notify = true }

abbrev urgent : Label
urgent = record { id = "l1"; name = codes "Urgent"; color = "#f00"; color_name = "red" }

abbrev looking_at : Option CustomFolder → Option Label → Browse
looking_at folder label = record {
  current_folder = inbox;
  active_custom_folder = folder;
  active_label = label;
  search_query = [];
  server_matched_msg_ids = [];
  sort_order = newest;
  current_page = 1;
}

abbrev box : State
box = record {
  messages = m_1 ∷ m_2 ∷ m_3 ∷ [];
  selected_msg = some m_1;
  selected_ids = [];
  undo_action = none;
  undo_timers = [];
  toast_message = none;
  toast_timer = none;
  toast_timers = [];
  next_timer = 7;
  selected_mailbox =
      some (record { id = "b"; local_part = "me"; domain_id = "d"; mode = "private" });
  custom_folders = work ∷ [];
  labels = urgent ∷ [];
  browse = looking_at none none;
  requests = [];
}

abbrev no_time : String → Option ℕ
no_time s = none

box-TimersMatch : TimersMatch box
box-TimersMatch = record { undo_pending = refl; toast_pending = refl }

abbrev script : List Action
script = archive_one m_1 ∷ star m_2 ∷ check m_2 true ∷ batch_archive ∷ trash_one m_2 ∷ []

folders_after :
    map (λ (m : Message). m.folder) (run no_time script box).messages ≡ archive ∷ trash ∷ trash ∷ []
unfolding handlers
folders_after = refl

run-TimersMatch_example : TimersMatch (run no_time script box)
run-TimersMatch_example = run-TimersMatch no_time script box box-TimersMatch

last_undo :
    (run no_time script box).undo_action
    ≡ some (record { message_id = "m2"; previous_folder = inbox; timer = 9 })
unfolding handlers
last_undo = refl

stale_timer_harmless_example : fire_undo_timer 7 (run no_time script box) ≡ run no_time script box
stale_timer_harmless_example =
    stale_timer_harmless no_time script box 7
      (record { message_id = "m2"; previous_folder = inbox; timer = 9 }) box-TimersMatch last_undo
      (omega arith)

run-InSync_example : InSync (run no_time (star m_1 ∷ batch_archive ∷ []) box)
run-InSync_example = run-InSync no_time (star m_1 ∷ batch_archive ∷ []) box (ground arith) refl

undo-move_example :
    ((handle_undo (handle_archive_message m_1 box)).messages ≡ box.messages)
    × ((handle_undo (handle_trash_message m_1 box)).messages ≡ box.messages)
undo-move_example = undo-move m_1 box (ground (arith, eq_iff "m2" "m1", eq_iff "m3" "m1"))

abbrev moved_1 : Message
moved_1 = record m_1 { folder = archive }

abbrev reopened : State
reopened = record box {
  messages = moved_1 ∷ m_2 ∷ m_3 ∷ [];
  selected_msg = some moved_1;
  undo_action = some (record { message_id = "m1"; previous_folder = inbox; timer = 7 });
  undo_timers = 7 ∷ [];
}

undo_out_of_sync_example :
    ((handle_undo reopened).selected_msg ≡ some moved_1)
    × ((find_message "m1" (handle_undo reopened).messages ≡ some (set_folder inbox moved_1))
        × (¬ InSync (handle_undo reopened)))
undo_out_of_sync_example =
    undo_out_of_sync reopened moved_1
      (record { message_id = "m1"; previous_folder = inbox; timer = 7 }) refl refl refl refl (cc)

folder_counts-eq-filtered_example :
    count_of inbox (folder_counts box.messages) ≡ length (filtered_messages box)
unfolding handlers
folder_counts-eq-filtered_example =
    folder_counts-eq-filtered box refl refl refl tt (refl, (refl, (refl, tt)))
