-- ===== src/Mail/Folders/Tests.antt =====
-- Runs of the folder handlers, and the theorems at a mailbox with two folders.
use byos_email.Base.{◌≡◌, refl, Bool, true, false, none, some, [], ◌∷◌, any, str_eq, leb}
use byos_email.Base.Text.{Text, codes}
use byos_email.Mail.{inbox, newest, Message, CustomFolder, State, folder_exists}
use byos_email.Mail.Folders.{
  Screen, saved, handle_save_folder, name_key, folder_name_of, is_active_folder,
}
use byos_email.Mail.Folders.Names.{HasDistinctFolders, handle_save_folder-HasDistinctFolders}
use byos_email.Mail.Folders.Removal.{
  handle_delete_folder, handle_delete_folder-gone, any_lies_in, deduplicate_by_name,
  HasDistinctKeys, has_name, deduplicate_by_name-HasDistinctKeys,
}

abbrev shorter : Text → Text → Bool
shorter [] t = true
shorter (c ∷ s) [] = false
shorter (c ∷ s) (d ∷ t) = leb c d

abbrev work : CustomFolder
work = record { id = "f1"; name = codes "Work"; parent_id = none; notify = true }

abbrev travel : CustomFolder
travel = record { id = "f2"; name = codes "Travel"; parent_id = none; notify = true }

abbrev bills : CustomFolder
bills = record { id = "f3"; name = codes "Bills"; parent_id = none; notify = false }

abbrev letter : Message
letter = record {
  id = "m1";
  message_seq = some 1;
  version = none;
  folder = inbox;
  folder_id = some "f1";
  label_ids = none;
  sender = codes "Ann";
  recipient = codes "me";
  subject = codes "Hello";
  snippet = codes "text";
  encrypted_body = [];
  date = "2024-01-01";
  read = true;
  starred = false;
  is_real_api = true;
  message_id = none;
}

abbrev box : State
box = record {
  messages = letter ∷ [];
  selected_msg = none;
  selected_ids = [];
  undo_action = none;
  undo_timers = [];
  toast_message = none;
  toast_timer = none;
  toast_timers = [];
  next_timer = 0;
  selected_mailbox =
      some (record { id = "b"; local_part = "me"; domain_id = "d"; mode = "private" });
  custom_folders = travel ∷ work ∷ [];
  labels = [];
  browse = record {
    current_folder = inbox;
    active_custom_folder = some work;
    active_label = none;
    search_query = [];
    server_matched_msg_ids = [];
    sort_order = newest;
    current_page = 1;
  };
  requests = [];
}

abbrev screen : Screen
screen = record { mail = box; folder_to_edit = none; label_to_edit = none }

-- A name that differs in case and blanks only is refused.
refused_twice :
    (handle_save_folder shorter (codes " wORK ") (saved bills) screen).mail.toast_message
    ≡ some (folder_exists (codes "wORK"))
unfolding handle_save_folder
refused_twice = refl

created :
    (handle_save_folder shorter (codes "Bills") (saved bills) screen).mail.custom_folders
    ≡ bills ∷ travel ∷ work ∷ []
unfolding handle_save_folder
created = refl

distinct : HasDistinctFolders shorter box
unfolding name_key
distinct = (refl, (refl, tt))

echoed : name_key (codes "Bills") ≡ codes "bills"
unfolding name_key
echoed = refl

handle_save_folder-HasDistinctFolders_example :
    HasDistinctFolders shorter
      (handle_save_folder shorter (codes "Bills") (saved bills) screen).mail
unfolding name_key
handle_save_folder-HasDistinctFolders_example =
    handle_save_folder-HasDistinctFolders shorter (codes "Bills") (saved bills) screen refl distinct

handle_delete_folder-gone_example :
    let s' = handle_delete_folder shorter work true true box in
    (any (λ g. str_eq g.id "f1") s'.custom_folders ≡ false)
    × ((any_lies_in "f1" s'.messages ≡ false)
        × (is_active_folder s'.browse.active_custom_folder "f1" ≡ false))
handle_delete_folder-gone_example = handle_delete_folder-gone shorter work box refl

deduplicate_by_name-HasDistinctKeys_example :
    HasDistinctKeys folder_name_of (deduplicate_by_name folder_name_of (work ∷ bills ∷ work ∷ []))
    × (has_name folder_name_of
          (codes "work")
          (deduplicate_by_name folder_name_of (work ∷ bills ∷ work ∷ []))
        ≡ has_name folder_name_of (codes "work") (work ∷ bills ∷ work ∷ []))
deduplicate_by_name-HasDistinctKeys_example =
    deduplicate_by_name-HasDistinctKeys folder_name_of (codes "work") (work ∷ bills ∷ work ∷ [])
