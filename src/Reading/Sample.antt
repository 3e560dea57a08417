-- ===== src/Reading/Sample.antt =====
-- A screen with one mailbox, its key, and one message, for the runs of several parts.
use byos_email.Base.{true, false, none, some, [], ◌∷◌}
use byos_email.Base.Text.{codes}
use byos_email.Mail.{Message, Mailbox, inbox, newest}
use byos_email.Reading.{Screen}

abbrev pub mailbox : Mailbox
mailbox = record {
  id = "00112233-4455-6677-8899-aabbccddeeff";
  local_part = "ann";
  domain_id = "d1";
  mode = "default";
}

abbrev pub news : Message
news = record {
  id = "m1";
  message_seq = some 7;
  version = none;
  folder = inbox;
  folder_id = none;
  label_ids = none;
  sender = codes "bob";
  recipient = codes "ann";
  subject = codes "?";
  snippet = [];
  encrypted_body = [];
  date = "";
  read = false;
  starred = false;
  is_real_api = true;
  message_id = none;
}

abbrev pub quiet : Screen
quiet = record {
  mail = record {
    messages = news ∷ [];
    selected_msg = none;
    selected_ids = [];
    undo_action = none;
    undo_timers = [];
    toast_message = none;
    toast_timer = none;
    toast_timers = [];
    next_timer = 0;
    selected_mailbox = some mailbox;
    custom_folders = [];
    labels = [];
    browse = record {
      current_folder = inbox;
      active_custom_folder = none;
      active_label = none;
      search_query = [];
      server_matched_msg_ids = [];
      sort_order = newest;
      current_page = 1;
    };
    requests = [];
  };
  reader = record {
    current_decrypt_seq = 0;
    is_decrypting = false;
    decrypted_content = none;
    editable_plaintext = none;
    message_plaintext = none;
    message_attachments = [];
    storage_error_banner = false;
    mailbox_key = some (1 ∷ []);
    search_key = none;
    unlocked_box_id = some mailbox.id;
    subject_items = [];
    snippet_items = [];
    indexed = [];
  };
  pending = [];
}
