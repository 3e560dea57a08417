-- ===== src/Mail/Counts.antt =====
-- The counters of the sidebar (App.tsx): `folderCounts`, `customFolderCounts`, `labelCounts`.
pub mod Agree
use byos_email.Base.{
  ℕ, suc, ◌+◌, String, Bool, true, false, not, ◌&&◌, Option, none, some, List, [], ◌∷◌, str_eq,
  if◌then◌else◌,
}
use byos_email.Mail.{Folder, inbox, sent, drafts, archive, spam, trash, other, folder_eq, Message}

pub record Counts : Type 0 where
  pub inbox_count : ℕ
  pub sent_count : ℕ
  pub drafts_count : ℕ
  pub archive_count : ℕ
  pub spam_count : ℕ
  pub trash_count : ℕ

-- `!m.folderId`
abbrev pub lacks_folder_id : Option String → Bool
lacks_folder_id none = true
lacks_folder_id (some id) = str_eq id ""

-- One round of the loop: a folder outside the six counters is passed over.
unfoldable pub count_message : Counts → Folder → Option String → Counts
count_message c trash id = record c { trash_count = suc c.trash_count }
count_message c inbox id =
    if lacks_folder_id id then record c { inbox_count = suc c.inbox_count } else c
count_message c sent id = record c { sent_count = suc c.sent_count }
count_message c drafts id = record c { drafts_count = suc c.drafts_count }
count_message c archive id = record c { archive_count = suc c.archive_count }
count_message c spam id = record c { spam_count = suc c.spam_count }
count_message c (other f) id = c

pub count_from : Counts → List Message → Counts
count_from c [] = c
count_from c (m ∷ ms) = count_from (count_message c m.folder m.folder_id) ms

unfoldable pub folder_counts : List Message → Counts
unfolding count_from count_message
folder_counts ms =
    count_from
      (record {
        inbox_count = 0;
        sent_count = 0;
        drafts_count = 0;
        archive_count = 0;
        spam_count = 0;
        trash_count = 0;
      })
      ms

-- `counts[k] || 0`, and `counts[k] = (counts[k] || 0) + 1`
abbrev pub get_count : String → List (String × ℕ) → ℕ
get_count k [] = 0
get_count k ((j, n) ∷ cs) = if str_eq j k then n else get_count k cs

abbrev pub bump : String → List (String × ℕ) → List (String × ℕ)
bump k [] = (k, 1) ∷ []
bump k ((j, n) ∷ cs) = if str_eq j k then (j, suc n) ∷ cs else (j, n) ∷ bump k cs

abbrev pub bump_folder : Option String → List (String × ℕ) → List (String × ℕ)
bump_folder none cs = cs
bump_folder (some id) cs = if str_eq id "" then cs else bump id cs

pub custom_counts_from : List (String × ℕ) → List Message → List (String × ℕ)
custom_counts_from cs [] = cs
custom_counts_from cs (m ∷ ms) =
    custom_counts_from (if folder_eq m.folder trash then cs else bump_folder m.folder_id cs) ms

unfoldable pub custom_folder_counts : List Message → List (String × ℕ)
unfolding custom_counts_from
custom_folder_counts ms = custom_counts_from [] ms

abbrev pub bump_each : List String → List (String × ℕ) → List (String × ℕ)
bump_each [] cs = cs
bump_each (id ∷ ids) cs = bump_each ids (bump id cs)

abbrev pub bump_labels : Option (List String) → List (String × ℕ) → List (String × ℕ)
bump_labels none cs = cs
bump_labels (some ids) cs = bump_each ids cs

pub label_counts_from : List (String × ℕ) → List Message → List (String × ℕ)
label_counts_from cs [] = cs
label_counts_from cs (m ∷ ms) =
    label_counts_from (if folder_eq m.folder trash then cs else bump_labels m.label_ids cs) ms

unfoldable pub label_counts : List Message → List (String × ℕ)
unfolding label_counts_from
label_counts ms = label_counts_from [] ms
