-- ===== src/Mail/Folders.antt =====
-- Custom folders and labels (App.tsx): `handleSaveFolder`, `handleDeleteFolder`, `handleSaveLabel`,
-- `handleDeleteLabel`, `handleSelectCustomFolder`, `handleSelectLabel`, `deduplicateByName`.
-- The answer of the server is an argument: the saved item, or the text of the error. `locale_leb`
-- stands for `localeCompare` being 0 or less; a stable sort with it is an insertion sort.
pub mod Names
pub mod Removal
mod Tests
use byos_email.Base.{
  ◌≡◌, String, Bool, true, false, not, ◌&&◌, ◌||◌, Option, none, some, List, [], ◌∷◌, ◌++◌, str_eq,
  if◌then◌else◌, any, filter, map,
}
use byos_email.Base.Text.{Text, trim, to_lower_case, text_eq, is_empty}
use byos_email.Mail.{
  inbox, Message, CustomFolder, Label, State, show_toast, update_if, folder_exists, folder_updated,
  folder_created, folder_deleted, label_exists, label_updated, label_created, label_deleted,
  save_failed,
}

-- `name.trim().toLowerCase()`
unfoldable pub name_key : Text → Text
unfolding trim to_lower_case
name_key name = to_lower_case (trim name)

pub data Answer (A : Type 0) : Type 0 where
  saved : A → Answer A
  refused : Text → Answer A

-- What the folder and the label handlers share, for items with an id and a name.
module _ {A : Type 0} (id_of : A → String) (name_of : A → Text)
    (locale_leb : Text → Text → Bool) where
  unfoldable pub insert : A → List A → List A
  insert x [] = x ∷ []
  insert x (y ∷ ys) =
      let rest = insert x ys in if locale_leb (name_of x) (name_of y) then x ∷ y ∷ ys else y ∷ rest

  unfoldable pub sort_by_name : List A → List A
  unfolding insert
  sort_by_name [] = []
  sort_by_name (x ∷ xs) = insert x (sort_by_name xs)

  -- `!editing || item.id !== editing.id`
  abbrev pub is_another : Option A → A → Bool
  is_another none item = true
  is_another (some editing) item = not (str_eq (id_of item) (id_of editing))

  unfoldable pub is_duplicate : Text → Option A → List A → Bool
  unfolding name_key to_lower_case
  is_duplicate clean_name editing items =
      any
        (λ item.
          text_eq (name_key (name_of item)) (to_lower_case clean_name) && is_another editing item)
        items

  unfoldable pub replace : A → A → List A → List A
  unfolding sort_by_name
  replace editing updated items =
      sort_by_name
        (map (λ item. if str_eq (id_of item) (id_of editing) then updated else item) items)

  unfoldable pub add_created : Text → A → List A → List A
  unfolding sort_by_name name_key to_lower_case
  add_created clean_name created items =
      if any
        (λ item.
          str_eq (id_of item) (id_of created)
          || text_eq (name_key (name_of item)) (to_lower_case clean_name))
        items
      then items
      else sort_by_name (items ++ created ∷ [])

  unfoldable pub without : A → List A → List A
  without item items = filter (λ f. not (str_eq (id_of f) (id_of item))) items

-- The screen: the mailbox and the item that a dialog edits.
pub record Screen : Type 0 where
  pub mail : State
  pub folder_to_edit : Option CustomFolder
  pub label_to_edit : Option Label

abbrev pub folder_id_of : CustomFolder → String
folder_id_of f = f.id

abbrev pub folder_name_of : CustomFolder → Text
folder_name_of f = f.name

abbrev pub label_id_of : Label → String
label_id_of l = l.id

abbrev pub label_name_of : Label → Text
label_name_of l = l.name

-- `activeCustomFolder()?.id === id`
abbrev pub is_active_folder : Option CustomFolder → String → Bool
is_active_folder none id = false
is_active_folder (some f) id = str_eq f.id id

abbrev pub is_active_label : Option Label → String → Bool
is_active_label none id = false
is_active_label (some l) id = str_eq l.id id

abbrev pub on_mail : (State → State) → Screen → Screen
on_mail f screen = record screen { mail = f screen.mail }

module _ (locale_leb : Text → Text → Bool) where
  unfoldable pub folder_saved : Text → Option CustomFolder → Answer CustomFolder → Screen → Screen
  unfolding replace add_created
  folder_saved clean_name editing (refused message) screen =
      on_mail (show_toast (save_failed message)) screen
  folder_saved clean_name (some editing) (saved updated) screen =
      let s = screen.mail in
      record screen {
        folder_to_edit = none;
        mail = show_toast (folder_updated clean_name) (record s {
          custom_folders =
              replace folder_id_of folder_name_of locale_leb editing updated s.custom_folders;
          browse = record s.browse {
            active_custom_folder =
                if is_active_folder s.browse.active_custom_folder editing.id
                then some updated
                else s.browse.active_custom_folder;
          };
        });
      }
  folder_saved clean_name none (saved created) screen =
      on_mail
        (λ s. show_toast (folder_created clean_name) (record s {
          custom_folders =
              add_created folder_id_of folder_name_of locale_leb clean_name created
                s.custom_folders;
        }))
        screen

  unfoldable pub label_saved : Text → Option Label → Answer Label → Screen → Screen
  unfolding replace add_created
  label_saved clean_name editing (refused message) screen =
      on_mail (show_toast (save_failed message)) screen
  label_saved clean_name (some editing) (saved updated) screen =
      let s = screen.mail in
      record screen {
        label_to_edit = none;
        mail = show_toast (label_updated clean_name) (record s {
          labels = replace label_id_of label_name_of locale_leb editing updated s.labels;
          browse = record s.browse {
            active_label =
                if is_active_label s.browse.active_label editing.id
                then some updated
                else s.browse.active_label;
          };
        });
      }
  label_saved clean_name none (saved created) screen =
      on_mail
        (λ s. show_toast (label_created clean_name) (record s {
          labels = add_created label_id_of label_name_of locale_leb clean_name created s.labels;
        }))
        screen

  abbrev pub has_mailbox : State → Bool
  has_mailbox s = elim s.selected_mailbox [ none ↦ false | some _ ↦ true ]

  -- The guards of the two save handlers, then the call whose answer is given.
  unfoldable pub handle_save_folder : Text → Answer CustomFolder → Screen → Screen
  unfolding folder_saved is_duplicate trim
  handle_save_folder name answer screen =
      let clean_name = trim name in
      if not (has_mailbox screen.mail) || is_empty clean_name
      then screen
      else if is_duplicate folder_id_of folder_name_of locale_leb clean_name screen.folder_to_edit
          screen.mail.custom_folders
      then on_mail (show_toast (folder_exists clean_name)) screen
      else folder_saved clean_name screen.folder_to_edit answer screen

  unfoldable pub handle_save_label : Text → Answer Label → Screen → Screen
  unfolding label_saved is_duplicate trim
  handle_save_label name answer screen =
      let clean_name = trim name in
      if not (has_mailbox screen.mail) || is_empty clean_name
      then screen
      else if is_duplicate label_id_of label_name_of locale_leb clean_name screen.label_to_edit
          screen.mail.labels
      then on_mail (show_toast (label_exists clean_name)) screen
      else label_saved clean_name screen.label_to_edit answer screen
