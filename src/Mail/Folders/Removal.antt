-- ===== src/Mail/Folders/Removal.antt =====
-- Deleting, selecting and loading folders and labels (App.tsx): `handleDeleteFolder`,
-- `handleDeleteLabel`, `handleSelectCustomFolder`, `handleSelectLabel`, `deduplicateByName`.
use byos_email.Base.{
  ◌≡◌, refl, ap, String, Bool, true, false, not, ◌&&◌, none, some, List, [], ◌∷◌, str_eq,
  if◌then◌else◌, any, filter, arith, Bool-cases, inl, inr,
}
use byos_email.Base.Text.{Text, text_eq, text_eq_iff}
use byos_email.Mail.{
  inbox, Browse, Message, CustomFolder, Label, State, show_toast, update_if, folder_deleted,
  label_deleted,
}
use byos_email.Mail.Folders.{
  name_key, without, is_active_folder, is_active_label, folder_id_of, folder_name_of, label_id_of,
  label_name_of, has_mailbox,
}

-- `m.folderId === id`
abbrev pub lies_in : String → Message → Bool
lies_in id m = elim m.folder_id [ none ↦ false | some f ↦ str_eq f id ]

abbrev pub to_inbox : Message → Message
to_inbox m = record m { folder_id = none; folder = inbox }

abbrev pub without_label : String → Message → Message
without_label id m = elim m.label_ids [
  | none ↦ m
  | some ids ↦ record m { label_ids = some (filter (λ l. not (str_eq l id)) ids) }
]

abbrev pub all_messages : Message → Bool
all_messages m = true

module _ (locale_leb : Text → Text → Bool) where
  -- `confirmed` is the answer of the dialog and `done` that of the server; a failure shows an alert.
  unfoldable pub handle_delete_folder : CustomFolder → Bool → Bool → State → State
  unfolding without
  handle_delete_folder folder confirmed done s =
      if has_mailbox locale_leb s && (confirmed && done)
      then show_toast (folder_deleted folder.name) (record s {
        custom_folders = without folder_id_of folder_name_of locale_leb folder s.custom_folders;
        messages = update_if (lies_in folder.id) to_inbox s.messages;
        browse =
            if is_active_folder s.browse.active_custom_folder folder.id
            then record s.browse { active_custom_folder = none; current_folder = inbox }
            else s.browse;
      })
      else s

  unfoldable pub handle_delete_label : Label → Bool → Bool → State → State
  unfolding without
  handle_delete_label label confirmed done s =
      if has_mailbox locale_leb s && (confirmed && done)
      then show_toast (label_deleted label.name) (record s {
        labels = without label_id_of label_name_of locale_leb label s.labels;
        messages = update_if all_messages (without_label label.id) s.messages;
        browse =
            if is_active_label s.browse.active_label label.id
            then record s.browse { active_label = none }
            else s.browse;
      })
      else s

unfoldable pub handle_select_custom_folder : CustomFolder → State → State
handle_select_custom_folder folder s = record s {
  browse = record s.browse { active_custom_folder = some folder; active_label = none };
  selected_msg = none;
  selected_ids = [];
}

unfoldable pub handle_select_label : Label → State → State
handle_select_label label s = record s {
  browse = record s.browse { active_label = some label; active_custom_folder = none };
  selected_msg = none;
  selected_ids = [];
}

has_key : List Text → Text → Bool
has_key seen k = any (λ j. text_eq j k) seen

keys_differ :
    (seen : List Text) (k j : Text)
    → has_key seen k ≡ true
    → has_key seen j ≡ false
    → text_eq k j ≡ false
keys_differ seen k j h e = elim (Bool-cases (text_eq k j)) [
  | inl f ↦ cc (ap (has_key seen) ((text_eq_iff k j).0 f), h, e)
  | inr f ↦ f
]

keys_differ_from_seen :
    (seen : List Text) (k j : Text)
    → has_key seen k ≡ false
    → has_key seen j ≡ true
    → text_eq k j ≡ false
keys_differ_from_seen seen k j h e = elim (Bool-cases (text_eq k j)) [
  | inl f ↦ cc (ap (has_key seen) ((text_eq_iff k j).0 f), h, e)
  | inr f ↦ f
]

module _ {A : Type 0} (name_of : A → Text) where
  -- The loop of `deduplicateByName`, with the names seen so far.
  pub dedupe_from : List Text → List A → List A
  unfolding name_key has_key
  dedupe_from seen [] = []
  dedupe_from seen (item ∷ items) =
      let k = name_key (name_of item) in
      let skipped = dedupe_from seen items in
      let kept = dedupe_from (k ∷ seen) items in if has_key seen k then skipped else item ∷ kept

  unfoldable pub deduplicate_by_name : List A → List A
  unfolding dedupe_from
  deduplicate_by_name items = dedupe_from [] items

  abbrev pub has_name : Text → List A → Bool
  has_name k items = any (λ a. text_eq k (name_key (name_of a))) items

  abbrev pub HasDistinctKeys : List A → Type 0
  HasDistinctKeys [] = Unit
  HasDistinctKeys (a ∷ items) =
      (has_name (name_key (name_of a)) items ≡ false) × HasDistinctKeys items

  not_seen :
      (k : Text) (seen : List Text) (items : List A)
      → has_key seen k ≡ true
      → has_name k (dedupe_from seen items) ≡ false
  unfolding dedupe_from has_key
  not_seen k seen [] h = refl
  not_seen k seen (item ∷ items) h = elim (Bool-cases (has_key seen (name_key (name_of item)))) [
    | inl e ↦ rw e (not_seen k seen items h)
    | inr e ↦
        let later : has_name k (dedupe_from (name_key (name_of item) ∷ seen) items) ≡ false =
          not_seen k (name_key (name_of item) ∷ seen) items (ground (arith, h)) in
        let other : text_eq k (name_key (name_of item)) ≡ false =
          keys_differ seen k (name_key (name_of item)) h e in
        rw (e, other) later
  ]

  dedupe_from-HasDistinctKeys :
      (seen : List Text) (items : List A) → HasDistinctKeys (dedupe_from seen items)
  unfolding dedupe_from has_key
  dedupe_from-HasDistinctKeys seen [] = tt
  dedupe_from-HasDistinctKeys seen (item ∷ items) =
      let k : Text = name_key (name_of item) in
      elim (Bool-cases (has_key seen k)) [
        | inl e ↦ rw e (dedupe_from-HasDistinctKeys seen items)
        | inr e ↦ rw e (
          not_seen k (k ∷ seen) items (ground (arith, text_eq_iff k k)),
          dedupe_from-HasDistinctKeys (k ∷ seen) items,
        )
      ]

  has_name-dedupe :
      (k : Text) (seen : List Text) (items : List A)
      → has_key seen k ≡ false
      → has_name k (dedupe_from seen items) ≡ has_name k items
  unfolding dedupe_from has_key
  has_name-dedupe k seen [] h = refl
  has_name-dedupe k seen (item ∷ items) h =
      let key : Text = name_key (name_of item) in
      elim (Bool-cases (has_key seen key)) [
        | inl e ↦
            let other : text_eq k key ≡ false = keys_differ_from_seen seen k key h e in
            rw (e, other) (has_name-dedupe k seen items h)
        | inr e ↦ elim (Bool-cases (text_eq k key)) [
          | inl f ↦ rw (e, f) refl
          | inr f ↦
              rw (e, f)
                (has_name-dedupe k (key ∷ seen) items
                  (ground (arith, f, h, text_eq_iff k key, text_eq_iff key k)))
        ]
      ]

  -- Loading a list keeps one item of every name, and no two items of the result share a name up to
  -- case and surrounding blanks.
  pub deduplicate_by_name-HasDistinctKeys :
      (k : Text) (items : List A)
      → HasDistinctKeys (deduplicate_by_name items)
        × (has_name k (deduplicate_by_name items) ≡ has_name k items)
  unfolding deduplicate_by_name has_key
  deduplicate_by_name-HasDistinctKeys k items =
      (dedupe_from-HasDistinctKeys [] items, has_name-dedupe k [] items refl)

shown_elsewhere :
    (b : Browse) (id : String)
    → is_active_folder
        (if is_active_folder b.active_custom_folder id
          then record b { active_custom_folder = none; current_folder = inbox }
          else b).active_custom_folder
        id
      ≡ false
shown_elsewhere b id = elim (Bool-cases (is_active_folder b.active_custom_folder id)) [
  | inl e ↦ rw e refl
  | inr e ↦ rw (e, e) refl
]

-- Whether a message lies in a folder.
abbrev pub any_lies_in : String → List Message → Bool
any_lies_in id ms = any (lies_in id) ms

moved_out :
    (id : String) (ms : List Message) → any_lies_in id (update_if (lies_in id) to_inbox ms) ≡ false
moved_out id [] = refl
moved_out id (m ∷ ms) = elim (Bool-cases (lies_in id m)) [
  | inl e ↦ rw e (moved_out id ms)
  | inr e ↦ rw (e, e) (moved_out id ms)
]

without_it :
    (f : CustomFolder) (fs : List CustomFolder)
    → any (λ g. str_eq g.id f.id) (without folder_id_of folder_name_of (λ s t. true) f fs) ≡ false
unfolding without
without_it f [] = refl
without_it f (g ∷ fs) = ground (arith, without_it f fs)

module _ (locale_leb : Text → Text → Bool) where
  -- Once a folder is deleted with a mailbox open, confirmed by the user and by the server, the list has
  -- no folder of that id, no message lies in it, and it is not the folder that is shown.
  pub handle_delete_folder-gone :
      (folder : CustomFolder) (s : State)
      → has_mailbox locale_leb s ≡ true
      → let s' = handle_delete_folder locale_leb folder true true s in
        (any (λ g. str_eq g.id folder.id) s'.custom_folders ≡ false)
        × ((any_lies_in folder.id s'.messages ≡ false)
            × (is_active_folder s'.browse.active_custom_folder folder.id ≡ false))
  unfolding handle_delete_folder without
  handle_delete_folder-gone folder s open_box = rw open_box (
    without_it folder s.custom_folders,
    (moved_out folder.id s.messages, shown_elsewhere s.browse folder.id),
  )
