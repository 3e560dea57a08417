-- ===== src/Mail/Counts/Agree.antt =====
-- The counters of the sidebar beside the list that each entry shows (App.tsx).
use byos_email.Base.{
  ℕ, suc, ◌+◌, ◌≡◌, ◌≢◌, refl, ◌∙◌, String, Bool, true, false, not, ◌&&◌, Option, none, some, List,
  [], ◌∷◌, str_eq, if◌then◌else◌, arith, eq_iff, All, count_if, length, length-filter, count_if_ext,
  has, Bool-cases, inl, inr,
}
use byos_email.Base.Text.{is_empty}
use byos_email.Mail.{
  Folder, inbox, sent, drafts, archive, spam, trash, other, folder_eq, Message, CustomFolder, Label,
  State,
}
use byos_email.Mail.View.{
  no_folder, in_current, has_label, folder_id_is, match_folder, matches, query, filtered_messages,
}
use byos_email.Mail.Counts.{
  Counts, count_message, count_from, folder_counts, get_count, bump, bump_folder, bump_each,
  bump_labels, custom_counts_from, custom_folder_counts, label_counts_from, label_counts,
}

-- `counts[f]` for the six folders.
abbrev pub count_of : Folder → Counts → ℕ
count_of inbox c = c.inbox_count
count_of sent c = c.sent_count
count_of drafts c = c.drafts_count
count_of archive c = c.archive_count
count_of spam c = c.spam_count
count_of trash c = c.trash_count
count_of (other f) c = 0

abbrev pub IsStandard : Folder → Type 0
IsStandard (other f) = ⊥
IsStandard _ = Unit

-- A folder is never the empty text.
abbrev pub HasFolder : Message → Type 0
HasFolder m = no_folder m.folder ≡ false

count_message_lem :
    (f : Folder) (c : Counts) (m : Message)
    → IsStandard f
    → HasFolder m
    → count_of f (count_message c m.folder m.folder_id)
      ≡ (if in_current f m then suc (count_of f c) else count_of f c)
unfolding count_message
count_message_lem inbox c m s h = ground arith
count_message_lem sent c m s h = ground arith
count_message_lem drafts c m s h = ground arith
count_message_lem archive c m s h = ground arith
count_message_lem spam c m s h = ground arith
count_message_lem trash c m s h = ground arith
count_message_lem (other f) c m s h = absurd s

count_from_lem :
    (f : Folder) (c : Counts) (ms : List Message)
    → IsStandard f
    → All HasFolder ms
    → count_of f (count_from c ms) ≡ count_of f c + count_if (in_current f) ms
unfolding count_from
count_from_lem f c [] s h = omega arith
count_from_lem f c (m ∷ ms) s (h, hs) = ground (
  arith,
  count_message_lem f c m s h,
  count_from_lem f (count_message c m.folder m.folder_id) ms s hs,
)

-- No search is under way.
abbrev pub IsUnsearched : State → Type 0
IsUnsearched s = is_empty (query s.browse) ≡ true

shown_count :
    (s : State) (p : Message → Bool)
    → IsUnsearched s
    → ((m : Message) → match_folder s.browse m ≡ p m)
    → length (filtered_messages s) ≡ count_if p s.messages
unfolding filtered_messages
shown_count s p q h =
    length-filter (matches s.browse) s.messages
    ∙ count_if_ext (matches s.browse) p s.messages (λ m. plain m ∙ h m)
  where
    plain : (m : Message) → matches s.browse m ≡ match_folder s.browse m
    plain m = rw q

-- With no search under way and neither a custom folder nor a label open, the counter of the folder
-- that is open is the number of messages that are listed, for each of the six folders, if no
-- message has the empty text for its folder.
pub folder_counts-eq-filtered :
    (s : State)
    → IsUnsearched s
    → s.browse.active_custom_folder ≡ none
    → s.browse.active_label ≡ none
    → IsStandard s.browse.current_folder
    → All HasFolder s.messages
    → count_of s.browse.current_folder (folder_counts s.messages) ≡ length (filtered_messages s)
unfolding folder_counts
folder_counts-eq-filtered s q nc nl std has_folder = omega (
  arith,
  count_from_lem s.browse.current_folder zeros s.messages std has_folder,
  start s.browse.current_folder,
  shown_count s (in_current s.browse.current_folder) q plain,
)
  where
    zeros : Counts
    zeros = record {
      inbox_count = 0;
      sent_count = 0;
      drafts_count = 0;
      archive_count = 0;
      spam_count = 0;
      trash_count = 0;
    }

    start : (f : Folder) → count_of f zeros ≡ 0
    start inbox = refl
    start _ = refl

    plain : (m : Message) → match_folder s.browse m ≡ in_current s.browse.current_folder m
    plain m = unfold match_folder in rw (nc, nl)

get_count-bump :
    (k j : String) (cs : List (String × ℕ))
    → get_count j (bump k cs) ≡ (if str_eq k j then suc (get_count j cs) else get_count j cs)
get_count-bump k j [] = ground (arith, eq_iff k j)
get_count-bump k j ((i, n) ∷ cs) =
    ground (arith, eq_iff i k, eq_iff i j, eq_iff k j, get_count-bump k j cs)

-- What one message adds to the counter of a custom folder.
custom_round :
    (id : String) (cs : List (String × ℕ)) (trashed : Bool) (o : Option String)
    → id ≢ ""
    → get_count id (if trashed then cs else bump_folder o cs) ≡ (
        if elim o [ none ↦ false | some i ↦ str_eq i id ] && not trashed
        then suc (get_count id cs)
        else get_count id cs)
custom_round id cs true none n = refl
custom_round id cs false none n = refl
custom_round id cs true (some i) n = ground arith
custom_round id cs false (some i) n =
    ground (arith, eq_iff i "", eq_iff i id, get_count-bump i id cs)

abbrev in_folder : String → Message → Bool
in_folder id m = folder_id_is id m && not (folder_eq m.folder trash)

custom_counts_lem :
    (id : String) (cs : List (String × ℕ)) (ms : List Message)
    → id ≢ ""
    → get_count id (custom_counts_from cs ms) ≡ get_count id cs + count_if (in_folder id) ms
unfolding custom_counts_from
custom_counts_lem id cs [] n = omega arith
custom_counts_lem id cs (m ∷ ms) n = ground (
  arith,
  custom_round id cs (folder_eq m.folder trash) m.folder_id n,
  custom_counts_lem id (if folder_eq m.folder trash then cs else bump_folder m.folder_id cs) ms n,
)

-- With no search under way and a custom folder open whose id is not the empty text, the counter of
-- that folder is the number of messages that are listed.
custom_folder_counts-eq-filtered :
    (s : State) (folder : CustomFolder)
    → IsUnsearched s
    → s.browse.active_custom_folder ≡ some folder
    → folder.id ≢ ""
    → get_count folder.id (custom_folder_counts s.messages) ≡ length (filtered_messages s)
unfolding custom_folder_counts
custom_folder_counts-eq-filtered s folder q a n = omega (
  arith,
  custom_counts_lem folder.id [] s.messages n,
  shown_count s (in_folder folder.id) q (λ m. unfold match_folder in rw a),
)

-- The label ids of a message have no repetition.
abbrev pub HasNoRepeat : List String → Type 0
HasNoRepeat [] = Unit
HasNoRepeat (x ∷ xs) = (has xs x ≡ false) × HasNoRepeat xs

abbrev pub HasLabelSet : Option (List String) → Type 0
HasLabelSet none = Unit
HasLabelSet (some ids) = HasNoRepeat ids

bump_each_lem :
    (id : String) (ids : List String) (cs : List (String × ℕ))
    → HasNoRepeat ids
    → get_count id (bump_each ids cs)
      ≡ (if has ids id then suc (get_count id cs) else get_count id cs)
bump_each_lem id [] cs h = refl
bump_each_lem id (x ∷ xs) cs (n, h) = elim (Bool-cases (str_eq x id)) [
  | inl e ↦
      let same : has xs id ≡ false = rw ((eq_iff x id).0 e) at n in
      ground (arith, bump_each_lem id xs (bump x cs) h, get_count-bump x id cs)
  | inr e ↦ ground (arith, bump_each_lem id xs (bump x cs) h, get_count-bump x id cs)
]

label_round :
    (id : String) (cs : List (String × ℕ)) (trashed : Bool) (o : Option (List String))
    → HasLabelSet o
    → get_count id (if trashed then cs else bump_labels o cs) ≡ (
        if elim o [ none ↦ false | some ids ↦ has ids id ] && not trashed
        then suc (get_count id cs)
        else get_count id cs)
label_round id cs true none h = refl
label_round id cs false none h = refl
label_round id cs true (some ids) h = ground arith
label_round id cs false (some ids) h = ground (arith, bump_each_lem id ids cs h)

abbrev labelled : String → Message → Bool
labelled id m = has_label id m && not (folder_eq m.folder trash)

label_counts_lem :
    (id : String) (cs : List (String × ℕ)) (ms : List Message)
    → All (λ m. HasLabelSet m.label_ids) ms
    → get_count id (label_counts_from cs ms) ≡ get_count id cs + count_if (labelled id) ms
unfolding label_counts_from
label_counts_lem id cs [] h = omega arith
label_counts_lem id cs (m ∷ ms) (h, hs) = ground (
  arith,
  label_round id cs (folder_eq m.folder trash) m.label_ids h,
  label_counts_lem id (if folder_eq m.folder trash then cs else bump_labels m.label_ids cs) ms hs,
)

-- With no search under way, no custom folder and a label open, the counter of that label is the
-- number of messages that are listed, if no message carries a label twice.
label_counts-eq-filtered :
    (s : State) (label : Label)
    → IsUnsearched s
    → s.browse.active_custom_folder ≡ none
    → s.browse.active_label ≡ some label
    → All (λ m. HasLabelSet m.label_ids) s.messages
    → get_count label.id (label_counts s.messages) ≡ length (filtered_messages s)
unfolding label_counts
label_counts-eq-filtered s label q nc a h = omega (
  arith,
  label_counts_lem label.id [] s.messages h,
  shown_count s (labelled label.id) q (λ m. unfold match_folder in rw (nc, a)),
)
