-- ===== src/Signature.antt =====
-- Signatures per mailbox, apps/webmail/src/signature.ts. The items of `localStorage` are a list with
-- one entry a key, or nothing where the storage is not available; a write may fail, which changes
-- nothing.
pub mod Storage
mod Tests
use byos_email.Base.{
  ℕ, Bool, true, false, not, ◌||◌, Option, none, some, List, [], ◌∷◌, ◌++◌, if◌then◌else◌, take,
}
use byos_email.Base.Text.{Text, codes, trim, text_eq, is_empty}

abbrev pub max_signature_chars : ℕ
max_signature_chars = 2000

abbrev pub storage_key : Text → Text
storage_key mailbox_id = codes "byos.signature." ++ mailbox_id

-- `getItem(key) || ""`
abbrev pub get_item : Text → List (Text × Text) → Text
get_item k [] = []
get_item k (item ∷ items) = let rest = get_item k items in if text_eq item.0 k then item.1 else rest

abbrev pub remove_item : Text → List (Text × Text) → List (Text × Text)
remove_item k [] = []
remove_item k (item ∷ items) =
    let rest = remove_item k items in if text_eq item.0 k then rest else item ∷ rest

unfoldable pub load_signature : Text → Option (List (Text × Text)) → Text
load_signature mailbox_id none = []
load_signature mailbox_id (some items) =
    if is_empty mailbox_id
    then []
    else take max_signature_chars (get_item (storage_key mailbox_id) items)

-- `accepts` tells whether the storage takes the write.
unfoldable pub save_signature :
    Bool → Text → Text → Option (List (Text × Text)) → Option (List (Text × Text))
unfolding trim
save_signature accepts mailbox_id text none = none
save_signature accepts mailbox_id text (some items) =
    let clean = take max_signature_chars text in
    let key = storage_key mailbox_id in
    if is_empty mailbox_id
    then some items
    else if is_empty (trim clean)
    then some (remove_item key items)
    else if accepts
    then some ((key, clean) ∷ remove_item key items)
    else some items

unfoldable pub apply_signature : Text → Text → Text
unfolding trim
apply_signature plaintext signature =
    let sig = trim signature in
    if is_empty sig then plaintext else plaintext ++ (10 ∷ 10 ∷ codes "-- ") ++ 10 ∷ sig
