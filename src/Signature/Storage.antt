-- ===== src/Signature/Storage.antt =====
-- What a saved signature reads back as (signature.ts).
use byos_email.Base.{
  ℕ, zero, suc, ◌≡◌, ◌∙◌, refl, ap, true, false, some, List, [], ◌∷◌, arith, take, if◌then◌else◌,
  Bool-cases, inl, inr,
}
use byos_email.Base.Text.{Text, text_eq, text_eq_iff, is_empty, trim}
use byos_email.Signature.{
  max_signature_chars, storage_key, get_item, remove_item, load_signature, save_signature,
}

take-take : (n : ℕ) (s : Text) → take n (take n s) ≡ take n s
take-take zero s = refl
take-take (suc n) [] = refl
take-take (suc n) (c ∷ s) = ap (◌∷◌ c) (take-take n s)

get-removed : (k : Text) (items : List (Text × Text)) → get_item k (remove_item k items) ≡ []
get-removed k [] = refl
get-removed k (item ∷ items) = ground (arith, get-removed k items)

get-removed_other :
    (j k : Text) (items : List (Text × Text))
    → text_eq j k ≡ false
    → get_item k (remove_item j items) ≡ get_item k items
get-removed_other j k [] h = refl
get-removed_other j k (item ∷ items) h = ground (
  arith,
  get-removed_other j k items h,
  text_eq_iff item.0 j,
  text_eq_iff item.0 k,
  text_eq_iff j k,
)

keys_apart : (a b : Text) → text_eq a b ≡ false → text_eq (storage_key a) (storage_key b) ≡ false
keys_apart a b h = h

-- What a mailbox is signed with after a save: the text cut at 2000 characters, or nothing where that
-- is blank.
abbrev pub shown : Text → Text
shown text =
    if is_empty (trim (take max_signature_chars text)) then [] else take max_signature_chars text

load-named :
    (id : Text) (items : List (Text × Text))
    → is_empty id ≡ false
    → load_signature id (some items) ≡ take max_signature_chars (get_item (storage_key id) items)
unfolding load_signature
load-named id items named = rw named refl

load_other :
    (other : Text) (items items' : List (Text × Text))
    → get_item (storage_key other) items ≡ get_item (storage_key other) items'
    → load_signature other (some items) ≡ load_signature other (some items')
unfolding load_signature
load_other other items items' e =
    ap (λ t. if is_empty other then [] else take max_signature_chars t) e

-- Where the storage takes the write, the signature that is loaded for the mailbox is the one that
-- was saved, cut at 2000 characters, or none where that is blank; every other mailbox keeps its own.
pub load-save :
    (id other text : Text) (items : List (Text × Text))
    → is_empty id ≡ false
    → text_eq id other ≡ false
    → (load_signature id (save_signature true id text (some items)) ≡ shown text)
      × (load_signature other (save_signature true id text (some items))
          ≡ load_signature other (some items))
unfolding save_signature
load-save id other text items named apart =
    let clean : Text = take max_signature_chars text in
    let key : Text = storage_key id in
    elim (Bool-cases (is_empty (trim clean))) [
      | inl e ↦
          rw (named, e)
            (
              load-named id (remove_item key items) named
                  ∙ ap (take max_signature_chars) (get-removed key items),
              load_other other (remove_item key items) items
                  (get-removed_other key (storage_key other) items apart),
            )
      | inr e ↦
          rw (named, e)
            (
              load-named id ((key, clean) ∷ remove_item key items) named
                  ∙ (rw ((text_eq_iff key key).1 refl) (take-take max_signature_chars text)),
              load_other other ((key, clean) ∷ remove_item key items) items (
                  rw (keys_apart id other apart)
                    (get-removed_other key (storage_key other) items apart)),
            )
    ]
