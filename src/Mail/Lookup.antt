-- ===== src/Mail/Lookup.antt =====
-- Finding a message by its id, and what the list updates of App.tsx do to it.
use byos_email.Base.{
  suc, String, ◌≡◌, refl, ap, Bool, Option, none, some, List, [], ◌∷◌, arith, str_eq, eq_iff,
  if◌then◌else◌, filter, length, Bool-cases, inl, inr, has,
}
use mathlib.Core.Option
use byos_email.Mail.{Message, update_if, id_in}

-- The message of a list with the given id.
abbrev pub find_message : String → List Message → Option Message
find_message id [] = none
find_message id (m ∷ ms) = if str_eq m.id id then some m else find_message id ms

-- An update that leaves the id alone.
abbrev pub KeepsId : (Message → Message) → Type 0
KeepsId g = (m : Message) → (g m).id ≡ m.id

pub length-update_if :
    (p : Message → Bool) (g : Message → Message) (ms : List Message)
    → length (update_if p g ms) ≡ length ms
length-update_if p g [] = refl
length-update_if p g (m ∷ ms) = ap suc (length-update_if p g ms)

if-id :
    (p : Message → Bool) (g : Message → Message) (m : Message)
    → KeepsId g
    → (if p m then g m else m).id ≡ m.id
if-id p g m k = ground (arith, k m)

-- A guarded update acts on the message that is found.
pub find_message-update_if :
    (p : Message → Bool) (g : Message → Message) (ms : List Message) (id : String)
    → KeepsId g
    → find_message id (update_if p g ms)
      ≡ Option.map (λ m. if p m then g m else m) (find_message id ms)
find_message-update_if p g [] id k = refl
find_message-update_if p g (m ∷ ms) id k = rw (if-id p g m k) (elim (Bool-cases (str_eq m.id id)) [
  | inl e ↦ rw e
  | inr e ↦ rw e (find_message-update_if p g ms id k)
])

-- What is found has the id that was looked for.
pub find_message-id :
    (ms : List Message) (id : String) (m : Message) → find_message id ms ≡ some m → m.id ≡ id
find_message-id (x ∷ ms) id m e = ground (arith, eq_iff x.id id, find_message-id ms id m)
find_message-id [] id m e = ground arith

-- Membership in a list of ids is a matter of the id.
pub id_in-eq-has : (ids : List String) (m : Message) → id_in ids m ≡ has ids m.id
id_in-eq-has [] m = refl
id_in-eq-has (id ∷ ids) m = ground (arith, id_in-eq-has ids m)

-- A filter on the id drops exactly the messages that fail it.
pub find_message-filter :
    (keep : String → Bool) (ms : List Message) (id : String)
    → find_message id (filter (λ m. keep m.id) ms) ≡ (if keep id then find_message id ms else none)
find_message-filter keep [] id = ground arith
find_message-filter keep (m ∷ ms) id =
    ground (arith, find_message-filter keep ms id, eq_iff m.id id, same)
  where
    same : m.id ≡ id → keep m.id ≡ keep id
    same e = ap keep e
