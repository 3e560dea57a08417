-- ===== src/Mail/UndoToast.antt =====
-- The undo toast after a move, and the open message (App.tsx).
use byos_email.Base.{
  ◌≡◌, ◌≢◌, refl, subst, ap, ap₂, sym, ◌∙◌, Option, none, some, List, [], ◌∷◌, arith, str_eq,
  eq_iff, if◌then◌else◌, Bool-cases, inl, inr,
}
use mathlib.Core.Option
use byos_email.Mail.{Folder, Message, State, Undo, update_if, id_is}
use byos_email.Mail.Actions.{
  set_folder, handle_archive_message, handle_trash_message, handle_undo, take_back,
}
use byos_email.Mail.Lookup.{find_message, find_message-update_if}
use byos_email.Mail.Trace.Selection.{InSync, Agrees}

-- Every message with the id of `msg` lies in the folder that `msg` names.
abbrev pub IsUpToDate : Message → List Message → Type 0
IsUpToDate msg [] = Unit
IsUpToDate msg (m ∷ ms) = (m.id ≡ msg.id → m.folder ≡ msg.folder) × IsUpToDate msg ms

folder_back : (m : Message) (f g : Folder) → m.folder ≡ g → set_folder g (set_folder f m) ≡ m
folder_back m f g e = ap (λ h. set_folder h m) (sym e)

update_back :
    (msg : Message) (f : Folder) (ms : List Message)
    → IsUpToDate msg ms
    → update_if (id_is msg.id) (set_folder msg.folder) (update_if (id_is msg.id) (set_folder f) ms)
      ≡ ms
update_back msg f [] h = refl
update_back msg f (m ∷ ms) (h, hs) = elim (Bool-cases (str_eq m.id msg.id)) [
  | inl e ↦
      rw (e, e)
        (ap₂ ◌∷◌ (folder_back m f msg.folder (h ((eq_iff m.id msg.id).0 e)))
          (update_back msg f ms hs))
  | inr e ↦ rw (e, e) (ap (◌∷◌ m) (update_back msg f ms hs))
]

-- Undo right after archiving a message, or after moving it to the trash, gives back the messages
-- as they were, if the handler was given the message with its present folder.
pub undo-move :
    (msg : Message) (s : State)
    → IsUpToDate msg s.messages
    → ((handle_undo (handle_archive_message msg s)).messages ≡ s.messages)
      × ((handle_undo (handle_trash_message msg s)).messages ≡ s.messages)
unfolding handle_undo handle_archive_message handle_trash_message
undo-move msg s h = (update_back msg _ s.messages h, update_back msg _ s.messages h)

agrees :
    (o : Option Message) (ms : List Message) (m : Message)
    → o ≡ some m
    → Agrees o ms
    → find_message m.id ms ≡ some m
agrees o ms m e h = subst (λ x. Agrees x ms) e h

undo_desync :
    (o : Option Undo) (s : State) (m : Message) (u : Undo)
    → o ≡ some u
    → find_message m.id s.messages ≡ some m
    → u.message_id ≡ m.id
    → find_message m.id (take_back o s).messages ≡ some (set_folder u.previous_folder m)
unfolding take_back
undo_desync none s m u on_offer listed same = cc
undo_desync (some v) s m u on_offer listed same =
    let v-u : v ≡ u = ground arith in
    let mine : m.id ≡ v.message_id = sym same ∙ ap (λ (w : Undo). w.message_id) (sym v-u) in
    find_message-update_if (id_is v.message_id) (set_folder v.previous_folder) s.messages m.id
      (λ x. refl)
    ∙ ap (Option.map (λ x. if str_eq x.id v.message_id then set_folder v.previous_folder x else x))
        listed
    ∙ rw ((eq_iff m.id v.message_id).1 mine)
        (ap (λ (w : Undo). some (set_folder w.previous_folder m)) v-u)

selected-take_back : (o : Option Undo) (s : State) → (take_back o s).selected_msg ≡ s.selected_msg
unfolding take_back
selected-take_back none s = refl
selected-take_back (some u) s = refl

-- Where the message of the undo was opened again in the folder that it had been moved to: the undo
-- leaves the open copy as it is, puts the message of the list back into its former folder, and the two
-- no longer agree.
pub undo_out_of_sync :
    (s : State) (m : Message) (u : Undo)
    → InSync s
    → s.selected_msg ≡ some m
    → s.undo_action ≡ some u
    → u.message_id ≡ m.id
    → u.previous_folder ≢ m.folder
    → ((handle_undo s).selected_msg ≡ some m)
      × ((find_message m.id (handle_undo s).messages ≡ some (set_folder u.previous_folder m))
          × (¬ InSync (handle_undo s)))
unfolding handle_undo
undo_out_of_sync s m u sync open_m on_offer same moved =
    let listed = agrees s.selected_msg s.messages m open_m sync in
    let now = undo_desync s.undo_action s m u on_offer listed same in
    let still_open = selected-take_back s.undo_action s ∙ open_m in
    (still_open, (now, λ after. moved (folder_of_some (sym now ∙ agrees _ _ m still_open after))))
  where
    folder_of_some : some (set_folder u.previous_folder m) ≡ some m → u.previous_folder ≡ m.folder
    folder_of_some e = ground arith
