-- ===== src/Mail/Trace/Selection.antt =====
-- The open message and the list: `selectedMsg` holds a copy of a message, and the handlers update
-- both (App.tsx).
use byos_email.Base.{
  ℕ, ◌≡◌, ◌≢◌, refl, ap, ◌∙◌, Bool, true, false, not, Option, none, some, List, [], ◌∷◌, arith,
  String, str_eq, Bool-cases, inl, inr, filter, if◌then◌else◌, All,
}
use byos_email.Mail.{
  Folder, archive, spam, trash, Message, State, Toast, archived, to_spam, to_trash, bin_emptied,
  Request, set_message_read, update_message_folder, attach_message_label, detach_message_label,
  update_if, request, id_is, id_in, update_selected, close_selected,
}
use byos_email.Mail.Actions.{
  toggle_message_starred, toggle_message_read, move_with_undo, handle_archive_message,
  handle_trash_message, handle_delete_forever, fire_undo_timer, fire_toast_timer,
  handle_toggle_check, handle_delete_message, is_pending,
}
use byos_email.Mail.Batch.{
  handle_select_filter, handle_batch_archive, handle_batch_spam, handle_batch_trash,
  handle_batch_delete_forever, handle_empty_trash, handle_batch_toggle_read,
  handle_batch_toggle_starred, handle_move_messages, handle_attach_label, toggle_message_label,
  handle_batch_toggle_label, handle_batch_move_to, attach, detach, batch_move, is_none_selected,
  all_have_label, is_trashed, add_label, drop_label,
}
use byos_email.Mail.Lookup.{KeepsId, find_message, find_message-update_if}
use byos_email.Mail.Keeps.{if-keeps, with_box_request-keeps, with_box_each-keeps}
use byos_email.Mail.Trace.{
  Action, star, read, archive_one, trash_one, delete_one, drop_one, undo, undo_due, toast_due,
  check, select, batch_archive, batch_spam, batch_trash, batch_delete, empty_trash, batch_read,
  batch_star, move, label, toggle_label, batch_label, batch_move_to, perform, run,
}
use mathlib.Core.Option

add_label-id : (l : String) → KeepsId (add_label l)
add_label-id l m = ground arith

-- The open message is the one that the list has under its id.
abbrev pub Agrees : Option Message → List Message → Type 0
Agrees none ms = Unit
Agrees (some m) ms = find_message m.id ms ≡ some m

abbrev pub InSync : State → Type 0
InSync s = Agrees s.selected_msg s.messages

skip : (s : State) (r : Request) → InSync s → InSync (request r s)
skip s r h = h

if-id :
    (b : Bool) (g : Message → Message) (m : Message) → KeepsId g → (if b then g m else m).id ≡ m.id
if-id true g m k = k m
if-id false g m k = refl

-- The same guarded update of both.
Agrees-update :
    (p : Message → Bool) (g : Message → Message) (o : Option Message) (ms : List Message)
    → KeepsId g
    → Agrees o ms
    → Agrees (update_selected p g o) (update_if p g ms)
Agrees-update p g none ms k h = tt
Agrees-update p g (some m) ms k h =
    rw (if-id (p m) g m k)
      (find_message-update_if p g ms m.id k ∙ ap (Option.map (λ x. if p x then g x else x)) h)

-- An update of the list that closes the open message if it is concerned.
Agrees-close :
    (p : Message → Bool) (g : Message → Message) (o : Option Message) (ms : List Message)
    → KeepsId g
    → Agrees o ms
    → Agrees (close_selected p o) (update_if p g ms)
Agrees-close p g none ms k h = tt
Agrees-close p g (some m) ms k h = elim (Bool-cases (p m)) [
  | inl e ↦ rw e tt
  | inr e ↦ rw e (
      find_message-update_if p g ms m.id k
      ∙ ap (Option.map (λ x. if p x then g x else x)) h
      ∙ (rw e))
]

find_message-filter_kept :
    (p : Message → Bool) (ms : List Message) (id : String) (m : Message)
    → find_message id ms ≡ some m
    → p m ≡ true
    → find_message id (filter p ms) ≡ some m
find_message-filter_kept p [] id m h e = h
find_message-filter_kept p (x ∷ ms) id m h e = elim (Bool-cases (str_eq x.id id)) [
  | inl s ↦
      let same : x ≡ m = ground arith in
      let px : p x ≡ true = ap p same ∙ e in rw px (rw s (ap some same))
  | inr s ↦ elim (Bool-cases (p x)) [
    | inl t ↦ rw t (rw s (find_message-filter_kept p ms id m (rw s at h) e))
    | inr t ↦ rw t (find_message-filter_kept p ms id m (rw s at h) e)
  ]
]

Agrees-filter :
    (p : Message → Bool) (o : Option Message) (ms : List Message)
    → Agrees o ms
    → Agrees (close_selected p o) (filter (λ m. not (p m)) ms)
Agrees-filter p none ms h = tt
Agrees-filter p (some m) ms h = elim (Bool-cases (p m)) [
  | inl e ↦ rw e tt
  | inr e ↦ rw e (find_message-filter_kept (λ x. not (p x)) ms m.id m h (rw e))
]

detach-InSync :
    (t : Toast) (ids : List String) (l : String) (s : State) → InSync s → InSync (detach t ids l s)
detach-InSync t ids l s h =
    with_box_each-keeps InSync skip s.selected_mailbox (λ box id. detach_message_label box.id id l)
      ids _ (Agrees-update _ (drop_label l) s.selected_msg s.messages (λ m. refl) h)

attach-InSync :
    (t : Toast) (ids : List String) (l : String) (s : State) → InSync s → InSync (attach t ids l s)
attach-InSync t ids l s h =
    with_box_each-keeps InSync skip s.selected_mailbox (λ box id. attach_message_label box.id id l)
      ids _ (Agrees-update _ (add_label l) s.selected_msg s.messages (add_label-id l) h)

move-InSync :
    (ids : List String) (f : String) (s : State) → InSync s → InSync (handle_move_messages ids f s)
unfolding handle_move_messages
move-InSync [] f s h = h
move-InSync (id ∷ ids) f s h =
    with_box_each-keeps InSync skip s.selected_mailbox (λ box i. update_message_folder box.id i _ _)
      (id ∷ ids) _ (Agrees-close (id_in (id ∷ ids)) _ s.selected_msg s.messages (λ m. refl) h)

label-InSync :
    (ids : List String) (l : String) (s : State) → InSync s → InSync (handle_attach_label ids l s)
unfolding handle_attach_label
label-InSync [] l s h = h
label-InSync (id ∷ ids) l s h = attach-InSync bin_emptied (id ∷ ids) l s h

toggle_label-InSync :
    (ids : List String) (l : String) (s : State) → InSync s → InSync (toggle_message_label ids l s)
unfolding toggle_message_label
toggle_label-InSync [] l s h = h
toggle_label-InSync (id ∷ ids) l s h =
    if-keeps InSync (all_have_label (id ∷ ids) l s.messages)
      (detach-InSync bin_emptied (id ∷ ids) l s h) (attach-InSync bin_emptied (id ∷ ids) l s h)

batch_label-InSync : (l : String) (s : State) → InSync s → InSync (handle_batch_toggle_label l s)
unfolding handle_batch_toggle_label
batch_label-InSync l s h =
    if-keeps InSync (is_none_selected s.selected_ids) (on_open s.selected_msg)
      (toggle_label-InSync s.selected_ids l s h)
  where
    on_open :
        (o : Option Message)
        → InSync (elim o [ none ↦ s | some m ↦ toggle_message_label (m.id ∷ []) l s ])
    on_open none = h
    on_open (some m) = toggle_label-InSync (m.id ∷ []) l s h

batch_move-InSync : (f : Folder) (t : ℕ → Toast) (s : State) → InSync s → InSync (batch_move f t s)
batch_move-InSync f t s h =
    if-keeps InSync (is_none_selected s.selected_ids) h
      (Agrees-close (id_in s.selected_ids) _ s.selected_msg s.messages (λ m. refl) h)

delete_one-Agrees :
    (id : String) (o : Option Message) (ms : List Message)
    → Agrees o ms
    → Agrees (close_selected (id_is id) o) (filter (λ m. not (str_eq m.id id)) ms)
delete_one-Agrees id o ms h = Agrees-filter (id_is id) o ms h

perform-InSync :
    (get_time : String → Option ℕ) (a : Action) (s : State)
    → a ≢ undo
    → InSync s
    → InSync (perform get_time a s)
unfolding perform toggle_message_starred toggle_message_read move_with_undo handle_archive_message
    handle_trash_message handle_delete_forever fire_undo_timer fire_toast_timer handle_toggle_check
    handle_delete_message handle_select_filter handle_batch_archive handle_batch_spam
    handle_batch_trash handle_batch_delete_forever handle_empty_trash handle_batch_toggle_read
    handle_batch_toggle_starred handle_batch_move_to
perform-InSync gt (star m) s n h = Agrees-update _ _ s.selected_msg s.messages (λ x. refl) h
perform-InSync gt (read m) s n h =
    with_box_request-keeps InSync skip s.selected_mailbox
      (λ box. set_message_read box.id m.id (not m.read)) _
      (Agrees-update (id_is m.id) _ s.selected_msg s.messages (λ x. refl) h)
perform-InSync gt (archive_one m) s n h = Agrees-close _ _ s.selected_msg s.messages (λ x. refl) h
perform-InSync gt (trash_one m) s n h = Agrees-close _ _ s.selected_msg s.messages (λ x. refl) h
perform-InSync gt (delete_one m) s n h = delete_one-Agrees m.id s.selected_msg s.messages h
perform-InSync gt (drop_one m) s n h = tt
perform-InSync gt undo s n h = absurd (n refl)
perform-InSync gt (undo_due t) s n h = if-keeps InSync (is_pending t s.undo_timers) h h
perform-InSync gt (toast_due t) s n h = if-keeps InSync (is_pending t s.toast_timers) h h
perform-InSync gt (check m b) s n h = h
perform-InSync gt (select f) s n h = h
perform-InSync gt batch_archive s n h = batch_move-InSync archive archived s h
perform-InSync gt batch_spam s n h = batch_move-InSync spam to_spam s h
perform-InSync gt batch_trash s n h = batch_move-InSync trash to_trash s h
perform-InSync gt batch_delete s n h =
    if-keeps InSync (is_none_selected s.selected_ids) h
      (Agrees-filter (id_in s.selected_ids) s.selected_msg s.messages h)
perform-InSync gt (empty_trash b) s n h =
    if-keeps InSync _ h
      (if-keeps InSync (not b) h (Agrees-filter is_trashed s.selected_msg s.messages h))
perform-InSync gt (batch_read b) s n h = if-keeps InSync (is_none_selected s.selected_ids) h (
    with_box_each-keeps InSync skip s.selected_mailbox (λ box id. set_message_read box.id id b)
      s.selected_ids _
      (Agrees-update (id_in s.selected_ids) _ s.selected_msg s.messages (λ x. refl) h))
perform-InSync gt (batch_star b) s n h =
    if-keeps InSync (is_none_selected s.selected_ids) h
      (Agrees-update (id_in s.selected_ids) _ s.selected_msg s.messages (λ x. refl) h)
perform-InSync gt (move ids f) s n h = move-InSync ids f s h
perform-InSync gt (label ids l) s n h = label-InSync ids l s h
perform-InSync gt (toggle_label ids l) s n h = toggle_label-InSync ids l s h
perform-InSync gt (batch_label l) s n h = batch_label-InSync l s h
perform-InSync gt (batch_move_to f) s n h = move-InSync s.selected_ids f s h

-- If the open message is the one that the list has under its id, it still is after any actions
-- among which there is no undo.
pub run-InSync :
    (get_time : String → Option ℕ) (acts : List Action) (s : State)
    → All (λ a. a ≢ undo) acts
    → InSync s
    → InSync (run get_time acts s)
unfolding run
run-InSync gt [] s n h = h
run-InSync gt (a ∷ acts) s (n, ns) h =
    run-InSync gt acts (perform gt a s) ns (perform-InSync gt a s n h)
