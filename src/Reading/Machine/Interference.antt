-- ===== src/Reading/Machine/Interference.antt =====
-- A decryption that ends after the message was moved, or after the lock (App.tsx).
use byos_email.Base.{
  ℕ, ◌≡◌, ◌∙◌, refl, ap, String, Bool, true, none, some, List, [], ◌∷◌, ◌==◌, any, str_eq, eq_refl,
  Bool-cases, inl, inr,
}
use byos_email.Base.Text.{Text, codes, trim}
use byos_email.Encoding.{Failure, ok}
use byos_email.Envelope.{Core, Browser, decrypt_message_envelope}
use byos_email.Mail.{Message, Mailbox, State, update_if, id_is}
use byos_email.Mail.Actions.{handle_trash_message, move_with_undo}
use byos_email.Mail.Lookup.{find_message}
use byos_email.Mime.{or_all, extract_body}
use byos_email.Reading.{
  importing, arrives, Body, body, Attachment, Screen, show_message, updated_message, store_texts,
  write_message, finish_message, settle, lock_mailbox, input_of,
}
use byos_email.Reading.Machine.Spinner.{pane, index_terms-pane}

found-put :
    (u : Message) (ms : List Message)
    → any (id_is u.id) ms ≡ true
    → find_message u.id (update_if (id_is u.id) (λ m. u) ms) ≡ some u
found-put u [] h = cc h
found-put u (m ∷ ms) h = elim (Bool-cases (str_eq m.id u.id)) [
  | inl e ↦ rw (e, eq_refl u.id) refl
  | inr e ↦ rw (e, e) (found-put u ms (rw e at h))
]

any-update_if :
    (id : String) (p : Message → Bool) (g : Message → Message) (ms : List Message)
    → ((m : Message) → (g m).id ≡ m.id)
    → any (id_is id) (update_if p g ms) ≡ any (id_is id) ms
any-update_if id p g [] k = refl
any-update_if id p g (m ∷ ms) k = elim (Bool-cases (p m)) [
  | inl e ↦ rw (e, k m, any-update_if id p g ms k) refl
  | inr e ↦ rw (e, any-update_if id p g ms k) refl
]

written :
    (seq : ℕ) (m : Message) (plaintext : Text) (s : Screen)
    → (seq == s.reader.current_decrypt_seq) ≡ true
    → pane (write_message seq m plaintext (store_texts m plaintext s))
      ≡ pane (show_message m plaintext s)
unfolding write_message store_texts show_message
written seq m plaintext s e = rw e refl

replaced :
    (m : Message) (plaintext : Text) (s : State)
    → any (id_is m.id) s.messages ≡ true
    → find_message m.id (
        update_if
          (id_is m.id)
          (λ x. updated_message m plaintext)
          (handle_trash_message m s).messages)
      ≡ some (updated_message m plaintext)
unfolding updated_message handle_trash_message move_with_undo
replaced m plaintext s listed =
    found-put (updated_message m plaintext) (handle_trash_message m s).messages
      (any-update_if m.id (id_is m.id) _ s.messages (λ x. refl) ∙ listed)

module _ (core : Core) (browser : Browser) (message_of : Failure → Text)
    (is_letter_or_number : ℕ → Bool) where
  -- What a current call shows once its message is decrypted.
  shown_of :
      (seq : ℕ) (m : Message) (box : Mailbox) (key : List ℕ) (c c' : Body) (l : List Attachment)
      (plaintext : Text) (s : Screen)
      → (seq == s.reader.current_decrypt_seq) ≡ true
      → decrypt_message_envelope core browser key (codes box.id) (input_of m c) ≡ ok plaintext
      → pane (
          settle core browser message_of is_letter_or_number
            (importing seq m box key c)
            (arrives c' l)
            s)
        ≡ pane (show_message m plaintext s)
  unfolding settle finish_message
  shown_of seq m box key c c' l plaintext s e decrypted = rw decrypted (
      index_terms-pane is_letter_or_number s.reader.search_key m box plaintext
        (write_message seq m plaintext (store_texts m plaintext s))
      ∙ written seq m plaintext s e)

  -- Where a message is moved to the bin while it is decrypted, the end of the decryption opens it
  -- again and puts the copy from before the move, with its old folder, back into the list.
  pub trash_is_undone :
      (seq : ℕ) (m : Message) (box : Mailbox) (key : List ℕ) (c c' : Body) (l : List Attachment)
      (plaintext : Text) (s : Screen)
      → (seq == s.reader.current_decrypt_seq) ≡ true
      → decrypt_message_envelope core browser key (codes box.id) (input_of m c) ≡ ok plaintext
      → any (id_is m.id) s.mail.messages ≡ true
      → let t =
          settle core browser message_of is_letter_or_number
            (importing seq m box key c)
            (arrives c' l)
            (record s { mail = handle_trash_message m s.mail }) in
        (t.mail.selected_msg ≡ some (updated_message m plaintext))
        × ((find_message m.id t.mail.messages ≡ some (updated_message m plaintext))
            × ((updated_message m plaintext).folder ≡ m.folder))
  unfolding show_message handle_trash_message
  trash_is_undone seq m box key c c' l plaintext s e decrypted listed =
      let u : Message = updated_message m plaintext in
      let s' : Screen = record s { mail = handle_trash_message m s.mail } in
      let shown : pane (
            settle core browser message_of is_letter_or_number (importing seq m box key c)
              (arrives c' l) s')
          ≡ pane (show_message m plaintext s') =
        shown_of seq m box key c c' l plaintext s' e decrypted in
      (
        ap (λ t. t.mail.selected_msg) shown ∙ (unfold show_message in refl),
        (
          ap (λ t. find_message m.id t.mail.messages) shown ∙ replaced m plaintext s.mail listed,
          (unfold updated_message in refl),
        ),
      )

  -- Where the mailbox is locked while a message is decrypted, the end of the decryption shows the
  -- text of the message with no key in memory.
  pub shown_after_lock :
      (seq : ℕ) (m : Message) (box : Mailbox) (key : List ℕ) (c c' : Body) (l : List Attachment)
      (plaintext : Text) (s : Screen)
      → (seq == s.reader.current_decrypt_seq) ≡ true
      → decrypt_message_envelope core browser key (codes box.id) (input_of m c) ≡ ok plaintext
      → let t =
          settle core browser message_of is_letter_or_number
            (importing seq m box key c)
            (arrives c' l)
            (lock_mailbox s) in
        (t.reader.mailbox_key ≡ none)
        × (t.reader.decrypted_content
            ≡ some (body (or_all (trim (extract_body plaintext)) plaintext)))
  unfolding lock_mailbox
  shown_after_lock seq m box key c c' l plaintext s e decrypted =
      let shown : pane (
            settle core browser message_of is_letter_or_number (importing seq m box key c)
              (arrives c' l) (lock_mailbox s))
          ≡ pane (show_message m plaintext (lock_mailbox s)) =
        shown_of seq m box key c c' l plaintext (lock_mailbox s) e decrypted in
      (
        ap (λ t. t.reader.mailbox_key) shown ∙ (unfold show_message in refl),
        ap (λ t. t.reader.decrypted_content) shown ∙ (unfold show_message in refl),
      )
