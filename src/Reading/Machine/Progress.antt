-- ===== src/Reading/Machine/Progress.antt =====
-- Waiting calls and what the pane shows (App.tsx): when nothing waits for it, and when it waits.
use byos_email.Base.{
  ℕ, ◌≤◌, ◌≡◌, ◌∙◌, refl, ap, sym, String, Bool, true, false, Option, List, [], ◌∷◌, ◌++◌, arith,
  ◌==◌, ◌⊎◌, Bool-cases, Option-cases, inl, inr,
}
use byos_email.Base.Text.{Text}
use byos_email.Encoding.{Failure, Result, ok, throws}
use byos_email.Envelope.{Core, Browser}
use byos_email.Mail.{Message, Mailbox}
use byos_email.Reading.{
  Pending, fetching, importing_draft, importing, seq_of, Answer, arrives, fails, Body, Screen,
  key_for, catch_error, continue_reading, show_message, store_texts, write_message, finish_message,
  finish_draft, settle, with_attachments,
}
use byos_email.Reading.Machine.{Reach}
use byos_email.Reading.Machine.Spinner.{
  IsServed, current_calls, pane, settle-stale, index_terms-pane, Reach-IsServed,
}

find_current :
    (n : ℕ) (ps : List Pending)
    → 1 ≤ current_calls n ps
    → (before : List Pending) × ((call : Pending) × ((after : List Pending) × ((ps
              ≡ before ++ call ∷ after)
            × ((seq_of call == n) ≡ true))))
find_current n [] h = ground arith
find_current n (p ∷ ps) h = elim (Bool-cases (seq_of p == n)) [
  | inl e ↦ ([], (p, (ps, (refl, e))))
  | inr e ↦
      let (before, (call, (after, (place, is_current)))) = find_current n ps (rw e at h) in
      (p ∷ before, (call, (after, (ap (◌∷◌ p) place, is_current))))
]

none_current :
    (n : ℕ) (before after : List Pending) (p : Pending)
    → current_calls n (before ++ p ∷ after) ≡ 0
    → (seq_of p == n) ≡ false
none_current n [] after p h = ground (arith, h)
none_current n (q ∷ before) after p h = none_current n before after p (ground (arith, h))

-- A call that waits for the core.
abbrev IsImport : Pending → Type 0
IsImport (fetching n m b) = ⊥
IsImport (importing_draft n m b k) = Unit
IsImport (importing n m b k c) = Unit

module _ (core : Core) (browser : Browser) (message_of : Failure → Text)
    (is_letter_or_number : ℕ → Bool) where
  settled : Pending → Answer → Screen → Screen
  settled = settle core browser message_of is_letter_or_number

  -- Waiting calls go on, each with the answer that it gets.
  pub data Settling (answer : Pending → Answer) : Screen → Screen → Type 0 where
    stop : {s : Screen} → Settling answer s s
    next :
        {s u : Screen} (before after : List Pending) (p : Pending)
        → s.pending ≡ before ++ p ∷ after
        → Settling answer
            (settle core browser message_of is_letter_or_number p
              (answer p)
              (record s { pending = before ++ after }))
            u
        → Settling answer s u

  abbrev IsOff : Screen → Type 0
  IsOff s = s.reader.is_decrypting ≡ false

  catch_error-IsOff :
      (seq : ℕ) (text : Text) (s : Screen)
      → (seq == s.reader.current_decrypt_seq) ≡ true
      → IsOff (catch_error seq text s)
  unfolding catch_error
  catch_error-IsOff seq text s e = rw e refl

  written-IsOff :
      (seq : ℕ) (m : Message) (plaintext : Text) (s : Screen)
      → (seq == s.reader.current_decrypt_seq) ≡ true
      → IsOff (write_message seq m plaintext (store_texts m plaintext s))
  unfolding write_message store_texts show_message
  written-IsOff seq m plaintext s e = rw e refl

  finish_message-IsOff :
      (seq : ℕ) (m : Message) (box : Mailbox) (r : Result Text) (s : Screen)
      → (seq == s.reader.current_decrypt_seq) ≡ true
      → IsOff (finish_message core browser message_of is_letter_or_number seq m box r s)
  unfolding finish_message
  finish_message-IsOff seq m box (throws f) s e = catch_error-IsOff seq (message_of f) s e
  finish_message-IsOff seq m box (ok plaintext) s e =
      ap (λ t. t.reader.is_decrypting)
        (index_terms-pane is_letter_or_number s.reader.search_key m box plaintext
          (write_message seq m plaintext (store_texts m plaintext s)))
      ∙ written-IsOff seq m plaintext s e

  finish_draft-IsOff :
      (seq : ℕ) (r : Result Text) (s : Screen)
      → (seq == s.reader.current_decrypt_seq) ≡ true
      → IsOff (finish_draft core browser message_of is_letter_or_number seq r s)
  unfolding finish_draft
  finish_draft-IsOff seq (throws f) s e = catch_error-IsOff seq (message_of f) s e
  finish_draft-IsOff seq (ok plaintext) s e = rw e refl

  -- What the first wait of a call leads to: an end, or the wait for the core.
  abbrev Continues : Screen → Screen → Type 0
  Continues s t =
      IsOff t
      ⊎ ((p : Pending) × (((t.pending ≡ s.pending ++ p ∷ [])
              × ((seq_of p == t.reader.current_decrypt_seq) ≡ true))
            × IsImport p))

  continue_reading-Continues :
      (seq : ℕ) (m : Message) (box : Mailbox) (c : Body) (s : Screen)
      → (seq == s.reader.current_decrypt_seq) ≡ true
      → Continues s (continue_reading seq m box c s)
  unfolding continue_reading
  continue_reading-Continues seq m box c s e = elim (Option-cases (key_for box s.reader)) [
    | inl f ↦ rw (continue_reading, f) (inl refl)
    | inr (key, f) ↦ elim (Option-cases m.message_seq) [
      | inl g ↦ rw (continue_reading, f, g) (inl refl)
      | inr (n, g) ↦ rw (continue_reading, f, g) (inr (importing seq m box key c, ((refl, e), tt)))
    ]
  ]

  fetched-Continues :
      (seq : ℕ) (m : Message) (box : Mailbox) (a : Answer) (s : Screen)
      → (seq == s.reader.current_decrypt_seq) ≡ true
      → Continues s (settled (fetching seq m box) a s)
  unfolding settle settled
  fetched-Continues seq m box (fails text) s e = inl (catch_error-IsOff seq text s e)
  fetched-Continues seq m box (arrives c l) s e =
      rw e (continue_reading-Continues seq m box c (with_attachments m l s) e)

  imported-IsOff :
      (p : Pending) (a : Answer) (s : Screen)
      → IsImport p
      → (seq_of p == s.reader.current_decrypt_seq) ≡ true
      → IsOff (settled p a s)
  unfolding settle settled
  imported-IsOff p (fails text) s h e = catch_error-IsOff (seq_of p) text s e
  imported-IsOff (fetching seq m box) (arrives c l) s h e = elim h [ ]
  imported-IsOff (importing_draft seq m box key) (arrives c l) s h e = finish_draft-IsOff seq _ s e
  imported-IsOff (importing seq m box key c') (arrives c l) s h e =
      finish_message-IsOff seq m box _ s e

  ends_after_import :
      (answer : Pending → Answer) (s : Screen) (before after : List Pending) (p : Pending)
      → s.pending ≡ before ++ p ∷ after
      → IsImport p
      → (seq_of p == s.reader.current_decrypt_seq) ≡ true
      → (u : Screen) × (Settling answer s u × IsOff u)
  unfolding settled
  ends_after_import answer s before after p place h e = (
    settled p (answer p) (record s { pending = before ++ after }),
    (
      next before after p place stop,
      imported-IsOff p (answer p) (record s { pending = before ++ after }) h e,
    ),
  )

  ends_from_call :
      (answer : Pending → Answer) (s : Screen) (before after : List Pending) (p : Pending)
      → s.pending ≡ before ++ p ∷ after
      → (seq_of p == s.reader.current_decrypt_seq) ≡ true
      → (u : Screen) × (Settling answer s u × IsOff u)
  unfolding settled
  ends_from_call answer s before after (importing_draft seq m box key) place e =
      ends_after_import answer s before after (importing_draft seq m box key) place tt e
  ends_from_call answer s before after (importing seq m box key c) place e =
      ends_after_import answer s before after (importing seq m box key c) place tt e
  ends_from_call answer s before after (fetching seq m box) place e =
      let rest : Screen = record s { pending = before ++ after } in
      let a : Answer = answer (fetching seq m box) in
      let t : Screen = settled (fetching seq m box) a rest in
      elim (fetched-Continues seq m box a rest e) [
        | inl off ↦ (t, (next before after (fetching seq m box) place stop, off))
        | inr (q, ((place', e'), h)) ↦
            let (u, (run, off)) = ends_after_import answer t (before ++ after) [] q place' h e' in
            (u, (next before after (fetching seq m box) place run, off))
      ]

  module _ (get_time : String → Option ℕ) where
    -- Where a run from a screen in which exactly the spinner says whether a current call waits leads:
    -- while the pane shows its spinner, waiting calls can take it away, whatever answers they get.
    pub spinner_ends :
        (answer : Pending → Answer) {s t : Screen}
        → Reach core browser message_of is_letter_or_number get_time s t
        → IsServed s
        → t.reader.is_decrypting ≡ true
        → (u : Screen) × (Settling answer t u × (u.reader.is_decrypting ≡ false))
    spinner_ends answer {t = t} r h on =
        let served : IsServed t =
          Reach-IsServed core browser message_of is_letter_or_number get_time r h in
        let (before, (p, (after, (place, e)))) =
          find_current t.reader.current_decrypt_seq t.pending
            (ground (arith, served.one_call, on)) in
        ends_from_call answer t before after p place e

    -- Where a run from a screen in which exactly the spinner says whether a current call waits leads:
    -- once the spinner is gone, no call that still waits changes what is shown, open or listed,
    -- whatever answer it gets.
    pub shown_is_final :
        {s t : Screen} (before after : List Pending) (p : Pending) (a : Answer)
        → Reach core browser message_of is_letter_or_number get_time s t
        → IsServed s
        → t.reader.is_decrypting ≡ false
        → t.pending ≡ before ++ p ∷ after
        → pane (
            settle core browser message_of is_letter_or_number p a
              (record t { pending = before ++ after }))
          ≡ pane (record t { pending = before ++ after })
    shown_is_final {t = t} before after p a r h off place =
        let served : IsServed t =
          Reach-IsServed core browser message_of is_letter_or_number get_time r h in
        let none_left : current_calls t.reader.current_decrypt_seq (before ++ p ∷ after) ≡ 0 =
          ap (current_calls t.reader.current_decrypt_seq) (sym place)
          ∙ ground (arith, served.one_call, off) in
        settle-stale core browser message_of is_letter_or_number p a
          (record t { pending = before ++ after })
          (none_current t.reader.current_decrypt_seq before after p none_left)
