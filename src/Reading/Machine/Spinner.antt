-- ===== src/Reading/Machine/Spinner.antt =====
-- Which waiting calls may still write to the reading pane (App.tsx).
use byos_email.Base.{
  ℕ, suc, ◌+◌, ◌≤◌, ◌≡◌, ◌∙◌, refl, ap, sym, String, Bool, true, false, Option, none, some, List,
  [], ◌∷◌, ◌++◌, All, arith, count_if, ◌==◌, ==_iff, Bool-cases, Option-cases, inl, inr, subst,
}
use byos_email.Base.Text.{Text}
use byos_email.Encoding.{Failure, Result, ok, throws}
use byos_email.Envelope.{Core, Browser}
use byos_email.Mail.{Message, Mailbox, drafts, folder_eq}
use byos_email.Reading.{
  Pending, fetching, importing_draft, importing, seq_of, Answer, arrives, fails, Body, Screen,
  key_for, start_reading, opened, open_message, catch_error, continue_reading, show_message,
  store_texts, write_message, index_terms, finish_message, finish_draft, settle, lock_mailbox,
  with_attachments,
}
use byos_email.Reading.Machine.{Step, opens, settles, handles, locks, unlocks, Reach, here, later}

abbrev point : Bool → ℕ
point true = 1
point false = 0

-- How many calls wait with the current sequence number.
abbrev pub current_calls : ℕ → List Pending → ℕ
current_calls n ps = count_if (λ p. seq_of p == n) ps

-- One call may still write while the pane waits, and none otherwise; no call is newer than the last.
pub record IsServed (s : Screen) : Type 0 where
  pub one_call : current_calls s.reader.current_decrypt_seq s.pending ≡ point s.reader.is_decrypting
  pub no_newer : All (λ p. seq_of p ≤ s.reader.current_decrypt_seq) s.pending

count-append :
    (n : ℕ) (ps qs : List Pending)
    → current_calls n (ps ++ qs) ≡ current_calls n ps + current_calls n qs
count-append n [] qs = omega arith
count-append n (p ∷ ps) qs = ground (arith, count-append n ps qs)

older-count :
    (n : ℕ) (ps : List Pending) → All (λ p. seq_of p ≤ n) ps → current_calls (suc n) ps ≡ 0
older-count n [] h = refl
older-count n (p ∷ ps) (h, hs) = ground (arith, older-count n ps hs, h)

older : (n : ℕ) (ps : List Pending) → All (λ p. seq_of p ≤ n) ps → All (λ p. seq_of p ≤ suc n) ps
older n [] h = tt
older n (p ∷ ps) (h, hs) = (omega arith, older n ps hs)

module _ (P : Pending → Type 0) where
  All-append : (ps qs : List Pending) → All P ps → All P qs → All P (ps ++ qs)
  All-append [] qs h k = k
  All-append (p ∷ ps) qs (h, hs) k = (h, All-append ps qs hs k)

  All-left : (ps qs : List Pending) → All P (ps ++ qs) → All P ps
  All-left [] qs h = tt
  All-left (p ∷ ps) qs (h, hs) = (h, All-left ps qs hs)

  All-right : (ps qs : List Pending) → All P (ps ++ qs) → All P qs
  All-right [] qs h = h
  All-right (p ∷ ps) qs (h, hs) = All-right ps qs hs

-- The only call with the current number waits: what is left has none.
record IsAlone (s : Screen) : Type 0 where
  on : s.reader.is_decrypting ≡ true
  quiet : current_calls s.reader.current_decrypt_seq s.pending ≡ 0
  old : All (λ p. seq_of p ≤ s.reader.current_decrypt_seq) s.pending

added-IsServed :
    (p : Pending) (s : Screen)
    → seq_of p ≡ s.reader.current_decrypt_seq
    → IsAlone s
    → IsServed (record s { pending = s.pending ++ p ∷ [] })
added-IsServed p s e h = record {
  one_call =
      rw (h.on, count-append s.reader.current_decrypt_seq s.pending (p ∷ []), h.quiet)
        (ground (arith, e));
  no_newer =
      All-append (λ q. seq_of q ≤ s.reader.current_decrypt_seq) s.pending (p ∷ []) h.old
        (omega arith, tt);
}

start_reading-IsServed :
    (m : Message) (box : Option Mailbox) (s : Screen) → IsAlone s → IsServed (start_reading m box s)
unfolding start_reading
start_reading-IsServed m none s h = record { one_call = h.quiet; no_newer = h.old }
start_reading-IsServed m (some box) s h = elim (Bool-cases (folder_eq m.folder drafts)) [
  | inl e ↦ elim (Option-cases (key_for box s.reader)) [
    | inl f ↦ rw (e, f) (record { one_call = h.quiet; no_newer = h.old })
    | inr (key, f) ↦
        rw (e, f) (added-IsServed (importing_draft s.reader.current_decrypt_seq m box key) s refl h)
  ]
  | inr e ↦ rw e (added-IsServed (fetching s.reader.current_decrypt_seq m box) s refl h)
]

open_message-IsServed : (m : Message) (s : Screen) → IsServed s → IsServed (open_message m s)
unfolding open_message
open_message-IsServed m s h =
    start_reading-IsServed m (opened m s).mail.selected_mailbox (opened m s) (record {
      on = refl;
      quiet = older-count s.reader.current_decrypt_seq s.pending h.no_newer;
      old = older s.reader.current_decrypt_seq s.pending h.no_newer;
    })

catch_error-IsServed :
    (seq : ℕ) (text : Text) (s : Screen)
    → (seq == s.reader.current_decrypt_seq) ≡ true
    → IsAlone s
    → IsServed (catch_error seq text s)
unfolding catch_error
catch_error-IsServed seq text s e h = rw e (record { one_call = h.quiet; no_newer = h.old })

continue_reading-IsServed :
    (seq : ℕ) (m : Message) (box : Mailbox) (content : Body) (s : Screen)
    → seq ≡ s.reader.current_decrypt_seq
    → IsAlone s
    → IsServed (continue_reading seq m box content s)
unfolding continue_reading
continue_reading-IsServed seq m box content s e h = elim (Option-cases (key_for box s.reader)) [
  | inl f ↦ rw (continue_reading, f) (record { one_call = h.quiet; no_newer = h.old })
  | inr (key, f) ↦ elim (Option-cases m.message_seq) [
    | inl g ↦ rw (continue_reading, f, g) (record { one_call = h.quiet; no_newer = h.old })
    | inr (n, g) ↦
        rw (continue_reading, f, g) (added-IsServed (importing seq m box key content) s e h)
  ]
]

-- The screen without the records of past calls.
abbrev pub pane : Screen → Screen
pane s = record s {
  reader = record s.reader { subject_items = []; snippet_items = []; indexed = [] };
}

IsServed-pane : (s t : Screen) → pane s ≡ pane t → IsServed t → IsServed s
IsServed-pane s t e h =
    let there : IsServed (pane t) = record { one_call = h.one_call; no_newer = h.no_newer } in
    let back : IsServed (pane s) = subst IsServed (sym e) there in
    record { one_call = back.one_call; no_newer = back.no_newer }

pub index_terms-pane :
    (is_letter_or_number : ℕ → Bool) (key : Option Text) (m : Message) (box : Mailbox)
    (plaintext : Text) (s : Screen)
    → pane (index_terms is_letter_or_number key m box plaintext s) ≡ pane s
unfolding index_terms
index_terms-pane is_letter_or_number none m box plaintext s = refl
index_terms-pane is_letter_or_number (some k) m box plaintext s = refl

stored-stale :
    (seq : ℕ) (m : Message) (plaintext : Text) (s : Screen)
    → (seq == s.reader.current_decrypt_seq) ≡ false
    → pane (write_message seq m plaintext (store_texts m plaintext s)) ≡ pane s
unfolding write_message store_texts
stored-stale seq m plaintext s e = rw e refl

stored-IsServed :
    (seq : ℕ) (m : Message) (plaintext : Text) (s : Screen)
    → (seq == s.reader.current_decrypt_seq) ≡ true
    → IsAlone s
    → IsServed (write_message seq m plaintext (store_texts m plaintext s))
unfolding write_message store_texts show_message
stored-IsServed seq m plaintext s e h = rw e (record { one_call = h.quiet; no_newer = h.old })

module _ (core : Core) (browser : Browser) (message_of : Failure → Text)
    (is_letter_or_number : ℕ → Bool) where
  finish_message-stale :
      (seq : ℕ) (m : Message) (box : Mailbox) (r : Result Text) (s : Screen)
      → (seq == s.reader.current_decrypt_seq) ≡ false
      → pane (finish_message core browser message_of is_letter_or_number seq m box r s) ≡ pane s
  unfolding finish_message catch_error
  finish_message-stale seq m box (throws f) s e = rw e refl
  finish_message-stale seq m box (ok plaintext) s e =
      index_terms-pane is_letter_or_number s.reader.search_key m box plaintext
        (write_message seq m plaintext (store_texts m plaintext s))
      ∙ stored-stale seq m plaintext s e

  finish_draft-stale :
      (seq : ℕ) (r : Result Text) (s : Screen)
      → (seq == s.reader.current_decrypt_seq) ≡ false
      → pane (finish_draft core browser message_of is_letter_or_number seq r s) ≡ pane s
  unfolding finish_draft catch_error
  finish_draft-stale seq (throws f) s e = rw e refl
  finish_draft-stale seq (ok plaintext) s e = rw e refl

  pub settle-stale :
      (p : Pending) (a : Answer) (s : Screen)
      → (seq_of p == s.reader.current_decrypt_seq) ≡ false
      → pane (settle core browser message_of is_letter_or_number p a s) ≡ pane s
  unfolding settle catch_error
  settle-stale p (fails text) s e = rw e refl
  settle-stale (fetching seq m box) (arrives c l) s e = rw e refl
  settle-stale (importing_draft seq m box key) (arrives c l) s e = finish_draft-stale seq _ s e
  settle-stale (importing seq m box key c') (arrives c l) s e = finish_message-stale seq m box _ s e

  finish_message-IsServed :
      (seq : ℕ) (m : Message) (box : Mailbox) (r : Result Text) (s : Screen)
      → (seq == s.reader.current_decrypt_seq) ≡ true
      → IsAlone s
      → IsServed (finish_message core browser message_of is_letter_or_number seq m box r s)
  unfolding finish_message
  finish_message-IsServed seq m box (throws f) s e h = catch_error-IsServed seq (message_of f) s e h
  finish_message-IsServed seq m box (ok plaintext) s e h =
      let before : Screen = write_message seq m plaintext (store_texts m plaintext s) in
      IsServed-pane _ before
        (index_terms-pane is_letter_or_number s.reader.search_key m box plaintext before)
        (stored-IsServed seq m plaintext s e h)

  finish_draft-IsServed :
      (seq : ℕ) (r : Result Text) (s : Screen)
      → (seq == s.reader.current_decrypt_seq) ≡ true
      → IsAlone s
      → IsServed (finish_draft core browser message_of is_letter_or_number seq r s)
  unfolding finish_draft
  finish_draft-IsServed seq (throws f) s e h = catch_error-IsServed seq (message_of f) s e h
  finish_draft-IsServed seq (ok plaintext) s e h =
      rw e (record { one_call = h.quiet; no_newer = h.old })

  settle-IsServed :
      (p : Pending) (a : Answer) (s : Screen)
      → (seq_of p == s.reader.current_decrypt_seq) ≡ true
      → IsAlone s
      → IsServed (settle core browser message_of is_letter_or_number p a s)
  unfolding settle
  settle-IsServed p (fails text) s e h = catch_error-IsServed (seq_of p) text s e h
  settle-IsServed (fetching seq m box) (arrives c l) s e h = rw e (
      continue_reading-IsServed seq m box c (with_attachments m l s)
        ((==_iff seq s.reader.current_decrypt_seq).0 e)
        (record { on = h.on; quiet = h.quiet; old = h.old }))
  settle-IsServed (importing_draft seq m box key) (arrives c l) s e h =
      finish_draft-IsServed seq _ s e h
  settle-IsServed (importing seq m box key c') (arrives c l) s e h =
      finish_message-IsServed seq m box _ s e h

  -- What is left when a waiting call is taken out.
  taken :
      (before after : List Pending) (p : Pending) (s : Screen)
      → s.pending ≡ before ++ p ∷ after
      → IsServed s
      → ((seq_of p == s.reader.current_decrypt_seq) ≡ true
          → IsAlone (record s { pending = before ++ after }))
        × ((seq_of p == s.reader.current_decrypt_seq) ≡ false
            → IsServed (record s { pending = before ++ after }))
  taken before after p s e h =
      let n : ℕ = s.reader.current_decrypt_seq in
      let P : Pending → Type 0 = λ q. seq_of q ≤ n in
      let split : All P (before ++ p ∷ after) = rw e at h.no_newer in
      let rest : All P (before ++ after) =
        All-append P before after (All-left P before (p ∷ after) split)
          (All-right P before (p ∷ after) split).1 in
      let whole : current_calls n before + current_calls n (p ∷ after)
          ≡ point s.reader.is_decrypting =
        sym (count-append n before (p ∷ after)) ∙ (ap (current_calls n) (sym e) ∙ h.one_call) in
      let parts : current_calls n (before ++ after)
          ≡ current_calls n before + current_calls n after =
        count-append n before after in
      (
        (λ f. record {
          on = ground (arith, f, whole);
          quiet = ground (arith, f, whole, parts);
          old = rest;
        }),
        (λ f. record { one_call = ground (arith, f, whole, parts); no_newer = rest }),
      )

  module _ (get_time : String → Option ℕ) where
    Step-IsServed :
        {s t : Screen}
        → Step core browser message_of is_letter_or_number get_time s t
        → IsServed s
        → IsServed t
    Step-IsServed {s = s} (opens m) h = open_message-IsServed m s h
    Step-IsServed {s = s} (settles before after p a e) h =
        let (alone, rest) = taken before after p s e h in
        elim (Bool-cases (seq_of p == s.reader.current_decrypt_seq)) [
          | inl f ↦ settle-IsServed p a (record s { pending = before ++ after }) f (alone f)
          | inr f ↦
              IsServed-pane _ (record s { pending = before ++ after })
                (settle-stale p a (record s { pending = before ++ after }) f) (rest f)
        ]
    Step-IsServed (handles a) h = record { one_call = h.one_call; no_newer = h.no_newer }
    Step-IsServed {s = s} locks h =
        unfold lock_mailbox in record { one_call = h.one_call; no_newer = h.no_newer }
    Step-IsServed (unlocks id key search) h = record {
      one_call = h.one_call;
      no_newer = h.no_newer;
    }

    -- From a screen in which exactly the spinner says whether a current call waits, every run leads to
    -- such a screen: opening, list handlers, sign-in, lock, and waiting calls that go on in any order
    -- with any answer.
    pub Reach-IsServed :
        {s t : Screen}
        → Reach core browser message_of is_letter_or_number get_time s t
        → IsServed s
        → IsServed t
    Reach-IsServed here h = h
    Reach-IsServed (later r st) h = Step-IsServed st (Reach-IsServed r h)
