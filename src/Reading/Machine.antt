-- ===== src/Reading/Machine.antt =====
-- The calls of `openMessage` in any order with the list handlers, sign-in and the lock (App.tsx).
pub mod Spinner
pub mod Progress
pub mod Interference
use byos_email.Base.{ℕ, ◌≡◌, String, Bool, Option, some, List, [], ◌∷◌, ◌++◌}
use byos_email.Base.Text.{Text}
use byos_email.Encoding.{Failure}
use byos_email.Envelope.{Core, Browser}
use byos_email.Mail.{Message, State}
use byos_email.Mail.Trace.{Action, perform}
use byos_email.Reading.{Pending, Answer, Screen, open_message, settle, lock_mailbox, on_reader}

module _ (core : Core) (browser : Browser) (message_of : Failure → Text)
    (is_letter_or_number : ℕ → Bool) (get_time : String → Option ℕ) where
  -- A call that waits goes on: any of them, with any answer.
  pub data Step (s : Screen) : Screen → Type 0 where
    opens : (m : Message) → Step s (open_message m s)
    settles :
        (before after : List Pending) (p : Pending) (a : Answer)
        → s.pending ≡ before ++ p ∷ after
        → Step s (
            settle core browser message_of is_letter_or_number p a
              (record s { pending = before ++ after }))
    handles : (a : Action) → Step s (record s { mail = perform get_time a s.mail })
    locks : Step s (lock_mailbox s)
    unlocks :
        (id : String) (key : List ℕ) (search : Text)
        → Step s (
            on_reader
              (λ r. record r {
                mailbox_key = some key;
                search_key = some search;
                unlocked_box_id = some id;
              })
              s)

  pub data Reach (s : Screen) : Screen → Type 0 where
    here : Reach s s
    later : {t u : Screen} → Reach s t → Step t u → Reach s u
