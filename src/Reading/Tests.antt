-- ===== src/Reading/Tests.antt =====
-- Runs of opening a message, and the theorems at a screen with one message: the core passes its
-- text on, texts are their own code units and `btoa` writes hexadecimal digits.
use byos_email.Base.{
  ℕ, ◌≡◌, refl, String, Bool, true, false, Option, none, some, [], ◌∷◌, arith, eq_refl,
}
use byos_email.Base.Text.{Text, codes, trim}
use byos_email.Encoding.{Failure, ok}
use byos_email.Envelope.{decrypt_message_envelope}
use byos_email.Envelope.Clear.{clear_core, plain_browser}
use byos_email.Mail.{inbox}
use byos_email.Mail.Actions.{handle_trash_message}
use byos_email.Mail.Lookup.{find_message}
use byos_email.Mime.{or_all, extract_body}
use byos_email.Reading.{
  Pending, fetching, importing, Answer, arrives, fails, Body, body, Screen, open_message, settle,
  lock_mailbox, updated_message, input_of,
}
use byos_email.Reading.Sample.{mailbox, news, quiet}
use byos_email.Reading.Machine.{opens, settles, Reach, here, later}
use byos_email.Reading.Machine.Spinner.{IsServed, pane, Reach-IsServed}
use byos_email.Reading.Machine.Progress.{Settling, spinner_ends, shown_is_final}
use byos_email.Reading.Machine.Interference.{trash_is_undone, shown_after_lock}

abbrev no_text : Failure → Text
no_text e = []

abbrev none_of_them : ℕ → Bool
none_of_them c = false

abbrev no_time : String → Option ℕ
no_time s = none

abbrev arrived : Body
arrived = record {
  encryption_version = 1;
  encrypted_body = codes "4869";
  content_key_hpke_wrapped = codes "00";
}

quiet-IsServed : IsServed quiet
quiet-IsServed = record { one_call = refl; no_newer = tt }

abbrev answering : Pending → Answer
answering p = arrives arrived []

abbrev after_two : Screen
after_two = open_message news (open_message news quiet)

two_opened : Reach clear_core plain_browser no_text none_of_them no_time quiet after_two
two_opened = later (later here (opens news)) (opens news)

Reach-IsServed_example : IsServed after_two
Reach-IsServed_example =
    Reach-IsServed clear_core plain_browser no_text none_of_them no_time two_opened quiet-IsServed

on_two : after_two.reader.is_decrypting ≡ true
unfolding open_message
on_two = refl

spinner_ends_example :
    (u : Screen) × (Settling clear_core plain_browser no_text none_of_them answering after_two u
      × (u.reader.is_decrypting ≡ false))
spinner_ends_example =
    spinner_ends clear_core plain_browser no_text none_of_them no_time answering two_opened
      quiet-IsServed on_two

abbrev first_call : Pending
first_call = fetching 1 news mailbox

abbrev failed_once : Screen
failed_once =
    settle clear_core plain_browser no_text none_of_them (fetching 2 news mailbox)
      (fails (codes "503")) (record after_two { pending = first_call ∷ [] })

failed_once-pending : failed_once.pending ≡ first_call ∷ []
unfolding settle open_message
failed_once-pending = refl

failed_once-off : failed_once.reader.is_decrypting ≡ false
unfolding settle open_message
failed_once-off = refl

first_waits : after_two.pending ≡ first_call ∷ fetching 2 news mailbox ∷ []
unfolding open_message
first_waits = refl

shown_is_final_example :
    pane (
      settle clear_core plain_browser no_text none_of_them first_call
        (arrives arrived [])
        (record failed_once { pending = [] }))
    ≡ pane (record failed_once { pending = [] })
shown_is_final_example =
    shown_is_final clear_core plain_browser no_text none_of_them no_time [] [] first_call
      (arrives arrived [])
      (later two_opened
        (settles (first_call ∷ []) [] (fetching 2 news mailbox) (fails (codes "503")) first_waits))
      quiet-IsServed failed_once-off failed_once-pending

decrypted :
    decrypt_message_envelope clear_core plain_browser
      (1 ∷ [])
      (codes mailbox.id)
      (input_of news arrived)
    ≡ ok (codes "Hi")
unfolding decrypt_message_envelope
decrypted = refl

trash_is_undone_example :
    let t =
      settle clear_core plain_browser no_text none_of_them
        (importing 0 news mailbox (1 ∷ []) arrived)
        (arrives arrived [])
        (record quiet { mail = handle_trash_message news quiet.mail }) in
    (t.mail.selected_msg ≡ some (updated_message news (codes "Hi")))
    × ((find_message "m1" t.mail.messages ≡ some (updated_message news (codes "Hi")))
        × ((updated_message news (codes "Hi")).folder ≡ inbox))
trash_is_undone_example =
    trash_is_undone clear_core plain_browser no_text none_of_them 0 news mailbox (1 ∷ []) arrived
      arrived [] (codes "Hi") quiet refl decrypted (ground (arith, eq_refl "m1"))

shown_after_lock_example :
    let t =
      settle clear_core plain_browser no_text none_of_them
        (importing 0 news mailbox (1 ∷ []) arrived)
        (arrives arrived [])
        (lock_mailbox quiet) in
    (t.reader.mailbox_key ≡ none)
    × (t.reader.decrypted_content
        ≡ some (body (or_all (trim (extract_body (codes "Hi"))) (codes "Hi"))))
shown_after_lock_example =
    shown_after_lock clear_core plain_browser no_text none_of_them 0 news mailbox (1 ∷ []) arrived
      arrived [] (codes "Hi") quiet refl decrypted

-- A message that stays: its text is shown, without the notes that a waiting call may leave.
text_of : or_all (trim (extract_body (codes "Hi"))) (codes "Hi") ≡ codes "Hi"
unfolding extract_body trim
text_of = refl
