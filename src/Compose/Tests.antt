-- ===== src/Compose/Tests.antt =====
-- Runs of the composer, and the theorems at a screen with one message.
use byos_email.Base.{
  ℕ, ◌≡◌, subst, refl, true, false, Option, none, some, List, [], ◌∷◌, ◌++◌, All, arith, length,
  Bool-cases, inl, inr, str_eq,
}
use byos_email.Base.Text.{Text, codes, trim}
use byos_email.Encoding.{Failure}
use byos_email.Encoding.HexRoundTrip.{IsByte}
use byos_email.Envelope.Clear.{
  clear_core, plain_browser, atob-btoa, encode-ascii, encode-IsByte, clear_seals,
}
use byos_email.Mail.{Mailbox}
use byos_email.Mime.{two_part_message}
use byos_email.Reading.{key_for}
use byos_email.Reading.Sample.{mailbox, news, quiet}
use byos_email.Signature.{apply_signature, load_signature}
use byos_email.Compose.{Desk, with_subject_prefix, quote_original, quote_heading, start_reply}
use byos_email.Compose.Drafts.{stored, create_draft, handle_save_draft}
use byos_email.Compose.Drafts.Saved.{SealsOrNothing, handle_save_draft-Seals}
use byos_email.Compose.Sending.{
  answered, refused, Outside, tracking_pixel_html, outgoing_text, handle_send,
}
use byos_email.Compose.Sending.Outcome.{Ends, handle_send-Ends}
use byos_email.Compose.Replies.{with_subject_prefix-idempotent, unquote, quote_original-roundtrip}
use byos_email.Compose.Replies.OldHtml.{html_part, old_html_is_sent}

abbrev key : List ℕ
key =
    1 ∷ 2 ∷ 3 ∷ 4 ∷ 5 ∷ 6 ∷ 7 ∷ 8 ∷ 9 ∷ 10 ∷ 11 ∷ 12 ∷ 13 ∷ 14 ∷ 15 ∷ 255 ∷ 1 ∷ 2 ∷ 3 ∷ 4 ∷ 5 ∷ 6
    ∷ 7 ∷ 8 ∷ 9 ∷ 10 ∷ 11 ∷ 12 ∷ 13 ∷ 14 ∷ 15 ∷ 255 ∷ []

abbrev desk : Desk
desk = record {
  screen = record quiet {
    reader = record quiet.reader { mailbox_key = some key; message_plaintext = some (codes "Hi") };
  };
  form = record {
    to = codes "bob@a.org";
    subject = codes "Plan";
    body = codes "Dear Bob";
    body_html = codes "<b>Dear Bob</b>";
    scheduled_time = [];
    track_opens = false;
    attachments = [];
    editing_draft = none;
  };
  compose_open = true;
  compose_status = none;
  error_message = none;
  signatures = some [];
  user_email = none;
  outbox = [];
  draft_calls = [];
  reloads = [];
}

abbrev online : Outside
online = record {
  prepared = answered (record {
    pubkey = [];
    reservation_id = "r1";
    outbox_seq = 4;
    encryption_version = 1;
    aad_version = 1;
  });
  registered = refused [];
  boundary = codes "b";
  encrypt_outbound =
      λ k id n t. answered (record { ciphertext = t; send_token_wrapped = t; iv = t });
  to_iso = λ t. answered t;
  accepted = answered tt;
}

abbrev no_text : Failure → Text
no_text e = []

prefix_of_empty :
    with_subject_prefix (with_subject_prefix [] (codes "Re:")) (codes "Re:") ≡ codes "Re: Re:"
unfolding with_subject_prefix
prefix_of_empty = refl

handle_send-Ends_example : Ends plain_browser online desk (handle_send plain_browser online desk)
handle_send-Ends_example = handle_send-Ends plain_browser online desk

abbrev FitsKey : Option (List ℕ) → Type 0
FitsKey none = Unit
FitsKey (some k) = (length k ≡ 32) × All IsByte k

is_key : (k : List ℕ) → some key ≡ some k → (length k ≡ 32) × All IsByte k
is_key k h = subst (FitsKey) h (refl, omega arith)

held :
    (box : Mailbox) (k : List ℕ)
    → key_for box desk.screen.reader ≡ some k
    → (length k ≡ 32) × All IsByte k
held box k h = elim (Bool-cases (str_eq mailbox.id box.id)) [
  | inl e ↦ is_key k (rw e at h)
  | inr e ↦ cc (rw e at h)
]

handle_save_draft-Seals_example :
    SealsOrNothing clear_core plain_browser desk
      (handle_save_draft clear_core plain_browser no_text [] (stored "d1" 1) desk)
handle_save_draft-Seals_example =
    handle_save_draft-Seals clear_core clear_seals plain_browser atob-btoa encode-ascii
      encode-IsByte no_text [] (stored "d1" 1) desk held refl

with_subject_prefix-idempotent_example :
    with_subject_prefix (with_subject_prefix (codes "Plan") (codes "Re:")) (codes "Re:")
    ≡ with_subject_prefix (codes "Plan") (codes "Re:")
with_subject_prefix-idempotent_example =
    with_subject_prefix-idempotent (codes "Plan") b'R' (codes "e:") refl refl refl

quote_original-roundtrip_example :
    (q : Text) × ((quote_original news (b'a' ∷ 10 ∷ codes "b") ≡ quote_heading news ++ 10 ∷ q)
      × (unquote q ≡ b'a' ∷ 10 ∷ codes "b"))
quote_original-roundtrip_example = quote_original-roundtrip news (b'a' ∷ 10 ∷ codes "b")

old_html_is_sent_example :
    outgoing_text plain_browser online
      (start_reply news (create_draft [] (stored "d1" 1) desk))
      mailbox
    ≡ two_part_message
        (codes "b")
        (trim (codes "bob"))
        (trim (with_subject_prefix (codes "?") (codes "Re:")))
        (apply_signature
          (quote_original news (codes "Hi"))
          (load_signature (codes mailbox.id) (some [])))
        (html_part (codes "<b>Dear Bob</b>") (tracking_pixel_html false (refused [])))
unfolding trim quote_original
old_html_is_sent_example =
    old_html_is_sent plain_browser online desk news mailbox [] (codes "Hi") "d1" 1 refl refl refl
