-- ===== src/Compose/Sending.antt =====
-- Sending a message, apps/webmail/src/App.tsx: `handleSend`. The form is taken not to change during
-- the waits of the call. The answers of the server, of the crypto core and of the clock are parameters.
pub mod Outcome
use byos_email.Base.{
  ℕ, String, Bool, true, false, not, ◌&&◌, ◌||◌, Option, none, some, List, [], ◌∷◌, ◌++◌,
  if◌then◌else◌, ◌==◌, filter,
}
use byos_email.Base.Text.{Text, codes, trim, is_empty}
use byos_email.Encoding.{bytes_to_base64}
use byos_email.Envelope.{Browser}
use byos_email.Mail.{Mailbox}
use byos_email.Mime.{mime_message}
use byos_email.Signature.{load_signature, apply_signature}
use byos_email.Compose.{Outbound, Desk, clear_compose_form}

-- A call that answers, or fails with the message of its error.
pub data Reply {ℓ} (A : Type ℓ) : Type ℓ where
  answered : A → Reply A
  refused : Text → Reply A

infixl 5 ◌>>=◌
abbrev pub ◌>>=◌ {ℓ κ} : {A : Type ℓ} {B : Type κ} → Reply A → (A → Reply B) → Reply B
answered a >>= f = f a
refused t >>= f = refused t

-- The key and the reservation that a call begins with.
pub record Reservation : Type 0 where
  pub pubkey : Text
  pub reservation_id : String
  pub outbox_seq : ℕ
  pub encryption_version : ℕ
  pub aad_version : ℕ

pub record Encrypted : Type 0 where
  pub ciphertext : Text
  pub send_token_wrapped : Text
  pub iv : Text

-- `registered` is the address of the tracking picture, where the token was registered;
-- `encrypt_outbound` the core's function with its answer parsed, and `to_iso` the clock's
-- `new Date(…).toISOString()`.
pub record Outside : Type 0 where
  pub prepared : Reply Reservation
  pub registered : Reply Text
  pub boundary : Text
  pub encrypt_outbound : Text → Text → ℕ → Text → Reply Encrypted
  pub to_iso : Text → Reply Text
  pub accepted : Reply (Unit {0})

-- `box.id.replace(/-/g, "")`
abbrev pub undashed : String → Text
undashed id = filter (λ c. not (c == 45)) (codes id)

abbrev pub quoted : Text → Text
quoted s = 34 ∷ s ++ 34 ∷ []

-- The picture that tells that a message was opened, where the form asks for it.
abbrev pub tracking_pixel_html : Bool → Reply Text → Text
tracking_pixel_html false registered = []
tracking_pixel_html true (refused t) = []
tracking_pixel_html true (answered url) =
    codes "<img src="
    ++ (quoted url
        ++ (codes " alt="
            ++ (quoted []
                ++ (codes " width="
                    ++ (quoted (codes "1")
                        ++ (codes " height="
                            ++ (quoted (codes "1")
                                ++ (codes " style="
                                    ++ (quoted (
                                          codes
                                            "display:none !important; width:1px; height:1px; border:0;")
                                        ++ codes " />")))))))))

-- `attIDs.length > 0 ? attIDs : undefined`
abbrev pub ids_or_none : List String → Option (List String)
ids_or_none [] = none
ids_or_none (id ∷ ids) = some (id ∷ ids)

unfoldable pub send_failed : Text → Desk → Desk
send_failed text desk = record desk {
  error_message = some (codes "Failed to send securely: " ++ text);
  compose_status = none;
}

abbrev pub sent_status : Text → Text
sent_status time =
    if is_empty time
    then codes "Encrypted message queued for delivery."
    else codes "Encrypted message scheduled."

-- After the server has taken or refused the message.
unfoldable pub finish_send : Reply (Unit {0}) → Desk → Desk
unfolding send_failed
finish_send (refused t) desk = send_failed t desk
finish_send (answered _) desk = clear_compose_form (record desk {
  compose_status = some (sent_status desk.form.scheduled_time);
  compose_open = false;
})

module _ (browser : Browser) (outside : Outside) where
  -- The text that is encrypted.
  unfoldable pub outgoing_text : Desk → Mailbox → Text
  unfolding mime_message load_signature apply_signature trim
  outgoing_text desk box =
      mime_message outside.boundary (trim desk.form.to) (trim desk.form.subject) desk.form.body
        desk.form.body_html
        (apply_signature desk.form.body (load_signature (codes box.id) desk.signatures))
        (tracking_pixel_html desk.form.track_opens outside.registered)

  abbrev pub is_complete : Encrypted → Bool
  is_complete e =
      not (is_empty e.ciphertext) && (not (is_empty e.send_token_wrapped) && not (is_empty e.iv))

  -- The time, where the message is scheduled.
  abbrev pub schedule : Text → Reply (Option Text)
  schedule time =
      if is_empty time then answered none else (outside.to_iso time >>= λ iso. answered (some iso))

  -- What is sent, before the server takes it.
  unfoldable pub outbound_of : Desk → Mailbox → Reply Outbound
  unfolding outgoing_text bytes_to_base64 trim
  outbound_of desk box = do
    reservation ← outside.prepared
    encrypted ←
        outside.encrypt_outbound reservation.pubkey (undashed box.id) reservation.outbox_seq
          (bytes_to_base64 browser.btoa (browser.encode (outgoing_text desk box)))
    complete ←
        if is_complete encrypted
        then answered encrypted
        else refused (codes "Crypto core returned an incomplete outbound envelope")
    time ← schedule desk.form.scheduled_time
    answered (record {
      reservation_id = reservation.reservation_id;
      mailbox_id = box.id;
      recipient = trim desk.form.to;
      encrypted_message = complete.ciphertext;
      send_token_wrapped = complete.send_token_wrapped;
      outbox_seq = reservation.outbox_seq;
      encryption_version = reservation.encryption_version;
      aad_version = reservation.aad_version;
      encryption_iv = complete.iv;
      scheduled_at = time;
      attachment_ids = ids_or_none desk.form.attachments;
    })

  -- The message goes to the server, which may refuse it.
  unfoldable pub deliver : Reply Outbound → Desk → Desk
  unfolding send_failed finish_send
  deliver (refused t) desk = send_failed t desk
  deliver (answered message) desk =
      finish_send outside.accepted (record desk { outbox = desk.outbox ++ message ∷ [] })

  abbrev pub preparing : Desk → Desk
  preparing desk = record desk {
    error_message = none;
    compose_status = some (codes "Preparing encrypted message…");
  }

  -- From a chosen mailbox on.
  unfoldable pub send_from : Option Mailbox → Desk → Desk
  unfolding outbound_of deliver
  send_from none desk = record desk {
    error_message = some (codes "Select a mailbox before sending.");
  }
  send_from (some box) desk = deliver (outbound_of desk box) (preparing desk)

  unfoldable pub handle_send : Desk → Desk
  unfolding send_from trim
  handle_send desk =
      if (is_empty (trim desk.form.to) || is_empty (trim desk.form.subject))
        || is_empty (trim desk.form.body)
      then desk
      else send_from desk.screen.mail.selected_mailbox desk
