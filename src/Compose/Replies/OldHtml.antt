-- ===== src/Compose/Replies/OldHtml.antt =====
-- What the form still holds after a new draft was saved (App.tsx).
use byos_email.Base.{ℕ, ◌≡◌, ◌∙◌, refl, ap, String, false, some, ◌++◌, if◌then◌else◌}
use byos_email.Base.Text.{Text, codes, trim, is_empty, text_eq}
use byos_email.Envelope.{Browser}
use byos_email.Mail.{Message, Mailbox}
use byos_email.Mime.{crlf, two_part_message, mime_message}
use byos_email.Signature.{load_signature, apply_signature}
use byos_email.Compose.{Desk, with_subject_prefix, quote_original, reply_to, start_reply}
use byos_email.Compose.Drafts.{stored, create_draft}
use byos_email.Compose.Sending.{Outside, tracking_pixel_html, outgoing_text}

-- The HTML part that a form's HTML gives, with the picture where there is one.
abbrev pub html_part : Text → Text → Text
html_part html pixel = if is_empty pixel then html else html ++ (crlf ++ pixel)

module _ (browser : Browser) (outside : Outside) where
  reply_text :
      (desk : Desk) (msg : Message) (box : Mailbox) (plaintext : Text)
      → is_empty (trim desk.form.body_html) ≡ false
      → text_eq desk.form.body_html (quote_original msg plaintext) ≡ false
      → outgoing_text browser outside (reply_to msg (some plaintext) desk) box
        ≡ two_part_message outside.boundary
            (trim msg.sender)
            (trim (with_subject_prefix msg.subject (codes "Re:")))
            (apply_signature
              (quote_original msg plaintext)
              (load_signature (codes box.id) desk.signatures))
            (html_part desk.form.body_html
              (tracking_pixel_html desk.form.track_opens outside.registered))
  unfolding outgoing_text reply_to mime_message
  reply_text desk msg box plaintext filled other = rw (filled, other) refl

  -- Where a new draft with an HTML body was stored and the user then replies to an open message, the
  -- text that is sent to the sender of that message has the HTML body of the draft as its HTML part.
  pub old_html_is_sent :
      (desk : Desk) (msg : Message) (box : Mailbox) (envelope plaintext : Text) (id : String)
      (version : ℕ)
      → desk.screen.reader.message_plaintext ≡ some plaintext
      → is_empty (trim desk.form.body_html) ≡ false
      → text_eq desk.form.body_html (quote_original msg plaintext) ≡ false
      → outgoing_text browser outside
          (start_reply msg (create_draft envelope (stored id version) desk))
          box
        ≡ two_part_message outside.boundary
            (trim msg.sender)
            (trim (with_subject_prefix msg.subject (codes "Re:")))
            (apply_signature
              (quote_original msg plaintext)
              (load_signature (codes box.id) desk.signatures))
            (html_part desk.form.body_html
              (tracking_pixel_html desk.form.track_opens outside.registered))
  unfolding start_reply create_draft
  old_html_is_sent desk msg box envelope plaintext id version shown filled other =
      ap
        (λ o.
          outgoing_text browser outside
            (reply_to msg o (create_draft envelope (stored id version) desk)) box)
        shown
      ∙ reply_text (create_draft envelope (stored id version) desk) msg box plaintext filled other
