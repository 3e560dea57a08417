-- ===== src/Compose/Sending/Outcome.antt =====
-- How `handleSend` ends (App.tsx).
use byos_email.Base.{
  ◌≡◌, ◌⊎◌, inl, inr, refl, false, ◌||◌, Option, none, some, [], ◌∷◌, ◌++◌, Bool-cases,
}
use byos_email.Base.Text.{Text, trim, is_empty}
use byos_email.Envelope.{Browser}
use byos_email.Mail.{Mailbox}
use byos_email.Compose.{Outbound, Desk, empty_form}
use byos_email.Compose.Sending.{
  Reply, answered, refused, Outside, outbound_of, preparing, finish_send, deliver, send_failed,
  send_from, handle_send,
}

module _ (browser : Browser) (outside : Outside) where
  -- Nothing that was typed is lost, the composer stays as it is, and it shows an error, unless a field
  -- was blank and nothing happened at all.
  pub record IsKept (before after : Desk) : Type 0 where
    pub same_form : after.form ≡ before.form
    pub same_open : after.compose_open ≡ before.compose_open
    pub same_screen : after.screen ≡ before.screen
    pub told : (after ≡ before) ⊎ ((text : Text) × (after.error_message ≡ some text))

  -- The server has taken the message that the form makes for the chosen mailbox, and no other call.
  pub record IsSent (before after : Desk) : Type 0 where
    pub box : Mailbox
    pub message : Outbound
    pub chosen : before.screen.mail.selected_mailbox ≡ some box
    pub made : outbound_of browser outside before box ≡ answered message
    pub taken : outside.accepted ≡ answered tt
    pub outbox : after.outbox ≡ before.outbox ++ message ∷ []
    pub cleared : after.form ≡ empty_form
    pub closed : after.compose_open ≡ false

  -- What a run of the handler may do.
  abbrev pub Ends : Desk → Desk → Type 0
  Ends before after = IsKept before after ⊎ IsSent before after

  finish_send-Ends :
      (r : Reply (Unit {0})) (m : Outbound) (box : Mailbox) (desk : Desk)
      → desk.screen.mail.selected_mailbox ≡ some box
      → outbound_of browser outside desk box ≡ answered m
      → outside.accepted ≡ r
      → Ends desk (
          finish_send r
            (record (preparing browser outside desk) { outbox = desk.outbox ++ m ∷ [] }))
  unfolding finish_send send_failed
  finish_send-Ends (refused t) m box desk chosen e f =
      inl (record { same_form = refl; same_open = refl; same_screen = refl; told = inr (_, refl) })
  finish_send-Ends (answered tt) m box desk chosen e f = inr (record {
    box = box;
    message = m;
    chosen = chosen;
    made = e;
    taken = f;
    outbox = refl;
    cleared = refl;
    closed = refl;
  })

  deliver-Ends :
      (made : Reply Outbound) (box : Mailbox) (desk : Desk)
      → desk.screen.mail.selected_mailbox ≡ some box
      → outbound_of browser outside desk box ≡ made
      → Ends desk (deliver browser outside made (preparing browser outside desk))
  unfolding deliver send_failed
  deliver-Ends (refused t) box desk chosen e =
      inl (record { same_form = refl; same_open = refl; same_screen = refl; told = inr (_, refl) })
  deliver-Ends (answered m) box desk chosen e =
      finish_send-Ends outside.accepted m box desk chosen e refl

  send_from-Ends :
      (chosen : Option Mailbox) (desk : Desk)
      → desk.screen.mail.selected_mailbox ≡ chosen
      → Ends desk (send_from browser outside chosen desk)
  unfolding send_from
  send_from-Ends none desk e =
      inl (record { same_form = refl; same_open = refl; same_screen = refl; told = inr (_, refl) })
  send_from-Ends (some box) desk e =
      deliver-Ends (outbound_of browser outside desk box) box desk e refl

  -- Sending ends in one of two ways. Either the server took exactly one message, the one that the form
  -- makes for the chosen mailbox, and the composer is closed and cleared. Or the form, the composer and
  -- the screen are as before, and there is an error to read unless nothing was done at all.
  pub handle_send-Ends : (desk : Desk) → Ends desk (handle_send browser outside desk)
  unfolding handle_send
  handle_send-Ends desk =
      elim (Bool-cases (
        (is_empty (trim desk.form.to) || is_empty (trim desk.form.subject))
        || is_empty (trim desk.form.body))) [
          | inl e ↦ rw e (
              inl (record {
                same_form = refl;
                same_open = refl;
                same_screen = refl;
                told = inl refl;
              }))
          | inr e ↦ rw e (send_from-Ends desk.screen.mail.selected_mailbox desk refl)
        ]
