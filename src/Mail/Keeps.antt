-- ===== src/Mail/Keeps.antt =====
-- Predicates on the state that do not look at the calls made to the server.
use byos_email.Base.{Bool, true, false, if◌then◌else◌, String, List, [], ◌∷◌, Option, none, some}
use byos_email.Mail.{Mailbox, State, Request, request, request_each}
use byos_email.Mail.Actions.{with_box}

module _ {ℓ} (P : State → Type ℓ) (skip : (s : State) (r : Request) → P s → P (request r s)) where
  pub request_each-keeps :
      (f : String → Request) (ids : List String) (s : State) → P s → P (request_each f ids s)
  request_each-keeps f [] s h = h
  request_each-keeps f (id ∷ ids) s h =
      request_each-keeps f ids (request (f id) s) (skip s (f id) h)

  pub with_box_request-keeps :
      (box : Option Mailbox) (f : Mailbox → Request) (s : State)
      → P s
      → P (with_box box (λ b. request (f b)) s)
  with_box_request-keeps none f s h = h
  with_box_request-keeps (some b) f s h = skip s (f b) h

  pub with_box_each-keeps :
      (box : Option Mailbox) (f : Mailbox → String → Request) (ids : List String) (s : State)
      → P s
      → P (with_box box (λ b. request_each (f b) ids) s)
  with_box_each-keeps none f ids s h = h
  with_box_each-keeps (some b) f ids s h = request_each-keeps (f b) ids s h

pub if-keeps {ℓ} :
    (P : State → Type ℓ) (b : Bool) {s t : State} → P s → P t → P (if b then s else t)
if-keeps P true h k = h
if-keeps P false h k = k
