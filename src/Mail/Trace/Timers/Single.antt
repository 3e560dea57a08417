-- ===== src/Mail/Trace/Timers/Single.antt =====
-- The pending timeouts and the handlers of one message (App.tsx).
use byos_email.Base.{
  ℕ, ◌≡◌, ◌≢◌, refl, ap, true, Option, none, some, List, [], ◌∷◌, ◌++◌, ◌∙◌, arith, inl, inr,
  Bool-cases,
}
use byos_email.Mail.{
  Folder, Message, State, Toast, Undo, Request, clear_timeout, show_toast, request,
}
use byos_email.Mail.Actions.{
  move_with_undo, handle_undo, fire_undo_timer, fire_toast_timer, timer_of, take_back, is_pending,
}

abbrev pub pending : Option ℕ → List ℕ
pending none = []
pending (some t) = t ∷ []

-- Exactly the timeout of the undo on offer is pending, and a toast that is shown has exactly its
-- own timeout pending.
abbrev pub Shown : Option Toast → Option ℕ → List ℕ → Type 0
Shown none t ts = ts ≡ []
Shown (some m) t ts = (ts ≡ pending t) × (t ≢ none)

pub record TimersMatch (s : State) : Type 0 where
  pub undo_pending : s.undo_timers ≡ pending (timer_of s.undo_action)
  pub toast_pending : Shown s.toast_message s.toast_timer s.toast_timers

pub skip : (s : State) (r : Request) → TimersMatch s → TimersMatch (request r s)
skip s r v = record { undo_pending = v.undo_pending; toast_pending = v.toast_pending }

pub clear-Shown :
    (m : Option Toast) (t : Option ℕ) (ts : List ℕ) → Shown m t ts → clear_timeout t ts ≡ []
clear-Shown none none ts h = h
clear-Shown none (some t) ts h = rw h
clear-Shown (some m) none ts h = h.0
clear-Shown (some m) (some t) ts h = rw h.0 (ground arith)

pub show_toast-TimersMatch : (m : Toast) (s : State) → TimersMatch s → TimersMatch (show_toast m s)
show_toast-TimersMatch m s v = record {
  undo_pending = v.undo_pending;
  toast_pending = (
    ap (λ ts. ts ++ s.next_timer ∷ [])
        (clear-Shown s.toast_message s.toast_timer s.toast_timers v.toast_pending),
    cc,
  );
}

pub clear_own :
    (u : Option Undo) (ts : List ℕ) → ts ≡ pending (timer_of u) → clear_timeout (timer_of u) ts ≡ []
clear_own none ts h = h
clear_own (some u) ts h = rw h (ground arith)

pub move_with_undo-TimersMatch :
    (f : Folder) (m : Message) (s : State) → TimersMatch s → TimersMatch (move_with_undo f m s)
unfolding move_with_undo
move_with_undo-TimersMatch f m s v = record {
  undo_pending =
      ap (λ ts. ts ++ s.next_timer ∷ []) (clear_own s.undo_action s.undo_timers v.undo_pending);
  toast_pending = v.toast_pending;
}

pub take_back-TimersMatch :
    (u : Option Undo) (s : State) → s.undo_action ≡ u → TimersMatch s → TimersMatch (take_back u s)
unfolding take_back
take_back-TimersMatch none s e v = v
take_back-TimersMatch (some u) s e v = record {
  undo_pending =
      clear_own (some u) s.undo_timers (v.undo_pending ∙ ap (λ a. pending (timer_of a)) e);
  toast_pending = v.toast_pending;
}

pub handle_undo-TimersMatch : (s : State) → TimersMatch s → TimersMatch (handle_undo s)
unfolding handle_undo
handle_undo-TimersMatch s v = take_back-TimersMatch s.undo_action s refl v

-- A timeout that is pending is the one of the undo on offer.
pub clear_due :
    (t : ℕ) (u : Option Undo) (ts : List ℕ)
    → ts ≡ pending (timer_of u)
    → is_pending t ts ≡ true
    → clear_timeout (some t) ts ≡ []
clear_due t none ts h d = ground arith
clear_due t (some u) ts h d = ground arith

pub fire_undo-TimersMatch : (t : ℕ) (s : State) → TimersMatch s → TimersMatch (fire_undo_timer t s)
unfolding fire_undo_timer
fire_undo-TimersMatch t s v = elim (Bool-cases (is_pending t s.undo_timers)) [
  | inl e ↦ rw e (record {
    undo_pending = clear_due t s.undo_action s.undo_timers v.undo_pending e;
    toast_pending = v.toast_pending;
  })
  | inr e ↦ rw e v
]

pub clear-Shown_due :
    (t : ℕ) (m : Option Toast) (own : Option ℕ) (ts : List ℕ)
    → Shown m own ts
    → is_pending t ts ≡ true
    → clear_timeout (some t) ts ≡ []
clear-Shown_due t none own ts h d = ground arith
clear-Shown_due t (some m) none ts h d = ground arith
clear-Shown_due t (some m) (some u) ts h d = ground arith

pub fire_toast-TimersMatch :
    (t : ℕ) (s : State) → TimersMatch s → TimersMatch (fire_toast_timer t s)
unfolding fire_toast_timer
fire_toast-TimersMatch t s v = elim (Bool-cases (is_pending t s.toast_timers)) [
  | inl e ↦ rw e (record {
    undo_pending = v.undo_pending;
    toast_pending =
        clear-Shown_due t s.toast_message s.toast_timer s.toast_timers v.toast_pending e;
  })
  | inr e ↦ rw e v
]
