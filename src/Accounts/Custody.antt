-- ===== src/Accounts/Custody.antt =====
-- What holds of the session through every run of the account handlers (App.tsx), and what the
-- handlers write to `localStorage`.
use byos_email.Base.{
  ◌≡◌, ◌⊎◌, inl, inr, refl, String, Bool, true, false, ◌&&◌, ◌||◌, Option, none, some, List, [],
  ◌∷◌, All, any, all, filter, length, map, str_eq, Bool-cases, leb,
}
use byos_email.Base.Text.{Text, is_empty}
use byos_email.Accounts.{
  Account, Session, scrub, same_account, others, set_token, set_keys, put_first,
  handle_switch_account, handle_account_added, handle_storage_change, full_logout, drop_account,
  switch_over, selective_logout, logout_target, target_of, handle_logout,
}

-- No two accounts of a list share an id or an address.
abbrev pub IsApart : List Account → Type 0
IsApart [] = Unit
IsApart (a ∷ accounts) = (any (same_account a) accounts ≡ false) × IsApart accounts

-- The unlocked mailbox is the selected one, and a key is held only for it.
abbrev pub IsUnlockedRight : Session → Type 0
IsUnlockedRight s =
    ((s.unlocked_box_id ≡ none) × (s.mailbox_key ≡ none)) ⊎ (s.unlocked_box_id ≡ s.selected_mailbox)

abbrev pub IsOrderly : Session → Type 0
IsOrderly s = IsApart s.connected_accounts × IsUnlockedRight s

-- A handler and its arguments.
pub data Action : Type 0 where
  switch_account account_added : Account → Action
  storage_change : List Account → Action
  log_out : Option String → Bool → Action

unfoldable pub perform : Action → Session → Session
unfolding handle_switch_account handle_account_added handle_storage_change handle_logout
perform (switch_account a) s = handle_switch_account a s
perform (account_added a) s = handle_account_added a s
perform (storage_change list) s = handle_storage_change list s
perform (log_out account all) s = handle_logout account all s

unfoldable pub run : List Action → Session → Session
unfolding perform
run [] s = s
run (a ∷ actions) s = run actions (perform a s)

-- The list that an action brings from another tab.
abbrev pub brought : Action → List Account
brought (storage_change list) = list
brought _ = []

pub any_of_filter :
    (p q : Account → Bool) (accounts : List Account)
    → any p accounts ≡ false
    → any p (filter q accounts) ≡ false
any_of_filter p q [] h = refl
any_of_filter p q (a ∷ accounts) h = elim (Bool-cases (p a)) [
  | inl e ↦ cc (rw e at h)
  | inr e ↦ elim (Bool-cases (q a)) [
    | inl f ↦ rw (f, e) (any_of_filter p q accounts (rw e at h))
    | inr f ↦ rw f (any_of_filter p q accounts (rw e at h))
  ]
]

filter-IsApart :
    (q : Account → Bool) (accounts : List Account) → IsApart accounts → IsApart (filter q accounts)
filter-IsApart q [] h = tt
filter-IsApart q (a ∷ accounts) (h, hs) = elim (Bool-cases (q a)) [
  | inl e ↦ rw e (any_of_filter (same_account a) q accounts h, filter-IsApart q accounts hs)
  | inr e ↦ rw e (filter-IsApart q accounts hs)
]

any-others :
    (a : Account) (accounts : List Account) → any (same_account a) (others a accounts) ≡ false
unfolding others
any-others a [] = refl
any-others a (b ∷ accounts) = elim (Bool-cases (same_account a b)) [
  | inl e ↦ rw e (any-others a accounts)
  | inr e ↦ rw (e, e) (any-others a accounts)
]

others-IsApart :
    (a : Account) (accounts : List Account) → IsApart accounts → IsApart (a ∷ others a accounts)
unfolding others
others-IsApart a accounts h = (any-others a accounts, filter-IsApart _ accounts h)

-- The keys of the account are set, or those of the former account are gone.
pub set_keys-unlocked :
    (a : Account) (s : Session)
    → (((set_keys a s).unlocked_box_id ≡ none) × ((set_keys a s).mailbox_key ≡ none))
      ⊎ ((set_keys a s).unlocked_box_id ≡ some a.id)
unfolding set_keys
set_keys-unlocked a s = elim (Bool-cases (is_empty a.mailbox_sk_hex)) [
  | inl e ↦ rw e (inl (refl, refl))
  | inr e ↦ rw e (inr refl)
]

pub set_keys-connected :
    (a : Account) (s : Session) → (set_keys a s).connected_accounts ≡ s.connected_accounts
unfolding set_keys
set_keys-connected a s = elim (Bool-cases (is_empty a.mailbox_sk_hex)) [
  | inl e ↦ rw e refl
  | inr e ↦ rw e refl
]

pub handle_switch_account-IsOrderly :
    (a : Account) (s : Session)
    → IsApart s.connected_accounts
    → IsOrderly (handle_switch_account a s)
unfolding handle_switch_account put_first
handle_switch_account-IsOrderly a s h = (
  rw (set_keys-connected a (set_token a s)) (others-IsApart a s.connected_accounts h),
  set_keys-unlocked a (set_token a s),
)

switch_over-IsOrderly :
    (active : Bool) (email : Option Text) (remaining : List Account) (s : Session)
    → IsOrderly s
    → IsOrderly (switch_over active email remaining s)
unfolding switch_over
switch_over-IsOrderly true email (a ∷ remaining) s (h, _) = handle_switch_account-IsOrderly a s h
switch_over-IsOrderly true email [] s h = h
switch_over-IsOrderly false email remaining s h = h

logout_target-IsOrderly :
    (target : Option String) (everyone : Bool) (s : Session)
    → IsOrderly s
    → IsOrderly (logout_target target everyone s)
unfolding logout_target full_logout selective_logout drop_account
logout_target-IsOrderly none everyone s h = (tt, inl (refl, refl))
logout_target-IsOrderly (some id) everyone s (h, k) =
    elim (Bool-cases (everyone || str_eq id "" || leb (length s.connected_accounts) 1)) [
      | inl e ↦ rw e (tt, inl (refl, refl))
      | inr e ↦ rw e (switch_over-IsOrderly _ _ _ _ (filter-IsApart _ s.connected_accounts h, k))
    ]

perform-IsOrderly :
    (a : Action) (s : Session) → IsApart (brought a) → IsOrderly s → IsOrderly (perform a s)
unfolding perform
perform-IsOrderly (switch_account a) s b (h, k) = handle_switch_account-IsOrderly a s h
perform-IsOrderly (account_added a) s b (h, k) =
    unfold handle_account_added in
    unfold put_first in
    handle_switch_account-IsOrderly a (record (put_first a s) { add_mailbox_modal_open = false })
      (unfold put_first in others-IsApart a s.connected_accounts h)
perform-IsOrderly (storage_change list) s b (h, k) = unfold handle_storage_change in (b, k)
perform-IsOrderly (log_out account everyone) s b h =
    unfold handle_logout in logout_target-IsOrderly (target_of account s) everyone s h

-- From a session in which no two accounts share an id or an address and the unlocked mailbox is the
-- selected one, every run of the handlers leads to such a session, where other tabs bring such lists.
pub run-IsOrderly :
    (actions : List Action) (s : Session)
    → All (λ a. IsApart (brought a)) actions
    → IsOrderly s
    → IsOrderly (run actions s)
unfolding run
run-IsOrderly [] s b h = h
run-IsOrderly (a ∷ actions) s (b, bs) h =
    run-IsOrderly actions (perform a s) bs (perform-IsOrderly a s b h)

-- Whether a list holds no key.
abbrev pub has_no_keys : List Account → Bool
has_no_keys accounts = all (λ a. is_empty a.mailbox_sk_hex && is_empty a.search_key_hex) accounts

map-scrub : (accounts : List Account) → has_no_keys (map scrub accounts) ≡ true
map-scrub [] = refl
map-scrub (a ∷ accounts) = map-scrub accounts

abbrev pub durable : Session → List Account
durable s = elim s.durable_accounts [ none ↦ [] | some accounts ↦ accounts ]

-- Switching writes no key to `localStorage`.
switch_writes_no_keys :
    (a : Account) (s : Session) → has_no_keys (durable (handle_switch_account a s)) ≡ true
unfolding handle_switch_account put_first
switch_writes_no_keys a s = map-scrub (others a (set_keys a (set_token a s)).connected_accounts)
