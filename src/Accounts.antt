-- ===== src/Accounts.antt =====
-- The connected accounts and the keys of the webmail session: `handleSwitchAccount`,
-- `handleAccountAdded`, `handleStorageChange`, `handleLogout` and `lockMailbox` of
-- apps/webmail/src/App.tsx. The browser's two storages are fields of the session; a write to
-- them succeeds and what is written as JSON is read back as it was.
pub mod Logout
pub mod Custody
mod Tests
use byos_email.Base.{
  ℕ, String, Bool, true, false, not, ◌&&◌, ◌||◌, Option, none, some, List, [], ◌∷◌, ◌++◌, str_eq,
  if◌then◌else◌, leb, filter, find, length, map,
}
use byos_email.Base.Text.{Text, text_eq, to_lower_case, is_empty}
use byos_email.Encoding.{parse_byte, digit_value, or_nan}

-- `ConnectedAccount`
pub record Account : Type 0 where
  pub id : String
  pub email : Text
  pub display_name : Text
  pub role : String
  pub privacy_mode : String
  pub session_token : Text
  pub mailbox_sk_hex : Text
  pub search_key_hex : Text

-- The calls that the handlers make: to the server, or to load the mailbox's data.
pub data Call : Type 0 where
  load_mailbox_data : String → Call
  refresh_signature : Option String → Call
  revoke : Text → Call
  logout : Call

-- The toasts; `none` stands for the word that is shown where the account is not found.
pub data Notice : Type 0 where
  connected : Text → Notice
  signed_out_of : Option Text → Notice
  signed_out_and_switched : Option Text → Text → Notice

-- `stored_accounts`, `active_session_token`, `impersonation_token`, `sk_items` and `skey_items` are
-- the items of `sessionStorage`; `durable_accounts` is the item of `localStorage`.
pub record Session : Type 0 where
  pub connected_accounts : List Account
  pub stored_accounts : Option (List Account)
  pub durable_accounts : Option (List Account)
  pub active_session_token : Option Text
  pub impersonation_token : Option Text
  pub sk_items : List (String × Text)
  pub skey_items : List (String × Text)
  pub mailbox_key : Option (List ℕ)
  pub search_key : Option Text
  pub unlocked_box_id : Option String
  pub selected_mailbox : Option String
  pub current_user : Option String
  pub is_impersonating : Bool
  pub add_mailbox_modal_open : Bool
  pub toast : Option Notice
  pub calls : List Call

-- `removeItem` and `setItem`
abbrev pub remove_item : String → List (String × Text) → List (String × Text)
remove_item k [] = []
remove_item k (item ∷ items) =
    let rest = remove_item k items in if str_eq item.0 k then rest else item ∷ rest

abbrev pub set_item : String → Text → List (String × Text) → List (String × Text)
set_item k v items = (k, v) ∷ remove_item k items

-- `{ ...a, mailboxSkHex: "", searchKeyHex: "" }`
abbrev pub scrub : Account → Account
scrub a = record a { mailbox_sk_hex = []; search_key_hex = [] }

-- The accounts that are neither the given one nor have its address.
unfoldable pub same_account : Account → Account → Bool
unfolding to_lower_case
same_account account a =
    str_eq a.id account.id || text_eq (to_lower_case a.email) (to_lower_case account.email)

unfoldable pub others : Account → List Account → List Account
unfolding same_account
others account accounts = filter (λ a. not (same_account account a)) accounts

-- `match(/.{1,2}/g)!.map((b) => parseInt(b, 16))`
pub bytes_of_pairs : Text → List ℕ
unfolding parse_byte digit_value
bytes_of_pairs [] = []
bytes_of_pairs (c ∷ []) = or_nan (digit_value c) ∷ []
bytes_of_pairs (c ∷ d ∷ s) = parse_byte c d ∷ bytes_of_pairs s

abbrev pub keep_or : Text → Option Text → Option Text
keep_or token old = if is_empty token then old else some token

-- Step 2 of `handleSwitchAccount`.
unfoldable pub set_keys : Account → Session → Session
unfolding bytes_of_pairs
set_keys account s =
    if is_empty account.mailbox_sk_hex
    then record s { mailbox_key = none; search_key = none; unlocked_box_id = none }
    else record s {
      mailbox_key = some (bytes_of_pairs account.mailbox_sk_hex);
      search_key = some account.search_key_hex;
      unlocked_box_id = some account.id;
      sk_items = set_item account.id account.mailbox_sk_hex s.sk_items;
      skey_items = set_item account.id account.search_key_hex s.skey_items;
    }

-- Putting an account at the head of the list, in memory and in both storages.
unfoldable pub put_first : Account → Session → Session
unfolding others
put_first account s =
    let updated = account ∷ others account s.connected_accounts in
    record s {
      connected_accounts = updated;
      stored_accounts = some updated;
      durable_accounts = some (map scrub updated);
    }

-- Step 1 of `handleSwitchAccount`.
abbrev pub set_token : Account → Session → Session
set_token account s = record s {
  active_session_token = keep_or account.session_token s.active_session_token;
}

unfoldable pub handle_switch_account : Account → Session → Session
unfolding set_keys put_first
handle_switch_account account s =
    let s2 : Session = record (set_keys account (set_token account s)) {
      selected_mailbox = some account.id;
      current_user = some account.id;
    } in
    let s3 : Session = put_first account s2 in
    record s3 {
      calls = s3.calls ++ load_mailbox_data account.id ∷ refresh_signature (some account.id) ∷ [];
    }

unfoldable pub handle_account_added : Account → Session → Session
unfolding put_first handle_switch_account
handle_account_added account s =
    let s1 : Session = record (put_first account s) { add_mailbox_modal_open = false } in
    record (handle_switch_account account s1) { toast = some (connected account.email) }

-- A change of the list in `localStorage` by another tab: `newValue` is what is stored there now.
unfoldable pub handle_storage_change : List Account → Session → Session
handle_storage_change list s = record s {
  connected_accounts = list;
  stored_accounts = some list;
  durable_accounts = some list;
}

-- What `lockMailbox` does to the keys.
unfoldable pub lock_mailbox : Session → Session
lock_mailbox s = record s { mailbox_key = none; search_key = none; unlocked_box_id = none }

unfoldable pub full_logout : Session → Session
unfolding lock_mailbox
full_logout s =
    let s1 : Session = record s {
      impersonation_token = none;
      active_session_token = none;
      stored_accounts = none;
      durable_accounts = none;
      connected_accounts = [];
      sk_items = [];
      skey_items = [];
      is_impersonating = false;
      calls = s.calls ++ logout ∷ refresh_signature none ∷ [];
    } in
    record (lock_mailbox s1) { current_user = none; selected_mailbox = none }

abbrev pub email_of : Option Account → Option Text
email_of none = none
email_of (some a) = some a.email

-- The revocation, for an account that has a token.
abbrev pub revocation : Option Account → List Call
revocation none = []
revocation (some a) = if is_empty a.session_token then [] else revoke a.session_token ∷ []

-- Steps 1 to 3: the account leaves the list, which both storages then hold as it is.
unfoldable pub drop_account : String → Session → Session
drop_account target s =
    let remaining = filter (λ a. not (str_eq a.id target)) s.connected_accounts in
    record s {
      sk_items = remove_item target s.sk_items;
      skey_items = remove_item target s.skey_items;
      calls = s.calls ++ revocation (find (λ a. str_eq a.id target) s.connected_accounts);
      connected_accounts = remaining;
      stored_accounts = some remaining;
      durable_accounts = some remaining;
    }

abbrev pub is_current : Option String → String → Bool
is_current none target = false
is_current (some id) target = str_eq target id

-- Step 4: the first of the remaining accounts takes the place of the active one.
unfoldable pub switch_over : Bool → Option Text → List Account → Session → Session
unfolding handle_switch_account
switch_over true email (next ∷ remaining) s = record (handle_switch_account next s) {
  toast = some (signed_out_and_switched email next.email);
}
switch_over true email [] s = record s { toast = some (signed_out_of email) }
switch_over false email remaining s = record s { toast = some (signed_out_of email) }

-- `a || b`
abbrev pub or_else : Option String → Option String → Option String
or_else none b = b
or_else (some a) b = if str_eq a "" then b else some a

abbrev pub current_box_id : Session → Option String
current_box_id s = or_else s.selected_mailbox s.current_user

unfoldable pub selective_logout : String → Session → Session
unfolding drop_account switch_over
selective_logout target s =
    let s1 = drop_account target s in
    switch_over (is_current (current_box_id s) target)
      (email_of (find (λ a. str_eq a.id target) s.connected_accounts)) s1.connected_accounts s1

abbrev pub target_of : Option String → Session → Option String
target_of (some id) s = some id
target_of none s = current_box_id s

-- The test of the two branches of `handleLogout`, and what each does.
unfoldable pub logout_target : Option String → Bool → Session → Session
unfolding full_logout selective_logout
logout_target none log_out_all s = full_logout s
logout_target (some target) log_out_all s =
    if log_out_all || str_eq target "" || leb (length s.connected_accounts) 1
    then full_logout s
    else selective_logout target s

unfoldable pub handle_logout : Option String → Bool → Session → Session
unfolding logout_target
handle_logout account log_out_all s = logout_target (target_of account s) log_out_all s
