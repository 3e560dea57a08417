-- ===== src/Accounts/Tests.antt =====
-- Runs of the account handlers on a session with two accounts, and the theorems at it.
use byos_email.Base.{◌≡◌, inr, refl, true, false, none, some, [], ◌∷◌, any}
use byos_email.Base.Text.{codes}
use byos_email.Accounts.{Account, Session, same_account, handle_logout}
use byos_email.Accounts.Custody.{
  IsOrderly, switch_account, account_added, log_out, run, run-IsOrderly, has_no_keys, durable,
}
use byos_email.Accounts.Logout.{IsForgotten, logout_forgets, logout_writes_keys}

abbrev billing : Account
billing = record {
  id = "box-1";
  email = codes "billing@testorg.byos";
  display_name = codes "Billing";
  role = "member";
  privacy_mode = "org_managed";
  session_token = codes "t1";
  mailbox_sk_hex = codes "0a0b";
  search_key_hex = codes "0c";
}

abbrev support : Account
support = record billing {
  id = "box-2";
  email = codes "Support@testorg.byos";
  session_token = codes "t2";
  mailbox_sk_hex = codes "0d0e";
}

abbrev fresh : Session
fresh = record {
  connected_accounts = [];
  stored_accounts = none;
  durable_accounts = none;
  active_session_token = none;
  impersonation_token = none;
  sk_items = [];
  skey_items = [];
  mailbox_key = none;
  search_key = none;
  unlocked_box_id = none;
  selected_mailbox = none;
  current_user = none;
  is_impersonating = false;
  add_mailbox_modal_open = true;
  toast = none;
  calls = [];
}

abbrev two_accounts : Session
two_accounts = record fresh {
  connected_accounts = support ∷ billing ∷ [];
  stored_accounts = some (support ∷ billing ∷ []);
  unlocked_box_id = some "box-2";
  selected_mailbox = some "box-2";
  sk_items = ("box-2", codes "0d0e") ∷ ("box-1", codes "0a0b") ∷ [];
}

apart : any (same_account support) (billing ∷ []) ≡ false
unfolding same_account
apart = refl

two_accounts-IsOrderly : IsOrderly two_accounts
two_accounts-IsOrderly = ((apart, (refl, tt)), inr refl)

-- Adding both accounts leads to the session's list, and an account that is added twice stands once.
added :
    (run
      (account_added billing ∷ account_added support ∷ account_added support ∷ [])
      fresh).connected_accounts
    ≡ support ∷ billing ∷ []
unfolding run
added = refl

run-IsOrderly_example : IsOrderly (
    run
      (account_added billing ∷ log_out (some "box-2") false ∷ switch_account support ∷ [])
      two_accounts)
run-IsOrderly_example =
    run-IsOrderly
      (account_added billing ∷ log_out (some "box-2") false ∷ switch_account support ∷ [])
      two_accounts (tt, (tt, (tt, tt))) two_accounts-IsOrderly

logout_forgets_example :
    IsForgotten "box-2" two_accounts (handle_logout (some "box-2") false two_accounts)
logout_forgets_example = logout_forgets "box-2" false two_accounts two_accounts-IsOrderly

logout_writes_keys_example :
    has_no_keys (durable (handle_logout (some "box-1") false two_accounts)) ≡ false
logout_writes_keys_example = logout_writes_keys "box-1" two_accounts refl refl refl refl
