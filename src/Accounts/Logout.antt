-- ===== src/Accounts/Logout.antt =====
-- Signing one account out: what is left of it, and what goes to `localStorage` (`handleLogout` of
-- App.tsx).
use byos_email.Base.{
  ◌≤◌, ◌≡◌, ◌≢◌, ◌⊎◌, inl, inr, refl, ap, ◌∙◌, String, Bool, true, false, not, ◌&&◌, ◌||◌, Option,
  none, some, List, [], ◌∷◌, arith, any, filter, length, map, str_eq, eq_iff, eq_refl, Bool-cases,
  leb,
}
use byos_email.Base.Text.{Text, is_empty}
use byos_email.Accounts.{
  Account, Session, scrub, same_account, others, set_token, set_keys, lock_mailbox, bytes_of_pairs,
  put_first, handle_switch_account, full_logout, drop_account, switch_over, selective_logout,
  logout_target, handle_logout, is_current, current_box_id, remove_item, set_item,
}
use byos_email.Accounts.Custody.{
  IsApart, IsUnlockedRight, IsOrderly, any_of_filter, set_keys-connected, has_no_keys, durable,
}

abbrev pub has_account : String → List Account → Bool
has_account id accounts = any (λ a. str_eq a.id id) accounts

abbrev pub has_item : String → List (String × Text) → Bool
has_item k items = any (λ item. str_eq item.0 k) items

abbrev pub stored : Session → List Account
stored s = elim s.stored_accounts [ none ↦ [] | some accounts ↦ accounts ]

-- What is left of keys in memory: none; those of the first account that remains; or those that were
-- there before, for a mailbox that is not the one of the account.
abbrev pub IsLocked : Session → Type 0
IsLocked s = (s.mailbox_key ≡ none) × ((s.search_key ≡ none) × (s.unlocked_box_id ≡ none))

abbrev pub HoldsKeysOf : Account → Session → Type 0
HoldsKeysOf a s =
    (s.mailbox_key ≡ some (bytes_of_pairs a.mailbox_sk_hex))
    × ((s.search_key ≡ some a.search_key_hex) × (s.unlocked_box_id ≡ some a.id))

abbrev pub remaining_accounts : String → Session → List Account
remaining_accounts id s = filter (λ a. not (str_eq a.id id)) s.connected_accounts

pub record IsSwitched (id : String) (before after : Session) : Type 0 where
  pub account : Account
  pub rest : List Account
  pub remaining : remaining_accounts id before ≡ account ∷ rest
  pub other : str_eq account.id id ≡ false
  pub holds : HoldsKeysOf account after

pub record KeepsKeys (id : String) (before after : Session) : Type 0 where
  pub same_mailbox : after.mailbox_key ≡ before.mailbox_key
  pub same_search : after.search_key ≡ before.search_key
  pub same_unlocked : after.unlocked_box_id ≡ before.unlocked_box_id
  pub other_unlocked : before.unlocked_box_id ≢ some id

abbrev pub KeysAreNotOf : String → Session → Session → Type 0
KeysAreNotOf id before after =
    IsLocked after ⊎ (IsSwitched id before after ⊎ KeepsKeys id before after)

-- Neither the account nor a key of it is in memory or in either storage.
pub record IsForgotten (id : String) (before after : Session) : Type 0 where
  pub in_memory : has_account id after.connected_accounts ≡ false
  pub in_session_storage : has_account id (stored after) ≡ false
  pub in_local_storage : has_account id (durable after) ≡ false
  pub no_mailbox_item : has_item id after.sk_items ≡ false
  pub no_search_item : has_item id after.skey_items ≡ false
  pub keys : KeysAreNotOf id before after

has_account-filter :
    (id : String) (accounts : List Account)
    → has_account id (filter (λ a. not (str_eq a.id id)) accounts) ≡ false
has_account-filter id [] = refl
has_account-filter id (a ∷ accounts) = ground (arith, has_account-filter id accounts)

has_account-scrub :
    (id : String) (accounts : List Account)
    → has_account id (map scrub accounts) ≡ has_account id accounts
has_account-scrub id [] = refl
has_account-scrub id (a ∷ accounts) = ap (◌||◌ (str_eq a.id id)) (has_account-scrub id accounts)

has_item-remove :
    (k : String) (items : List (String × Text)) → has_item k (remove_item k items) ≡ false
has_item-remove k [] = refl
has_item-remove k (item ∷ items) = ground (arith, has_item-remove k items)

has_item-remove_other :
    (j k : String) (items : List (String × Text))
    → has_item k items ≡ false
    → has_item k (remove_item j items) ≡ false
has_item-remove_other j k [] h = refl
has_item-remove_other j k (item ∷ items) h = ground (arith, has_item-remove_other j k items)

has_item-set_item :
    (j k : String) (v : Text) (items : List (String × Text))
    → str_eq j k ≡ false
    → has_item k items ≡ false
    → has_item k (set_item j v items) ≡ false
has_item-set_item j k v items apart h = rw apart (has_item-remove_other j k items h)

set_keys-items :
    (k : String) (a : Account) (s : Session)
    → str_eq a.id k ≡ false
    → has_item k s.sk_items ≡ false
    → has_item k s.skey_items ≡ false
    → (has_item k (set_keys a s).sk_items ≡ false) × (has_item k (set_keys a s).skey_items ≡ false)
unfolding set_keys
set_keys-items k a s apart h1 h2 = elim (Bool-cases (is_empty a.mailbox_sk_hex)) [
  | inl e ↦ rw e (h1, h2)
  | inr e ↦ rw e (
    has_item-set_item a.id k a.mailbox_sk_hex s.sk_items apart h1,
    has_item-set_item a.id k a.search_key_hex s.skey_items apart h2,
  )
]

none-ne-some : (u : Option String) (k : String) → u ≡ none → u ≢ some k
none-ne-some u k h e = ground (arith, h, e)

set_keys-Holds :
    (a : Account) (s : Session) → IsLocked (set_keys a s) ⊎ HoldsKeysOf a (set_keys a s)
unfolding set_keys
set_keys-Holds a s = elim (Bool-cases (is_empty a.mailbox_sk_hex)) [
  | inl e ↦ rw e (inl (refl, (refl, refl)))
  | inr e ↦ rw e (inr (refl, (refl, refl)))
]

-- Switching to another account brings nothing of a forgotten one back.
switch-IsForgotten :
    (k : String) (a : Account) (left : List Account) (before s : Session)
    → remaining_accounts k before ≡ a ∷ left
    → str_eq a.id k ≡ false
    → has_account k s.connected_accounts ≡ false
    → has_item k s.sk_items ≡ false
    → has_item k s.skey_items ≡ false
    → IsForgotten k before (handle_switch_account a s)
unfolding handle_switch_account put_first others
switch-IsForgotten k a left before s remains apart gone h1 h2 =
    let rest : has_account k (others a s.connected_accounts) ≡ false =
      any_of_filter (λ b. str_eq b.id k) (λ b. not (same_account a b)) s.connected_accounts gone in
    let listed : has_account k (a ∷ others a s.connected_accounts) ≡ false = rw apart rest in
    let (items, search_items) = set_keys-items k a (set_token a s) apart h1 h2 in
    rw (set_keys-connected a (set_token a s)) (record {
      in_memory = listed;
      in_session_storage = listed;
      in_local_storage = rw (has_account-scrub k (a ∷ others a s.connected_accounts)) listed;
      no_mailbox_item = items;
      no_search_item = search_items;
      keys = elim (set_keys-Holds a (set_token a s)) [
        | inl locked ↦ inl locked
        | inr holds ↦ inr (
            inl (record {
              account = a;
              rest = left;
              remaining = remains;
              other = apart;
              holds = holds;
            }))
      ];
    })

-- Two accounts that are apart do not share an id, so more than one account means that one is left.
one_of_id :
    (id : String) (accounts : List Account)
    → IsApart accounts
    → filter (λ a. not (str_eq a.id id)) accounts ≡ []
    → length accounts ≤ 1
unfolding same_account
one_of_id id [] h e = omega arith
one_of_id id (a ∷ []) h e = omega arith
one_of_id id (a ∷ b ∷ accounts) h e =
    ground (arith, eq_iff a.id id, eq_iff b.id id, eq_iff b.id a.id)

dropped_items :
    (id : String) (s : Session)
    → (has_account id (drop_account id s).connected_accounts ≡ false)
      × ((has_item id (drop_account id s).sk_items ≡ false)
          × (has_item id (drop_account id s).skey_items ≡ false))
unfolding drop_account
dropped_items id s = (
  has_account-filter id s.connected_accounts,
  (has_item-remove id s.sk_items, has_item-remove id s.skey_items),
)

-- Where the account to sign out is not the active one, its mailbox is not the unlocked one.
unlocked_is_current :
    (id : String) (s : Session)
    → IsUnlockedRight s
    → str_eq id "" ≡ false
    → is_current (current_box_id s) id ≡ false
    → s.unlocked_box_id ≢ some id
unlocked_is_current id s right named other e = elim right [
  | inl (locked, _) ↦ none-ne-some _ id locked e
  | inr same ↦
      let selected : s.selected_mailbox ≡ some id = cc (same, e) in
      cc (rw (selected, named, eq_refl id) at other)
]

switched_over-IsForgotten :
    (id : String) (email : Option Text) (next : List Account) (before s : Session)
    → (next ≡ s.connected_accounts) × (next ≢ [])
    → remaining_accounts id before ≡ next
    → has_account id s.connected_accounts ≡ false
    → (has_item id s.sk_items ≡ false) × (has_item id s.skey_items ≡ false)
    → IsForgotten id before (switch_over true email next s)
unfolding switch_over
switched_over-IsForgotten id email [] before s (e, left) remains gone items = elim (left refl) [ ]
switched_over-IsForgotten id email (a ∷ accounts) before s (e, left) remains gone (h1, h2) =
    let all_gone : has_account id (a ∷ accounts) ≡ false = ap (has_account id) e ∙ gone in
    let apart : str_eq a.id id ≡ false = ground (arith, all_gone) in
    let there : IsForgotten id before (handle_switch_account a s) =
      switch-IsForgotten id a accounts before s remains apart gone h1 h2 in
    record {
      in_memory = there.in_memory;
      in_session_storage = there.in_session_storage;
      in_local_storage = there.in_local_storage;
      no_mailbox_item = there.no_mailbox_item;
      no_search_item = there.no_search_item;
      keys = elim there.keys [
        | inl locked ↦ inl locked
        | inr (inl there) ↦ inr (
            inl (record {
              account = there.account;
              rest = there.rest;
              remaining = there.remaining;
              other = there.other;
              holds = there.holds;
            }))
        | inr (inr kept) ↦ inr (
            inr (record {
              same_mailbox = kept.same_mailbox;
              same_search = kept.same_search;
              same_unlocked = kept.same_unlocked;
              other_unlocked = kept.other_unlocked;
            }))
      ];
    }

some_are_left :
    (id : String) (s : Session)
    → IsApart s.connected_accounts
    → leb (length s.connected_accounts) 1 ≡ false
    → (drop_account id s).connected_accounts ≢ []
unfolding drop_account
some_are_left id s apart many none_left =
    ground (arith, many, one_of_id id s.connected_accounts apart none_left)

selective_logout-IsForgotten :
    (id : String) (s : Session)
    → IsOrderly s
    → str_eq id "" ≡ false
    → leb (length s.connected_accounts) 1 ≡ false
    → IsForgotten id s (selective_logout id s)
unfolding selective_logout
selective_logout-IsForgotten id s (apart, right) named many =
    let (gone, items) = dropped_items id s in
    elim (Bool-cases (is_current (current_box_id s) id)) [
      | inl e ↦ rw e (
          switched_over-IsForgotten id _ _ s (drop_account id s)
            (refl, some_are_left id s apart many) (unfold drop_account in refl) gone items)
      | inr e ↦ rw e (
          unfold switch_over in
          unfold drop_account in
          record {
            in_memory = gone;
            in_session_storage = gone;
            in_local_storage = gone;
            no_mailbox_item = items.0;
            no_search_item = items.1;
            keys = inr (
                inr (record {
                  same_mailbox = refl;
                  same_search = refl;
                  same_unlocked = refl;
                  other_unlocked = unlocked_is_current id s right named e;
                }));
          })
    ]

-- Signing an account out of a session that the handlers keep orderly, whether it is active or not and
-- in both branches, leaves the account in neither the list nor a storage and no key of it in the session
-- storage. Of keys in memory there is none left, or those of the first account that remains, or
-- what was there before for a mailbox that is not the one of the account.
pub logout_forgets :
    (id : String) (everyone : Bool) (s : Session)
    → IsOrderly s
    → IsForgotten id s (handle_logout (some id) everyone s)
unfolding handle_logout logout_target full_logout lock_mailbox
logout_forgets id everyone s orderly =
    elim (Bool-cases (everyone || str_eq id "" || leb (length s.connected_accounts) 1)) [
      | inl e ↦ rw e (record {
        in_memory = refl;
        in_session_storage = refl;
        in_local_storage = refl;
        no_mailbox_item = refl;
        no_search_item = refl;
        keys = inl (refl, (refl, refl));
      })
      | inr e ↦
          rw e (selective_logout-IsForgotten id s orderly (ground (arith, e)) (ground (arith, e)))
    ]

-- Whether a list holds a key of another account than the given one.
abbrev pub has_key_of_other : String → List Account → Bool
has_key_of_other id accounts =
    any (λ a. not (str_eq a.id id) && not (is_empty a.mailbox_sk_hex)) accounts

keys_remain :
    (id : String) (accounts : List Account)
    → has_key_of_other id accounts ≡ true
    → has_no_keys (filter (λ a. not (str_eq a.id id)) accounts) ≡ false
keys_remain id [] h = cc h
keys_remain id (a ∷ accounts) h = ground (arith, keys_remain id accounts)

-- Signing out one of several accounts that is not the active one writes the keys of the others to
-- `localStorage`, where any of them holds a key.
pub logout_writes_keys :
    (id : String) (s : Session)
    → str_eq id "" ≡ false
    → leb (length s.connected_accounts) 1 ≡ false
    → is_current (current_box_id s) id ≡ false
    → has_key_of_other id s.connected_accounts ≡ true
    → has_no_keys (durable (handle_logout (some id) false s)) ≡ false
unfolding handle_logout logout_target selective_logout switch_over drop_account
logout_writes_keys id s named many other keys =
    rw (named, many, other) (keys_remain id s.connected_accounts keys)
