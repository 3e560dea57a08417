-- ===== src/MailboxKey/Tests.antt =====
-- Runs of the key functions, and the theorems with a core that passes keys on as they are.
use byos_email.Base.{
  ap, sym, Bool-cases, inl, inr, leb, if◌then◌else◌, ℕ, ◌≡◌, refl, Option, none, some, List, [],
  ◌∷◌, ◌++◌, All, arith, length,
}
use byos_email.Base.Text.{Text, codes}
use byos_email.Encoding.{ok, throws, ◌>>=◌, bytes_to_hex, invalid_salt_length}
use byos_email.Encoding.HexRoundTrip.{IsByte}
use byos_email.Envelope.{Core}
use byos_email.MailboxKey.{
  auto_unwrap_mailbox_key, wrap_mailbox_key_with_passphrase, unlock_mailbox_key,
}
use byos_email.MailboxKey.RoundTrip.{passphrase-roundtrip}
use byos_email.MailboxKey.Length.{unlock_mailbox_key-length}

abbrev clear_core : Core
clear_core = record {
  recover_root_secret = λ w. some w;
  unwrap_mailbox_key = λ r w i. some w;
  passphrase_wrap_key = λ n p s k. some k;
  passphrase_unwrap_key = λ p s e. some e;
  canonical_aad = λ i s v. some i;
  hpke_open = λ k w a. some w;
  aes_gcm_encrypt = λ n k p a. some p;
  aes_gcm_decrypt = λ k e a. some e;
  derive_search_key = λ r. some r;
}

-- A core that passes keys on, for passwords of at least eight characters.
abbrev strict_core : Core
strict_core = record clear_core {
  passphrase_wrap_key = λ n p s k. if leb 8 (length p) then some k else none;
  passphrase_unwrap_key = λ p s e. if leb 8 (length p) then some e else none;
}

strict_unwraps :
    (nonce : List ℕ) (password : Text) (salt key : List ℕ) (envelope : Text)
    → length salt ≡ 16
    → All IsByte salt
    → All IsByte key
    → strict_core.passphrase_wrap_key nonce password (bytes_to_hex salt) (bytes_to_hex key)
      ≡ some envelope
    → (sealed : List ℕ) × (All IsByte sealed
        × ((envelope ≡ bytes_to_hex sealed)
            × (strict_core.passphrase_unwrap_key password (bytes_to_hex salt) envelope
                ≡ some (bytes_to_hex key))))
strict_unwraps nonce password salt key envelope len hs hk h =
    elim (Bool-cases (leb 8 (length password))) [
      | inl e ↦
          let same : envelope ≡ bytes_to_hex key =
            some-eq envelope (bytes_to_hex key) (sym (rw e at h)) in
          (key, (hk, (same, rw e (ap some same))))
      | inr e ↦ cc (rw e at h)
    ]
  where
    some-eq : (a b : Text) → some a ≡ some b → a ≡ b
    some-eq a b e = cc e

abbrev half_key : List ℕ
half_key = 1 ∷ 2 ∷ 3 ∷ 4 ∷ 5 ∷ 6 ∷ 7 ∷ 8 ∷ 9 ∷ 10 ∷ 11 ∷ 12 ∷ 13 ∷ 14 ∷ 15 ∷ 255 ∷ []

abbrev no_json : Text → Option (Text → Option Text)
no_json t = none

short_salt :
    auto_unwrap_mailbox_key clear_core no_json (codes "pw") (codes "abcd:00ff")
    ≡ throws invalid_salt_length
unfolding auto_unwrap_mailbox_key
short_salt = refl

passphrase-roundtrip_example :
    (do
      wrapped ←
          wrap_mailbox_key_with_passphrase strict_core [] half_key
            (codes "password")
            (half_key ++ half_key)
      auto_unwrap_mailbox_key strict_core no_json (codes "password") wrapped)
    ≡ ok (half_key ++ half_key)
passphrase-roundtrip_example =
    passphrase-roundtrip strict_core strict_unwraps no_json [] (codes "password") half_key
      (half_key ++ half_key) (bytes_to_hex (half_key ++ half_key)) refl refl (omega arith)
      (omega arith) refl

abbrev raw_key : Text
raw_key = codes " 0102030405060708090A0b0c0d0e0fFF0102030405060708090A0b0c0d0e0fFF "

abbrev no_atob : Text → Option (List ℕ)
no_atob t = none

raw_unlock :
    unlock_mailbox_key clear_core no_atob raw_key (codes "") (codes "") ≡ ok (half_key ++ half_key)
unfolding unlock_mailbox_key
raw_unlock = refl

unlock_mailbox_key-length_example : length (half_key ++ half_key) ≡ 32
unlock_mailbox_key-length_example =
    unlock_mailbox_key-length clear_core no_atob raw_key (codes "") (codes "")
      (half_key ++ half_key) raw_unlock
