-- ===== src/MailboxKey/Length.antt =====
-- The length of an unlocked key (message_crypto.ts).
use byos_email.Base.{
  ℕ, ◌*◌, ◌≡◌, inl, inr, refl, ap, Bool, true, false, Option, List, [], ◌∷◌, All, all, arith,
  length, Bool-cases, ◌==◌, ==_iff,
}
use byos_email.Base.Text.{Text, trim, is_empty}
use byos_email.Encoding.{
  Failure, Result, ok, ◌>>◌, >>=-inversion, check, call, digit_value, parse_byte, parse_pairs,
  hex_to_bytes, core_failed, base64_to_bytes, mailbox_id_hex, bytes_to_hex,
}
use byos_email.Encoding.HexRoundTrip.{IsInk, trim-ink}
use byos_email.Envelope.{Core}
use byos_email.MailboxKey.{key_of_hex, is_hex_digit, is_raw_key, unlock_mailbox_key}

checked :
    {A : Type 0} (b : Bool) (e : Failure) (m : Result A) (a : A)
    → (check b e >> m) ≡ ok a
    → (b ≡ true) × (m ≡ ok a)
checked true e m a h = (refl, h)
checked false e m a h = cc h

ok-eq : {A : Type 0} (a b : A) → ok a ≡ ok b → a ≡ b
ok-eq a b e = cc e

-- The check after each call of the core.
pub key_of_hex-length :
    (e : Failure) (hex : Text) (sk : List ℕ) → key_of_hex e hex ≡ ok sk → length sk ≡ 32
key_of_hex-length e hex sk h =
    let (key, (_, rest)) = >>=-inversion (hex_to_bytes hex) _ h in
    let (test, same) = checked (length key == 32) e (ok key) sk rest in
    omega (arith, (==_iff (length key) 32).0 test, ap length (ok-eq key sk same))

parse_pairs-length : (s : Text) (bs : List ℕ) → parse_pairs s ≡ ok bs → length s ≡ 2 * length bs
unfolding parse_pairs
parse_pairs-length [] bs h = omega (arith, ap length (ok-eq [] bs h))
parse_pairs-length (c ∷ []) bs h = cc h
parse_pairs-length (c ∷ d ∷ s) bs h =
    let (rest, (parsed, made)) = >>=-inversion (parse_pairs s) _ h in
    omega
      (arith, parse_pairs-length s rest parsed, ap length (ok-eq (parse_byte c d ∷ rest) bs made))

digit-IsInk : (c : ℕ) → is_hex_digit c ≡ true → IsInk c
unfolding digit_value
digit-IsInk c h = ground arith

digits-IsInk : (s : Text) → all is_hex_digit s ≡ true → All IsInk s
digits-IsInk [] h = tt
digits-IsInk (c ∷ s) h = elim (Bool-cases (is_hex_digit c)) [
  | inl e ↦ (digit-IsInk c e, digits-IsInk s (rw e at h))
  | inr e ↦ cc (rw e at h)
]

raw_key-length :
    (words : Text) (sk : List ℕ)
    → is_raw_key words ≡ true
    → hex_to_bytes words ≡ ok sk
    → length sk ≡ 32
unfolding is_raw_key hex_to_bytes
raw_key-length words sk raw h = elim (Bool-cases (length words == 64)) [
  | inl len ↦
      let ink : All IsInk words = digits-IsInk words (rw len at raw) in
      omega (
        arith,
        (==_iff (length words) 64).0 len,
        parse_pairs-length words sk (rw (trim-ink words ink) at h),
      )
  | inr e ↦ cc (rw e at raw)
]

-- Whatever `unlockMailboxKey` returns, from a raw key or from a phrase, has 32 bytes.
pub unlock_mailbox_key-length :
    (core : Core) (atob : Text → Option (List ℕ)) (mnemonic mailbox_id wrapped : Text) (sk : List ℕ)
    → unlock_mailbox_key core atob mnemonic mailbox_id wrapped ≡ ok sk
    → length sk ≡ 32
unfolding unlock_mailbox_key
unlock_mailbox_key-length core atob mnemonic mailbox_id wrapped sk h =
    elim (Bool-cases (is_empty (trim mnemonic))) [
      | inl e ↦ cc (rw e at h)
      | inr e ↦ elim (Bool-cases (is_raw_key (trim mnemonic))) [
        | inl raw ↦ raw_key-length (trim mnemonic) sk raw (rw (e, raw) at h)
        | inr raw ↦
            let (root, (_, h1)) =
              >>=-inversion (call core_failed (core.recover_root_secret (trim mnemonic))) _
                (rw (e, raw) at h) in
            let (bytes, (_, h2)) = >>=-inversion (base64_to_bytes atob wrapped) _ h1 in
            let (id, (_, h3)) = >>=-inversion (mailbox_id_hex mailbox_id) _ h2 in
            let (hex, (_, h4)) =
              >>=-inversion
                (call core_failed (core.unwrap_mailbox_key root (bytes_to_hex bytes) id)) _ h3 in
            key_of_hex-length _ hex sk h4
      ]
    ]
