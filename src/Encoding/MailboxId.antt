-- ===== src/Encoding/MailboxId.antt =====
-- What `mailboxIdHex` accepts and returns (message_crypto.ts), and the 16 bytes that it stands for.
use byos_email.Base.{
  ℕ, zero, suc, ◌+◌, ◌-◌, ◌*◌, ◌<◌, ◌≡◌, refl, ap₂, Bool, true, false, not, ◌&&◌, some, List, [],
  ◌∷◌, All, all, filter, leb, arith, Bool-cases, inl, inr, subst, ◌==◌, length,
}
use byos_email.Base.Text.{Text, to_lower_case, lower_unit}
use byos_email.Encoding.{
  ok, invalid_mailbox_id, ◌>>◌, check, is_lower_hex, mailbox_id_hex, hex_to_bytes, digit_value,
  parse_byte, parse_pairs,
}
use byos_email.Encoding.HexRoundTrip.{IsByte, IsInk, trim-ink}

-- The length and the alphabet that `/^[0-9a-f]{32}$/` asks for.
abbrev pub IsIdHex : Text → Type 0
IsIdHex hex = (length hex ≡ 32) × All (λ c. is_lower_hex c ≡ true) hex

all_of_test : (s : Text) → all is_lower_hex s ≡ true → All (λ c. is_lower_hex c ≡ true) s
all_of_test [] h = tt
all_of_test (c ∷ s) h = elim (Bool-cases (is_lower_hex c)) [
  | inl e ↦ (e, all_of_test s (rw e at h))
  | inr e ↦ cc (rw e at h)
]

test_of_all : (s : Text) → All (λ c. is_lower_hex c ≡ true) s → all is_lower_hex s ≡ true
test_of_all [] h = refl
test_of_all (c ∷ s) (h, hs) = rw (h, test_of_all s hs) refl

pub accepted :
    (hex out : Text) (b : Bool)
    → (do check b invalid_mailbox_id; ok hex) ≡ ok out
    → (b ≡ true) × (hex ≡ out)
accepted hex out true e = (refl, cc e)
accepted hex out false e = cc e

-- An id that is accepted gives 32 digits in lower case.
pub mailbox_id_hex-IsIdHex : (id hex : Text) → mailbox_id_hex id ≡ ok hex → IsIdHex hex
unfolding mailbox_id_hex
mailbox_id_hex-IsIdHex id hex h =
    let clean : Text = to_lower_case (filter (λ c. not (c == b'-')) id) in
    let (test, same) = accepted clean hex (length clean == 32 && all is_lower_hex clean) h in
    let len : length clean ≡ 32 = ground (arith, test) in
    let digits : All (λ c. is_lower_hex c ≡ true) clean =
      all_of_test clean (ground (arith, test)) in
    subst IsIdHex same (len, digits)

-- A digit is no dash, no blank and its own lower case.
digit_is_kept : (c : ℕ) → is_lower_hex c ≡ true → ((c == b'-') ≡ false) × (lower_unit c ≡ c)
unfolding is_lower_hex
digit_is_kept c h = ground arith

digit-IsInk : (c : ℕ) → is_lower_hex c ≡ true → IsInk c
unfolding is_lower_hex
digit-IsInk c h = ground arith

digits-IsInk : (s : Text) → All (λ c. is_lower_hex c ≡ true) s → All IsInk s
digits-IsInk [] h = tt
digits-IsInk (c ∷ s) (h, hs) = (digit-IsInk c h, digits-IsInk s hs)

clean-digits :
    (s : Text)
    → All (λ c. is_lower_hex c ≡ true) s
    → to_lower_case (filter (λ c. not (c == b'-')) s) ≡ s
unfolding to_lower_case
clean-digits [] h = refl
clean-digits (c ∷ s) (h, hs) =
    rw (digit_is_kept c h).0 (ap₂ ◌∷◌ (digit_is_kept c h).1 (clean-digits s hs))

-- Such a text is itself accepted and left alone.
pub mailbox_id_hex-of-IsIdHex : (hex : Text) → IsIdHex hex → mailbox_id_hex hex ≡ ok hex
unfolding mailbox_id_hex
mailbox_id_hex-of-IsIdHex hex (len, h) = rw (clean-digits hex h, len, test_of_all hex h) refl

-- Normalising an accepted mailbox id once more changes nothing.
mailbox_id_hex-idempotent :
    (id hex : Text) → mailbox_id_hex id ≡ ok hex → mailbox_id_hex hex ≡ ok hex
mailbox_id_hex-idempotent id hex h = mailbox_id_hex-of-IsIdHex hex (mailbox_id_hex-IsIdHex id hex h)

digit_value-lower :
    (c : ℕ) → is_lower_hex c ≡ true → (d : ℕ) × ((digit_value c ≡ some d) × (d < 16))
unfolding is_lower_hex digit_value
digit_value-lower c h = elim (Bool-cases (leb b'0' c && leb c b'9')) [
  | inl e ↦ (c - b'0', (rw e refl, ground arith))
  | inr e ↦
      let letter : (leb b'a' c && leb c b'f') ≡ true = ground (arith, e) in
      (c - b'a' + 10, (rw (e, letter) refl, ground arith))
]

parse_pairs-digits :
    (n : ℕ) (s : Text)
    → length s ≡ 2 * n
    → All (λ c. is_lower_hex c ≡ true) s
    → (bs : List ℕ) × ((parse_pairs s ≡ ok bs) × ((length bs ≡ n) × All IsByte bs))
unfolding parse_pairs parse_byte
parse_pairs-digits zero [] len h = ([], (refl, (refl, tt)))
parse_pairs-digits (suc n) (c ∷ d ∷ s) len (hc, (hd, hs)) =
    let (hi, (hi_value, hi_small)) = digit_value-lower c hc in
    let (lo, (lo_value, lo_small)) = digit_value-lower d hd in
    let (bs, (parsed, (count, bytes))) = parse_pairs-digits n s (omega arith) hs in
    (
      (hi * 16 + lo) ∷ bs,
      (rw (parsed, parse_byte, hi_value, lo_value) refl, (omega arith, (omega arith, bytes))),
    )
parse_pairs-digits zero (c ∷ s) len h = ground arith
parse_pairs-digits (suc n) [] len h = ground arith
parse_pairs-digits (suc n) (c ∷ []) len h = ground arith

-- The normalised id of a mailbox stands for 16 bytes.
pub mailbox_id-bytes :
    (id hex : Text)
    → mailbox_id_hex id ≡ ok hex
    → (bs : List ℕ) × ((hex_to_bytes hex ≡ ok bs) × ((length bs ≡ 16) × All IsByte bs))
unfolding hex_to_bytes
mailbox_id-bytes id hex h =
    let (len, digits) = mailbox_id_hex-IsIdHex id hex h in
    rw (trim-ink hex (digits-IsInk hex digits)) (parse_pairs-digits 16 hex len digits)
