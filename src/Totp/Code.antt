-- ===== src/Totp/Code.antt =====
-- The counter, the dynamic truncation and the six digits (totp.ts).
use byos_email.Base.{
  ℕ, zero, suc, ◌+◌, ◌*◌, ◌/◌, ◌%◌, ◌^◌, ◌<◌, ◌≤◌, ◌≡◌, refl, ap, ◌∙◌, Option, some, List, [], ◌∷◌,
  length, All, arith,
}
use byos_email.Base.Text.{Text}
use byos_email.Base.Decimal.{decimal, length-decimal, length-pad_start}
use byos_email.Totp.{
  counter_buffer, get_uint32, last_or_zero, truncate, masked, text_of_binary, code_of_hash,
  otp_text, compute_totp_code, base32_to_bytes,
}
use byos_email.Totp.Base32.{IsByte}

-- The number that bytes stand for, the highest first.
abbrev pub be_value : ℕ → List ℕ → ℕ
be_value acc [] = acc
be_value acc (b ∷ bs) = be_value (acc * 256 + b) bs

-- The eight bytes are bytes, and they hold the counter.
counter_buffer-value :
    (counter : ℕ)
    → counter < 2 ^ 64
    → (be_value 0 (counter_buffer counter) ≡ counter) × All IsByte (counter_buffer counter)
unfolding counter_buffer
counter_buffer-value counter h = omega arith

get_uint32-within :
    (hash : List ℕ) (offset : ℕ)
    → offset + 4 ≤ length hash
    → (w : ℕ) × (get_uint32 hash offset ≡ some w)
unfolding get_uint32
get_uint32-within [] offset h = absurd (omega arith)
get_uint32-within (a ∷ s) (suc offset) h = get_uint32-within s offset (omega arith)
get_uint32-within (a ∷ b ∷ c ∷ d ∷ s) zero h = (_, refl)
get_uint32-within (a ∷ []) zero h = absurd (omega arith)
get_uint32-within (a ∷ b ∷ []) zero h = absurd (omega arith)
get_uint32-within (a ∷ b ∷ c ∷ []) zero h = absurd (omega arith)

truncate-total : (hash : List ℕ) → length hash ≡ 20 → (w : ℕ) × (truncate hash ≡ some w)
unfolding truncate
truncate-total hash h =
    let (w, e) = get_uint32-within hash (last_or_zero hash % 16) (omega arith) in
    (w % 2 ^ 31, ap masked e)

length-otp_text : (binary : ℕ) → length (otp_text binary) ≡ 6
unfolding otp_text
length-otp_text binary =
    length-pad_start 6 48 (decimal (binary % 1000000))
      (length-decimal (binary % 1000000) 6 (omega arith) (omega arith))

module _ (sign : List ℕ → List ℕ → Option (List ℕ)) where
  -- If the signature of the counter is made and has the 20 bytes of SHA-1, a code comes out (the
  -- truncation reads inside the signature), and it has six characters.
  pub compute_totp_code-total :
      (secret : Text) (time : ℕ) (hash : List ℕ)
      → sign (base32_to_bytes secret) (counter_buffer (time / 30)) ≡ some hash
      → length hash ≡ 20
      → (code : Text) × (compute_totp_code sign secret time ≡ some code) × (length code ≡ 6)
  unfolding compute_totp_code
  compute_totp_code-total secret time hash e h =
      let (w, t) = truncate-total hash h in
      (otp_text w, ap code_of_hash e ∙ ap text_of_binary t, length-otp_text w)
