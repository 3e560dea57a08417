-- ===== src/Totp.antt =====
-- Time-based one-time passwords, apps/webmail/src/utils/totp.ts. The 32-bit words of JavaScript's
-- shifts are numbers below 2 ^ 32; `(value << 8) | byte` is a sum, since the low bits are free.
pub mod Base32
pub mod Format
pub mod Code
pub mod Window
mod Tests
use byos_email.Base.{
  ℕ, zero, suc, ◌+◌, ◌-◌, ◌*◌, ◌/◌, ◌%◌, ◌^◌, Bool, true, false, not, ◌&&◌, ◌||◌, Option, none,
  some, List, [], ◌∷◌, ◌++◌, leb, ltb, ◌==◌, if◌then◌else◌, map, filter, length, get_elem?, take,
  find_index,
}
use byos_email.Base.Text.{Text, codes, text_eq, is_blank, trim, to_upper_case}
use byos_email.Base.Decimal.{decimal, pad_start}

abbrev pub base32_alphabet : Text
base32_alphabet = codes "ABCDEFGHIJKLMNOPQRSTUVWXYZ234567"

-- `BASE32_ALPHABET[i]`
unfoldable pub symbol : ℕ → ℕ
symbol i = elim (get_elem? base32_alphabet i) [ none ↦ 0 | some c ↦ c ]

-- `BASE32_ALPHABET.indexOf(c)`, `none` for -1
unfoldable pub index_of : ℕ → Option ℕ
index_of c = find_index (λ d. d == c) base32_alphabet

abbrev pub word_mod : ℕ
word_mod = 2 ^ 32

-- The loop `while (bits >= 5)`: what it appends, and the bits that it leaves.
unfoldable pub emitted : ℕ → ℕ → Text
emitted (suc (suc (suc (suc (suc bits))))) value =
    symbol ((value / 2 ^ bits) % 32) ∷ emitted bits value
emitted _ value = []

unfoldable pub left_over : ℕ → ℕ
left_over (suc (suc (suc (suc (suc bits))))) = left_over bits
left_over bits = bits

-- The loop of `generateTOTPSecret` over the random bytes, from `bits` and `value` on.
pub encode_from : ℕ → ℕ → List ℕ → Text
encode_from bits value [] =
    if ltb 0 bits then symbol ((value * 2 ^ (5 - bits)) % word_mod % 32) ∷ [] else []
encode_from bits value (byte ∷ bytes) =
    let value' = (value * 256) % word_mod + byte in
    emitted (bits + 8) value' ++ encode_from (left_over (bits + 8)) value' bytes

-- `generateTOTPSecret`, with the bytes that `getRandomValues` gave
unfoldable pub generate_totp_secret : List ℕ → Text
unfolding encode_from emitted left_over symbol
generate_totp_secret bytes = encode_from 0 0 bytes

-- Slices of four.
pub chunks : Text → List Text
chunks [] = []
chunks (a ∷ b ∷ c ∷ d ∷ s) = (a ∷ b ∷ c ∷ d ∷ []) ∷ chunks s
chunks s = s ∷ []

-- `chunks.join(" ")`
pub join_blank : List Text → Text
join_blank [] = []
join_blank (s ∷ []) = s
join_blank (s ∷ t ∷ ts) = s ++ 32 ∷ join_blank (t ∷ ts)

unfoldable pub format_totp_secret : Text → Text
unfolding chunks join_blank to_upper_case
format_totp_secret secret =
    join_blank (chunks (to_upper_case (filter (λ c. not (is_blank c)) secret)))

-- `base32.replace(/[\s=]/g, "").toUpperCase()`
unfoldable pub clean_base32 : Text → Text
unfolding to_upper_case
clean_base32 s = to_upper_case (filter (λ c. not (is_blank c || c == b'=')) s)

pub decode_from : ℕ → ℕ → Text → List ℕ
decode_from bits value [] = []
decode_from bits value (c ∷ s) = elim (index_of c) [
  | none ↦ decode_from bits value s
  | some idx ↦
      let value' = (value * 32) % word_mod + idx in
      let full = leb 8 (bits + 5) in
      let rest = decode_from (if full then bits + 5 - 8 else bits + 5) value' s in
      if full then (value' / 2 ^ (bits + 5 - 8)) % 256 ∷ rest else rest
]

unfoldable pub base32_to_bytes : Text → List ℕ
unfolding decode_from clean_base32 index_of
base32_to_bytes s = decode_from 0 0 (clean_base32 s)

-- `setUint32(offset, n, false)`
abbrev pub be32 : ℕ → List ℕ
be32 n = (n / 2 ^ 24) % 256 ∷ (n / 2 ^ 16) % 256 ∷ (n / 2 ^ 8) % 256 ∷ n % 256 ∷ []

-- The eight bytes of the counter.
unfoldable pub counter_buffer : ℕ → List ℕ
counter_buffer counter = be32 ((counter / 2 ^ 32) % 2 ^ 32) ++ be32 (counter % 2 ^ 32)

abbrev pub first_word : List ℕ → Option ℕ
first_word (a ∷ b ∷ c ∷ d ∷ _) = some (a * 2 ^ 24 + b * 2 ^ 16 + c * 2 ^ 8 + d)
first_word _ = none

-- `getUint32(0, false)` on four bytes from `offset`, `none` where the DataView is out of range
unfoldable pub get_uint32 : List ℕ → ℕ → Option ℕ
get_uint32 [] offset = none
get_uint32 (a ∷ s) (suc offset) = get_uint32 s offset
get_uint32 (a ∷ s) zero = first_word (a ∷ s)

abbrev pub last_or_zero : List ℕ → ℕ
last_or_zero [] = 0
last_or_zero (x ∷ []) = x
last_or_zero (x ∷ y ∷ ys) = last_or_zero (y ∷ ys)

-- `word & 0x7fffffff`
abbrev pub masked : Option ℕ → Option ℕ
masked none = none
masked (some word) = some (word % 2 ^ 31)

-- The dynamic truncation of a signature, and the six digits.
unfoldable pub truncate : List ℕ → Option ℕ
unfolding get_uint32
truncate hash = masked (get_uint32 hash (last_or_zero hash % 16))

unfoldable pub otp_text : ℕ → Text
unfolding decimal pad_start
otp_text binary = pad_start 6 48 (decimal (binary % 1000000))

abbrev pub text_of_binary : Option ℕ → Option Text
text_of_binary none = none
text_of_binary (some binary) = some (otp_text binary)

abbrev pub code_of_hash : Option (List ℕ) → Option Text
code_of_hash none = none
code_of_hash (some hash) = text_of_binary (truncate hash)

-- `crypto.subtle`: the HMAC-SHA-1 of a message under a key, `none` where a call rejects.
module _ (sign : List ℕ → List ℕ → Option (List ℕ)) where
  unfoldable pub compute_totp_code : Text → ℕ → Option Text
  unfolding base32_to_bytes counter_buffer truncate otp_text
  compute_totp_code secret time =
      code_of_hash (sign (base32_to_bytes secret) (counter_buffer (time / 30)))

  -- The loop over the windows: a rejected call is passed over.
  abbrev pub any_window : Text → Text → List ℕ → Bool
  any_window secret code [] = false
  any_window secret code (t ∷ ts) =
      elim (compute_totp_code secret t) [ none ↦ false | some expected ↦ text_eq expected code ]
      || any_window secret code ts

  -- `verifyTOTPClient` at the time `now`, in seconds
  unfoldable pub verify_totp_client : Text → Text → ℕ → Bool
  verify_totp_client secret code now =
      if not (length (trim code) == 6)
      then false
      else any_window secret (trim code) (now ∷ (now - 30) ∷ (now + 30) ∷ [])
