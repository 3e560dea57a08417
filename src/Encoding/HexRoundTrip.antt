-- ===== src/Encoding/HexRoundTrip.antt =====
-- Hexadecimal text of bytes and back (attachment_crypto.ts).
use byos_email.Base.{
  ℕ, ◌+◌, ◌*◌, ◌/◌, ◌%◌, ◌<◌, ◌≡◌, refl, ap, false, some, List, [], ◌∷◌, All, leb, arith,
  Bool-cases, inl, inr,
}
use byos_email.Base.Text.{Text, trim, trim_start, trim_end, is_blank}
use byos_email.Encoding.{
  ok, hex_digit, hex_of_byte, bytes_to_hex, digit_value, parse_byte, parse_pairs, hex_to_bytes,
}

abbrev pub IsByte : ℕ → Type 0
IsByte b = b < 256

abbrev pub IsInk : ℕ → Type 0
IsInk c = is_blank c ≡ false

pub trim_end-ink : (s : Text) → All IsInk s → trim_end s ≡ s
unfolding trim_end
trim_end-ink [] h = refl
trim_end-ink (c ∷ []) (h, _) = rw h refl
trim_end-ink (c ∷ d ∷ s) (h, hs) = rw (trim_end-ink (d ∷ s) hs) refl

-- A text without blanks is left alone by `trim`.
pub trim-ink : (s : Text) → All IsInk s → trim s ≡ s
unfolding trim trim_start
trim-ink [] h = unfold trim_end in refl
trim-ink (c ∷ s) (h, hs) = rw h (trim_end-ink (c ∷ s) (h, hs))

pub digit_value-hex_digit : (d : ℕ) → d < 16 → digit_value (hex_digit d) ≡ some d
unfolding digit_value hex_digit
digit_value-hex_digit d h = ground arith

pub hex_digit-IsInk : (d : ℕ) → d < 16 → IsInk (hex_digit d)
unfolding hex_digit
hex_digit-IsInk d h = ground arith

-- The two digits of a byte, the padding included.
pub hex_of_byte-digits :
    (b : ℕ) → IsByte b → hex_of_byte b ≡ hex_digit (b / 16) ∷ hex_digit (b % 16) ∷ []
unfolding hex_of_byte
hex_of_byte-digits b h = elim (Bool-cases (leb b 15)) [
  | inl e ↦
      let small : b / 16 ≡ 0 = ground arith in
      let same : b % 16 ≡ b = ground arith in rw (e, small, same) (unfold hex_digit in refl)
  | inr e ↦ rw e refl
]

parse_byte-digits :
    (hi lo : ℕ) → hi < 16 → lo < 16 → parse_byte (hex_digit hi) (hex_digit lo) ≡ hi * 16 + lo
unfolding parse_byte
parse_byte-digits hi lo h k =
    rw (parse_byte, digit_value-hex_digit hi h, digit_value-hex_digit lo k) refl

pub bytes_to_hex-IsInk : (bs : List ℕ) → All IsByte bs → All IsInk (bytes_to_hex bs)
unfolding bytes_to_hex
bytes_to_hex-IsInk [] h = tt
bytes_to_hex-IsInk (b ∷ bs) (h, hs) = rw (hex_of_byte-digits b h) (
  hex_digit-IsInk (b / 16) (omega arith),
  (hex_digit-IsInk (b % 16) (omega arith), bytes_to_hex-IsInk bs hs),
)

pub parse_pairs-bytes_to_hex : (bs : List ℕ) → All IsByte bs → parse_pairs (bytes_to_hex bs) ≡ ok bs
unfolding parse_pairs bytes_to_hex
parse_pairs-bytes_to_hex [] h = refl
parse_pairs-bytes_to_hex (b ∷ bs) (h, hs) =
    let whole : b / 16 * 16 + b % 16 ≡ b = omega arith in
    rw
      (
        hex_of_byte-digits b h,
        parse_pairs-bytes_to_hex bs hs,
        parse_byte-digits (b / 16) (b % 16) (omega arith) (omega arith),
        whole,
      )
      refl

-- Reading the hexadecimal text of some bytes gives those bytes and does not throw.
pub hex-roundtrip : (bs : List ℕ) → All IsByte bs → hex_to_bytes (bytes_to_hex bs) ≡ ok bs
unfolding hex_to_bytes
hex-roundtrip bs h =
    rw (trim-ink (bytes_to_hex bs) (bytes_to_hex-IsInk bs h)) (parse_pairs-bytes_to_hex bs h)

ok-injective : {A : Type 0} (a b : A) → ok a ≡ ok b → a ≡ b
ok-injective a b e = cc e

-- Bytes with the same text are the same.
pub bytes_to_hex-injective :
    (xs ys : List ℕ) → All IsByte xs → All IsByte ys → bytes_to_hex xs ≡ bytes_to_hex ys → xs ≡ ys
bytes_to_hex-injective xs ys hx hy e =
    ok-injective xs ys (cc (hex-roundtrip xs hx, hex-roundtrip ys hy, ap hex_to_bytes e))
