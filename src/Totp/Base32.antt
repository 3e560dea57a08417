-- ===== src/Totp/Base32.antt =====
-- Encoding and decoding of a secret (totp.ts).
use byos_email.Base.{
  ℕ, zero, suc, ◌+◌, ◌-◌, ◌*◌, ◌/◌, ◌%◌, ◌^◌, ◌<◌, ◌≤◌, ==_iff, ◌≡◌, refl, ap, ap₂, Bool, true,
  false, not, ◌&&◌, ◌||◌, Option, none, some, List, [], ◌∷◌, ◌++◌, ltb, ◌==◌, if◌then◌else◌, All,
  arith, leb, Bool-cases, inl, inr,
}
use byos_email.Base.Text.{Text, is_blank, to_upper_case, upper_unit}
use byos_email.Totp.{
  symbol, index_of, word_mod, emitted, left_over, encode_from, generate_totp_secret, clean_base32,
  decode_from, base32_to_bytes,
}

-- Whether a test passes from a number down to 0.
passes_to : (ℕ → Bool) → ℕ → Bool
passes_to test zero = test 0
passes_to test (suc top) = if test (suc top) then passes_to test top else false

below_of_other : (top i : ℕ) → i ≤ suc top → (i == suc top) ≡ false → i ≤ top
below_of_other top i le other = ground (arith, ==_iff i (suc top))

test_of_passes : (test : ℕ → Bool) (top i : ℕ) → i ≤ top → passes_to test top ≡ true → test i ≡ true
unfolding passes_to
test_of_passes test zero i le ok = let at_zero : i ≡ 0 = omega arith in rw at_zero ok
test_of_passes test (suc top) i le ok = elim (Bool-cases (test (suc top))) [
  | inl here ↦ elim (Bool-cases (i == suc top)) [
    | inl last ↦ rw ((==_iff i (suc top)).0 last) here
    | inr other ↦ test_of_passes test top i (below_of_other top i le other) (rw here at ok)
  ]
  | inr here ↦ cc (rw here at ok)
]

is_index : ℕ → Option ℕ → Bool
is_index i none = false
is_index i (some j) = j == i

-- The symbols are found again, are kept by the cleaning and are their own upper case.
symbol_fits : ℕ → Bool
symbol_fits i =
    is_index i (index_of (symbol i))
    && (not (is_blank (symbol i) || symbol i == b'=') && (upper_unit (symbol i) == symbol i))

symbol_table : passes_to symbol_fits 31 ≡ true
unfolding passes_to symbol_fits is_index index_of symbol
symbol_table = refl

some_of_is_index : (i : ℕ) (o : Option ℕ) → is_index i o ≡ true → o ≡ some i
unfolding is_index
some_of_is_index i none h = cc
some_of_is_index i (some j) h = ground arith

module _ (i : ℕ) (h : i < 32) where
  fits : symbol_fits i ≡ true
  fits = test_of_passes symbol_fits 31 i (omega arith) symbol_table

  index_of-symbol : index_of (symbol i) ≡ some i
  unfolding symbol_fits
  index_of-symbol = some_of_is_index i (index_of (symbol i)) (ground (arith, fits))

  pub symbol-kept : (is_blank (symbol i) || symbol i == b'=') ≡ false
  unfolding symbol_fits
  symbol-kept = ground (arith, fits)

  pub symbol-upper : upper_unit (symbol i) ≡ symbol i
  unfolding symbol_fits
  symbol-upper = ground (arith, fits)

  -- Where the decoder reads a symbol.
  decode_symbol :
      (bits value : ℕ) (s : Text)
      → decode_from bits value (symbol i ∷ s) ≡ (
          let value' = (value * 32) % word_mod + i in
          let full = leb 8 (bits + 5) in
          let rest = decode_from (if full then bits + 5 - 8 else bits + 5) value' s in
          if full then (value' / 2 ^ (bits + 5 - 8)) % 256 ∷ rest else rest)
  unfolding decode_from
  decode_symbol bits value s = rw (index_of-symbol, decode_from)

abbrev pub IsByte : ℕ → Type 0
IsByte b = b < 256

-- The bits that the decoder holds and those that the encoder holds make up the byte `p`, which is
-- not yet decoded, where the encoder holds any; otherwise neither holds a bit.
abbrev Split : ℕ → ℕ → ℕ → ℕ → Type 0
Split zero v w p = Unit
Split (suc zero) v w p = (w % 128) * 2 + v % 2 ≡ p
Split (suc (suc zero)) v w p = (w % 64) * 4 + v % 4 ≡ p
Split (suc (suc (suc zero))) v w p = (w % 32) * 8 + v % 8 ≡ p
Split (suc (suc (suc (suc zero)))) v w p = (w % 16) * 16 + v % 16 ≡ p
Split _ v w p = ⊥

-- The bits that the decoder holds.
abbrev held : ℕ → ℕ
held zero = 0
held (suc b) = 7 - b

abbrev owed : ℕ → ℕ → List ℕ → List ℕ
owed zero p bytes = bytes
owed (suc b) p bytes = p ∷ bytes

decode-encode_from :
    (bytes : List ℕ) (b v w p : ℕ)
    → Split b v w p
    → All IsByte bytes
    → decode_from (held b) w (encode_from b v bytes) ≡ owed b p bytes
unfolding encode_from emitted left_over
decode-encode_from [] zero v w p h bs = unfold decode_from in refl
decode-encode_from [] (suc zero) v w p h bs =
    rw (decode_symbol ((v * 16) % word_mod % 32) (omega arith) 7 w [])
      (unfold decode_from in ap (λ x. x ∷ []) (omega arith))
decode-encode_from [] (suc (suc zero)) v w p h bs =
    rw (decode_symbol ((v * 8) % word_mod % 32) (omega arith) 6 w [])
      (unfold decode_from in ap (λ x. x ∷ []) (omega arith))
decode-encode_from [] (suc (suc (suc zero))) v w p h bs =
    rw (decode_symbol ((v * 4) % word_mod % 32) (omega arith) 5 w [])
      (unfold decode_from in ap (λ x. x ∷ []) (omega arith))
decode-encode_from [] (suc (suc (suc (suc zero)))) v w p h bs =
    rw (decode_symbol ((v * 2) % word_mod % 32) (omega arith) 4 w [])
      (unfold decode_from in ap (λ x. x ∷ []) (omega arith))
decode-encode_from (x ∷ xs) zero v w p h (b, bs) =
    let v' : ℕ = (v * 256) % word_mod + x in
    let i0 : ℕ = (v' / 8) % 32 in
    let w0 : ℕ = (w * 32) % word_mod + i0 in
    rw (decode_symbol i0 (omega arith) 0 w _) (decode-encode_from xs 3 v' w0 x (omega arith) bs)
decode-encode_from (x ∷ xs) (suc zero) v w p h (b, bs) =
    let v' : ℕ = (v * 256) % word_mod + x in
    let i0 : ℕ = (v' / 16) % 32 in
    let w0 : ℕ = (w * 32) % word_mod + i0 in
    rw (decode_symbol i0 (omega arith) 7 w _)
      (ap₂ ◌∷◌ (omega arith) (decode-encode_from xs 4 v' w0 x (omega arith) bs))
decode-encode_from (x ∷ xs) (suc (suc zero)) v w p h (b, bs) =
    let v' : ℕ = (v * 256) % word_mod + x in
    let i0 : ℕ = (v' / 32) % 32 in
    let w0 : ℕ = (w * 32) % word_mod + i0 in
    let i1 : ℕ = (v' / 1) % 32 in
    let w1 : ℕ = (w0 * 32) % word_mod + i1 in
    rw (decode_symbol i0 (omega arith) 6 w _) (
      ap₂ ◌∷◌ (omega arith) (
        rw (decode_symbol i1 (omega arith) 3 w0 _)
          (ap₂ ◌∷◌ (omega arith) (decode-encode_from xs 0 v' w1 x tt bs))))
decode-encode_from (x ∷ xs) (suc (suc (suc zero))) v w p h (b, bs) =
    let v' : ℕ = (v * 256) % word_mod + x in
    let i0 : ℕ = (v' / 64) % 32 in
    let w0 : ℕ = (w * 32) % word_mod + i0 in
    let i1 : ℕ = (v' / 2) % 32 in
    let w1 : ℕ = (w0 * 32) % word_mod + i1 in
    rw (decode_symbol i0 (omega arith) 5 w _) (
      ap₂ ◌∷◌ (omega arith) (
        rw (decode_symbol i1 (omega arith) 2 w0 _)
          (decode-encode_from xs 1 v' w1 x (omega arith) bs)))
decode-encode_from (x ∷ xs) (suc (suc (suc (suc zero)))) v w p h (b, bs) =
    let v' : ℕ = (v * 256) % word_mod + x in
    let i0 : ℕ = (v' / 128) % 32 in
    let w0 : ℕ = (w * 32) % word_mod + i0 in
    let i1 : ℕ = (v' / 4) % 32 in
    let w1 : ℕ = (w0 * 32) % word_mod + i1 in
    rw (decode_symbol i0 (omega arith) 4 w _) (
      ap₂ ◌∷◌ (omega arith) (
        rw (decode_symbol i1 (omega arith) 1 w0 _)
          (decode-encode_from xs 2 v' w1 x (omega arith) bs)))
decode-encode_from [] (suc (suc (suc (suc (suc _))))) v w p h bs = elim h [ ]
decode-encode_from (x ∷ xs) (suc (suc (suc (suc (suc _))))) v w p h bs = elim h [ ]

-- A character that the cleaning of the decoder leaves alone.
abbrev IsKept : ℕ → Type 0
IsKept c = ((is_blank c || c == b'=') ≡ false) × (upper_unit c ≡ c)

IsKept-symbol : (i : ℕ) → i < 32 → IsKept (symbol i)
IsKept-symbol i h = (symbol-kept i h, symbol-upper i h)

All-append : (s t : Text) → All IsKept s → All IsKept t → All IsKept (s ++ t)
All-append [] t h k = k
All-append (c ∷ s) t (p, h) k = (p, All-append s t h k)

emitted-IsKept : (bits value : ℕ) → All IsKept (emitted bits value)
unfolding emitted
emitted-IsKept (suc (suc (suc (suc (suc bits))))) value =
    (IsKept-symbol ((value / 2 ^ bits) % 32) (omega arith), emitted-IsKept bits value)
emitted-IsKept zero value = tt
emitted-IsKept (suc zero) value = tt
emitted-IsKept (suc (suc zero)) value = tt
emitted-IsKept (suc (suc (suc zero))) value = tt
emitted-IsKept (suc (suc (suc (suc zero)))) value = tt

encode_from-IsKept : (bits value : ℕ) (bytes : List ℕ) → All IsKept (encode_from bits value bytes)
unfolding encode_from
encode_from-IsKept bits value [] = elim (Bool-cases (ltb 0 bits)) [
  | inl e ↦ rw e (IsKept-symbol ((value * 2 ^ (5 - bits)) % word_mod % 32) (omega arith), tt)
  | inr e ↦ rw e tt
]
encode_from-IsKept bits value (x ∷ xs) =
    All-append (emitted (bits + 8) _) _ (emitted-IsKept (bits + 8) _)
      (encode_from-IsKept (left_over (bits + 8)) _ xs)

clean_of_kept : (s : Text) → All IsKept s → clean_base32 s ≡ s
unfolding clean_base32 to_upper_case
clean_of_kept [] h = refl
clean_of_kept (c ∷ s) ((kept, up), h) = rw kept (ap₂ ◌∷◌ up (clean_of_kept s h))

-- Decoding the secret that is generated from some bytes gives those bytes.
pub base32-roundtrip :
    (bytes : List ℕ) → All IsByte bytes → base32_to_bytes (generate_totp_secret bytes) ≡ bytes
unfolding base32_to_bytes generate_totp_secret
base32-roundtrip bytes h =
    rw (clean_of_kept (encode_from 0 0 bytes) (encode_from-IsKept 0 0 bytes))
      (decode-encode_from bytes 0 0 0 0 tt h)
