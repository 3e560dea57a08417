-- ===== src/Encoding.antt =====
-- Bytes as text: `bytesToHex`, `hexToBytes` of apps/webmail/src/attachment_crypto.ts and `base64ToBytes`,
-- `bytesToBase64`, `mailboxIdHex` of apps/webmail/src/message_crypto.ts. A byte is a number below
-- 256, a text a list of code units; `btoa` and `atob` of the browser are parameters.
pub mod HexRoundTrip
pub mod MailboxId
pub mod Base64
mod Tests
use byos_email.Base.{
  ℕ, zero, suc, ◌≡◌, refl, ◌+◌, ◌-◌, ◌*◌, ◌/◌, ◌%◌, Bool, true, false, not, ◌&&◌, ◌||◌, Option,
  none, some, List, [], ◌∷◌, ◌++◌, if◌then◌else◌, leb, ltb, ◌==◌, filter, all, take, drop, length,
  map,
}
use byos_email.Base.Text.{Text, trim, is_blank, to_lower_case}

-- What the code throws, and `core_failed` for what the crypto core throws.
pub data Failure : Type 0 where
  invalid_hex_length invalid_mailbox_id invalid_base64 : Failure
  phrase_required unwrap_failed missing_wrapped invalid_json invalid_format : Failure
  invalid_salt_length invalid_key_length invalid_sequence core_failed : Failure

pub data Result {ℓ} (A : Type ℓ) : Type ℓ where
  ok : A → Result A
  throws : Failure → Result A

infixl 5 ◌>>=◌ ◌>>◌
abbrev pub ◌>>=◌ {ℓ κ} : {A : Type ℓ} {B : Type κ} → Result A → (A → Result B) → Result B
ok a >>= f = f a
throws e >>= f = throws e

abbrev pub ◌>>◌ {ℓ} : {B : Type ℓ} → Result (Unit {0}) → Result B → Result B
m >> k = m >>= λ _. k

-- A chain that returns has a first part that returns.
pub >>=-inversion :
    {A B : Type 0} (m : Result A) (f : A → Result B) {b : B}
    → (m >>= f) ≡ ok b
    → (a : A) × ((m ≡ ok a) × (f a ≡ ok b))
>>=-inversion (ok a) f h = (a, (refl, h))
>>=-inversion (throws e) f h = cc h

-- `if (!test) throw failure`
abbrev pub check : Bool → Failure → Result (Unit {0})
check true e = ok tt
check false e = throws e

-- A call that returns a value or throws.
abbrev pub call {ℓ} : {A : Type ℓ} → Failure → Option A → Result A
call e none = throws e
call e (some a) = ok a

-- The digit of a number below 16, as `toString(16)` writes it.
unfoldable pub hex_digit : ℕ → ℕ
hex_digit d = if leb d 9 then b'0' + d else b'a' + (d - 10)

-- `b.toString(16).padStart(2, "0")`
unfoldable pub hex_of_byte : ℕ → Text
unfolding hex_digit
hex_of_byte b =
    if leb b 15 then b'0' ∷ hex_digit b ∷ [] else hex_digit (b / 16) ∷ hex_digit (b % 16) ∷ []

unfoldable pub bytes_to_hex : List ℕ → Text
unfolding hex_of_byte
bytes_to_hex [] = []
bytes_to_hex (b ∷ bs) = hex_of_byte b ++ bytes_to_hex bs

-- The value of a hexadecimal digit.
unfoldable pub digit_value : ℕ → Option ℕ
digit_value c =
    if leb b'0' c && leb c b'9'
    then some (c - b'0')
    else if leb b'a' c && leb c b'f'
    then some (c - b'a' + 10)
    else if leb b'A' c && leb c b'F'
    then some (c - b'A' + 10)
    else none

-- A number that the digit after white space or a sign gives, and NaN, which a byte array holds as 0.
abbrev pub or_nan : Option ℕ → ℕ
or_nan none = 0
or_nan (some d) = d

-- `parseInt` of two characters in base 16, as the byte array holds it: it stops at the first
-- character that is no digit, after white space and a sign; a negative number wraps around.
unfoldable pub parse_byte : ℕ → ℕ → ℕ
unfolding digit_value
parse_byte c d = elim (digit_value c) [
  | some hi ↦ elim (digit_value d) [ some lo ↦ hi * 16 + lo | none ↦ hi ]
  | none ↦
      if is_blank c || c == b'+'
      then or_nan (digit_value d)
      else if c == b'-'
      then (256 - or_nan (digit_value d)) % 256
      else 0
]

unfoldable pub parse_pairs : Text → Result (List ℕ)
unfolding parse_byte
parse_pairs [] = ok []
parse_pairs (c ∷ []) = throws invalid_hex_length
parse_pairs (c ∷ d ∷ s) = do let rest = parse_pairs s; bs ← rest; ok (parse_byte c d ∷ bs)

-- An odd length is refused before any byte is read, which is when a last pair lacks its second half.
unfoldable pub hex_to_bytes : Text → Result (List ℕ)
unfolding parse_pairs trim
hex_to_bytes hex = parse_pairs (trim hex)

-- `[0-9a-f]`
unfoldable pub is_lower_hex : ℕ → Bool
is_lower_hex c = leb b'0' c && leb c b'9' || leb b'a' c && leb c b'f'

unfoldable pub mailbox_id_hex : Text → Result Text
unfolding is_lower_hex to_lower_case
mailbox_id_hex id = do
  let hex = to_lower_case (filter (λ c. not (c == b'-')) id)
  check (length hex == 32 && all is_lower_hex hex) invalid_mailbox_id
  ok hex

-- The binary string in pieces of 0x8000 characters; `fuel` bounds the number of pieces.
pub chunks : ℕ → List ℕ → List (List ℕ)
chunks zero bytes = []
chunks (suc fuel) [] = []
chunks (suc fuel) (b ∷ bytes) = take 32768 (b ∷ bytes) ∷ chunks fuel (drop 32768 (b ∷ bytes))

-- `chars.join("")`
abbrev pub join : List (List ℕ) → List ℕ
join [] = []
join (c ∷ cs) = c ++ join cs

module _ (btoa : List ℕ → Text) where
  unfoldable pub bytes_to_base64 : List ℕ → Text
  unfolding chunks
  bytes_to_base64 bytes = btoa (join (chunks (length bytes) bytes))

module _ (atob : Text → Option (List ℕ)) where
  unfoldable pub base64_to_bytes : Text → Result (List ℕ)
  unfolding trim
  base64_to_bytes b64 = call invalid_base64 (atob (trim b64))
