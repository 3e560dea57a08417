-- ===== src/Encoding/Tests.antt =====
-- Runs of the encodings, and the theorems at concrete bytes and ids.
use byos_email.Base.{ℕ, ◌≡◌, refl, Option, none, some, List, [], ◌∷◌, All}
use byos_email.Base.Text.{Text, codes, trim}
use byos_email.Encoding.{
  Result, ok, throws, invalid_hex_length, bytes_to_hex, hex_to_bytes, mailbox_id_hex,
}
use byos_email.Encoding.HexRoundTrip.{IsByte, hex-roundtrip, trim-ink, bytes_to_hex-IsInk}

shown : bytes_to_hex (0 ∷ 171 ∷ 9 ∷ []) ≡ codes "00ab09"
unfolding bytes_to_hex
shown = refl

-- `parseInt` is lenient: a byte that is no number is 0, and a minus sign wraps around.
lenient : hex_to_bytes (codes " zz-1F ") ≡ throws invalid_hex_length
unfolding hex_to_bytes
lenient = refl

wrapped : hex_to_bytes (codes " zz-1 ") ≡ ok (0 ∷ 255 ∷ [])
unfolding hex_to_bytes
wrapped = refl

abbrev box : Text
box = codes "0000000A-0000-0000-0000-0000000000ff"

abbrev box_hex : Text
box_hex = codes "0000000a0000000000000000000000ff"

box-valid : mailbox_id_hex box ≡ ok box_hex
unfolding mailbox_id_hex
box-valid = refl

abbrev or_none : Result (List ℕ) → Option (List ℕ)
or_none (ok bs) = some bs
or_none (throws e) = none

abbrev plain_atob : Text → Option (List ℕ)
plain_atob t = or_none (hex_to_bytes t)

atob-btoa :
    (bytes : List ℕ) → All IsByte bytes → plain_atob (trim (bytes_to_hex bytes)) ≡ some bytes
atob-btoa bytes h =
    rw (trim-ink (bytes_to_hex bytes) (bytes_to_hex-IsInk bytes h), hex-roundtrip bytes h) refl
