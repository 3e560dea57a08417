-- ===== src/Encoding/Base64.antt =====
-- `bytesToBase64` in pieces and `base64ToBytes` (message_crypto.ts).
use byos_email.Base.{
  ℕ, zero, suc, ◌≤◌, ◌≡◌, refl, Option, some, List, [], ◌∷◌, All, arith, length, drop,
  take-append-drop,
}
use byos_email.Base.Text.{Text, trim}
use byos_email.Encoding.{ok, chunks, join, bytes_to_base64, base64_to_bytes}
use byos_email.Encoding.HexRoundTrip.{IsByte}

length-drop : (n : ℕ) (xs : List ℕ) → length (drop n xs) ≤ length xs
length-drop zero xs = omega arith
length-drop (suc n) [] = omega arith
length-drop (suc n) (x ∷ xs) = omega (arith, length-drop n xs)

-- With fuel for one piece a byte, the pieces join to the bytes.
pub join-chunks :
    (fuel : ℕ) (bytes : List ℕ) → length bytes ≤ fuel → join (chunks fuel bytes) ≡ bytes
unfolding chunks
join-chunks zero [] h = refl
join-chunks zero (b ∷ bytes) h = ground arith
join-chunks (suc fuel) [] h = refl
join-chunks (suc fuel) (b ∷ bytes) h =
    rw (join-chunks fuel (drop 32767 bytes) (omega (arith, length-drop 32767 bytes)))
      (take-append-drop 32768 (b ∷ bytes))

module _ (btoa : List ℕ → Text) (atob : Text → Option (List ℕ))
    (atob-btoa : (bytes : List ℕ) → All IsByte bytes → atob (trim (btoa bytes)) ≡ some bytes) where
  -- Where `atob` undoes `btoa`, the bytes written in pieces are read back.
  pub base64-roundtrip :
      (bytes : List ℕ)
      → All IsByte bytes
      → base64_to_bytes atob (bytes_to_base64 btoa bytes) ≡ ok bytes
  unfolding bytes_to_base64 base64_to_bytes
  base64-roundtrip bytes h =
      rw (join-chunks (length bytes) bytes (omega arith), atob-btoa bytes h) refl
