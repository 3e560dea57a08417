-- ===== src/MailboxKey/RoundTrip.antt =====
-- Wrapping a mailbox key under a password and unwrapping it (message_crypto.ts).
use byos_email.Base.{
  ℕ, ◌*◌, ◌/◌, ◌%◌, ◌<◌, ◌≤◌, ◌≡◌, ◌∙◌, refl, ap, true, false, Option, some, List, [], ◌∷◌, ◌++◌,
  All, arith, length, ◌==◌,
}
use byos_email.Base.Text.{Text, codes, includes, is_empty}
use byos_email.Encoding.{ok, ◌>>=◌, hex_digit, bytes_to_hex}
use byos_email.Encoding.HexRoundTrip.{
  IsByte, IsInk, hex_of_byte-digits, bytes_to_hex-IsInk, trim-ink, hex-roundtrip,
}
use byos_email.Envelope.{Core}
use byos_email.MailboxKey.{
  before_colon, after_colon, salt_and_envelope, auto_unwrap_mailbox_key,
  wrap_mailbox_key_with_passphrase,
}

-- What the text of some bytes has none of.
abbrev IsNoMark : ℕ → Type 0
IsNoMark c = ((c == b':') ≡ false) × ((c == b'{') ≡ false)

hex_digit-IsNoMark : (d : ℕ) → d < 16 → IsNoMark (hex_digit d)
unfolding hex_digit
hex_digit-IsNoMark d h = ground arith

bytes_to_hex-IsNoMark : (bs : List ℕ) → All IsByte bs → All IsNoMark (bytes_to_hex bs)
unfolding bytes_to_hex
bytes_to_hex-IsNoMark [] h = tt
bytes_to_hex-IsNoMark (b ∷ bs) (h, hs) = rw (hex_of_byte-digits b h) (
  hex_digit-IsNoMark (b / 16) (omega arith),
  (hex_digit-IsNoMark (b % 16) (omega arith), bytes_to_hex-IsNoMark bs hs),
)

length-bytes_to_hex : (bs : List ℕ) → All IsByte bs → length (bytes_to_hex bs) ≡ 2 * length bs
unfolding bytes_to_hex
length-bytes_to_hex [] h = refl
length-bytes_to_hex (b ∷ bs) (h, hs) =
    rw (hex_of_byte-digits b h) (omega (arith, length-bytes_to_hex bs hs))

All-append-IsInk : (s t : Text) → All IsInk s → All IsInk t → All IsInk (s ++ t)
All-append-IsInk [] t h k = k
All-append-IsInk (c ∷ s) t (p, h) k = (p, All-append-IsInk s t h k)

before_colon-mark : (s t : Text) → All IsNoMark s → before_colon (s ++ b':' ∷ t) ≡ s
unfolding before_colon
before_colon-mark [] t h = refl
before_colon-mark (c ∷ s) t ((p, _), h) = rw p (ap (◌∷◌ c) (before_colon-mark s t h))

after_colon-mark : (s t : Text) → All IsNoMark s → after_colon (s ++ b':' ∷ t) ≡ t
unfolding after_colon
after_colon-mark [] t h = refl
after_colon-mark (c ∷ s) t ((p, _), h) = rw p (after_colon-mark s t h)

before_colon-none : (s : Text) → All IsNoMark s → before_colon s ≡ s
unfolding before_colon
before_colon-none [] h = refl
before_colon-none (c ∷ s) ((p, _), h) = rw p (ap (◌∷◌ c) (before_colon-none s h))

includes-mark : (s t : Text) → includes (s ++ b':' ∷ t) (codes ":") ≡ true
includes-mark [] t = refl
includes-mark (c ∷ s) t = ground (arith, includes-mark s t)

is_empty-append : (s : Text) (c : ℕ) (t : Text) → is_empty (s ++ c ∷ t) ≡ false
is_empty-append [] c t = refl
is_empty-append (d ∷ s) c t = refl

-- A salt and an envelope joined by a colon are told apart again.
salt_and_envelope-colon :
    (json_parse : Text → Option (Text → Option Text)) (salt envelope : Text)
    → 1 ≤ length salt
    → All IsNoMark salt
    → All IsNoMark envelope
    → salt_and_envelope json_parse (salt ++ b':' ∷ envelope) ≡ ok (salt, envelope)
unfolding salt_and_envelope
salt_and_envelope-colon json_parse [] envelope len h k = ground arith
salt_and_envelope-colon json_parse (c ∷ s) envelope len ((p, q), h) k =
    rw
      (
        q,
        includes-mark (c ∷ s) envelope,
        before_colon-mark (c ∷ s) envelope ((p, q), h),
        after_colon-mark (c ∷ s) envelope ((p, q), h),
        before_colon-none envelope k,
      )
      refl

module _ (core : Core)
    (unwraps : (nonce : List ℕ) (password : Text) (salt key : List ℕ) (envelope : Text)
      → length salt ≡ 16
      → All IsByte salt
      → All IsByte key
      → core.passphrase_wrap_key nonce password (bytes_to_hex salt) (bytes_to_hex key)
        ≡ some envelope
      → (sealed : List ℕ) × (All IsByte sealed
          × ((envelope ≡ bytes_to_hex sealed)
              × (core.passphrase_unwrap_key password (bytes_to_hex salt) envelope
                  ≡ some (bytes_to_hex key))))) where
  -- With a core that unwraps what it wrapped under the same password and salt: where the core accepts
  -- the password, a key of 32 bytes that is wrapped with a salt of 16 bytes is unwrapped at login with
  -- the same password.
  pub passphrase-roundtrip :
      (json_parse : Text → Option (Text → Option Text)) (nonce : List ℕ) (password : Text)
      (salt key : List ℕ) (envelope : Text)
      → length salt ≡ 16
      → length key ≡ 32
      → All IsByte salt
      → All IsByte key
      → core.passphrase_wrap_key nonce password (bytes_to_hex salt) (bytes_to_hex key)
        ≡ some envelope
      → (do
        wrapped ← wrap_mailbox_key_with_passphrase core nonce salt password key
        auto_unwrap_mailbox_key core json_parse password wrapped)
        ≡ ok key
  unfolding auto_unwrap_mailbox_key wrap_mailbox_key_with_passphrase
  passphrase-roundtrip json_parse nonce password salt key envelope slen klen hs hk accepted =
      let (sealed, (bytes, (in_hex, opening))) =
        unwraps nonce password salt key envelope slen hs hk accepted in
      let wrapping : core.passphrase_wrap_key nonce password (bytes_to_hex salt) (bytes_to_hex key)
          ≡ some (bytes_to_hex sealed) =
        accepted ∙ ap some in_hex in
      let unwrapping : core.passphrase_unwrap_key password (bytes_to_hex salt) (bytes_to_hex sealed)
          ≡ some (bytes_to_hex key) =
        rw in_hex at opening in
      let ink : All IsInk (bytes_to_hex salt ++ b':' ∷ bytes_to_hex sealed) =
        All-append-IsInk (bytes_to_hex salt) (b':' ∷ bytes_to_hex sealed)
          (bytes_to_hex-IsInk salt hs) (refl, bytes_to_hex-IsInk sealed bytes) in
      let salt_length : length (bytes_to_hex salt) ≡ 32 =
        omega (arith, length-bytes_to_hex salt hs) in
      let filled : is_empty (bytes_to_hex salt ++ b':' ∷ bytes_to_hex sealed) ≡ false =
        is_empty-append (bytes_to_hex salt) b':' (bytes_to_hex sealed) in
      rw
        (
          wrapping,
          trim-ink _ ink,
          filled,
          salt_and_envelope-colon json_parse (bytes_to_hex salt) (bytes_to_hex sealed) (omega arith)
              (bytes_to_hex-IsNoMark salt hs) (bytes_to_hex-IsNoMark sealed bytes),
          salt_length,
          unwrapping,
          hex-roundtrip key hk,
          klen,
        )
        refl
