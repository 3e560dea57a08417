-- ===== src/Envelope/Clear.antt =====
-- A core and coders that are easy to see through, for the runs of several parts: the core passes its
-- text on, texts are their own code units and `btoa` writes hexadecimal digits.
use byos_email.Base.{
  ℕ, ◌%◌, ◌<◌, ◌≡◌, refl, ap₂, Option, none, some, List, [], ◌∷◌, All, arith, length, map,
}
use byos_email.Base.Text.{Text, trim}
use byos_email.Encoding.{Result, ok, throws, bytes_to_hex, hex_to_bytes}
use byos_email.Encoding.HexRoundTrip.{IsByte, bytes_to_hex-IsInk, trim-ink, hex-roundtrip}
use byos_email.Envelope.{Core, Browser}

abbrev pub clear_core : Core
clear_core = record {
  recover_root_secret = λ w. some w;
  unwrap_mailbox_key = λ r w i. some w;
  passphrase_wrap_key = λ n p s k. some k;
  passphrase_unwrap_key = λ p s e. some e;
  canonical_aad = λ i s v. some i;
  hpke_open = λ k w a. some w;
  aes_gcm_encrypt = λ n k p a. some p;
  aes_gcm_decrypt = λ k e a. some e;
  derive_search_key = λ r. some r;
}

abbrev pub or_none : Result (List ℕ) → Option (List ℕ)
or_none (ok bs) = some bs
or_none (throws e) = none

abbrev pub plain_atob : Text → Option (List ℕ)
plain_atob t = or_none (hex_to_bytes t)

abbrev pub plain_browser : Browser
plain_browser = record {
  encode = map (λ c. c % 256);
  decode = λ bs. bs;
  btoa = bytes_to_hex;
  atob = plain_atob;
  json_parse = λ t. none;
}

pub atob-btoa :
    (bytes : List ℕ) → All IsByte bytes → plain_atob (trim (bytes_to_hex bytes)) ≡ some bytes
atob-btoa bytes h =
    rw (trim-ink (bytes_to_hex bytes) (bytes_to_hex-IsInk bytes h), hex-roundtrip bytes h) refl

pub encode-ascii : (t : Text) → All (λ c. c < 128) t → map (λ c. c % 256) t ≡ t
encode-ascii [] h = refl
encode-ascii (c ∷ t) (h, hs) = ap₂ ◌∷◌ (omega arith) (encode-ascii t hs)

pub encode-IsByte : (t : Text) → All IsByte (map (λ c. c % 256) t)
encode-IsByte [] = tt
encode-IsByte (c ∷ t) = (omega arith, encode-IsByte t)

pub clear_seals :
    (nonce key plain aad : List ℕ)
    → length key ≡ 32
    → All IsByte key
    → All IsByte plain
    → All IsByte aad
    → (sealed : List ℕ) × (All IsByte sealed
        × ((clear_core.aes_gcm_encrypt nonce
                (bytes_to_hex key)
                (bytes_to_hex plain)
                (bytes_to_hex aad)
              ≡ some (bytes_to_hex sealed))
            × (clear_core.aes_gcm_decrypt
                  (bytes_to_hex key)
                  (bytes_to_hex sealed)
                  (bytes_to_hex aad)
                ≡ some (bytes_to_hex plain))))
clear_seals nonce key plain aad len hk hp ha = (plain, (hp, (refl, refl)))
