-- ===== src/Envelope/Tests.antt =====
-- Runs of the envelopes, and the theorems with a core and coders that are easy to see through: the
-- core passes its text on, or puts the additional data before it; texts are
-- their own code units and `btoa` writes hexadecimal digits.
use byos_email.Base.{
  ◌+◌, ◌-◌, ◌&&◌, ap₂, subst, ==_iff, ◌==◌, all, ltb, leb, true, All, Option, ℕ, ◌≡◌, ◌≢◌, refl,
  none, some, List, [], ◌∷◌, ◌++◌, arith, Bool-cases, inl, inr, if◌then◌else◌,
}
use byos_email.Base.Text.{Text, codes}
use byos_email.Encoding.{ok, throws, core_failed, ◌>>=◌, bytes_to_hex, mailbox_id_hex}
use byos_email.Encoding.HexRoundTrip.{IsByte, bytes_to_hex-injective}
use byos_email.Envelope.{
  Core, draft_aad_prefix, contact_aad_prefix, envelope_aad_hex, encrypt_draft_envelope,
  decrypt_draft_envelope, decrypt_contact_envelope, encrypt_attachment_bytes,
  decrypt_attachment_bytes,
}
use byos_email.Envelope.Clear.{
  clear_core, plain_browser, atob-btoa, encode-ascii, encode-IsByte, clear_seals,
}
use byos_email.Envelope.RoundTrip.{attachment-roundtrip, draft-roundtrip, draft_is_no_contact}

abbrev half_key : List ℕ
half_key = 1 ∷ 2 ∷ 3 ∷ 4 ∷ 5 ∷ 6 ∷ 7 ∷ 8 ∷ 9 ∷ 10 ∷ 11 ∷ 12 ∷ 13 ∷ 14 ∷ 15 ∷ 255 ∷ []

abbrev box : Text
box = codes "0000000A-0000-0000-0000-0000000000ff"

abbrev box_hex : Text
box_hex = codes "0000000a0000000000000000000000ff"

abbrev other_box : Text
other_box = codes "00000000000000000000000000000001"

box-valid : mailbox_id_hex box ≡ ok box_hex
unfolding mailbox_id_hex
box-valid = refl

other_box-valid : mailbox_id_hex other_box ≡ ok other_box
unfolding mailbox_id_hex
other_box-valid = refl

attachment-roundtrip_example :
    (do
      envelope ←
          encrypt_attachment_bytes clear_core [] (0 ∷ 128 ∷ []) (half_key ++ half_key) (7 ∷ [])
      decrypt_attachment_bytes clear_core envelope (half_key ++ half_key) (7 ∷ []))
    ≡ ok (0 ∷ 128 ∷ [])
attachment-roundtrip_example =
    attachment-roundtrip clear_core clear_seals [] (0 ∷ 128 ∷ []) (half_key ++ half_key) (7 ∷ [])
      refl (omega arith) (omega arith) (omega arith)

draft-roundtrip_example :
    (do
      envelope ←
          encrypt_draft_envelope clear_core plain_browser []
            (half_key ++ half_key)
            box
            (codes "Dear all")
      decrypt_draft_envelope clear_core plain_browser (half_key ++ half_key) box envelope)
    ≡ ok (codes "Dear all")
draft-roundtrip_example =
    draft-roundtrip clear_core clear_seals plain_browser atob-btoa encode-ascii encode-IsByte []
      (half_key ++ half_key) box box_hex (codes "Dear all") refl (omega arith) box-valid refl

abbrev box_bytes : List ℕ
box_bytes = 0 ∷ 0 ∷ 0 ∷ 10 ∷ 0 ∷ 0 ∷ 0 ∷ 0 ∷ 0 ∷ 0 ∷ 0 ∷ 0 ∷ 0 ∷ 0 ∷ 0 ∷ 255 ∷ []

abbrev box_aad : Text
box_aad = bytes_to_hex (draft_aad_prefix ++ box_bytes)

-- An envelope that carries its additional data: each digit of it after a 1, then 00 and the text.
abbrev tagged : Text → Text → Text
tagged [] p = b'0' ∷ b'0' ∷ p
tagged (c ∷ a) p = b'1' ∷ c ∷ tagged a p

abbrev untagged : Text → Text → Option Text
untagged [] (x ∷ y ∷ e) = if x == b'0' then some e else none
untagged (c ∷ a) (x ∷ y ∷ e) = let rest = untagged a e in if x == b'1' && y == c then rest else none
untagged _ _ = none

untagged-other : (a b p : Text) → a ≢ b → untagged b (tagged a p) ≡ none
untagged-other [] [] p h = elim (h refl) [ ]
untagged-other [] (d ∷ b) p h = refl
untagged-other (c ∷ a) [] p h = refl
untagged-other (c ∷ a) (d ∷ b) p h = elim (Bool-cases (c == d)) [
  | inl e ↦ rw e (untagged-other a b p (λ same. h (ap₂ ◌∷◌ ((==_iff c d).0 e) same)))
  | inr e ↦ rw e refl
]

abbrev bound_core : Core
bound_core = record clear_core {
  aes_gcm_encrypt = λ n k p a. some (tagged a p);
  aes_gcm_decrypt = λ k e a. untagged a e;
}

bound_is_authentic :
    (nonce key plain sealed aad other : List ℕ)
    → All IsByte sealed
    → All IsByte aad
    → All IsByte other
    → aad ≢ other
    → bound_core.aes_gcm_encrypt nonce (bytes_to_hex key) (bytes_to_hex plain) (bytes_to_hex aad)
      ≡ some (bytes_to_hex sealed)
    → bound_core.aes_gcm_decrypt (bytes_to_hex key) (bytes_to_hex sealed) (bytes_to_hex other)
      ≡ none
bound_is_authentic nonce key plain sealed aad other hs ha ho apart h =
    subst (λ e. untagged (bytes_to_hex other) e ≡ none)
      (some-eq (tagged (bytes_to_hex aad) (bytes_to_hex plain)) (bytes_to_hex sealed) h)
      (untagged-other (bytes_to_hex aad) (bytes_to_hex other) (bytes_to_hex plain)
        (λ same. apart (bytes_to_hex-injective aad other ha ho same)))
  where
    some-eq : (a b : Text) → some a ≡ some b → a ≡ b
    some-eq a b e = cc e

box_aad_is : envelope_aad_hex bound_core plain_browser box draft_aad_prefix ≡ ok box_aad
unfolding envelope_aad_hex
box_aad_is = refl

-- The bytes of the tagged text: a digit c after a 1 is the byte 16 + c.
abbrev tag_bytes : Text → List ℕ → List ℕ
tag_bytes [] bs = 0 ∷ bs
tag_bytes (c ∷ a) bs = (16 + (if leb c b'9' then c - b'0' else c - b'a' + 10)) ∷ tag_bytes a bs

abbrev box_sealed : List ℕ
box_sealed = tag_bytes box_aad (codes "hi")

box_sealing :
    bound_core.aes_gcm_encrypt [] (bytes_to_hex half_key) (bytes_to_hex (codes "hi")) box_aad
    ≡ some (bytes_to_hex box_sealed)
unfolding bytes_to_hex
box_sealing = refl

bytes_of_test : (bs : List ℕ) → all (λ b. ltb b 256) bs ≡ true → All IsByte bs
bytes_of_test [] h = tt
bytes_of_test (b ∷ bs) h = (ground (arith, h), bytes_of_test bs (ground (arith, h)))

draft_is_no_contact_example :
    (do
      envelope ← encrypt_draft_envelope bound_core plain_browser [] half_key box (codes "hi")
      decrypt_contact_envelope bound_core plain_browser half_key other_box envelope)
    ≡ throws core_failed
unfolding bytes_to_hex
draft_is_no_contact_example =
    draft_is_no_contact bound_core plain_browser atob-btoa encode-ascii bound_is_authentic []
      half_key box_sealed box box_hex other_box other_box (codes "hi") box_aad box-valid
      other_box-valid box_aad_is box_sealing (bytes_of_test box_sealed refl)

abbrev contact_aad : Text
contact_aad = bytes_to_hex (contact_aad_prefix ++ box_bytes)

contact_aad_is : envelope_aad_hex clear_core plain_browser box contact_aad_prefix ≡ ok contact_aad
unfolding envelope_aad_hex
contact_aad_is = refl

clear_aad_is : envelope_aad_hex clear_core plain_browser box draft_aad_prefix ≡ ok box_aad
unfolding envelope_aad_hex
clear_aad_is = refl
