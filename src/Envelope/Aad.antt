-- ===== src/Envelope/Aad.antt =====
-- The additional data of draft and contact envelopes (`envelopeAadHex` of message_crypto.ts).
use byos_email.Base.{
  ℕ, ◌<◌, ◌≡◌, ◌≢◌, refl, ap, some, List, [], ◌∷◌, ◌++◌, All, arith, length, get_elem?,
}
use byos_email.Base.Text.{Text}
use byos_email.Encoding.{ok, >>=-inversion, bytes_to_hex, mailbox_id_hex, hex_to_bytes}
use byos_email.Encoding.HexRoundTrip.{IsByte, bytes_to_hex-injective}
use byos_email.Encoding.MailboxId.{mailbox_id-bytes}
use byos_email.Envelope.{Core, Browser, draft_aad_prefix, contact_aad_prefix, envelope_aad_hex}

pub All-append : (xs ys : List ℕ) → All IsByte xs → All IsByte ys → All IsByte (xs ++ ys)
All-append [] ys h k = k
All-append (x ∷ xs) ys (p, h) k = (p, All-append xs ys h k)

pub ok-eq : (a b : Text) → ok a ≡ ok b → a ≡ b
ok-eq a b e = cc e

module _ (core : Core) (browser : Browser)
    (encode-ascii : (t : Text) → All (λ c. c < 128) t → browser.encode t ≡ t) where
  -- The additional data of an accepted id is the prefix and the 16 bytes of the id.
  pub aad_bytes :
      (id hex prefix : Text)
      → mailbox_id_hex id ≡ ok hex
      → All (λ c. c < 128) prefix
      → All IsByte prefix
      → (mid : List ℕ) × (All IsByte mid
          × ((length mid ≡ 16)
              × ((hex_to_bytes hex ≡ ok mid)
                  × (envelope_aad_hex core browser id prefix ≡ ok (bytes_to_hex (prefix ++ mid))))))
  unfolding envelope_aad_hex
  aad_bytes id hex prefix h ascii bytes =
      let (mid, (parsed, (count, ok_bytes))) = mailbox_id-bytes id hex h in
      (mid, (ok_bytes, (count, (parsed, rw (h, parsed, encode-ascii prefix ascii) refl))))

  -- From the additional data back to the id that it was made from.
  aad_source :
      (id prefix aad : Text)
      → envelope_aad_hex core browser id prefix ≡ ok aad
      → (hex : Text) × (mailbox_id_hex id ≡ ok hex)
  unfolding envelope_aad_hex
  aad_source id prefix aad h = let (hex, (e, _)) = >>=-inversion (mailbox_id_hex id) _ h in (hex, e)

  -- Whatever the two mailboxes are, the additional data of a draft is not that of a contact.
  pub draft_aad-ne-contact_aad :
      (draft_box contact_box x y : Text)
      → envelope_aad_hex core browser draft_box draft_aad_prefix ≡ ok x
      → envelope_aad_hex core browser contact_box contact_aad_prefix ≡ ok y
      → x ≢ y
  draft_aad-ne-contact_aad draft_box contact_box x y hx hy same =
      let (dhex, de) = aad_source draft_box draft_aad_prefix x hx in
      let (chex, ce) = aad_source contact_box contact_aad_prefix y hy in
      let (dm, (db, (_, (_, dx)))) =
        aad_bytes draft_box dhex draft_aad_prefix de (omega arith) (omega arith) in
      let (cm, (cb, (_, (_, cx)))) =
        aad_bytes contact_box chex contact_aad_prefix ce (omega arith) (omega arith) in
      let texts : bytes_to_hex (draft_aad_prefix ++ dm) ≡ bytes_to_hex (contact_aad_prefix ++ cm) =
        cc (
          ok-eq x (bytes_to_hex (draft_aad_prefix ++ dm)) (cc (hx, dx)),
          ok-eq y (bytes_to_hex (contact_aad_prefix ++ cm)) (cc (hy, cx)),
          same,
        ) in
      let bytes : draft_aad_prefix ++ dm ≡ contact_aad_prefix ++ cm =
        bytes_to_hex-injective (draft_aad_prefix ++ dm) (contact_aad_prefix ++ cm)
          (All-append draft_aad_prefix dm (omega arith) db)
          (All-append contact_aad_prefix cm (omega arith) cb) texts in
      let sixth : some 100 ≡ some 99 = ap (λ l. get_elem? l 5) bytes in ground (arith, sixth)
