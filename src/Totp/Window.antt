-- ===== src/Totp/Window.antt =====
-- Which codes `verifyTOTPClient` accepts (totp.ts).
use byos_email.Base.{
  ℕ, ◌+◌, ◌-◌, ◌/◌, ◌≤◌, ◌≡◌, ap, ◌∙◌, sym, ◌↔◌, ◌⊎◌, inl, inr, Bool, true, false, Option, none,
  some, List, length, arith,
}
use byos_email.Base.Text.{Text, trim, text_eq, text_eq_iff}
use byos_email.Totp.{
  compute_totp_code, code_of_hash, base32_to_bytes, counter_buffer, verify_totp_client,
}

close : (a b : ℕ) → a ≤ b + 1 → b ≤ a + 1 → (a ≡ b) ⊎ ((a + 1 ≡ b) ⊎ (a ≡ b + 1))
close a b p q = grind arith

module _ (sign : List ℕ → List ℕ → Option (List ℕ)) where
  abbrev expects : Option Text → Text → Bool
  expects o code = elim o [ none ↦ false | some expected ↦ text_eq expected code ]

  expects_iff : (o : Option Text) (code : Text) → (expects o code ≡ true) ↔ (o ≡ some code)
  expects_iff none code = (λ h. cc, λ h. cc)
  expects_iff (some e) code =
      (λ h. ap some ((text_eq_iff e code).0 h), λ h. (text_eq_iff e code).1 (ground arith))

  -- A code is accepted exactly if, blanks at its ends removed, it has six characters and is the
  -- code of the time now, of 30 seconds before or of 30 seconds after.
  verify_iff :
      (secret code : Text) (now : ℕ)
      → (verify_totp_client sign secret code now ≡ true) ↔ (
          (length (trim code) ≡ 6)
          × ((compute_totp_code sign secret now ≡ some (trim code))
              ⊎ ((compute_totp_code sign secret (now - 30) ≡ some (trim code))
                  ⊎ (compute_totp_code sign secret (now + 30) ≡ some (trim code)))))
  unfolding verify_totp_client
  verify_iff secret code now = ground (
    arith,
    expects_iff (compute_totp_code sign secret now) (trim code),
    expects_iff (compute_totp_code sign secret (now - 30)) (trim code),
    expects_iff (compute_totp_code sign secret (now + 30)) (trim code),
  )

  -- The code depends on the time by its 30-second step alone.
  same_step :
      (secret : Text) (t u : ℕ)
      → t / 30 ≡ u / 30
      → compute_totp_code sign secret t ≡ compute_totp_code sign secret u
  unfolding compute_totp_code
  same_step secret t u e =
      ap (λ k. code_of_hash (sign (base32_to_bytes secret) (counter_buffer k))) e

  -- A six-character code that was computed at a time whose step is the present one, the one before
  -- or the one after is accepted, from the second step on.
  pub verify_of_close :
      (secret code : Text) (t now : ℕ)
      → compute_totp_code sign secret t ≡ some code
      → trim code ≡ code
      → length code ≡ 6
      → 30 ≤ now
      → t / 30 ≤ now / 30 + 1
      → now / 30 ≤ t / 30 + 1
      → verify_totp_client sign secret code now ≡ true
  verify_of_close secret code t now e plain six late p q =
      (verify_iff secret code now).1 (rw plain six, rw plain step)
    where
      at : (u : ℕ) → t / 30 ≡ u / 30 → compute_totp_code sign secret u ≡ some code
      at u s = sym (same_step secret t u s) ∙ e

      step :
          (compute_totp_code sign secret now ≡ some code)
          ⊎ ((compute_totp_code sign secret (now - 30) ≡ some code)
              ⊎ (compute_totp_code sign secret (now + 30) ≡ some code))
      step = elim (close (t / 30) (now / 30) p q) [
        | inl s ↦ inl (at now s)
        | inr o ↦ elim o [
          | inl s ↦ inr (inl (at (now - 30) (omega arith)))
          | inr s ↦ inr (inr (at (now + 30) (omega arith)))
        ]
      ]
