-- ===== src/Totp/Format.antt =====
-- The secret as it is shown, in groups of four (totp.ts).
use byos_email.Base.{
  ℕ, ◌≡◌, refl, ap, ap₂, ◌∙◌, sym, Bool, true, false, not, ◌||◌, List, [], ◌∷◌, ◌++◌, arith,
  append-nil, filter-append, ◌==◌, filter, Bool-cases, inl, inr, map,
}
use byos_email.Base.Text.{Text, is_blank, to_upper_case, upper_unit}
use byos_email.Totp.{
  chunks, join_blank, format_totp_secret, clean_base32, decode_from, base32_to_bytes,
}

abbrev keeps : ℕ → Bool
keeps c = not (is_blank c || c == b'=')

filter-join :
    (t : Text) (ts : List Text)
    → filter keeps (join_blank (t ∷ ts)) ≡ filter keeps t ++ filter keeps (join_blank ts)
unfolding join_blank
filter-join t [] = sym (append-nil (filter keeps t))
filter-join t (u ∷ ts) = filter-append keeps t (32 ∷ join_blank (u ∷ ts))

-- The joined groups add blanks only.
filter-join_chunks : (s : Text) → filter keeps (join_blank (chunks s)) ≡ filter keeps s
unfolding chunks
filter-join_chunks [] = unfold join_blank in refl
filter-join_chunks (a ∷ []) = unfold join_blank in refl
filter-join_chunks (a ∷ b ∷ []) = unfold join_blank in refl
filter-join_chunks (a ∷ b ∷ c ∷ []) = unfold join_blank in refl
filter-join_chunks (a ∷ b ∷ c ∷ d ∷ s) =
    filter-join (a ∷ b ∷ c ∷ d ∷ []) (chunks s)
    ∙ ap (λ r. filter keeps (a ∷ b ∷ c ∷ d ∷ []) ++ r) (filter-join_chunks s)
    ∙ sym (filter-append keeps (a ∷ b ∷ c ∷ d ∷ []) s)

upper-blank : (c : ℕ) → keeps (upper_unit c) ≡ keeps c
upper-blank c = ground arith

upper_idem : (c : ℕ) → upper_unit (upper_unit c) ≡ upper_unit c
upper_idem c = ground arith

-- Upper case and the removal of blanks first make no difference.
clean-upper :
    (s : Text)
    → map upper_unit (filter keeps (map upper_unit (filter (λ c. not (is_blank c)) s)))
      ≡ map upper_unit (filter keeps s)
clean-upper [] = refl
clean-upper (c ∷ s) = elim (Bool-cases (is_blank c)) [
  | inl e ↦ rw e (clean-upper s)
  | inr e ↦ elim (Bool-cases (c == b'=')) [
    | inl k ↦
        let dropped : keeps c ≡ false = rw (e, k) in
        rw (e, upper-blank c) (rw dropped (rw k (clean-upper s)))
    | inr k ↦
        let kept : keeps c ≡ true = rw (e, k) in
        rw (e, upper-blank c) (rw kept (rw k (ap₂ ◌∷◌ (upper_idem c) (clean-upper s))))
  ]
]

-- Formatting a secret in groups changes nothing of the bytes that it decodes to.
base32-format :
    (secret : Text) → base32_to_bytes (format_totp_secret secret) ≡ base32_to_bytes secret
unfolding base32_to_bytes format_totp_secret clean_base32 to_upper_case
base32-format secret = ap (decode_from 0 0) (
    ap (map upper_unit)
      (filter-join_chunks (map upper_unit (filter (λ c. not (is_blank c)) secret)))
    ∙ clean-upper secret)
