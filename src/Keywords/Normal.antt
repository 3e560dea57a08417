-- ===== src/Keywords/Normal.antt =====
-- Which words become search terms (message_crypto.ts).
use byos_email.Base.{
  sym, ◌≤◌, ◌↔◌, ap₂, All, none, length, ℕ, ◌≡◌, ◌∙◌, refl, ap, Bool, true, false, not, ◌&&◌, List,
  [], ◌∷◌, any, filter, map, arith, Bool-cases, inl, inr,
}
use byos_email.Base.Text.{Text, trim, to_lower_case, text_eq, text_eq_iff, text_eq_refl}
use byos_email.Password.{words_from}
use byos_email.Password.Mnemonic.{IsWord, words_from-IsWord}
use byos_email.Encoding.HexRoundTrip.{trim-ink}
use byos_email.Keywords.Runs.{IsRun, words_from-runs}
use byos_email.Keywords.{distinct_from, has_keyword_length, to_blanks, extract_keywords}

-- No text stands twice in the list.
abbrev pub IsDistinct : List Text → Type 0
IsDistinct [] = Unit
IsDistinct (w ∷ words) = (any (text_eq w) words ≡ false) × IsDistinct words

same_any :
    (w v : Text) (words : List Text)
    → text_eq w v ≡ true
    → any (text_eq w) words ≡ any (text_eq v) words
same_any w v words e = ap (λ x. any (text_eq x) words) ((text_eq_iff w v).0 e)

-- What is kept: the words that were not seen before.
any-distinct_from :
    (w : Text) (seen words : List Text)
    → any (text_eq w) (distinct_from seen words)
      ≡ any (text_eq w) words && not (any (text_eq w) seen)
unfolding distinct_from
any-distinct_from w seen [] = refl
any-distinct_from w seen (v ∷ words) = elim (Bool-cases (any (text_eq v) seen)) [
  | inl e ↦ elim (Bool-cases (text_eq w v)) [
    | inl f ↦
        rw (e, f) (any-distinct_from w seen words ∙ rw (same_any w v seen f ∙ e) (ground arith))
    | inr f ↦ rw (e, f) (any-distinct_from w seen words)
  ]
  | inr e ↦ elim (Bool-cases (text_eq w v)) [
    | inl f ↦ rw (e, f) (rw (same_any w v seen f ∙ e) refl)
    | inr f ↦ rw (e, f) (any-distinct_from w (v ∷ seen) words ∙ rw f refl)
  ]
]

distinct_from-IsDistinct : (seen words : List Text) → IsDistinct (distinct_from seen words)
unfolding distinct_from
distinct_from-IsDistinct seen [] = tt
distinct_from-IsDistinct seen (v ∷ words) = elim (Bool-cases (any (text_eq v) seen)) [
  | inl e ↦ rw e (distinct_from-IsDistinct seen words)
  | inr e ↦ rw e (
    (any-distinct_from v (v ∷ seen) words ∙ rw (text_eq_refl v) (ground arith)),
    distinct_from-IsDistinct (v ∷ seen) words,
  )
]

any-filter :
    (w : Text) (p : Text → Bool) (words : List Text)
    → any (text_eq w) (filter p words) ≡ any (text_eq w) words && p w
any-filter w p [] = refl
any-filter w p (v ∷ words) = elim (Bool-cases (text_eq w v)) [
  | inl f ↦ elim (Bool-cases (p v)) [
    | inl e ↦ rw (e, f) (rw (ap p ((text_eq_iff w v).0 f) ∙ e) refl)
    | inr e ↦
        rw (e, f) (any-filter w p words ∙ rw (ap p ((text_eq_iff w v).0 f) ∙ e) (ground arith))
  ]
  | inr f ↦ elim (Bool-cases (p v)) [
    | inl e ↦ rw (e, f) (any-filter w p words)
    | inr e ↦ rw (e, f) (any-filter w p words)
  ]
]

-- The text whose words are terms: in lower case, with a blank for every other character.
abbrev pub blanked : (ℕ → Bool) → Text → Text
blanked is_letter_or_number text = to_blanks is_letter_or_number none (to_lower_case text)

trimmed_words : (words : List Text) → All IsWord words → map trim words ≡ words
trimmed_words [] h = refl
trimmed_words (w ∷ words) ((_, ink), h) = ap₂ ◌∷◌ (trim-ink w ink) (trimmed_words words h)

long_enough : (w : Text) → (has_keyword_length w ≡ true) ↔ ((2 ≤ length w) × (length w ≤ 64))
long_enough w = (λ h. (ground (arith, h), ground (arith, h)), λ (h, k). ground (arith, h, k))

abbrev is_term : (ℕ → Bool) → Text → Text → Bool
is_term is_letter_or_number text w = any (text_eq w) (extract_keywords is_letter_or_number text)

terms-are :
    (is_letter_or_number : ℕ → Bool) (text w : Text)
    → is_term is_letter_or_number text w
      ≡ any (text_eq w) (words_from [] (blanked is_letter_or_number text)) && has_keyword_length w
unfolding extract_keywords
terms-are is_letter_or_number text w =
    let words : List Text = words_from [] (blanked is_letter_or_number text) in
    let kept : List Text = filter has_keyword_length (map trim words) in
    any-distinct_from w [] kept
    ∙ (ground arith ∙ any-filter w has_keyword_length (map trim words))
    ∙ ap (λ ws. any (text_eq w) ws && has_keyword_length w)
        (trimmed_words words (words_from-IsWord [] (blanked is_letter_or_number text) tt))

both : (a b : Bool) → (a && b ≡ true) ↔ ((a ≡ true) × (b ≡ true))
both a b = (λ h. (ground (arith, h), ground (arith, h)), λ (h, k). ground (arith, h, k))

-- The terms of a text, each of which stands once: in the text in lower case, with a blank for every
-- character that is no letter, digit or blank, they are the runs between blanks that have at least 2
-- and at most 64 code units.
pub extract_keywords-words :
    (is_letter_or_number : ℕ → Bool) (text : Text)
    → IsDistinct (extract_keywords is_letter_or_number text)
      × ((w : Text)
          → (any (text_eq w) (extract_keywords is_letter_or_number text) ≡ true)
            ↔ (IsRun w (blanked is_letter_or_number text) × ((2 ≤ length w) × (length w ≤ 64))))
extract_keywords-words is_letter_or_number text = (distinct, λ w. (to_run w, from_run w))
  where
    distinct : IsDistinct (extract_keywords is_letter_or_number text)
    distinct = unfold extract_keywords in distinct_from-IsDistinct [] _

    to_run :
        (w : Text)
        → any (text_eq w) (extract_keywords is_letter_or_number text) ≡ true
        → IsRun w (blanked is_letter_or_number text) × ((2 ≤ length w) × (length w ≤ 64))
    to_run w h =
        let (found, long) =
          (both _ (has_keyword_length w)).0 (sym (terms-are is_letter_or_number text w) ∙ h) in
        ((words_from-runs w (blanked is_letter_or_number text)).0 found, (long_enough w).0 long)

    from_run :
        (w : Text)
        → IsRun w (blanked is_letter_or_number text) × ((2 ≤ length w) × (length w ≤ 64))
        → any (text_eq w) (extract_keywords is_letter_or_number text) ≡ true
    from_run w (run, long) =
        terms-are is_letter_or_number text w
        ∙ (both _ (has_keyword_length w)).1
            ((words_from-runs w (blanked is_letter_or_number text)).1 run, (long_enough w).1 long)
