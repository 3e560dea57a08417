-- ===== src/Password/Mnemonic.antt =====
-- The words of the recovery phrase (`extract12WordMnemonic` of client_crypto.ts).
use byos_email.Base.{
  ℕ, zero, suc, ◌≤◌, ◌≡◌, inl, inr, refl, ap, ◌∙◌, subst, false, some, List, [], ◌∷◌, ◌++◌, All,
  arith, take, length, ltb, Bool-cases, append_assoc, append-nil,
}
use byos_email.Base.Text.{Text, is_blank, trim}
use byos_email.Password.{close_word, words_from, join_words, phrase_of, extract_12_word_mnemonic}

-- A word: some characters, none of them blank.
abbrev pub IsWord : Text → Type 0
IsWord w = (1 ≤ length w) × All (λ c. is_blank c ≡ false) w

All-snoc :
    (w : Text) (c : ℕ)
    → All (λ c. is_blank c ≡ false) w
    → is_blank c ≡ false
    → All (λ c. is_blank c ≡ false) (w ++ c ∷ [])
All-snoc [] c h k = (k, tt)
All-snoc (d ∷ w) c (p, h) k = (p, All-snoc w c h k)

close_word-IsWord :
    (w : Text) (words : List Text)
    → All (λ c. is_blank c ≡ false) w
    → All IsWord words
    → All IsWord (close_word w words)
close_word-IsWord [] words h k = k
close_word-IsWord (c ∷ w) words h k = ((omega arith, h), k)

pub words_from-IsWord : (w s : Text) → All (λ c. is_blank c ≡ false) w → All IsWord (words_from w s)
unfolding words_from
words_from-IsWord w [] h = close_word-IsWord w [] h tt
words_from-IsWord w (c ∷ s) h = elim (Bool-cases (is_blank c)) [
  | inl e ↦ rw e (close_word-IsWord w (words_from [] s) h (words_from-IsWord [] s tt))
  | inr e ↦ rw e (words_from-IsWord (w ++ c ∷ []) s (All-snoc w c h e))
]

take-IsWord : (n : ℕ) (words : List Text) → All IsWord words → All IsWord (take n words)
take-IsWord zero words h = tt
take-IsWord (suc n) [] h = tt
take-IsWord (suc n) (w ∷ words) (p, h) = (p, take-IsWord n words h)

length-take : (n : ℕ) (words : List Text) → length (take n words) ≤ n
length-take zero words = omega arith
length-take (suc n) [] = omega arith
length-take (suc n) (w ∷ words) = omega (arith, length-take n words)

-- Reading on past the characters of a word that is open.
words_from-word :
    (w v rest : Text)
    → All (λ c. is_blank c ≡ false) v
    → words_from w (v ++ rest) ≡ words_from (w ++ v) rest
unfolding words_from
words_from-word w [] rest h = rw (append-nil w) refl
words_from-word w (c ∷ v) rest (p, h) = rw p (
    words_from-word (w ++ c ∷ []) v rest h
    ∙ ap (λ u. words_from u rest) (append_assoc w (c ∷ []) v))

closed_word : (w : Text) (words : List Text) → 1 ≤ length w → close_word w words ≡ w ∷ words
closed_word [] words h = ground arith
closed_word (c ∷ w) words h = refl

words_from-join : (words : List Text) → All IsWord words → words_from [] (join_words words) ≡ words
unfolding words_from join_words
words_from-join [] h = refl
words_from-join (w ∷ []) ((filled, ink), h) =
    subst (λ u. words_from [] u ≡ w ∷ []) (append-nil w)
      (words_from-word [] w [] ink ∙ closed_word w [] filled)
words_from-join (w ∷ v ∷ words) ((filled, ink), h) =
    words_from-word [] w (32 ∷ join_words (v ∷ words)) ink
    ∙ (closed_word w (words_from [] (join_words (v ∷ words))) filled
        ∙ ap (◌∷◌ w) (words_from-join (v ∷ words) h))

mnemonic_cases :
    (words : List Text) (phrase : Text) (out : List Text)
    → phrase_of words ≡ some (phrase, out)
    → (12 ≤ length words) × ((join_words words ≡ phrase) × (words ≡ out))
unfolding phrase_of
mnemonic_cases words phrase out h = elim (Bool-cases (ltb (length words) 12)) [
  | inl e ↦ cc (rw e at h)
  | inr e ↦ (ground (arith, e), (cc (rw e at h), cc (rw e at h)))
]

-- A phrase that is returned has twelve words, none of them empty or with a blank in it, and the words
-- joined by single spaces are the phrase, which splits into the same words again.
pub mnemonic-words :
    (mnemonic phrase : Text) (words : List Text)
    → extract_12_word_mnemonic mnemonic ≡ some (phrase, words)
    → (length words ≡ 12)
      × (All IsWord words × ((join_words words ≡ phrase) × (words_from [] phrase ≡ words)))
unfolding extract_12_word_mnemonic
mnemonic-words mnemonic phrase words h =
    let found : List Text = take 12 (words_from [] (trim mnemonic)) in
    let all_words : All IsWord found = take-IsWord 12 _ (words_from-IsWord [] (trim mnemonic) tt) in
    let (many, (joined, same)) = mnemonic_cases found phrase words h in
    let twelve : length found ≡ 12 =
      omega (arith, length-take 12 (words_from [] (trim mnemonic))) in
    subst
      (λ l.
        (length l ≡ 12) × (All IsWord l × ((join_words l ≡ phrase) × (words_from [] phrase ≡ l))))
      same
      (
        twelve,
        (
          all_words,
          (joined, subst (λ t. words_from [] t ≡ found) joined (words_from-join found all_words)),
        ),
      )
