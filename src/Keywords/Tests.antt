-- ===== src/Keywords/Tests.antt =====
-- Runs of the search terms, and the theorem at a text.
use byos_email.Base.{
  ◌≤◌, ◌↔◌, ◌==◌, none, true, length, ℕ, ◌≡◌, refl, Bool, ◌&&◌, ◌||◌, [], ◌∷◌, any, leb,
}
use byos_email.Base.Text.{Text, codes, text_eq}
use byos_email.Keywords.{to_blanks, extract_keywords}
use byos_email.Keywords.Runs.{IsRun}
use byos_email.Keywords.Normal.{IsDistinct, blanked, extract_keywords-words}

-- Letters and digits in ASCII.
abbrev is_ascii_letter : ℕ → Bool
is_ascii_letter c = leb 97 c && leb c 122 || leb 48 c && leb c 57

terms :
    extract_keywords is_ascii_letter (codes "A plan, the Plan!") ≡ codes "plan" ∷ codes "the" ∷ []
unfolding extract_keywords
terms = refl

extract_keywords-words_example :
    IsDistinct (extract_keywords is_ascii_letter (codes "A plan, the Plan!"))
    × ((w : Text)
        → (any (text_eq w) (extract_keywords is_ascii_letter (codes "A plan, the Plan!")) ≡ true)
          ↔ (IsRun w (blanked is_ascii_letter (codes "A plan, the Plan!"))
              × ((2 ≤ length w) × (length w ≤ 64))))
extract_keywords-words_example = extract_keywords-words is_ascii_letter (codes "A plan, the Plan!")

-- A pair of code units is one character: a letter is kept, any other gives one blank.
pairs :
    to_blanks (λ c. c == 119808) none (55349 ∷ 56320 ∷ 55357 ∷ 56832 ∷ []) ≡ 55349 ∷ 56320 ∷ 32 ∷ []
unfolding to_blanks
pairs = refl
