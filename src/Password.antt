-- ===== src/Password.antt =====
-- Password strength and the recovery phrase of the control plane,
-- apps/control-plane/src/lib/crypto/client_crypto.ts: `evaluatePasswordStrength` and
-- `extract12WordMnemonic`. A text is a list of UTF-16 code units.
pub mod Strength
pub mod Mnemonic
mod Tests
use byos_email.Base.{
  ℕ, suc, ◌+◌, Bool, true, false, not, ◌&&◌, ◌||◌, Option, none, some, List, [], ◌∷◌, ◌++◌,
  if◌then◌else◌, leb, ltb, any, take, length,
}
use byos_email.Base.Text.{Text, is_blank, trim}

-- The character classes of the regular expressions.
abbrev pub is_lower : ℕ → Bool
is_lower c = leb b'a' c && leb c b'z'

abbrev pub is_upper : ℕ → Bool
is_upper c = leb b'A' c && leb c b'Z'

abbrev pub is_digit : ℕ → Bool
is_digit c = leb b'0' c && leb c b'9'

abbrev pub is_special : ℕ → Bool
is_special c = not (is_upper c || is_lower c || is_digit c)

pub data StrengthLabel : Type 0 where
  weak fair good strong : StrengthLabel

pub record PasswordStrength : Type 0 where
  pub score : ℕ
  pub label : StrengthLabel
  pub has_length : Bool
  pub has_lower : Bool
  pub has_upper : Bool
  pub has_number : Bool
  pub has_special : Bool
  pub is_compliant : Bool

-- `if (test) criteriaMet++`
abbrev pub point : Bool → ℕ
point true = 1
point false = 0

-- How many of the five criteria hold.
abbrev pub criteria_met : Text → ℕ
criteria_met p =
    point (leb 10 (length p))
    + point (any is_lower p)
    + point (any is_upper p)
    + point (any is_digit p)
    + point (any is_special p)

-- The chain of branches that sets the score and the label.
unfoldable pub grade : ℕ → ℕ → ℕ × StrengthLabel
grade criteria len =
    if leb 5 criteria && leb 12 len
    then (4, strong)
    else if leb 4 criteria && leb 10 len
    then (3, good)
    else if leb 3 criteria
    then (2, fair)
    else (1, weak)

unfoldable pub evaluate_password_strength : Text → PasswordStrength
unfolding grade
evaluate_password_strength p = record {
  score = (grade (criteria_met p) (length p)).0;
  label = (grade (criteria_met p) (length p)).1;
  has_length = leb 10 (length p);
  has_lower = any is_lower p;
  has_upper = any is_upper p;
  has_number = any is_digit p;
  has_special = any is_special p;
  is_compliant = leb 4 (criteria_met p) && leb 10 (length p);
}

-- `split(/\s+/).filter(Boolean)`: `word` is the word that is being read.
abbrev pub close_word : Text → List Text → List Text
close_word [] words = words
close_word (c ∷ word) words = (c ∷ word) ∷ words

unfoldable pub words_from : Text → Text → List Text
words_from word [] = close_word word []
words_from word (c ∷ s) =
    let closed = close_word word (words_from [] s) in
    let longer = words_from (word ++ c ∷ []) s in if is_blank c then closed else longer

-- `words.join(" ")`
unfoldable pub join_words : List Text → Text
join_words [] = []
join_words (w ∷ []) = w
join_words (w ∷ v ∷ words) = w ++ 32 ∷ join_words (v ∷ words)

-- Phrase and words, or nothing where the code throws.
unfoldable pub phrase_of : List Text → Option (Text × List Text)
unfolding join_words
phrase_of words = if ltb (length words) 12 then none else some (join_words words, words)

unfoldable pub extract_12_word_mnemonic : Text → Option (Text × List Text)
unfolding words_from phrase_of trim
extract_12_word_mnemonic mnemonic = phrase_of (take 12 (words_from [] (trim mnemonic)))
