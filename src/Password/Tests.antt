-- ===== src/Password/Tests.antt =====
-- Runs of the password functions, and the theorems at concrete passwords.
use byos_email.Base.{◌≡◌, refl, true, some, List, [], ◌∷◌, All, length}
use byos_email.Base.Text.{Text, codes}
use byos_email.Password.{
  evaluate_password_strength, extract_12_word_mnemonic, words_from, join_words,
}
use byos_email.Password.Mnemonic.{IsWord, mnemonic-words}

-- A compliant password without a special character.
no_special : (evaluate_password_strength (codes "Abcdefghi1")).is_compliant ≡ true
unfolding evaluate_password_strength
no_special = refl

abbrev mnemonic : Text
mnemonic = codes " ab cd  ef gh ij kl mn op qr st uv wx yz aa "

abbrev words : List Text
words =
    codes "ab"
    ∷ codes "cd"
    ∷ codes "ef"
    ∷ codes "gh"
    ∷ codes "ij"
    ∷ codes "kl"
    ∷ codes "mn"
    ∷ codes "op"
    ∷ codes "qr"
    ∷ codes "st"
    ∷ codes "uv"
    ∷ codes "wx"
    ∷ []

abbrev phrase : Text
phrase = codes "ab cd ef gh ij kl mn op qr st uv wx"

extracted : extract_12_word_mnemonic mnemonic ≡ some (phrase, words)
unfolding extract_12_word_mnemonic
extracted = refl

mnemonic-words_example :
    (length words ≡ 12)
    × (All IsWord words × ((join_words words ≡ phrase) × (words_from [] phrase ≡ words)))
mnemonic-words_example = mnemonic-words mnemonic phrase words extracted
