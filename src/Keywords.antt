-- ===== src/Keywords.antt =====
-- Search terms, apps/webmail/src/message_crypto.ts: `extractKeywords` and `computeSearchToken`. The
-- test for a letter or a digit of any script, the coder and the signature are parameters.
pub mod Runs
pub mod Normal
mod Tests
use byos_email.Base.{
  ◌+◌, ◌-◌, ◌*◌, ℕ, suc, Bool, true, false, not, ◌&&◌, ◌||◌, Option, none, some, List, [], ◌∷◌,
  ◌++◌, if◌then◌else◌, leb, filter, length, any, map,
}
use byos_email.Base.Text.{Text, is_blank, is_empty, trim, to_lower_case, text_eq}
use byos_email.Encoding.{Result, ok, throws, core_failed, ◌>>=◌, call, hex_to_bytes, bytes_to_hex}
use byos_email.Password.{words_from}

-- `Array.from(new Set(words))`
unfoldable pub distinct_from : List Text → List Text → List Text
distinct_from seen [] = []
distinct_from seen (w ∷ words) =
    let skipped = distinct_from seen words in
    let kept = distinct_from (w ∷ seen) words in if any (text_eq w) seen then skipped else w ∷ kept

abbrev pub has_keyword_length : Text → Bool
has_keyword_length w = leb 2 (length w) && leb (length w) 64

-- The halves of a character beyond the first 65536, and the two as a code point.
abbrev pub is_high : ℕ → Bool
is_high c = leb 55296 c && leb c 56319

abbrev pub is_low : ℕ → Bool
is_low c = leb 56320 c && leb c 57343

abbrev pub code_point : ℕ → ℕ → ℕ
code_point h l = 65536 + ((h - 55296) * 1024 + (l - 56320))

module _ (is_letter_or_number : ℕ → Bool) where
  -- A character that is kept, or a blank in its place: for one code unit, and for a pair of them.
  abbrev pub one_unit : ℕ → Text
  one_unit c = (if is_letter_or_number c || is_blank c then c else 32) ∷ []

  abbrev pub unit_pair : ℕ → ℕ → Text
  unit_pair h l = if is_letter_or_number (code_point h l) then h ∷ l ∷ [] else 32 ∷ []

  -- What a unit adds to the text, after an open first half of a pair or without one.
  abbrev pub added : Option ℕ → ℕ → Text
  added none c = if is_high c then [] else one_unit c
  added (some h) c =
      if is_low c then unit_pair h c else one_unit h ++ (if is_high c then [] else one_unit c)

  abbrev pub half_after : Option ℕ → ℕ → Option ℕ
  half_after none c = if is_high c then some c else none
  half_after (some h) c = if is_low c then none else if is_high c then some c else none

  -- `replace(/[^\p{L}\p{N}\s]/gu, " ")`, on code points.
  unfoldable pub to_blanks : Option ℕ → Text → Text
  to_blanks none [] = []
  to_blanks (some h) [] = one_unit h
  to_blanks half (c ∷ s) = added half c ++ to_blanks (half_after half c) s

  -- `split(/\s+/)` also gives empty words at the ends, which the length test drops.
  unfoldable pub extract_keywords : Text → List Text
  unfolding distinct_from words_from trim to_lower_case to_blanks
  extract_keywords text =
      distinct_from []
        (filter has_keyword_length (map trim (words_from [] (to_blanks none (to_lower_case text)))))

module _ (encode : Text → List ℕ) (sign : List ℕ → List ℕ → Option (List ℕ)) where
  unfoldable pub compute_search_token : Text → Text → Result Text
  unfolding trim to_lower_case hex_to_bytes bytes_to_hex
  compute_search_token search_key_hex term =
      let normalized = to_lower_case (trim term) in
      if is_empty normalized then ok [] else (do
        key ← hex_to_bytes search_key_hex
        sig ← call core_failed (sign key (encode normalized))
        ok (bytes_to_hex sig))
