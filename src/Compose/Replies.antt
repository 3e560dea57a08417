-- ===== src/Compose/Replies.antt =====
-- Subjects and quotations of replies (App.tsx), and the HTML that a reply sends.
pub mod OldHtml
use byos_email.Base.{
  ℕ, ◌≡◌, ◌≢◌, ◌∙◌, refl, ap, ap₂, sym, Bool, true, false, not, ◌&&◌, List, [], ◌∷◌, ◌++◌,
  if◌then◌else◌, ◌==◌, All, ==_iff, map, drop, arith, Bool-cases, inl, inr,
}
use byos_email.Base.Text.{Text, codes, is_blank, is_empty, lower_unit, text_eq, text_eq_iff}
use byos_email.Mail.{Message}
use byos_email.Mime.{join_with}
use byos_email.Compose.{
  has_prefix, with_subject_prefix, onto_line, split_lines, quote_line, quoted_text, quote_heading,
  quote_original,
}

has_prefix-added : (prefix s : Text) → has_prefix prefix (prefix ++ 32 ∷ s) ≡ true
unfolding has_prefix
has_prefix-added [] s = refl
has_prefix-added (p ∷ prefix) s =
    ground (arith, has_prefix-added prefix s, (==_iff (lower_unit p) (lower_unit p)).1 refl)

prefix_kept :
    (subject prefix : Text)
    → text_eq subject (codes "(Encrypted message)") ≡ false
    → has_prefix prefix subject ≡ true
    → with_subject_prefix subject prefix ≡ subject
unfolding with_subject_prefix
prefix_kept subject prefix shown e = rw (shown, e) refl

prefix_added :
    (subject prefix : Text)
    → text_eq subject (codes "(Encrypted message)") ≡ false
    → has_prefix prefix subject ≡ false
    → is_empty subject ≡ false
    → with_subject_prefix subject prefix ≡ prefix ++ 32 ∷ subject
unfolding with_subject_prefix
prefix_added subject prefix shown e filled = rw (shown, e, filled) refl

-- For a shown subject that is not empty, and a prefix that does not begin with a parenthesis: the
-- prefix is set once, however often one replies.
pub with_subject_prefix-idempotent :
    (subject : Text) (n : ℕ) (prefix : Text)
    → text_eq subject (codes "(Encrypted message)") ≡ false
    → is_empty subject ≡ false
    → (n == 40) ≡ false
    → with_subject_prefix (with_subject_prefix subject (n ∷ prefix)) (n ∷ prefix)
      ≡ with_subject_prefix subject (n ∷ prefix)
with_subject_prefix-idempotent subject n prefix shown filled h =
    elim (Bool-cases (has_prefix (n ∷ prefix) subject)) [
      | inl e ↦
          ap (λ s. with_subject_prefix s (n ∷ prefix)) (prefix_kept subject (n ∷ prefix) shown e)
      | inr e ↦ rw (prefix_added subject (n ∷ prefix) shown e filled) (
          prefix_kept ((n ∷ prefix) ++ 32 ∷ subject) (n ∷ prefix) (ground (arith, h))
            (has_prefix-added (n ∷ prefix) subject))
    ]

-- A list of lines is not empty and has no line feed in a line.
abbrev Unbroken : Text → Type 0
Unbroken l = All (λ c. (c == 10) ≡ false) l

split-line : (l : Text) → Unbroken l → split_lines l ≡ l ∷ []
unfolding split_lines
split-line [] h = refl
split-line (c ∷ l) (h, hs) = rw (h, split-line l hs) refl

split-line_then : (l rest : Text) → Unbroken l → split_lines (l ++ 10 ∷ rest) ≡ l ∷ split_lines rest
unfolding split_lines
split-line_then [] rest h = refl
split-line_then (c ∷ l) rest (h, hs) = rw (h, split-line_then l rest hs) refl

split-join :
    (l : Text) (ls : List Text)
    → All Unbroken (l ∷ ls)
    → split_lines (join_with (10 ∷ []) (l ∷ ls)) ≡ l ∷ ls
unfolding join_with
split-join l [] (h, hs) = split-line l h
split-join l (k ∷ ls) (h, hs) =
    split-line_then l (join_with (10 ∷ []) (k ∷ ls)) h ∙ ap (◌∷◌ l) (split-join k ls hs)

-- The lines of a text.
record IsSplit (s : Text) (lines : List Text) : Type 0 where
  first : Text
  rest : List Text
  are : lines ≡ first ∷ rest
  unbroken : All Unbroken (first ∷ rest)
  joined : join_with (10 ∷ []) (first ∷ rest) ≡ s

join-onto :
    (c : ℕ) (l : Text) (ls : List Text)
    → join_with (10 ∷ []) ((c ∷ l) ∷ ls) ≡ c ∷ join_with (10 ∷ []) (l ∷ ls)
unfolding join_with
join-onto c l [] = refl
join-onto c l (k ∷ ls) = refl

split_lines-IsSplit : (s : Text) → IsSplit s (split_lines s)
unfolding split_lines join_with
split_lines-IsSplit [] = record {
  first = [];
  rest = [];
  are = refl;
  unbroken = (tt, tt);
  joined = refl;
}
split_lines-IsSplit (c ∷ s) =
    let tail : IsSplit s (split_lines s) = split_lines-IsSplit s in
    elim (Bool-cases (c == 10)) [
      | inl e ↦ rw e (record {
        first = [];
        rest = tail.first ∷ tail.rest;
        are = ap (◌∷◌ []) tail.are;
        unbroken = (tt, tail.unbroken);
        joined = ap₂ ◌∷◌ (sym ((==_iff c 10).0 e)) tail.joined;
      })
      | inr e ↦
          rw (e, tail.are)
            (record {
              first = c ∷ tail.first;
              rest = tail.rest;
              are = refl;
              unbroken = ((e, tail.unbroken.0), tail.unbroken.1);
              joined = join-onto c tail.first tail.rest ∙ ap (◌∷◌ c) tail.joined;
            })
    ]

-- What a reader sees of a quotation: each line without its mark.
abbrev pub unquote : Text → Text
unquote s = join_with (10 ∷ []) (map (drop 2) (split_lines s))

quoted-Unbroken : (ls : List Text) → All Unbroken ls → All Unbroken (map quote_line ls)
quoted-Unbroken [] h = tt
quoted-Unbroken (l ∷ ls) (h, hs) = ((refl, (refl, h)), quoted-Unbroken ls hs)

unmarked : (ls : List Text) → map (drop 2) (map quote_line ls) ≡ ls
unmarked [] = refl
unmarked (l ∷ ls) = ap (◌∷◌ l) (unmarked ls)

-- A reply quotes the whole text: the quotation stands after the heading, and its lines without
-- their marks are the text again.
pub quote_original-roundtrip :
    (msg : Message) (plaintext : Text)
    → (q : Text) × ((quote_original msg plaintext ≡ quote_heading msg ++ 10 ∷ q)
        × (unquote q ≡ plaintext))
unfolding quote_original
quote_original-roundtrip msg plaintext =
    let split : IsSplit plaintext (split_lines plaintext) = split_lines-IsSplit plaintext in
    let marked : split_lines (quoted_text plaintext) ≡ map quote_line (split.first ∷ split.rest) =
      rw split.are (
        split-join (quote_line split.first) (map quote_line split.rest)
          (quoted-Unbroken (split.first ∷ split.rest) split.unbroken)) in
    (
      quoted_text plaintext,
      (
        refl,
        ap (λ ls. join_with (10 ∷ []) (map (drop 2) ls)) marked
            ∙ (ap (join_with (10 ∷ [])) (unmarked (split.first ∷ split.rest)) ∙ split.joined),
      ),
    )
