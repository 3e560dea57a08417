-- ===== src/Mime/RoundTrip.antt =====
-- Reading a message back that `handleSend` wrote as plain text (App.tsx).
use byos_email.Base.{
  ℕ, zero, suc, ◌≡◌, ◌∙◌, refl, ap, ap₂, sym, subst, ◌⊎◌, true, false, ◌&&◌, some, List, [], ◌∷◌,
  ◌++◌, All, arith, Bool-cases, inl, inr, ◌==◌, any,
}
use byos_email.Base.Text.{Text, codes, is_empty, trim, trim_start, to_lower_case}
use byos_email.Base.Trim.{IsTrimmedStart, trim-IsTrimmedStart, trim_idempotent}
use byos_email.Mime.{
  is_line_end, join_with, line_of, find_subject, extract_subject, blank_line_length, onto_first,
  split_parts, body_of_parts, extract_body, or_all, plain_message,
}

-- A text on one line.
abbrev pub IsInline : Text → Type 0
IsInline s = All (λ c. is_line_end c ≡ false) s

line_of-inline : (w t : Text) → IsInline w → line_of (w ++ 13 ∷ t) ≡ w
unfolding line_of
line_of-inline [] t h = refl
line_of-inline (c ∷ w) t (p, h) = rw p (ap (◌∷◌ c) (line_of-inline w t h))

-- Within a line no subject is found.
find_subject-inline :
    (w t : Text) → IsInline w → find_subject false (w ++ 13 ∷ 10 ∷ t) ≡ find_subject true t
unfolding find_subject
find_subject-inline [] t h = refl
find_subject-inline (c ∷ w) t (p, h) = rw p (find_subject-inline w t h)

-- The part that is split off first is left open.
abbrev later_parts : List Text → List Text
later_parts [] = []
later_parts (p ∷ ps) = ps

later_parts-onto_first : (c : ℕ) (ps : List Text) → later_parts (onto_first c ps) ≡ later_parts ps
later_parts-onto_first c [] = refl
later_parts-onto_first c (p ∷ ps) = refl

blank_line-none : (c : ℕ) (s : Text) → is_line_end c ≡ false → blank_line_length (c ∷ s) ≡ 0
unfolding blank_line_length
blank_line-none c [] h = ground arith
blank_line-none c (d ∷ s) h = ground arith

split-none :
    (c : ℕ) (s : Text)
    → blank_line_length (c ∷ s) ≡ 0
    → split_parts 0 (c ∷ s) ≡ onto_first c (split_parts 0 s)
unfolding split_parts
split-none c s e = rw (split_parts, e) refl

split-skip : (n c : ℕ) (s : Text) → split_parts (suc n) (c ∷ s) ≡ split_parts n s
unfolding split_parts
split-skip n c s = refl

split-blank :
    (c : ℕ) (s : Text) (n : ℕ)
    → blank_line_length (c ∷ s) ≡ suc n
    → split_parts 0 (c ∷ s) ≡ [] ∷ split_parts n s
unfolding split_parts
split-blank c s n e = rw (split_parts, e) refl

split-inline :
    (w t : Text) → IsInline w → later_parts (split_parts 0 (w ++ t)) ≡ later_parts (split_parts 0 t)
split-inline [] t h = refl
split-inline (c ∷ w) t (p, h) =
    rw (split-none c (w ++ t) (blank_line-none c (w ++ t) p))
      (later_parts-onto_first c (split_parts 0 (w ++ t)) ∙ split-inline w t h)

line_feed-none : (c : ℕ) (t : Text) → is_line_end c ≡ false → blank_line_length (10 ∷ c ∷ t) ≡ 0
unfolding blank_line_length
line_feed-none c [] h = ground arith
line_feed-none c (d ∷ t) h = ground arith

crlf-none : (c : ℕ) (t : Text) → is_line_end c ≡ false → blank_line_length (13 ∷ 10 ∷ c ∷ t) ≡ 0
unfolding blank_line_length
crlf-none c [] h = ground arith
crlf-none c (d ∷ t) h = ground arith

-- A line end before a line with text in it separates nothing.
split-crlf :
    (c : ℕ) (t : Text)
    → is_line_end c ≡ false
    → later_parts (split_parts 0 (13 ∷ 10 ∷ c ∷ t)) ≡ later_parts (split_parts 0 (c ∷ t))
split-crlf c t h =
    rw (split-none 13 (10 ∷ c ∷ t) (crlf-none c t h), split-none 10 (c ∷ t) (line_feed-none c t h))
      (later_parts-onto_first 13 (onto_first 10 (split_parts 0 (c ∷ t)))
        ∙ later_parts-onto_first 10 (split_parts 0 (c ∷ t)))

-- A line on its own: what follows the line end is split as it is.
split-line :
    (w : Text) (c : ℕ) (t : Text)
    → IsInline w
    → is_line_end c ≡ false
    → later_parts (split_parts 0 (w ++ 13 ∷ 10 ∷ c ∷ t)) ≡ later_parts (split_parts 0 (c ∷ t))
split-line w c t h k = split-inline w (13 ∷ 10 ∷ c ∷ t) h ∙ split-crlf c t k

abbrev two_ends : Text
two_ends = 10 ∷ 10 ∷ []

-- A text is always split into one part at least.
abbrev IsFilled : List Text → Type 0
IsFilled [] = ⊥
IsFilled (p ∷ ps) = Unit

onto_first-IsFilled : (c : ℕ) (ps : List Text) → IsFilled (onto_first c ps)
onto_first-IsFilled c [] = tt
onto_first-IsFilled c (p ∷ ps) = tt

split-IsFilled : (n : ℕ) (s : Text) → IsFilled (split_parts n s)
split-IsFilled n [] = unfold split_parts in tt
split-IsFilled (suc n) (c ∷ s) = rw (split-skip n c s) (split-IsFilled n s)
split-IsFilled zero (c ∷ s) = elim (zero-cases (blank_line_length (c ∷ s))) [
  | inl e ↦ rw (split-none c s e) (onto_first-IsFilled c (split_parts 0 s))
  | inr (n, e) ↦ rw (split-blank c s n e) tt
]
  where
    zero-cases : (m : ℕ) → (m ≡ 0) ⊎ ((n : ℕ) × (m ≡ suc n))
    zero-cases zero = inl refl
    zero-cases (suc n) = inr (n, refl)

join-onto_first :
    (c : ℕ) (ps : List Text)
    → IsFilled ps
    → join_with two_ends (onto_first c ps) ≡ c ∷ join_with two_ends ps
unfolding join_with
join-onto_first c [] h = elim h [ ]
join-onto_first c (p ∷ []) h = refl
join-onto_first c (p ∷ q ∷ ps) h = refl

join-separated :
    (ps : List Text) → IsFilled ps → join_with two_ends ([] ∷ ps) ≡ 10 ∷ 10 ∷ join_with two_ends ps
unfolding join_with
join-separated [] h = elim h [ ]
join-separated (p ∷ ps) h = refl

-- A text without carriage returns.
abbrev pub IsLf : Text → Type 0
IsLf s = All (λ c. (c == 13) ≡ false) s

blank_line-lf :
    (c d : ℕ) (s : Text)
    → (c == 13) ≡ false
    → (d == 13) ≡ false
    → ((c == 10) && (d == 10)) ≡ false
    → blank_line_length (c ∷ d ∷ s) ≡ 0
unfolding blank_line_length
blank_line-lf c d [] h k e = ground arith
blank_line-lf c d (x ∷ s) h k e = ground arith

blank_line-single : (c : ℕ) → blank_line_length (c ∷ []) ≡ 0
unfolding blank_line_length
blank_line-single c = elim (Bool-cases (c == 10)) [ inl e ↦ rw e refl | inr e ↦ rw e refl ]

blank_line-double :
    (c d : ℕ) (s : Text) → ((c == 10) && (d == 10)) ≡ true → blank_line_length (c ∷ d ∷ s) ≡ 2
unfolding blank_line_length
blank_line-double c d [] e = ground (arith, e)
blank_line-double c d (x ∷ s) e = ground (arith, e)

-- Split at its blank lines and joined by blank lines, such a text is itself.
join-split : (s : Text) → IsLf s → join_with two_ends (split_parts 0 s) ≡ s
join-split [] h = unfold split_parts in unfold join_with in refl
join-split (c ∷ []) (h, _) =
    rw (split-none c [] (blank_line-single c)) (unfold split_parts in unfold join_with in refl)
join-split (c ∷ d ∷ s) (h, (k, hs)) = elim (Bool-cases ((c == 10) && (d == 10))) [
  | inl e ↦
      rw (split-blank c (d ∷ s) 1 (blank_line-double c d s e), split-skip 0 d s)
        (join-separated (split_parts 0 s) (split-IsFilled 0 s)
          ∙ ap₂ ◌∷◌ (ground (arith, e)) (ap₂ ◌∷◌ (ground (arith, e)) (join-split s hs)))
  | inr e ↦ rw (split-none c (d ∷ s) (blank_line-lf c d s h k e)) (
      join-onto_first c (split_parts 0 (d ∷ s)) (split-IsFilled 0 (d ∷ s))
      ∙ ap (◌∷◌ c) (join-split (d ∷ s) (k, hs)))
]

-- What `openMessage` shows of the text, where it has a blank line.
body_of-later :
    (plaintext : Text) (ps qs : List Text)
    → later_parts ps ≡ qs
    → IsFilled qs
    → body_of_parts plaintext ps ≡ join_with two_ends qs
unfolding body_of_parts
body_of-later plaintext [] qs e h = elim (subst IsFilled (sym e) h) [ ]
body_of-later plaintext (p ∷ []) qs e h = elim (subst IsFilled (sym e) h) [ ]
body_of-later plaintext (p ∷ q ∷ ps) qs e h = ap (join_with two_ends) e

abbrev type_line : Text
type_line = codes "Content-Type: text/plain; charset=utf-8"

abbrev version_line : Text
version_line = codes "MIME-Version: 1.0"

IsInline-of_test : (s : Text) → any is_line_end s ≡ false → IsInline s
IsInline-of_test [] h = tt
IsInline-of_test (c ∷ s) h = elim (Bool-cases (is_line_end c)) [
  | inl e ↦ cc (rw e at h)
  | inr e ↦ (e, IsInline-of_test s (rw e at h))
]

header_end :
    (body : Text) → later_parts (split_parts 0 (13 ∷ 10 ∷ 13 ∷ 10 ∷ body)) ≡ split_parts 0 body
unfolding split_parts blank_line_length
header_end body = refl

message-parts :
    (to subject body : Text)
    → IsInline to
    → IsInline subject
    → later_parts (split_parts 0 (plain_message to subject body)) ≡ split_parts 0 body
unfolding plain_message
message-parts to subject body h k =
    split-line (codes "To: " ++ to) b'S' _ (refl, (refl, (refl, (refl, h)))) refl
    ∙ (split-line (codes "Subject: " ++ subject) b'C' _
          (refl, (refl, (refl, (refl, (refl, (refl, (refl, (refl, (refl, k))))))))) refl
        ∙ (split-line type_line b'M' _ (IsInline-of_test type_line refl) refl
            ∙ (split-inline version_line _ (IsInline-of_test version_line refl) ∙ header_end body)))

subject-start : (s t : Text) → IsTrimmedStart s → is_empty s ≡ false → trim_start (s ++ t) ≡ s ++ t
unfolding trim_start
subject-start [] t h k = cc k
subject-start (c ∷ s) t h k = rw h refl

recipient_line : (t : Text) → find_subject true (b'T' ∷ t) ≡ find_subject false t
unfolding find_subject to_lower_case
recipient_line t = refl

subject_line :
    (t : Text) → find_subject true (codes "Subject:" ++ t) ≡ some (line_of (trim_start t))
unfolding find_subject to_lower_case
subject_line t = refl

after_blank : (t : Text) → trim_start (32 ∷ t) ≡ trim_start t
unfolding trim_start
after_blank t = refl

message-subject :
    (to subject body : Text)
    → IsInline to
    → IsInline subject
    → IsTrimmedStart subject
    → is_empty subject ≡ false
    → find_subject true (plain_message to subject body) ≡ some subject
unfolding plain_message
message-subject to subject body h k start filled =
    recipient_line _
    ∙ (find_subject-inline (codes "o: " ++ to) _ (refl, (refl, (refl, h)))
        ∙ (subject_line _
            ∙ ap (λ r. some (line_of r)) (after_blank _ ∙ subject-start subject _ start filled)
            ∙ ap some (line_of-inline subject _ k)))

shown_body :
    (plaintext body : Text)
    → is_empty (trim body) ≡ false
    → or_all (trim body) plaintext ≡ trim body
shown_body plaintext body h = rw h refl

-- A message that is sent as plain text, with a recipient and a subject that are on one line, a subject
-- and a body that are not blank, and a body without carriage returns: opening it gives the trimmed
-- subject and the body, and shows the body without the blanks at its ends.
pub message-roundtrip :
    (known to subject body : Text)
    → IsInline to
    → IsInline (trim subject)
    → is_empty (trim subject) ≡ false
    → is_empty (trim body) ≡ false
    → IsLf body
    → let plaintext = plain_message to (trim subject) body in
      (extract_subject known plaintext ≡ trim subject)
      × ((extract_body plaintext ≡ body)
          × (or_all (trim (extract_body plaintext)) plaintext ≡ trim body))
unfolding extract_subject extract_body
message-roundtrip known to subject body h k filled shown lf =
    let plaintext : Text = plain_message to (trim subject) body in
    let whole : extract_body plaintext ≡ body =
      body_of-later plaintext (split_parts 0 plaintext) (split_parts 0 body)
        (message-parts to (trim subject) body h k) (split-IsFilled 0 body)
      ∙ join-split body lf in
    (
      rw (message-subject to (trim subject) body h k (trim-IsTrimmedStart subject) filled)
          (rw (filled, trim_idempotent subject) refl),
      (whole, ap (λ b. or_all (trim b) plaintext) whole ∙ shown_body plaintext body shown),
    )
