-- ===== src/Keywords/Runs.antt =====
-- The words that `split(/\s+/)` gives, described by where they stand in the text (message_crypto.ts).
use byos_email.Base.{
  ℕ, ◌≤◌, ◌≡◌, ◌↔◌, ◌∙◌, ap₂, ◌⊎◌, inl, inr, refl, ap, sym, subst, true, false, List, [], ◌∷◌, ◌++◌,
  All, any, length, arith, Bool-cases, append_assoc,
}
use byos_email.Base.Text.{Text, is_blank, text_eq, text_eq_iff, text_eq_refl}
use byos_email.Password.{close_word, words_from}

abbrev pub AllInk : Text → Type 0
AllInk s = All (λ c. is_blank c ≡ false) s

-- A text that is empty or ends in a blank, and one that is empty or begins with one.
abbrev pub EndsBlank : Text → Type 0
EndsBlank [] = Unit
EndsBlank (c ∷ []) = is_blank c ≡ true
EndsBlank (c ∷ d ∷ s) = EndsBlank (d ∷ s)

abbrev pub StartsBlank : Text → Type 0
StartsBlank [] = Unit
StartsBlank (c ∷ s) = is_blank c ≡ true

-- A word of a text: characters without a blank, not to be made longer to either side.
pub record IsRun (w s : Text) : Type 0 where
  pub before : Text
  pub after : Text
  pub whole : s ≡ before ++ (w ++ after)
  pub ink : AllInk w
  pub not_empty : 1 ≤ length w
  pub left : EndsBlank before
  pub right : StartsBlank after

abbrev Has : Text → List Text → Type 0
Has w words = any (text_eq w) words ≡ true

ends_cons : (c : ℕ) (b : Text) → is_blank c ≡ true → EndsBlank b → EndsBlank (c ∷ b)
ends_cons c [] h k = h
ends_cons c (d ∷ b) h k = k

ends_append : (a : Text) (c : ℕ) (b : Text) → EndsBlank (c ∷ b) → EndsBlank (a ++ c ∷ b)
ends_append [] c b h = h
ends_append (x ∷ []) c b h = h
ends_append (x ∷ y ∷ a) c b h = ends_append (y ∷ a) c b h

-- A word that stands further on.
append-IsRun :
    (a : Text) (c : ℕ) (w s : Text) → is_blank c ≡ true → IsRun w s → IsRun w (a ++ c ∷ s)
append-IsRun a c w s h r = record {
  before = a ++ c ∷ r.before;
  after = r.after;
  whole = ap (λ t. a ++ c ∷ t) r.whole ∙ sym (append_assoc a (c ∷ r.before) (w ++ r.after));
  ink = r.ink;
  not_empty = r.not_empty;
  left = ends_append a c r.before (ends_cons c r.before h r.left);
  right = r.right;
}

prefix-IsRun : (c : ℕ) (a s : Text) → AllInk (c ∷ a) → StartsBlank s → IsRun (c ∷ a) ((c ∷ a) ++ s)
prefix-IsRun c a s h k = record {
  before = [];
  after = s;
  whole = refl;
  ink = h;
  not_empty = omega arith;
  left = tt;
  right = k;
}

closed-IsRun :
    (w a s : Text) (words : List Text)
    → AllInk a
    → StartsBlank s
    → (Has w words → IsRun w (a ++ s))
    → Has w (close_word a words)
    → IsRun w (a ++ s)
closed-IsRun w [] s words h k later has = later has
closed-IsRun w (c ∷ a) s words h k later has = elim (Bool-cases (text_eq w (c ∷ a))) [
  | inl e ↦
      subst (λ v. IsRun v ((c ∷ a) ++ s)) (sym ((text_eq_iff w (c ∷ a)).0 e))
        (prefix-IsRun c a s h k)
  | inr e ↦ later (rw e at has)
]

ink-snoc : (a : Text) (c : ℕ) → AllInk a → is_blank c ≡ false → AllInk (a ++ c ∷ [])
ink-snoc [] c h k = (k, tt)
ink-snoc (d ∷ a) c (p, h) k = (p, ink-snoc a c h k)

words-IsRun : (w a s : Text) → AllInk a → Has w (words_from a s) → IsRun w (a ++ s)
unfolding words_from
words-IsRun w a [] h has = closed-IsRun w a [] [] h tt (λ none_left. cc none_left) has
words-IsRun w a (c ∷ s) h has = elim (Bool-cases (is_blank c)) [
  | inl e ↦
      closed-IsRun w a (c ∷ s) (words_from [] s) h e
        (λ later. append-IsRun a c w s e (words-IsRun w [] s tt later)) (rw e at has)
  | inr e ↦
      subst (IsRun w) (append_assoc a (c ∷ []) s)
        (words-IsRun w (a ++ c ∷ []) s (ink-snoc a c h e) (rw e at has))
]

-- Two beginnings without blanks, each followed by a blank or the end, are the same.
same_prefix :
    (w a x y : Text) → AllInk w → AllInk a → StartsBlank x → StartsBlank y → a ++ x ≡ w ++ y → w ≡ a
same_prefix [] [] x y hw ha hx hy e = refl
same_prefix [] (c ∷ a) x [] hw (p, ha) hx hy e = cc e
same_prefix [] (c ∷ a) x (d ∷ y) hw (p, ha) hx hy e = cc (p, hy, e)
same_prefix (d ∷ w) [] [] y (p, hw) ha hx hy e = cc e
same_prefix (d ∷ w) [] (c ∷ x) y (p, hw) ha hx hy e = cc (p, hx, e)
same_prefix (d ∷ w) (c ∷ a) x y (p, hw) (q, ha) hx hy e =
    ap₂ ◌∷◌ (head_same d w y c a x e) (same_prefix w a x y hw ha hx hy (tail_same d w y c a x e))
  where
    head_same : (d : ℕ) (w y : Text) (c : ℕ) (a x : Text) → (c ∷ a) ++ x ≡ (d ∷ w) ++ y → d ≡ c
    head_same d w y c a x e = cc e

    tail_same :
        (d : ℕ) (w y : Text) (c : ℕ) (a x : Text) → (c ∷ a) ++ x ≡ (d ∷ w) ++ y → a ++ x ≡ w ++ y
    tail_same d w y c a x e = cc e

ends_tail : (d : ℕ) (b : Text) → EndsBlank (d ∷ b) → EndsBlank b
ends_tail d [] h = tt
ends_tail d (c ∷ b) h = h

-- A beginning without blanks ends before a part that ends in a blank does.
record IsPast (b x y : Text) : Type 0 where
  head : ℕ
  tail : Text
  rest : Text
  at : x ≡ head ∷ tail
  split : tail ≡ rest ++ y
  ends : EndsBlank rest

ink-IsPast :
    (a : Text) (d : ℕ) (b x y : Text)
    → AllInk a
    → EndsBlank (d ∷ b)
    → a ++ x ≡ (d ∷ b) ++ y
    → IsPast (d ∷ b) x y
ink-IsPast [] d b x y h k e = record {
  head = d;
  tail = b ++ y;
  rest = b;
  at = e;
  split = refl;
  ends = ends_tail d b k;
}
ink-IsPast (p ∷ a) d [] x y (q, h) k e = cc (q, k, e)
ink-IsPast (p ∷ a) d (c ∷ b) x y (q, h) k e =
    let there : IsPast (c ∷ b) x y = ink-IsPast a c b x y h k (cc e) in
    record {
      head = there.head;
      tail = there.tail;
      rest = there.rest;
      at = there.at;
      split = there.split;
      ends = there.ends;
    }

closed-Has : (a : Text) (words : List Text) → 1 ≤ length a → Has a (close_word a words)
closed-Has [] words h = ground arith
closed-Has (c ∷ a) words h = rw (text_eq_refl (c ∷ a)) refl

closed-later : (w a : Text) (words : List Text) → Has w words → Has w (close_word a words)
closed-later w [] words h = h
closed-later w (c ∷ a) words h = ground (arith, h)

-- At the end of a word, the run is this word or stands further on.
run-closed :
    (w a x : Text) (words : List Text)
    → AllInk a
    → StartsBlank x
    → ((c : ℕ) (s : Text) → x ≡ c ∷ s → IsRun w s → Has w words)
    → IsRun w (a ++ x)
    → Has w (close_word a words)
run-closed w a x words h k later r = elim (text-cases r.before) [
  | inl e ↦
      let same : w ≡ a =
        same_prefix w a x r.after r.ink h k r.right (r.whole ∙ ap (λ b. b ++ (w ++ r.after)) e) in
      subst (λ v. Has v (close_word a words)) (sym same)
        (closed-Has a words (rw same at r.not_empty))
  | inr (d, (b, e)) ↦
      let past : IsPast (d ∷ b) x (w ++ r.after) =
        ink-IsPast a d b x (w ++ r.after) h (subst EndsBlank e r.left)
          (r.whole ∙ ap (λ b. b ++ (w ++ r.after)) e) in
      closed-later w a words (
        later past.head past.tail past.at (record {
          before = past.rest;
          after = r.after;
          whole = past.split;
          ink = r.ink;
          not_empty = r.not_empty;
          left = past.ends;
          right = r.right;
        }))
]
  where
    text-cases : (s : Text) → (s ≡ []) ⊎ ((c : ℕ) × ((t : Text) × (s ≡ c ∷ t)))
    text-cases [] = inl refl
    text-cases (c ∷ t) = inr (c, (t, refl))

run-words : (w a s : Text) → AllInk a → IsRun w (a ++ s) → Has w (words_from a s)
unfolding words_from
run-words w a [] h r = run-closed w a [] [] h tt (λ c s e. cc e) r
run-words w a (c ∷ s) h r = elim (Bool-cases (is_blank c)) [
  | inl e ↦ rw e (
      run-closed w a (c ∷ s) (words_from [] s) h e
        (λ d t same there. run-words w [] s tt (subst (IsRun w) (same_tail d t same) there)) r)
  | inr e ↦ rw e (
      run-words w (a ++ c ∷ []) s (ink-snoc a c h e)
        (subst (IsRun w) (sym (append_assoc a (c ∷ []) s)) r))
]
  where
    same_tail : (d : ℕ) (t : Text) → c ∷ s ≡ d ∷ t → t ≡ s
    same_tail d t e = cc e

-- The words of a text are exactly its runs.
pub words_from-runs : (w s : Text) → (Has w (words_from [] s)) ↔ IsRun w s
words_from-runs w s = (words-IsRun w [] s tt, run-words w [] s tt)
