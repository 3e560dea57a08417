-- ===== src/Mbox/Printed.antt =====
-- Files that are written with a separator before each message (ImportEmailsModal.tsx).
use byos_email.Base.{
  ◌≡◌, ◌∙◌, refl, ap, sym, true, false, List, [], ◌∷◌, ◌++◌, All, if◌then◌else◌, any, map, arith,
  append_assoc, append-nil, Bool-cases, inl, inr,
}
use byos_email.Base.Text.{Text, codes, starts_with}
use byos_email.Mime.{crlf, join_with}
use byos_email.Mbox.{unescaped, has_lines, is_visible, last_message, messages_from}

-- How a writer of such files marks a line that looks like a separator.
abbrev pub escaped : Text → Text
escaped line = if starts_with line (codes "From ") then b'>' ∷ line else line

-- The lines of a message that comes back: some of them, one with more than blanks, and none that
-- looks escaped already.
pub record IsMessage (lines : List Text) : Type 0 where
  pub not_empty : has_lines lines ≡ true
  pub visible : any is_visible lines ≡ true
  pub fresh : All (λ l. starts_with l (codes ">From ") ≡ false) lines

-- The lines of a file with the given separator before each message.
abbrev pub printed : Text → List (List Text) → List Text
printed separator [] = []
printed separator (m ∷ ms) = separator ∷ (map escaped m ++ printed separator ms)

escaped-read :
    (l : Text)
    → starts_with l (codes ">From ") ≡ false
    → starts_with (escaped l) (codes "From ") ≡ false
escaped-read l h = elim (Bool-cases (starts_with l (codes "From "))) [
  | inl e ↦ rw e refl
  | inr e ↦ rw (e, e) refl
]

unescaped-escaped : (l : Text) → starts_with l (codes ">From ") ≡ false → unescaped (escaped l) ≡ l
unescaped-escaped l h = elim (Bool-cases (starts_with l (codes "From "))) [
  | inl e ↦ rw (e, e) refl
  | inr e ↦ rw (e, h) refl
]

read_lines :
    (current m rest : List Text)
    → All (λ l. starts_with l (codes ">From ") ≡ false) m
    → messages_from current (map escaped m ++ rest) ≡ messages_from (current ++ m) rest
unfolding messages_from
read_lines current [] rest h = ap (λ c. messages_from c rest) (sym (append-nil current))
read_lines current (l ∷ m) rest (h, hs) =
    rw (escaped-read l h, unescaped-escaped l h)
      (read_lines (current ++ l ∷ []) m rest hs
        ∙ ap (λ c. messages_from c rest) (append_assoc current (l ∷ []) m))

-- The messages after the one that is read.
read_rest :
    (separator : Text) (current : List Text) (ms : List (List Text))
    → starts_with separator (codes "From ") ≡ true
    → has_lines current ≡ true
    → any is_visible current ≡ true
    → All IsMessage ms
    → messages_from current (printed separator ms)
      ≡ join_with crlf current ∷ map (join_with crlf) ms
unfolding messages_from last_message
read_rest separator current [] sep lines visible h = rw (lines, visible) refl
read_rest separator current (m ∷ ms) sep lines visible (h, hs) =
    rw (sep, lines)
      (ap (◌∷◌ (join_with crlf current)) (
        read_lines [] m (printed separator ms) h.fresh
        ∙ read_rest separator m ms sep h.not_empty h.visible hs))

-- Reading the lines of a file with a separator before each message gives the messages with all their
-- lines; the first one has the separator as one more line before them.
pub messages_from-printed :
    (n : Text) (m : List Text) (ms : List (List Text))
    → IsMessage m
    → All IsMessage ms
    → messages_from [] (printed (codes "From " ++ n) (m ∷ ms))
      ≡ join_with crlf ((codes "From " ++ n) ∷ m) ∷ map (join_with crlf) ms
unfolding messages_from
messages_from-printed n m ms h hs =
    read_lines ((codes "From " ++ n) ∷ []) m (printed (codes "From " ++ n) ms) h.fresh
    ∙ read_rest (codes "From " ++ n) ((codes "From " ++ n) ∷ m) ms refl refl
        (ground (arith, h.visible)) hs
