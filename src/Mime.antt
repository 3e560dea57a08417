-- ===== src/Mime.antt =====
-- The text of a message, apps/webmail/src/App.tsx: what `handleSend` writes, and the subject, the
-- body and the snippet that `openMessage` takes from it. The lines of a regular expression end at a
-- carriage return, a line feed, or the line or paragraph separator of Unicode.
pub mod RoundTrip
mod Tests
use byos_email.Base.{
  ℕ, zero, suc, ◌+◌, Bool, true, false, not, ◌&&◌, ◌||◌, Option, none, some, List, [], ◌∷◌, ◌++◌,
  if◌then◌else◌, ◌==◌, leb, ltb, length, take, drop,
}
use byos_email.Base.Text.{
  Text, codes, is_blank, is_separator_unit, is_empty, trim, trim_start, starts_with, to_lower_case,
  text_eq,
}

abbrev pub crlf : Text
crlf = 13 ∷ 10 ∷ []

-- What ends a line for `^`, `.` and `$`.
abbrev pub is_line_end : ℕ → Bool
is_line_end c = (c == 10 || c == 13) || is_separator_unit c

-- `lines.join(separator)`
unfoldable pub join_with : Text → List Text → Text
join_with sep [] = []
join_with sep (l ∷ []) = l
join_with sep (l ∷ k ∷ ls) = l ++ (sep ++ join_with sep (k ∷ ls))

-- `.*`: what is left of the line.
unfoldable pub line_of : Text → Text
line_of [] = []
line_of (c ∷ s) = let rest = line_of s in if is_line_end c then [] else c ∷ rest

-- `/^Subject:\s*(.*)$/im` on a text whose first character starts a line or does not.
unfoldable pub find_subject : Bool → Text → Option Text
unfolding line_of trim_start to_lower_case
find_subject at_start [] = none
find_subject at_start (c ∷ s) =
    let later = find_subject (is_line_end c) s in
    if at_start && starts_with (to_lower_case (c ∷ s)) (codes "subject:")
    then some (line_of (trim_start (drop 8 (c ∷ s))))
    else later

-- `subMatch && subMatch[1]`, and otherwise the subject that is known.
unfoldable pub subject_from : Text → Option Text → Text
unfolding trim
subject_from known none = known
subject_from known (some found) = if is_empty found then known else trim found

unfoldable pub extract_subject : Text → Text → Text
unfolding find_subject subject_from
extract_subject known plaintext = subject_from known (find_subject true plaintext)

-- How many characters of `\r?\n` a text starts with, or 0.
abbrev pub eol_length : Text → ℕ
eol_length [] = 0
eol_length (c ∷ []) = if c == 10 then 1 else 0
eol_length (c ∷ d ∷ s) = if c == 10 then 1 else if c == 13 && d == 10 then 2 else 0

-- How many characters of `\r?\n\r?\n` a text starts with, or 0.
unfoldable pub blank_line_length : Text → ℕ
blank_line_length s =
    let first = eol_length s in
    let second = eol_length (drop first s) in
    if first == 0 || second == 0 then 0 else first + second

-- The text with a character put before its first part.
abbrev pub onto_first : ℕ → List Text → List Text
onto_first c [] = (c ∷ []) ∷ []
onto_first c (p ∷ ps) = (c ∷ p) ∷ ps

-- `split(/\r?\n\r?\n/)`, with the number of characters of a separator that are still to be skipped.
unfoldable pub split_parts : ℕ → Text → List Text
unfolding blank_line_length
split_parts skip [] = [] ∷ []
split_parts (suc skip) (c ∷ s) = split_parts skip s
split_parts zero (c ∷ s) = elim (blank_line_length (c ∷ s)) [
  | zero ↦ onto_first c (split_parts 0 s)
  | suc n ↦ [] ∷ split_parts n s
]

-- `bodyParts.slice(1).join("\n\n")`, where there is more than one part.
unfoldable pub body_of_parts : Text → List Text → Text
unfolding join_with
body_of_parts plaintext [] = plaintext
body_of_parts plaintext (p ∷ []) = plaintext
body_of_parts plaintext (p ∷ q ∷ ps) = join_with (10 ∷ 10 ∷ []) (q ∷ ps)

unfoldable pub extract_body : Text → Text
unfolding split_parts body_of_parts
extract_body plaintext = body_of_parts plaintext (split_parts 0 plaintext)

-- `replace(/\s+/g, " ")`, where `blank` tells that the character before was white space.
-- `extractedBody.trim() || plaintext`
abbrev pub or_all : Text → Text → Text
or_all s plaintext = if is_empty s then plaintext else s

unfoldable pub squeeze : Bool → Text → Text
squeeze blank [] = []
squeeze blank (c ∷ s) =
    let rest = squeeze (is_blank c) s in
    if is_blank c then (if blank then rest else 32 ∷ rest) else c ∷ rest

unfoldable pub snippet_of : Text → Text
unfolding squeeze trim
snippet_of body = squeeze false (take 100 (trim body))

-- The three forms of `mimeMessage`. `boundary` is the random text that separates the parts.
unfoldable pub plain_message : Text → Text → Text → Text
unfolding join_with
plain_message to subject signed_body = join_with crlf (
    (codes "To: " ++ to)
    ∷ (codes "Subject: " ++ subject)
    ∷ codes "Content-Type: text/plain; charset=utf-8"
    ∷ codes "MIME-Version: 1.0"
    ∷ []
    ∷ signed_body
    ∷ [])

unfoldable pub two_part_message : Text → Text → Text → Text → Text → Text
unfolding join_with
two_part_message boundary to subject signed_body html = join_with crlf (
    (codes "To: " ++ to)
    ∷ (codes "Subject: " ++ subject)
    ∷ codes "MIME-Version: 1.0"
    ∷ (codes "Content-Type: multipart/alternative; boundary=" ++ (34 ∷ boundary) ++ 34 ∷ [])
    ∷ []
    ∷ (codes "--" ++ boundary)
    ∷ codes "Content-Type: text/plain; charset=utf-8"
    ∷ []
    ∷ signed_body
    ∷ (codes "--" ++ boundary)
    ∷ codes "Content-Type: text/html; charset=utf-8"
    ∷ []
    ∷ html
    ∷ (codes "--" ++ boundary ++ codes "--")
    ∷ [])

-- The body as HTML, which `handleSend` makes where a tracking pixel goes with a plain message.
unfoldable pub auto_html : Text → Text → Text
auto_html signed_body pixel =
    codes "<div style="
    ++ ((34
          ∷ codes
              "font-family: sans-serif; font-size: 14px; color: #1a1a1a; white-space: pre-wrap;")
        ++ (34 ∷ codes ">" ++ (signed_body ++ (codes "</div>" ++ (crlf ++ pixel)))))

-- Which form is sent: the HTML body, where it is not blank and not the plain body itself, the plain
-- body beside a tracking pixel, or the plain body alone.
unfoldable pub mime_message : Text → Text → Text → Text → Text → Text → Text → Text
unfolding plain_message two_part_message auto_html trim
mime_message boundary to subject body html_body signed_body pixel =
    if not (is_empty (trim html_body)) && not (text_eq html_body body)
    then two_part_message boundary to subject signed_body
        (if is_empty pixel then html_body else html_body ++ (crlf ++ pixel))
    else if is_empty pixel
    then plain_message to subject signed_body
    else two_part_message boundary to subject signed_body (auto_html signed_body pixel)
