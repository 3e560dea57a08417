-- ===== src/Mbox.antt =====
-- The messages of an mbox file, `splitMbox` of apps/webmail/src/components/modals/ImportEmailsModal.tsx.
pub mod Printed
mod Tests
use byos_email.Base.{
  ℕ, Bool, true, false, not, ◌&&◌, List, [], ◌∷◌, ◌++◌, if◌then◌else◌, ◌==◌, any, drop,
}
use byos_email.Base.Text.{Text, codes, trim, is_empty, starts_with}
use byos_email.Mime.{crlf, join_with}
use byos_email.Compose.{onto_line}

-- `split(/\r?\n/)`
unfoldable pub split_eol : Text → List Text
split_eol [] = [] ∷ []
split_eol (c ∷ s) =
    let rest = split_eol s in
    if c == 10
    then [] ∷ rest
    else if c == 13 && starts_with s (10 ∷ [])
    then rest
    else onto_line c rest

abbrev pub unescaped : Text → Text
unescaped line = if starts_with line (codes ">From ") then drop 1 line else line

abbrev pub has_lines : List Text → Bool
has_lines [] = false
has_lines (l ∷ ls) = true

-- Whether a line ends the message that is read.
abbrev pub is_separator : List Text → Text → Bool
is_separator current line = starts_with line (codes "From ") && has_lines current

abbrev pub is_visible : Text → Bool
is_visible l = not (is_empty (trim l))

-- The message that is left at the end of the file.
unfoldable pub last_message : List Text → List Text
unfolding join_with trim
last_message current =
    if has_lines current && any is_visible current then join_with crlf current ∷ [] else []

-- The loop over the lines, with the lines of the message that is read.
unfoldable pub messages_from : List Text → List Text → List Text
unfolding last_message join_with
messages_from current [] = last_message current
messages_from current (line ∷ lines) =
    (if is_separator current line then join_with crlf current ∷ [] else [])
    ++ messages_from (if is_separator current line then [] else current ++ unescaped line ∷ [])
        lines

unfoldable pub split_mbox : Text → List Text
unfolding split_eol messages_from
split_mbox mbox_text = messages_from [] (split_eol mbox_text)
