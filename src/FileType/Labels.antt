-- ===== src/FileType/Labels.antt =====
-- The labels of attached files (apps/webmail/src/fileType.ts).
use byos_email.Base.{
  ◌≤◌, ◌≡◌, ◌∙◌, sym, false, Option, [], ◌∷◌, ◌++◌, All, if◌then◌else◌, ◌==◌, arith, length, take,
  append_assoc, append-nil,
}
use byos_email.Base.Text.{Text, to_upper_case}
use byos_email.FileType.{
  AttachmentCategory, pdf, img, sheet, doc, zip, file, extension_from, label_of, get_file_type_info,
}

-- A text that has characters, and no more than five.
abbrev pub FitsBadge : Text → Type 0
FitsBadge s = (1 ≤ length s) × (length s ≤ 5)

take_four : (s : Text) → length (take 4 s) ≤ 4
take_four [] = omega arith
take_four (a ∷ []) = omega arith
take_four (a ∷ b ∷ []) = omega arith
take_four (a ∷ b ∷ c ∷ []) = omega arith
take_four (a ∷ b ∷ c ∷ d ∷ s) = omega arith

label_of-FitsBadge :
    (category : AttachmentCategory) (ext : Text) → FitsBadge (label_of category ext)
unfolding label_of to_upper_case
label_of-FitsBadge pdf ext = (omega arith, omega arith)
label_of-FitsBadge img ext = (omega arith, omega arith)
label_of-FitsBadge sheet ext = (omega arith, omega arith)
label_of-FitsBadge doc ext = (omega arith, omega arith)
label_of-FitsBadge zip ext = (omega arith, omega arith)
label_of-FitsBadge file [] = (omega arith, omega arith)
label_of-FitsBadge file (c ∷ ext) =
    let short : length (take 4 (to_upper_case (c ∷ ext))) ≤ 4 =
      take_four (to_upper_case (c ∷ ext)) in
    (omega arith, omega (arith, short))

-- Whatever the name and the content type, the label of a file is not empty and fits into its badge.
get_file_type_info-FitsBadge :
    (filename content_type : Option Text)
    → FitsBadge (get_file_type_info filename content_type).label
unfolding get_file_type_info
get_file_type_info-FitsBadge filename content_type = label_of-FitsBadge _ _

extension-plain :
    (seen ext : Text) → All (λ c. (c == 46) ≡ false) ext → extension_from seen ext ≡ seen ++ ext
unfolding extension_from
extension-plain seen [] h = sym (append-nil seen)
extension-plain seen (c ∷ ext) (h, hs) =
    rw h (extension-plain (seen ++ c ∷ []) ext hs ∙ append_assoc seen (c ∷ []) ext)

-- The extension of a name is what follows its last dot.
extension-dot :
    (seen name ext : Text)
    → All (λ c. (c == 46) ≡ false) ext
    → extension_from seen (name ++ 46 ∷ ext) ≡ ext
unfolding extension_from
extension-dot seen [] ext h = extension-plain [] ext h
extension-dot seen (c ∷ name) ext h =
    extension-dot (if c == 46 then [] else seen ++ c ∷ []) name ext h
