-- ===== src/FileType.antt =====
-- The kinds of attached files, apps/webmail/src/fileType.ts.
pub mod Labels
mod Tests
use byos_email.Base.{
  ℕ, ◌-◌, Bool, true, false, ◌&&◌, ◌||◌, Option, none, some, List, [], ◌∷◌, ◌++◌, if◌then◌else◌,
  ◌==◌, leb, any, map, take,
}
use byos_email.Base.Text.{
  Text, codes, trim, to_lower_case, to_upper_case, text_eq, is_empty, starts_with, includes,
}

-- `AttachmentCategory`
pub data AttachmentCategory : Type 0 where
  pdf img sheet doc zip file : AttachmentCategory

pub record FileTypeInfo : Type 0 where
  pub category : AttachmentCategory
  pub label : Text
  pub badge_class : Text
  pub border_class : Text
  pub text_class : Text
  pub bg_class : Text

-- `name.split(".").pop()`: what follows the last dot, or all of a name without one.
unfoldable pub extension_from : Text → Text → Text
extension_from seen [] = seen
extension_from seen (c ∷ s) = extension_from (if c == 46 then [] else seen ++ c ∷ []) s

abbrev pub or_blank : Option Text → Text
or_blank none = []
or_blank (some t) = t

-- All kinds have the same colours.
abbrev pub info : AttachmentCategory → Text → FileTypeInfo
info category label = record {
  category = category;
  label = label;
  badge_class =
      codes
        "bg-[#F0EEE9] text-[#9E725F] border-[#E2DFD8] dark:bg-[#26282E] dark:text-[#D4A38F] dark:border-[#3A3D46]";
  border_class = codes "border-[#E2DFD8] dark:border-[#3A3D46]";
  text_class = codes "text-[#9E725F] dark:text-[#D4A38F]";
  bg_class = codes "bg-[#F0EEE9] dark:bg-[#26282E]";
}

abbrev pub image_extensions : List Text
image_extensions =
    codes "png"
    ∷ codes "jpg"
    ∷ codes "jpeg"
    ∷ codes "gif"
    ∷ codes "webp"
    ∷ codes "svg"
    ∷ codes "bmp"
    ∷ codes "ico"
    ∷ codes "tiff"
    ∷ codes "avif"
    ∷ []

abbrev pub sheet_extensions : List Text
sheet_extensions = codes "xlsx" ∷ codes "xls" ∷ codes "csv" ∷ codes "tsv" ∷ codes "ods" ∷ []

abbrev pub document_extensions : List Text
document_extensions =
    codes "doc"
    ∷ codes "docx"
    ∷ codes "txt"
    ∷ codes "rtf"
    ∷ codes "odt"
    ∷ codes "md"
    ∷ codes "json"
    ∷ codes "xml"
    ∷ codes "log"
    ∷ []

abbrev pub archive_extensions : List Text
archive_extensions =
    codes "zip"
    ∷ codes "tar"
    ∷ codes "gz"
    ∷ codes "7z"
    ∷ codes "rar"
    ∷ codes "bz2"
    ∷ codes "xz"
    ∷ codes "iso"
    ∷ []

-- For an extension and a content type in lower case.
unfoldable pub category_of : Text → Text → AttachmentCategory
category_of ext ct =
    if text_eq ext (codes "pdf") || includes ct (codes "pdf")
    then pdf
    else if any (text_eq ext) image_extensions || starts_with ct (codes "image/")
    then img
    else if any (text_eq ext) sheet_extensions
        || (includes ct (codes "spreadsheet")
            || (includes ct (codes "csv") || includes ct (codes "excel")))
    then sheet
    else if any (text_eq ext) document_extensions
        || (includes ct (codes "word")
            || (includes ct (codes "document") || starts_with ct (codes "text/")))
    then doc
    else if any (text_eq ext) archive_extensions
        || (includes ct (codes "zip")
            || (includes ct (codes "tar")
                || (includes ct (codes "compressed") || includes ct (codes "archive"))))
    then zip
    else file

unfoldable pub label_of : AttachmentCategory → Text → Text
unfolding to_upper_case
label_of pdf ext = codes "PDF"
label_of img ext = codes "IMG"
label_of sheet ext = codes "SHEET"
label_of doc ext = codes "DOC"
label_of zip ext = codes "ZIP"
label_of file ext = if is_empty ext then codes "FILE" else take 4 (to_upper_case ext)

abbrev pub info_for : Text → Text → FileTypeInfo
info_for ext ct = info (category_of ext ct) (label_of (category_of ext ct) ext)

unfoldable pub get_file_type_info : Option Text → Option Text → FileTypeInfo
unfolding extension_from category_of label_of trim to_lower_case
get_file_type_info filename content_type =
    info_for (extension_from [] (to_lower_case (trim (or_blank filename))))
      (to_lower_case (or_blank content_type))
