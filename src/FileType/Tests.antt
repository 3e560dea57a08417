-- ===== src/FileType/Tests.antt =====
-- Runs of the kinds of files.
use byos_email.Base.{◌≡◌, refl, none, some}
use byos_email.Base.Text.{codes}
use byos_email.FileType.{sheet, doc, get_file_type_info}

report : (get_file_type_info (some (codes "Report.2024.XLSX ")) none).category ≡ sheet
unfolding get_file_type_info
report = refl

by_content : (get_file_type_info none (some (codes "text/plain"))).category ≡ doc
unfolding get_file_type_info
by_content = refl

without_dot : (get_file_type_info (some (codes "readme")) none).label ≡ codes "READ"
unfolding get_file_type_info
without_dot = refl
