-- ===== src/Uploads/Tests.antt =====
-- Small files and names, and the theorems applied to them.
use wms_secret_backend.Prelude.{
  any, false, ◌≡◌, refl, true, none, some, List, [], ◌∷◌, ◌++◌, String, All,
}
use wms_secret_backend.Prelude.Pieces.{begins, is_inside}
use wms_secret_backend.Uploads.{
  Bytes, passed, refused, content, bad_entry, zip_executable_entry, Entry, Libraries, codes,
  text_eq, ends, lower,
}
use wms_secret_backend.Uploads.Magic.{png, detect_file_type, find_types, verify_magic_bytes}
use wms_secret_backend.Uploads.Entries.{is_damaged, IsHarmless, Nested, verify_zip_bomb-IsHarmless}
use wms_secret_backend.Uploads.Archive.{
  is_ooxml, verify_no_macro, verify_zip_bomb, inspect_archive, check_entries, split_dots,
}
use wms_secret_backend.Uploads.Images.{
  from_last, verify_pdf_active_content, verify_no_trailing_payload, verify_image_dimensions,
}
use wms_secret_backend.Uploads.Names.{accepted_name, rstrip, lstrip, normalize_filename}
use wms_secret_backend.Uploads.Scan.{clean, all_checks, scan_attachment}
use wms_secret_backend.Uploads.Shown.{IsShown, normalize_filename-IsShown}
use wms_secret_backend.Uploads.Clean.{IsClean, scan_attachment-IsClean}

abbrev entry : String → Entry
entry name = record { filename = codes name; file_size = 10; read = content [] }

-- An office document is read as the entries that are given, and a picture has 8 by 8 points.
abbrev libraries : List Entry → Libraries
libraries es = record {
  zip_file = λ file. some es;
  image_size = λ file. some (8, 8);
  is_utf8 = λ file. true;
  is_cp949 = λ file. true;
  nfc = λ t. t;
}

abbrev png_head : Bytes
png_head = 137 ∷ 80 ∷ 78 ∷ 71 ∷ 13 ∷ 10 ∷ 26 ∷ 10 ∷ []

abbrev end_of_png : Bytes
end_of_png = 73 ∷ 69 ∷ 78 ∷ 68 ∷ 174 ∷ 66 ∷ 96 ∷ 130 ∷ []

-- A picture with two bytes of padding.
abbrev small_png : Bytes
small_png = png_head ++ end_of_png ++ 0 ∷ 10 ∷ []

accepted : scan_attachment (libraries []) small_png (codes ".PNG") (some 18) ≡ clean (some png) 18
unfolding scan_attachment all_checks verify_magic_bytes verify_no_macro verify_zip_bomb
    verify_pdf_active_content verify_image_dimensions verify_no_trailing_payload detect_file_type
    find_types from_last codes text_eq lower begins
accepted = refl

scan_attachment-IsClean_example : IsClean (libraries []) small_png (lower (codes ".PNG")) (some 18)
scan_attachment-IsClean_example =
    scan_attachment-IsClean (libraries []) small_png (codes ".PNG") (some 18) (some png) 18 accepted

-- A program behind the end of the picture is accepted if it ends as a picture does.
abbrev two_ends : Bytes
two_ends = png_head ++ end_of_png ++ 77 ∷ 90 ∷ 144 ∷ end_of_png

hidden : scan_attachment (libraries []) two_ends (codes ".png") none ≡ clean (some png) 27
unfolding scan_attachment all_checks verify_magic_bytes verify_no_macro verify_zip_bomb
    verify_pdf_active_content verify_image_dimensions verify_no_trailing_payload detect_file_type
    find_types from_last codes text_eq lower begins
hidden = refl

-- A damaged archive within a document hides the entries behind it.
abbrev damaged : Entry
damaged = record (entry "a.zip") { read = bad_entry }

checked_first :
    verify_zip_bomb (libraries (entry "b.exe" ∷ [])) (1 ∷ []) (codes ".docx")
    ≡ refused zip_executable_entry
unfolding verify_zip_bomb inspect_archive check_entries split_dots codes text_eq ends lower begins
checked_first = refl

unseen :
    verify_zip_bomb (libraries (damaged ∷ entry "b.exe" ∷ [])) (1 ∷ []) (codes ".docx") ≡ passed
unfolding verify_zip_bomb inspect_archive check_entries split_dots codes text_eq ends lower begins
unseen = refl

-- The extension of a picture in the format HEIC allows any file of its container, as a film.
film : verify_magic_bytes (0 ∷ 0 ∷ 0 ∷ 24 ∷ codes "ftypmp42") (codes ".heic") ≡ passed
unfolding verify_magic_bytes detect_file_type find_types codes text_eq begins
film = refl

-- A name may end in a point, or be empty, behind a white space that is not of ASCII.
ends_in_point :
    normalize_filename (libraries []) (97 ∷ 46 ∷ 12288 ∷ []) ≡ accepted_name (97 ∷ 46 ∷ [])
unfolding normalize_filename rstrip lstrip lower is_inside codes begins
ends_in_point = refl

is_empty_name : normalize_filename (libraries []) (12288 ∷ []) ≡ accepted_name []
unfolding normalize_filename rstrip lstrip lower is_inside codes begins
is_empty_name = refl

normalize_filename-IsShown_example : All IsShown (97 ∷ 46 ∷ [])
normalize_filename-IsShown_example =
    normalize_filename-IsShown (libraries []) (97 ∷ 46 ∷ 12288 ∷ []) (97 ∷ 46 ∷ []) ends_in_point

-- A document with one text in it.
abbrev document : List Entry
document = entry "word/document.xml" ∷ []

no_program : verify_zip_bomb (libraries document) (1 ∷ []) (codes ".docx") ≡ passed
unfolding verify_zip_bomb inspect_archive check_entries split_dots codes text_eq ends lower begins
no_program = refl

undamaged : any is_damaged document ≡ false
unfolding codes text_eq ends lower
undamaged = refl

is_document : is_ooxml (codes ".docx") ≡ true
unfolding codes text_eq
is_document = refl

verify_zip_bomb-IsHarmless_example :
    IsHarmless (1 ∷ []) document × All (Nested (libraries document)) document
verify_zip_bomb-IsHarmless_example =
    verify_zip_bomb-IsHarmless (libraries document) (1 ∷ []) (codes ".docx") document is_document
      refl undamaged no_program
