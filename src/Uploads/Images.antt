-- ===== src/Uploads/Images.antt =====
-- Documents and pictures: `verify_pdf_active_content`, `verify_no_trailing_payload` and
-- `verify_image_dimensions` of app/core/file_security.py.
use wms_secret_backend.Prelude.{
  ℕ, drop, ◌*◌, Bool, true, false, ◌&&◌, ◌||◌, Option, none, some, List, [], ◌∷◌, String, ltb, leb,
  ◌==◌, if◌then◌else◌, any, length,
}
use wms_secret_backend.Prelude.Pieces.{begins, is_inside}
use wms_secret_backend.Uploads.{
  Bytes, Text, pdf_active_content, trailing_payload, image_bomb, Check, passed, refused, refuse_if,
  Libraries, codes, text_eq, is_one_of,
}

abbrev pub pdf_active_markers : List String
pdf_active_markers =
    "/JavaScript" ∷ "/OpenAction" ∷ "/Launch" ∷ "/EmbeddedFile" ∷ "/Filespec" ∷ "/RichMedia" ∷ []

unfoldable pub verify_pdf_active_content : Bytes → Text → Check
verify_pdf_active_content file ext =
    if text_eq (codes ".pdf") ext
    then refuse_if (any (λ m. is_inside (codes m) file) pdf_active_markers) pdf_active_content
    else passed

abbrev pub trailing_tolerance : ℕ
trailing_tolerance = 16

abbrev pub trailing_dangerous : List Bytes
trailing_dangerous =
    (77 ∷ 90 ∷ [])
    ∷ (127 ∷ 69 ∷ 76 ∷ 70 ∷ [])
    ∷ (202 ∷ 254 ∷ 186 ∷ 190 ∷ [])
    ∷ (80 ∷ 75 ∷ 3 ∷ 4 ∷ [])
    ∷ codes "<?php"
    ∷ codes "<script"
    ∷ codes "<html"
    ∷ codes "#!/"
    ∷ []

-- From the last place of a piece on, as `rfind` gives it.
unfoldable pub from_last : Bytes → Bytes → Option Bytes
from_last piece [] = none
from_last piece (x ∷ xs) = elim (from_last piece xs) [
  | some rest ↦ some rest
  | none ↦ if begins piece (x ∷ xs) then some (x ∷ xs) else none
]

-- NUL, space and the ends of lines.
abbrev pub is_padding : ℕ → Bool
is_padding b = b == 0 || b == 32 || b == 13 || b == 10 || b == 9

abbrev pub is_blank : Bytes → Bool
is_blank [] = true
is_blank (b ∷ bs) = is_padding b && is_blank bs

abbrev is_empty : Bytes → Bool
is_empty [] = true
is_empty (b ∷ bs) = false

abbrev pub check_png_tail : Bytes → Check
check_png_tail trailing =
    if leb (length trailing) trailing_tolerance && is_blank trailing
    then passed
    else if is_empty trailing
    then passed
    else refused trailing_payload

-- The marker and its four bytes of a checksum.
abbrev pub check_png : Option Bytes → Check
check_png none = passed
check_png (some rest) = check_png_tail (drop 8 rest)

abbrev pub has_dangerous : Bytes → Bool
has_dangerous trailing = any (λ sig. is_inside sig trailing) trailing_dangerous

abbrev pub check_jpeg : Option Bytes → Check
check_jpeg none = passed
check_jpeg (some rest) = refuse_if (has_dangerous (drop 2 rest)) trailing_payload

abbrev pub iend : Bytes
iend = 73 ∷ 69 ∷ 78 ∷ 68 ∷ []

abbrev pub eoi : Bytes
eoi = 255 ∷ 217 ∷ []

unfoldable pub verify_no_trailing_payload : Bytes → Text → Check
verify_no_trailing_payload file ext =
    if text_eq (codes ".png") ext
    then check_png (from_last iend file)
    else if is_one_of (".jpg" ∷ ".jpeg" ∷ []) ext
    then check_jpeg (from_last eoi file)
    else passed

abbrev pub max_image_pixels : ℕ
max_image_pixels = 50_000_000

abbrev pub check_pixels : Option (ℕ × ℕ) → Check
check_pixels none = passed
check_pixels (some (w, h)) = refuse_if (ltb max_image_pixels (w * h)) image_bomb

abbrev pub is_image : Text → Bool
is_image ext = is_one_of (".jpg" ∷ ".jpeg" ∷ ".png" ∷ ".webp" ∷ ".heic" ∷ []) ext

unfoldable pub verify_image_dimensions : Libraries → Bytes → Text → Check
verify_image_dimensions lib file ext =
    if is_image ext then check_pixels (lib.image_size file) else passed
