-- ===== src/Uploads/Magic.antt =====
-- The signatures of files: `detect_file_type`, `verify_magic_bytes` and `verify_text_content` of
-- app/core/file_security.py.
use wms_secret_backend.Prelude.{
  ℕ, drop, Bool, true, false, ◌&&◌, ◌||◌, Option, none, some, List, [], ◌∷◌, String, ◌==◌,
  if◌then◌else◌, any,
}
use wms_secret_backend.Prelude.Pieces.{begins}
use wms_secret_backend.Uploads.{
  Bytes, Text, executable_content, ext_not_allowed, unknown_signature, ext_content_mismatch,
  txt_binary, txt_not_decodable, Check, passed, refused, Libraries, codes, text_eq,
}

pub data FileType : Type 0 where
  jpg png webp heic pdf zip ole : FileType

-- `head[off : off + len(sig)] == sig`
abbrev pub has_at : ℕ → Bytes → Bytes → Bool
has_at off sig head = begins sig (drop off head)

abbrev zip_signatures : List Bytes
zip_signatures = (80 ∷ 75 ∷ 3 ∷ 4 ∷ []) ∷ (80 ∷ 75 ∷ 5 ∷ 6 ∷ []) ∷ (80 ∷ 75 ∷ 7 ∷ 8 ∷ []) ∷ []

unfoldable pub detect_file_type : Bytes → Option FileType
detect_file_type head =
    if has_at 0 (255 ∷ 216 ∷ 255 ∷ []) head
    then some jpg
    else if has_at 0 (137 ∷ 80 ∷ 78 ∷ 71 ∷ 13 ∷ 10 ∷ 26 ∷ 10 ∷ []) head
    then some png
    else if has_at 0 (codes "RIFF") head && has_at 8 (codes "WEBP") head
    then some webp
    else if has_at 4 (codes "ftyp") head
    then some heic
    else if has_at 0 (codes "%PDF-") head
    then some pdf
    else if any (λ sig. has_at 0 sig head) zip_signatures
    then some zip
    else if has_at 0 (208 ∷ 207 ∷ 17 ∷ 224 ∷ 161 ∷ 177 ∷ 26 ∷ 225 ∷ []) head
    then some ole
    else none

abbrev pub ext_to_types : List (String × List FileType)
ext_to_types =
    (".jpg", jpg ∷ [])
    ∷ (".jpeg", jpg ∷ [])
    ∷ (".png", png ∷ [])
    ∷ (".webp", webp ∷ [])
    ∷ (".heic", heic ∷ [])
    ∷ (".pdf", pdf ∷ [])
    ∷ (".docx", zip ∷ [])
    ∷ (".xlsx", zip ∷ [])
    ∷ (".pptx", zip ∷ [])
    ∷ (".doc", ole ∷ [])
    ∷ (".xls", ole ∷ [])
    ∷ (".ppt", ole ∷ [])
    ∷ (".hwp", ole ∷ [])
    ∷ (".txt", [])
    ∷ []

unfoldable pub find_types : Text → List (String × List FileType) → Option (List FileType)
find_types ext [] = none
find_types ext ((e, ts) ∷ rest) = if text_eq (codes e) ext then some ts else find_types ext rest

abbrev pub types_of : Text → Option (List FileType)
types_of ext = find_types ext ext_to_types

abbrev pub executable_signatures : List Bytes
executable_signatures =
    (77 ∷ 90 ∷ [])
    ∷ (127 ∷ 69 ∷ 76 ∷ 70 ∷ [])
    ∷ (207 ∷ 250 ∷ 237 ∷ 254 ∷ [])
    ∷ (202 ∷ 254 ∷ 186 ∷ 190 ∷ [])
    ∷ (35 ∷ 33 ∷ [])
    ∷ []

abbrev pub is_executable : Bytes → Bool
is_executable head = any (λ sig. begins sig head) executable_signatures

abbrev pub same_type : FileType → FileType → Bool
same_type jpg jpg = true
same_type png png = true
same_type webp webp = true
same_type heic heic = true
same_type pdf pdf = true
same_type zip zip = true
same_type ole ole = true
same_type _ _ = false

abbrev pub check_type : List FileType → Option FileType → Check
check_type ts none = refused unknown_signature
check_type ts (some t) = if any (same_type t) ts then passed else refused ext_content_mismatch

-- A text has no signature.
abbrev pub check_allowed : Bytes → Option (List FileType) → Check
check_allowed head none = refused ext_not_allowed
check_allowed head (some []) = passed
check_allowed head (some (t ∷ ts)) = check_type (t ∷ ts) (detect_file_type head)

unfoldable pub verify_magic_bytes : Bytes → Text → Check
verify_magic_bytes head ext =
    if is_executable head then refused executable_content else check_allowed head (types_of ext)

unfoldable pub verify_text_content : Libraries → Bytes → Check
verify_text_content lib head =
    if any (λ b. b == 0) head
    then refused txt_binary
    else if lib.is_utf8 head || lib.is_cp949 head
    then passed
    else refused txt_not_decodable
