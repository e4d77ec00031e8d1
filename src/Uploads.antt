-- ===== src/Uploads.antt =====
-- The checks of an uploaded file: app/core/file_security.py. Contents and texts are lists of bytes and
-- of code points. What zipfile, Pillow, the decoders and the normal form of Unicode give is a
-- parameter; the texts of the reasons are left out.
pub mod Magic
pub mod Archive
pub mod Images
pub mod Names
pub mod Scan
pub mod Occurs
pub mod Trimmed
pub mod Entries
pub mod Shown
pub mod Clean
mod Tests
use Prim.Native.Char.{code}
use Prim.Native.String
use wms_secret_backend.Prelude.{
  ℕ, zero, suc, ◌+◌, Bool, true, false, ◌&&◌, ◌||◌, Option, none, some, List, [], ◌∷◌, ◌++◌, String,
  leb, ltb, ◌==◌, if◌then◌else◌, any, map,
}
use wms_secret_backend.Prelude.Pieces.{begins}

abbrev pub Bytes : Type 0
Bytes = List ℕ

abbrev pub Text : Type 0
Text = List ℕ

-- The codes of a `FileSecurityError`.
pub data Code : Type 0 where
  executable_content ext_not_allowed unknown_signature ext_content_mismatch txt_binary
        txt_not_decodable ooxml_broken macro_detected zip_bomb_size zip_bomb_ratio
        zip_path_traversal zip_executable_entry pdf_active_content trailing_payload image_bomb
        size_mismatch empty_filename filename_bidi filename_control filename_zero_width
        filename_double_ext :
      Code

-- A check returns, raises a `FileSecurityError`, or lets another exception through.
pub data Check : Type 0 where
  passed : Check
  refused : Code → Check
  broke : Check

-- The second check, after the first.
abbrev pub then_check : Check → Check → Check
then_check passed c = c
then_check (refused e) c = refused e
then_check broke c = broke

abbrev pub refuse_if : Bool → Code → Check
refuse_if true e = refused e
refuse_if false e = passed

-- What reading an entry of an archive gives: its content, `BadZipFile` or another exception.
pub data Content : Type 0 where
  content : Bytes → Content
  bad_entry other_error : Content

pub record Entry : Type 0 where
  pub filename : Text
  pub file_size : ℕ
  pub read : Content

-- The libraries: the entries of an archive, or none for `BadZipFile`; the width and height of a picture,
-- or none where Pillow is missing or fails; and whether a text can be decoded.
pub record Libraries : Type 0 where
  pub zip_file : Bytes → Option (List Entry)
  pub image_size : Bytes → Option (ℕ × ℕ)
  pub is_utf8 : Bytes → Bool
  pub is_cp949 : Bytes → Bool
  pub nfc : Text → Text

-- The code points of a text.
unfoldable pub codes : String → Text
codes String.[] = []
codes (String.◌∷◌ c s) = code c ∷ codes s

unfoldable pub text_eq : Text → Text → Bool
text_eq [] [] = true
text_eq [] (y ∷ ys) = false
text_eq (x ∷ xs) [] = false
text_eq (x ∷ xs) (y ∷ ys) = x == y && text_eq xs ys

unfoldable pub ends : Text → Text → Bool
ends piece [] = text_eq piece []
ends piece (x ∷ xs) = text_eq piece (x ∷ xs) || ends piece xs

-- `lower()` of a code point, as far as a letter of ASCII comes out.
abbrev pub lower_code : ℕ → List ℕ
lower_code c =
    if leb 65 c && leb c 90
    then (c + 32) ∷ []
    else if c == 304
    then 105 ∷ 775 ∷ []
    else if c == 8490
    then 107 ∷ []
    else c ∷ []

-- `lower()` of a text.
unfoldable pub lower : Text → Text
lower [] = []
lower (c ∷ cs) = lower_code c ++ lower cs

abbrev pub is_one_of : List String → Text → Bool
is_one_of names t = any (λ n. text_eq (codes n) t) names
