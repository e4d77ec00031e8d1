-- ===== src/Uploads/Scan.antt =====
-- All checks of a file: `scan_attachment` of app/core/file_security.py.
use wms_secret_backend.Prelude.{take, ℕ, not, Option, none, some, ◌==◌, if◌then◌else◌, length}
use wms_secret_backend.Uploads.{
  Bytes, Text, Code, size_mismatch, Check, passed, refused, broke, then_check, refuse_if, Libraries,
  codes, text_eq, lower,
}
use wms_secret_backend.Uploads.Magic.{
  FileType, detect_file_type, verify_magic_bytes, verify_text_content,
}
use wms_secret_backend.Uploads.Archive.{verify_no_macro, verify_zip_bomb}
use wms_secret_backend.Uploads.Images.{
  verify_pdf_active_content, verify_no_trailing_payload, verify_image_dimensions,
}

pub data ScanResult : Type 0 where
  clean : Option FileType → ℕ → ScanResult
  rejected : Code → ScanResult
  crashed : ScanResult

abbrev pub check_text : Libraries → Bytes → Text → Check
check_text lib file ext =
    if text_eq (codes ".txt") ext then verify_text_content lib (take 4_096 file) else passed

abbrev pub check_size : Option ℕ → ℕ → Check
check_size none n = passed
check_size (some m) n = refuse_if (not (m == n)) size_mismatch

unfoldable pub all_checks : Libraries → Bytes → Text → Option ℕ → Check
all_checks lib file ext declared = then_check (verify_magic_bytes (take 64 file) ext) (
    then_check (check_text lib file ext) (
      then_check (verify_no_macro lib file ext) (
        then_check (verify_zip_bomb lib file ext) (
          then_check (verify_pdf_active_content file ext) (
            then_check (verify_image_dimensions lib file ext) (
              then_check (verify_no_trailing_payload file ext)
                (check_size declared (length file))))))))

abbrev pub result_of : Bytes → Check → ScanResult
result_of file passed = clean (detect_file_type (take 64 file)) (length file)
result_of file (refused c) = rejected c
result_of file broke = crashed

unfoldable pub scan_attachment : Libraries → Bytes → Text → Option ℕ → ScanResult
scan_attachment lib file ext declared = result_of file (all_checks lib file (lower ext) declared)
