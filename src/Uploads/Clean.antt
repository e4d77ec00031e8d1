-- ===== src/Uploads/Clean.antt =====
-- What is known of a file that all checks accept.
use mathlib.Core.Path.{subst}
use wms_secret_backend.Prelude.{
  ℕ, take, drop, ◌*◌, ◌≤◌, ◌≡◌, ◌≢◌, refl, inl, inr, Bool, true, false, ◌||◌, Option, none, some,
  List, [], ◌∷◌, ◌++◌, ltb→le, ◌==◌, ==_iff, Bool-cases, any, length, All,
}
use wms_secret_backend.Prelude.Pieces.{begins, is_inside}
use wms_secret_backend.Uploads.{
  Bytes, Text, Code, Check, passed, refused, broke, ext_content_mismatch, txt_not_decodable,
  size_mismatch, Entry, Libraries, refuse_if, codes, text_eq, is_one_of, lower,
}
use wms_secret_backend.Uploads.Magic.{
  FileType, detect_file_type, types_of, executable_signatures, is_executable, same_type, check_type,
  check_allowed, verify_magic_bytes, verify_text_content,
}
use wms_secret_backend.Uploads.Archive.{is_ooxml, has_macro, check_names, verify_no_macro}
use wms_secret_backend.Uploads.Images.{
  pdf_active_markers, from_last, trailing_dangerous, iend, eoi, max_image_pixels, is_image,
  verify_pdf_active_content, verify_no_trailing_payload, verify_image_dimensions,
}
use wms_secret_backend.Uploads.Scan.{
  clean, check_text, check_size, all_checks, result_of, scan_attachment,
}
use wms_secret_backend.Uploads.Occurs.{Lacks, is_inside-Lacks, begins-Starts, none_of}
use wms_secret_backend.Uploads.Trimmed.{IsTrimmed, verify_no_trailing_payload-IsTrimmed}
use wms_secret_backend.Uploads.Entries.{
  is_damaged, IsHarmless, Nested, then_check-passed, if_refused, verify_zip_bomb-IsHarmless,
}

-- The signature is one that the extension allows; a text has none.
abbrev pub HasType : Bytes → Option (List FileType) → Type 0
HasType head none = ⊥
HasType head (some []) = Unit
HasType head (some (t ∷ ts)) =
    (u : FileType) × (detect_file_type head ≡ some u) × (any (same_type u) (t ∷ ts) ≡ true)

-- The guarantees for a file whose extension, in lower case, is `ext`.
pub record IsClean (lib : Libraries) (file : Bytes) (ext : Text) (declared : Option ℕ)
    : Type 0 where
  pub no_program : All (λ sig. (rest : Bytes) → take 64 file ≢ sig ++ rest) executable_signatures
  pub typed : HasType (take 64 file) (types_of ext)
  pub text :
      text_eq (codes ".txt") ext ≡ true
      → (any (λ b. b == 0) (take 4_096 file) ≡ false)
        × ((lib.is_utf8 (take 4_096 file) || lib.is_cp949 (take 4_096 file)) ≡ true)
  pub macros :
      is_ooxml ext ≡ true
      → (es : List Entry) × (lib.zip_file file ≡ some es) × (any has_macro es ≡ false)
  pub archive :
      (es : List Entry)
      → is_ooxml ext ≡ true
      → lib.zip_file file ≡ some es
      → any is_damaged es ≡ false
      → IsHarmless file es × All (Nested lib) es
  pub passive :
      text_eq (codes ".pdf") ext ≡ true → All (λ m. Lacks (codes m) file) pdf_active_markers
  pub pixels :
      (w h : ℕ) → is_image ext ≡ true → lib.image_size file ≡ some (w, h) → w * h ≤ max_image_pixels
  pub png_tail :
      (rest : Bytes)
      → text_eq (codes ".png") ext ≡ true
      → from_last iend file ≡ some rest
      → IsTrimmed file rest
  pub jpeg_tail :
      (rest : Bytes)
      → text_eq (codes ".png") ext ≡ false
      → is_one_of (".jpg" ∷ ".jpeg" ∷ []) ext ≡ true
      → from_last eoi file ≡ some rest
      → All (λ sig. Lacks sig (drop 2 rest)) trailing_dangerous
  pub size : (n : ℕ) → declared ≡ some n → n ≡ length file

refuse_if-passed : (b : Bool) (c : Code) → refuse_if b c ≡ passed → b ≡ false
refuse_if-passed true c h = absurd (cc)
refuse_if-passed false c h = refl

check_size-passed : (n m : ℕ) → check_size (some n) m ≡ passed → n ≡ m
check_size-passed n m h = elim (Bool-cases (n == m)) [
  | inl e ↦ (==_iff n m).0 e
  | inr e ↦ let bad : refused size_mismatch ≡ passed = rw e at h in absurd (cc)
]

check_type-HasType :
    (head : Bytes) (ts : List FileType) (o : Option FileType)
    → detect_file_type head ≡ o
    → check_type ts o ≡ passed
    → (u : FileType) × (detect_file_type head ≡ some u) × (any (same_type u) ts ≡ true)
check_type-HasType head ts none e h = absurd (cc)
check_type-HasType head ts (some u) e h = elim (Bool-cases (any (same_type u) ts)) [
  | inl q ↦ (u, e, q)
  | inr q ↦ let bad : refused ext_content_mismatch ≡ passed = rw q at h in absurd (cc)
]

check_allowed-HasType :
    (head : Bytes) (o : Option (List FileType)) → check_allowed head o ≡ passed → HasType head o
check_allowed-HasType head none h = absurd (cc)
check_allowed-HasType head (some []) h = tt
check_allowed-HasType head (some (t ∷ ts)) h =
    check_type-HasType head (t ∷ ts) (detect_file_type head) refl h

verify_text_content-passed :
    (lib : Libraries) (head : Bytes)
    → verify_text_content lib head ≡ passed
    → (any (λ b. b == 0) head ≡ false) × ((lib.is_utf8 head || lib.is_cp949 head) ≡ true)
unfolding verify_text_content
verify_text_content-passed lib head h =
    let (plain, h') = if_refused (any (λ b. b == 0) head) _ _ h in
    elim (Bool-cases (lib.is_utf8 head || lib.is_cp949 head)) [
      | inl q ↦ (plain, q)
      | inr q ↦ let bad : refused txt_not_decodable ≡ passed = rw q at h' in absurd (cc)
    ]

check_names-passed :
    (o : Option (List Entry))
    → check_names o ≡ passed
    → (es : List Entry) × (o ≡ some es) × (any has_macro es ≡ false)
check_names-passed none h = absurd (cc)
check_names-passed (some es) h = (es, refl, (if_refused (any has_macro es) _ _ h).0)

module _ (file : Bytes) (ext : Text) where
  magic-passed :
      verify_magic_bytes (take 64 file) ext ≡ passed
      → All (λ sig. (rest : Bytes) → take 64 file ≢ sig ++ rest) executable_signatures
        × HasType (take 64 file) (types_of ext)
  unfolding verify_magic_bytes
  magic-passed h =
      let (plain, h') = if_refused (is_executable (take 64 file)) _ _ h in
      (
        none_of (λ sig. begins sig (take 64 file))
            (λ sig. (rest : Bytes) → take 64 file ≢ sig ++ rest)
            (λ sig e rest. begins-Starts sig (take 64 file) rest e) executable_signatures plain,
        check_allowed-HasType (take 64 file) (types_of ext) h',
      )

  pdf-passed :
      verify_pdf_active_content file ext ≡ passed
      → text_eq (codes ".pdf") ext ≡ true
      → All (λ m. Lacks (codes m) file) pdf_active_markers
  unfolding verify_pdf_active_content
  pdf-passed h e =
      none_of (λ m. is_inside (codes m) file) _ (λ m q. is_inside-Lacks (codes m) file q)
        pdf_active_markers (refuse_if-passed _ _ (rw e at h))

  jpeg-passed :
      (rest : Bytes)
      → verify_no_trailing_payload file ext ≡ passed
      → text_eq (codes ".png") ext ≡ false
      → is_one_of (".jpg" ∷ ".jpeg" ∷ []) ext ≡ true
      → from_last eoi file ≡ some rest
      → All (λ sig. Lacks sig (drop 2 rest)) trailing_dangerous
  unfolding verify_no_trailing_payload
  jpeg-passed rest h p e q =
      none_of (λ sig. is_inside sig (drop 2 rest)) _ (λ sig z. is_inside-Lacks sig (drop 2 rest) z)
        trailing_dangerous (refuse_if-passed _ _ (rw (p, e, q) at h))

  module _ (lib : Libraries) where
    pixels-passed :
        (w h : ℕ)
        → verify_image_dimensions lib file ext ≡ passed
        → is_image ext ≡ true
        → lib.image_size file ≡ some (w, h)
        → w * h ≤ max_image_pixels
    unfolding verify_image_dimensions
    pixels-passed w h v e q =
        ltb→le max_image_pixels (w * h) (refuse_if-passed _ _ (rw (e, q) at v))

    all_checks-IsClean :
        (declared : Option ℕ)
        → all_checks lib file ext declared ≡ passed
        → IsClean lib file ext declared
    unfolding all_checks verify_no_macro
    all_checks-IsClean declared h =
        let (magic, h1) = then_check-passed _ _ h in
        let (text, h2) = then_check-passed (check_text lib file ext) _ h1 in
        let (macro, h3) = then_check-passed (verify_no_macro lib file ext) _ h2 in
        let (bomb, h4) = then_check-passed _ _ h3 in
        let (pdf, h5) = then_check-passed _ _ h4 in
        let (pixels, h6) = then_check-passed _ _ h5 in
        let (tail, size) = then_check-passed _ _ h6 in
        record {
          no_program = (magic-passed magic).0;
          typed = (magic-passed magic).1;
          text = λ e. verify_text_content-passed lib (take 4_096 file) (rw e at text);
          macros = λ e. check_names-passed (lib.zip_file file) (rw e at macro);
          archive = λ es o z d. verify_zip_bomb-IsHarmless lib file ext es o z d bomb;
          passive = pdf-passed pdf;
          pixels = λ w h e q. pixels-passed w h pixels e q;
          png_tail = λ rest p e. verify_no_trailing_payload-IsTrimmed file rest ext p tail e;
          jpeg_tail = λ rest p e q. jpeg-passed rest tail p e q;
          size = λ n e.
              check_size-passed n (length file)
                (subst (λ o. check_size o (length file) ≡ passed) e size);
        }

result_of-clean :
    (file : Bytes) (c : Check) (t : Option FileType) (n : ℕ)
    → result_of file c ≡ clean t n
    → c ≡ passed
result_of-clean file passed t n h = refl
result_of-clean file (refused c) t n h = absurd (cc)
result_of-clean file broke t n h = absurd (cc)

-- A file that the scan calls clean does not start as a program, and its signature fits its extension,
-- for a text there is no zero byte and it can be decoded; an office document has no macro and, if no
-- archive in it is damaged, it and each archive directly in it are within the bounds and hold no
-- program and no path that leads out; a PDF has none of the markers of active content; a picture whose
-- size can be read has at most 50 million points; behind the last end marker of a PNG there is at
-- most padding, and of a JPEG none of the dangerous signatures; and a declared size is the true one.
pub scan_attachment-IsClean :
    (lib : Libraries) (file : Bytes) (ext : Text) (declared : Option ℕ) (t : Option FileType)
    (n : ℕ)
    → scan_attachment lib file ext declared ≡ clean t n
    → IsClean lib file (lower ext) declared
unfolding scan_attachment
scan_attachment-IsClean lib file ext declared t n h =
    all_checks-IsClean file (lower ext) lib declared
      (result_of-clean file (all_checks lib file (lower ext) declared) t n h)
