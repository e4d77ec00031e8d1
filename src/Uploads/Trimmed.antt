-- ===== src/Uploads/Trimmed.antt =====
-- What may follow the end of a picture.
use wms_secret_backend.Prelude.{
  drop, ◌≤◌, ◌≡◌, refl, inl, inr, true, ◌&&◌, some, [], ◌∷◌, ◌++◌, arith, leb, Bool-cases, length,
}
use wms_secret_backend.Prelude.Pieces.{begins}
use wms_secret_backend.Uploads.{Bytes, Text, passed, refused, trailing_payload, codes, text_eq}
use wms_secret_backend.Uploads.Images.{
  from_last, is_blank, trailing_tolerance, check_png_tail, iend, verify_no_trailing_payload,
}
use wms_secret_backend.Uploads.Occurs.{from_last-cuts}

check_png_tail-few :
    (trailing : Bytes)
    → check_png_tail trailing ≡ passed
    → (length trailing ≤ trailing_tolerance) × (is_blank trailing ≡ true)
check_png_tail-few [] h = (omega arith, refl)
check_png_tail-few (b ∷ bs) h =
    elim (Bool-cases (leb (length (b ∷ bs)) trailing_tolerance && is_blank (b ∷ bs))) [
      | inl e ↦ (ground (arith, e), ground (arith, e))
      | inr e ↦ let bad : refused trailing_payload ≡ passed = rw e at h in absurd (cc)
    ]

-- A picture with its last end marker, and what follows.
pub record IsTrimmed (file rest : Bytes) : Type 0 where
  before : Bytes
  cut : file ≡ before ++ rest
  starts : begins iend rest ≡ true
  few : length (drop 8 rest) ≤ trailing_tolerance
  padded : is_blank (drop 8 rest) ≡ true

-- If a picture in the format PNG passes the check, and the marker of its end is in it, then behind the
-- last such marker and four bytes there are at most 16 bytes, which are NUL or white space.
pub verify_no_trailing_payload-IsTrimmed :
    (file rest : Bytes) (ext : Text)
    → text_eq (codes ".png") ext ≡ true
    → verify_no_trailing_payload file ext ≡ passed
    → from_last iend file ≡ some rest
    → IsTrimmed file rest
unfolding verify_no_trailing_payload
verify_no_trailing_payload-IsTrimmed file rest ext png h e =
    let (before, cut, starts) = from_last-cuts iend file rest e in
    let tail = check_png_tail-few (drop 8 rest) (rw (png, e) at h) in
    record { before = before; cut = cut; starts = starts; few = tail.0; padded = tail.1 }
