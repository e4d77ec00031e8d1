-- ===== src/Override.antt =====
-- The decisions of a person on inspected books: app/domains/admin/service.py with its requests of
-- app/domains/admin/schemas.py, and the bands of the grades of app/models/wms.py.
pub mod Edits
pub mod Score
pub mod Session
pub mod Submit
pub mod Recall
pub mod Rows
pub mod Kept
pub mod Bands
pub mod Previewed
pub mod Reconsidered
pub mod Served
pub mod Noted
pub mod Batch
pub mod Shelved
pub mod Approved
mod Examples
mod Tests
use Prim.Native.Char.{code}
use Prim.Native.String
use wms_secret_backend.Prelude.{
  ℕ, ◌-◌, max, min, Bool, true, false, ◌&&◌, Option, none, some, List, [], ◌∷◌, String, leb, ◌==◌,
  if◌then◌else◌,
}
use wms_secret_backend.Policy.{Bbox}

abbrev pub grade_at : ℕ → String
grade_at score =
    if leb 95 score
    then "MINT"
    else if leb 85 score
    then "GOOD"
    else if leb 65 score
    then "NORMAL"
    else "REJECT"

unfoldable pub ubci_grade_from_score : Option ℕ → String
ubci_grade_from_score none = "NORMAL"
ubci_grade_from_score (some score) = grade_at score

-- `_grade_from_score` of app/domains/admin/service.py.
abbrev pub grade_from_score : Option ℕ → Option String
grade_from_score none = none
grade_from_score (some score) = some (grade_at score)

-- `upper()` of a code point, as far as it can give a letter of the four grades.
abbrev upper : ℕ → ℕ
upper c = if leb 97 c && leb c 122 then c - 32 else if c == 305 then 73 else c

-- Whether the text is these letters once it is in upper case.
unfoldable pub spells : List ℕ → String → Bool
spells [] String.[] = true
spells [] (String.◌∷◌ x s) = false
spells (c ∷ cs) String.[] = false
spells (c ∷ cs) (String.◌∷◌ x s) = (upper (code x) == c) && spells cs s

-- UBCI_GRADE_SCORE_BANDS, under the upper case of a name.
unfoldable pub band_of : String → Option (ℕ × ℕ)
unfolding spells
band_of grade =
    if spells (77 ∷ 73 ∷ 78 ∷ 84 ∷ []) grade
    then some (95, 100)
    else if spells (71 ∷ 79 ∷ 79 ∷ 68 ∷ []) grade
    then some (85, 94)
    else if spells (78 ∷ 79 ∷ 82 ∷ 77 ∷ 65 ∷ 76 ∷ []) grade
    then some (65, 84)
    else if spells (82 ∷ 69 ∷ 74 ∷ 69 ∷ 67 ∷ 84 ∷ []) grade
    then some (0, 64)
    else none

abbrev pub in_band : Option ℕ → Option (ℕ × ℕ) → Option ℕ
in_band score none = score
in_band none (some (lo, hi)) = some hi
in_band (some n) (some (lo, hi)) = some (max lo (min hi n))

-- `grade or ""`
abbrev pub or_empty : Option String → String
or_empty none = ""
or_empty (some t) = t

unfoldable pub clamp_ubci_score_to_grade : Option ℕ → Option String → Option ℕ
unfolding band_of
clamp_ubci_score_to_grade score grade = in_band score (band_of (or_empty grade))

-- An index that a request gives.
pub data Index : Type 0 where
  negative : Index
  at : ℕ → Index

-- A box that a person has moved. The index is `none` where it is missing or no integer, and so are
-- corners that `int` cannot read; the corners are naturals, as on the screen.
pub record EditedBbox : Type 0 where
  pub index : Option Index
  pub bbox : Option Bbox

-- A box that a person has drawn. An absent text is the empty text; `none` for the picture stands for
-- an absent key, and `some none` for null.
pub record AddedBbox : Type 0 where
  pub type : String
  pub bbox : Option Bbox
  pub image_index : Option (Option ℕ)

-- The four lists of a request, which are empty where it has none; an entry of the last two that is
-- no dictionary is `none`.
pub record BboxEdits : Type 0 where
  pub excluded_defect_indexes : List Index
  pub adopted_candidate_indexes : List Index
  pub edited_bboxes : List (Option EditedBbox)
  pub added_bboxes : List (Option AddedBbox)
