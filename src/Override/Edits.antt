-- ===== src/Override/Edits.antt =====
-- `apply_bbox_edits` of app/domains/admin/service.py: what a person does to the boxes of a book.
use wms_secret_backend.Prelude.{
  ℕ, zero, suc, true, false, Option, none, some, List, [], ◌∷◌, ◌++◌, String,
}
use wms_secret_backend.Prelude.Texts.{nonempty_or}
use wms_secret_backend.Policy.{Defect, Bbox}
use wms_secret_backend.Returns.{LoggedDefect, Candidate}
use wms_secret_backend.Override.{Index, negative, at, EditedBbox, AddedBbox, BboxEdits}

-- A change of the item at an index, if there is one.
unfoldable pub change_at {ℓ} : {A : Type ℓ} → (A → A) → ℕ → List A → List A
change_at f n [] = []
change_at f zero (x ∷ xs) = f x ∷ xs
change_at f (suc n) (x ∷ xs) = x ∷ change_at f n xs

unfoldable pub item_at {ℓ} : {A : Type ℓ} → ℕ → List A → Option A
item_at n [] = none
item_at zero (x ∷ xs) = some x
item_at (suc n) (x ∷ xs) = item_at n xs

abbrev pub change_index :
    (LoggedDefect → LoggedDefect) → Index → List LoggedDefect → List LoggedDefect
change_index f negative ds = ds
change_index f (at n) ds = change_at f n ds

abbrev pub mark_excluded : LoggedDefect → LoggedDefect
mark_excluded d = record d { hitl_excluded = true }

unfoldable pub exclude_all : List Index → List LoggedDefect → List LoggedDefect
exclude_all [] ds = ds
exclude_all (i ∷ is) ds = exclude_all is (change_index mark_excluded i ds)

-- A defect with these keys alone.
abbrev plain : String → String → Option Bbox → Option ℕ → Defect
plain type description bbox image = record {
  type = type;
  label = "";
  description = description;
  ratio = some 0;
  bbox = bbox;
  image_index = image;
  page_count = none;
  pages = none;
  level = none;
  text_overlap = false;
  evidence_suspect = false;
  applied_deduction = none;
  deduction_scope = none;
  deduction_group = none;
}

abbrev pub adopted : Candidate → LoggedDefect
adopted c = record {
  seen =
      plain (nonempty_or (nonempty_or "UNKNOWN" c.type) c.defect_type) "관리자가 YOLO 후보에서 직접 채택" c.bbox
        c.image_index;
  confidence = c.confidence;
  conf_copied_from_candidate = false;
  bbox_ungrounded = false;
  hitl_excluded = false;
  hitl_adopted = true;
  hitl_bbox_edited = false;
  hitl_added = false;
}

abbrev candidate_at : Index → List (Option Candidate) → Option (Option Candidate)
candidate_at negative cs = none
candidate_at (at n) cs = item_at n cs

abbrev pub adopt : Option (Option Candidate) → List LoggedDefect → List LoggedDefect
adopt (some (some c)) ds = ds ++ adopted c ∷ []
adopt _ ds = ds

unfoldable pub adopt_all :
    List (Option Candidate) → List Index → List LoggedDefect → List LoggedDefect
adopt_all cs [] ds = ds
adopt_all cs (i ∷ is) ds = adopt_all cs is (adopt (candidate_at i cs) ds)

abbrev pub move_box : Bbox → LoggedDefect → LoggedDefect
move_box b d = record d { seen = record d.seen { bbox = some b }; hitl_bbox_edited = true }

abbrev pub edit_at : Option Index → Option Bbox → List LoggedDefect → List LoggedDefect
edit_at (some i) (some b) ds = change_index (move_box b) i ds
edit_at _ _ ds = ds

abbrev pub edit : Option EditedBbox → List LoggedDefect → List LoggedDefect
edit none ds = ds
edit (some e) ds = edit_at e.index e.bbox ds

unfoldable pub edit_all : List (Option EditedBbox) → List LoggedDefect → List LoggedDefect
edit_all [] ds = ds
edit_all (e ∷ es) ds = edit_all es (edit e ds)

abbrev picture : Option (Option ℕ) → Option ℕ
picture none = some 0
picture (some i) = i

abbrev pub drawn : AddedBbox → Bbox → LoggedDefect
drawn a b = record {
  seen = plain (nonempty_or "UNKNOWN" a.type) "관리자가 직접 추가" (some b) (picture a.image_index);
  confidence = none;
  conf_copied_from_candidate = false;
  bbox_ungrounded = false;
  hitl_excluded = false;
  hitl_adopted = false;
  hitl_bbox_edited = false;
  hitl_added = true;
}

abbrev pub add_box : AddedBbox → Option Bbox → List LoggedDefect → List LoggedDefect
add_box a none ds = ds
add_box a (some b) ds = ds ++ drawn a b ∷ []

abbrev pub add : Option AddedBbox → List LoggedDefect → List LoggedDefect
add none ds = ds
add (some a) ds = add_box a a.bbox ds

unfoldable pub add_all : List (Option AddedBbox) → List LoggedDefect → List LoggedDefect
add_all [] ds = ds
add_all (a ∷ as') ds = add_all as' (add a ds)

unfoldable pub apply_bbox_edits :
    List LoggedDefect → List (Option Candidate) → BboxEdits → List LoggedDefect
apply_bbox_edits ds cs e = add_all e.added_bboxes (
    edit_all e.edited_bboxes
      (adopt_all cs e.adopted_candidate_indexes (exclude_all e.excluded_defect_indexes ds)))
