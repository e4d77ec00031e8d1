-- ===== src/Override/Kept.antt =====
-- What the edits of a person leave of the defects.
use wms_secret_backend.Prelude.{
  ℕ, zero, suc, ◌≡◌, refl, ◌∙◌, true, Option, none, some, List, [], ◌∷◌, ◌++◌,
}
use wms_secret_backend.Policy.{Bbox}
use wms_secret_backend.Returns.{LoggedDefect, Candidate}
use wms_secret_backend.Override.{Index, negative, at, EditedBbox, AddedBbox, BboxEdits}
use wms_secret_backend.Override.Edits.{
  change_at, change_index, mark_excluded, exclude_all, adopted, adopt, adopt_all, move_box, edit_at,
  edit_all, drawn, add_box, add_all, apply_bbox_edits,
}

-- A defect without its box and the two marks of a person.
abbrev pub essence : LoggedDefect → LoggedDefect
essence d = record d {
  seen = record d.seen { bbox = none };
  hitl_excluded = true;
  hitl_bbox_edited = true;
}

-- The first list, up to what the essence forgets, begins the second.
abbrev pub Extends : List LoggedDefect → List LoggedDefect → Type 0
Extends [] ys = Unit
Extends (x ∷ xs) [] = ⊥
Extends (x ∷ xs) (y ∷ ys) = (essence y ≡ essence x) × Extends xs ys

Extends-refl : (xs : List LoggedDefect) → Extends xs xs
Extends-refl [] = tt
Extends-refl (x ∷ xs) = (refl, Extends-refl xs)

Extends-append : (xs ys zs : List LoggedDefect) → Extends xs ys → Extends xs (ys ++ zs)
Extends-append [] ys zs h = tt
Extends-append (x ∷ xs) [] zs h = absurd h
Extends-append (x ∷ xs) (y ∷ ys) zs h = (h.0, Extends-append xs ys zs h.1)

Extends-change_at :
    (f : LoggedDefect → LoggedDefect)
    → ((d : LoggedDefect) → essence (f d) ≡ essence d)
    → (n : ℕ) (xs ys : List LoggedDefect) → Extends xs ys
    → Extends xs (change_at f n ys)
unfolding change_at
Extends-change_at f same n [] ys h = tt
Extends-change_at f same n (x ∷ xs) [] h = absurd h
Extends-change_at f same zero (x ∷ xs) (y ∷ ys) h = (same y ∙ h.0, h.1)
Extends-change_at f same (suc n) (x ∷ xs) (y ∷ ys) h = (h.0, Extends-change_at f same n xs ys h.1)

module _ (xs : List LoggedDefect) where
  Extends-change_index :
      (f : LoggedDefect → LoggedDefect)
      → ((d : LoggedDefect) → essence (f d) ≡ essence d)
      → (i : Index) (ys : List LoggedDefect) → Extends xs ys
      → Extends xs (change_index f i ys)
  Extends-change_index f same negative ys h = h
  Extends-change_index f same (at n) ys h = Extends-change_at f same n xs ys h

  Extends-exclude_all :
      (is : List Index) (ys : List LoggedDefect) → Extends xs ys → Extends xs (exclude_all is ys)
  unfolding exclude_all
  Extends-exclude_all [] ys h = h
  Extends-exclude_all (i ∷ is) ys h =
      Extends-exclude_all is _ (Extends-change_index mark_excluded (λ d. refl) i ys h)

  Extends-adopt :
      (c : Option (Option Candidate)) (ys : List LoggedDefect)
      → Extends xs ys
      → Extends xs (adopt c ys)
  Extends-adopt none ys h = h
  Extends-adopt (some none) ys h = h
  Extends-adopt (some (some c)) ys h = Extends-append xs ys (adopted c ∷ []) h

  Extends-adopt_all :
      (cs : List (Option Candidate)) (is : List Index) (ys : List LoggedDefect)
      → Extends xs ys
      → Extends xs (adopt_all cs is ys)
  unfolding adopt_all
  Extends-adopt_all cs [] ys h = h
  Extends-adopt_all cs (i ∷ is) ys h = Extends-adopt_all cs is _ (Extends-adopt _ ys h)

  Extends-edit_at :
      (i : Option Index) (b : Option Bbox) (ys : List LoggedDefect)
      → Extends xs ys
      → Extends xs (edit_at i b ys)
  Extends-edit_at none b ys h = h
  Extends-edit_at (some i) none ys h = h
  Extends-edit_at (some i) (some b) ys h = Extends-change_index (move_box b) (λ d. refl) i ys h

  Extends-edit_all :
      (es : List (Option EditedBbox)) (ys : List LoggedDefect)
      → Extends xs ys
      → Extends xs (edit_all es ys)
  unfolding edit_all
  Extends-edit_all [] ys h = h
  Extends-edit_all (none ∷ es) ys h = Extends-edit_all es ys h
  Extends-edit_all (some e ∷ es) ys h = Extends-edit_all es _ (Extends-edit_at e.index e.bbox ys h)

  Extends-add_box :
      (a : AddedBbox) (b : Option Bbox) (ys : List LoggedDefect)
      → Extends xs ys
      → Extends xs (add_box a b ys)
  Extends-add_box a none ys h = h
  Extends-add_box a (some b) ys h = Extends-append xs ys (drawn a b ∷ []) h

  Extends-add_all :
      (as' : List (Option AddedBbox)) (ys : List LoggedDefect)
      → Extends xs ys
      → Extends xs (add_all as' ys)
  unfolding add_all
  Extends-add_all [] ys h = h
  Extends-add_all (none ∷ as') ys h = Extends-add_all as' ys h
  Extends-add_all (some a ∷ as') ys h = Extends-add_all as' _ (Extends-add_box a a.bbox ys h)

-- No edit of a person deletes a defect, moves it in the list or changes what was judged of it: in the
-- edited list each defect stands at its old place, and only its box and the marks for an exclusion
-- and a moved box may differ.
pub apply_bbox_edits-Extends :
    (ds : List LoggedDefect) (cs : List (Option Candidate)) (e : BboxEdits)
    → Extends ds (apply_bbox_edits ds cs e)
unfolding apply_bbox_edits
apply_bbox_edits-Extends ds cs e = Extends-add_all ds e.added_bboxes _ (
    Extends-edit_all ds e.edited_bboxes _ (
      Extends-adopt_all ds cs e.adopted_candidate_indexes _
        (Extends-exclude_all ds e.excluded_defect_indexes ds (Extends-refl ds))))
