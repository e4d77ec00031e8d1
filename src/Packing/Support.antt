-- ===== src/Packing/Support.antt =====
-- No book floats: each rests on the floor or, for three quarters of its face, on earlier books.
use mathlib.Core.List.{append-nil, append_assoc, map-append}
use wms_secret_backend.Prelude.{
  ℕ, ◌+◌, ◌*◌, ◌≤◌, ◌≡◌, refl, ◌⊎◌, inl, inr, Bool, true, false, List, [], ◌∷◌, ◌++◌, map, arith,
  sum_of, leb, Bool-cases,
}
use wms_secret_backend.Geometry.{
  eps_len, PackItem, Placement, Box, Point, overlap_1d, rests_on, support_ratio, below_support_min,
}
use wms_secret_backend.Packing.{
  fits, placement, put, inner_box, max_weight, shift, pack_into_box, along_x, along_y,
}
use wms_secret_backend.Packing.Placing.{Rule, pack_ind}

-- The area of the bottom of `p` that lies on the top of `q`.
abbrev pub contact : Placement → Placement → ℕ
contact p q = rests_on p.x p.y p.z p.length p.width q

abbrev pub IsSupported : List Placement → Placement → Type 0
IsSupported before p = (p.z ≤ eps_len) ⊎ (3 * (p.length * p.width) ≤ 4 * sum_of (contact p) before)

-- Each of the placements, by those before it.
abbrev pub AreSupported : List Placement → List Placement → Type 0
AreSupported before [] = Unit
AreSupported before (p ∷ ps) = IsSupported before p × AreSupported (before ++ p ∷ []) ps

AreSupported-snoc :
    (before ps : List Placement) (p : Placement)
    → AreSupported before ps
    → IsSupported (before ++ ps) p
    → AreSupported before (ps ++ p ∷ [])
AreSupported-snoc before [] p h g = (simp append-nil at g, tt)
AreSupported-snoc before (q ∷ ps) p h g =
    (h.0, AreSupported-snoc (before ++ q ∷ []) ps p h.1 (simp append_assoc g))

supported_of_ratio :
    (x y z l w : ℕ) (placed : List Placement)
    → below_support_min (support_ratio x y z l w placed) ≡ false
    → (z ≤ eps_len) ⊎ (3 * (l * w) ≤ 4 * sum_of (rests_on x y z l w) placed)
unfolding support_ratio
supported_of_ratio x y z l w placed h = elim (Bool-cases (leb z eps_len)) [
  | inl floor ↦ inl (ground arith)
  | inr above ↦ inr (ground arith)
]

IsSupported-of_fits :
    (inner : Box) (placed : List Placement) (it : PackItem) (e : Point) (r : Bool)
    → fits inner placed it e r ≡ true
    → IsSupported placed (placement it e r)
unfolding fits
IsSupported-of_fits inner placed it (x, y, z) r h =
    supported_of_ratio x y z (along_x it r) (along_y it r) placed (ground arith)

support_rule :
    (inner : Box) (max_weight_g : ℕ) → Rule inner max_weight_g (λ _ st. AreSupported [] st.placed)
unfolding put
support_rule inner max_weight_g = record {
  skips = λ it todo st p. p;
  puts = λ it todo st e r p light fit.
      AreSupported-snoc [] st.placed (placement it e r) p
        (IsSupported-of_fits inner st.placed it e r fit);
}

overlap_1d-shift :
    (s a l b m : ℕ)
    → overlap_1d (a + s) (a + s + l) (b + s) (b + s + m) ≡ overlap_1d a (a + l) b (b + m)
unfolding overlap_1d
overlap_1d-shift s a l b m = omega arith

contact-shift : (s : ℕ) (p q : Placement) → contact (shift s p) (shift s q) ≡ contact p q
unfolding rests_on
contact-shift s p q =
    simp (overlap_1d-shift s p.x p.length q.x q.length, overlap_1d-shift s p.y p.width q.y q.width)

sum_of-contact-shift :
    (s : ℕ) (p : Placement) (qs : List Placement)
    → sum_of (contact (shift s p)) (map (shift s) qs) ≡ sum_of (contact p) qs
sum_of-contact-shift s p [] = refl
sum_of-contact-shift s p (q ∷ qs) = omega (arith, contact-shift s p q, sum_of-contact-shift s p qs)

IsSupported-shift :
    (s : ℕ) (before : List Placement) (p : Placement)
    → IsSupported before p
    → IsSupported (map (shift s) before) (shift s p)
IsSupported-shift s before p (inl floor) = inl floor
IsSupported-shift s before p (inr above) = inr (rw (sum_of-contact-shift s p before) above)

AreSupported-shift :
    (s : ℕ) (before ps : List Placement)
    → AreSupported before ps
    → AreSupported (map (shift s) before) (map (shift s) ps)
AreSupported-shift s before [] h = tt
AreSupported-shift s before (p ∷ ps) h = (
  IsSupported-shift s before p h.0,
  rw (map-append (shift s) before (p ∷ [])) at (AreSupported-shift s (before ++ p ∷ []) ps h.1),
)

-- In the order of placement, each book of a packed box rests on the floor, or at least three
-- quarters of its bottom face rest on the tops of books placed before it.
pub pack_into_box-supported :
    (items : List PackItem) (box : Box) (side top : ℕ)
    → AreSupported [] (pack_into_box items box side top).placements
pack_into_box-supported items box side top =
    pack_ind (λ r. AreSupported [] r.placements) items box side top
      (support_rule (inner_box box side top) (max_weight box)) tt tt
      (λ _ st. AreSupported-shift side [] st.placed)
