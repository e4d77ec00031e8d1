-- ===== src/Packing/Separation.antt =====
-- Two books of one box never occupy the same space.
use wms_secret_backend.Prelude.{
  ℕ, inl, inr, ◌+◌, ◌-◌, ◌≤◌, ◌≡◌, Bool, true, false, List, [], ◌∷◌, ◌++◌, map, arith, Bool-cases,
  All,
}
use wms_secret_backend.Geometry.{PackItem, Placement, Box, Point, hits, collides}
use wms_secret_backend.Packing.{
  fits, placement, put, inner_box, max_weight, shift, pack_into_box, along_x, along_y,
}
use wms_secret_backend.Packing.Placing.{Rule, pack_ind}

-- The cube with an edge just above EPS, with its lowest corner at `c`, lies inside `p`.
abbrev pub Holds : Placement → Point → Type 0
Holds p (u, v, w) =
    (p.x ≤ u)
    × (u + 2 ≤ p.x + p.length)
    × (p.y ≤ v)
    × (v + 2 ≤ p.y + p.width)
    × (p.z ≤ w)
    × (w + 2 ≤ p.z + p.height)

-- No such cube lies inside both.
abbrev pub IsApart : Placement → Placement → Type 0
IsApart p q = (c : Point) → Holds p c → Holds q c → ⊥

abbrev pub ArePairwiseApart : List Placement → Type 0
ArePairwiseApart [] = Unit
ArePairwiseApart (p ∷ ps) = All (IsApart p) ps × ArePairwiseApart ps

IsApart-of_hits :
    (p q : Placement) → hits p.x p.y p.z p.length p.width p.height q ≡ false → IsApart q p
unfolding hits
IsApart-of_hits p q h (u, v, w) (a, b, c, d, e, f) (a', b', c', d', e', f') = ground arith

IsApart-of_collides :
    (p : Placement) (qs : List Placement)
    → collides p.x p.y p.z p.length p.width p.height qs ≡ false
    → All (λ q. IsApart q p) qs
unfolding collides
IsApart-of_collides p [] h = tt
IsApart-of_collides p (q ∷ qs) h =
    (IsApart-of_hits p q (ground arith), IsApart-of_collides p qs (ground arith))

ArePairwiseApart-snoc :
    (ps : List Placement) (p : Placement)
    → ArePairwiseApart ps
    → All (λ q. IsApart q p) ps
    → ArePairwiseApart (ps ++ p ∷ [])
ArePairwiseApart-snoc [] p h a = (tt, tt)
ArePairwiseApart-snoc (q ∷ ps) p h a = (snoc ps h.0, ArePairwiseApart-snoc ps p h.1 a.1)
  where
    snoc : (rs : List Placement) → All (IsApart q) rs → All (IsApart q) (rs ++ p ∷ [])
    snoc [] _ = (a.0, tt)
    snoc (r ∷ rs) g = (g.0, snoc rs g.1)

pub not-collides_of_fits :
    (inner : Box) (placed : List Placement) (it : PackItem) (e : Point) (r : Bool)
    → fits inner placed it e r ≡ true
    → let p = placement it e r in collides p.x p.y p.z p.length p.width p.height placed ≡ false
unfolding fits
not-collides_of_fits inner placed it (x, y, z) r h =
    elim (Bool-cases (collides x y z (along_x it r) (along_y it r) it.height placed)) [
      | inl bad ↦ ground arith
      | inr good ↦ good
    ]

apart_rule :
    (inner : Box) (max_weight_g : ℕ) → Rule inner max_weight_g (λ _ st. ArePairwiseApart st.placed)
unfolding put
apart_rule inner max_weight_g = record {
  skips = λ it todo st p. p;
  puts = λ it todo st e r p light fit. ArePairwiseApart-snoc st.placed (placement it e r) p (
      IsApart-of_collides (placement it e r) st.placed
        (not-collides_of_fits inner st.placed it e r fit));
}

shift-IsApart : (s : ℕ) (p q : Placement) → IsApart p q → IsApart (shift s p) (shift s q)
shift-IsApart s p q h (u, v, w) (a, b, c, d, e, f) (a', b', c', d', e', f') =
    h (u - s, v - s, w) (omega arith, omega arith, omega arith, omega arith, e, f)
      (omega arith, omega arith, omega arith, omega arith, e', f')

shift-ArePairwiseApart :
    (s : ℕ) (ps : List Placement) → ArePairwiseApart ps → ArePairwiseApart (map (shift s) ps)
shift-ArePairwiseApart s [] h = tt
shift-ArePairwiseApart s (p ∷ ps) h = (one ps h.0, shift-ArePairwiseApart s ps h.1)
  where
    one : (qs : List Placement) → All (IsApart p) qs → All (IsApart (shift s p)) (map (shift s) qs)
    one [] g = tt
    one (q ∷ qs) g = (shift-IsApart s p q g.0, one qs g.1)

-- Whatever the items, the box and the margins, no two placements of a packed box overlap: no cube
-- with an edge of two millionths of a millimetre lies inside both.
pub pack_into_box-apart :
    (items : List PackItem) (box : Box) (side top : ℕ)
    → ArePairwiseApart (pack_into_box items box side top).placements
pack_into_box-apart items box side top =
    pack_ind (λ r. ArePairwiseApart r.placements) items box side top
      (apart_rule (inner_box box side top) (max_weight box)) tt tt
      (λ _ st. shift-ArePairwiseApart side st.placed)
