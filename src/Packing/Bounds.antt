-- ===== src/Packing/Bounds.antt =====
-- Every book of a box lies inside it, clear of the cushion at the sides and on top.
use wms_secret_backend.Prelude.{
  ℕ, ◌+◌, ◌≤◌, ◌≡◌, Bool, true, false, List, [], ◌∷◌, map, arith, All, All-append,
}
use wms_secret_backend.Geometry.{eps_len, PackItem, Placement, Box, Point}
use wms_secret_backend.Packing.{
  fits, placement, put, inner_box, max_weight, shift, pack_into_box, no_room,
}
use wms_secret_backend.Packing.Placing.{Rule, pack_ind}

-- Up to the tolerance EPS, as in the code.
abbrev pub IsWithin : Box → Placement → Type 0
IsWithin b p =
    (p.x + p.length ≤ b.length + eps_len)
    × (p.y + p.width ≤ b.width + eps_len)
    × (p.z + p.height ≤ b.height + eps_len)

abbrev pub IsCushioned : Box → ℕ → ℕ → Placement → Type 0
IsCushioned b side top p =
    (side ≤ p.x)
    × (p.x + p.length + side ≤ b.length + eps_len)
    × (side ≤ p.y)
    × (p.y + p.width + side ≤ b.width + eps_len)
    × (p.z + p.height + top ≤ b.height + eps_len)

IsWithin-of_fits :
    (inner : Box) (placed : List Placement) (it : PackItem) (e : Point) (r : Bool)
    → fits inner placed it e r ≡ true
    → IsWithin inner (placement it e r)
unfolding fits
IsWithin-of_fits inner placed it (x, y, z) r h = ground arith

IsWithin-rule :
    (inner : Box) (max_weight_g : ℕ)
    → Rule inner max_weight_g (λ _ st. All (IsWithin inner) st.placed)
unfolding put
IsWithin-rule inner max_weight_g = record {
  skips = λ it todo st p. p;
  puts = λ it todo st e r p light fit.
      All-append (IsWithin inner) st.placed (placement it e r ∷ []) p
        (IsWithin-of_fits inner st.placed it e r fit, tt);
}

IsCushioned-of_within :
    (b : Box) (side top : ℕ) (p : Placement)
    → no_room (inner_box b side top) ≡ false
    → IsWithin (inner_box b side top) p
    → IsCushioned b side top (shift side p)
IsCushioned-of_within b side top p room h = ground arith

shift-IsCushioned :
    (b : Box) (side top : ℕ)
    → no_room (inner_box b side top) ≡ false
    → (ps : List Placement) → All (IsWithin (inner_box b side top)) ps
    → All (IsCushioned b side top) (map (shift side) ps)
shift-IsCushioned b side top room [] h = tt
shift-IsCushioned b side top room (p ∷ ps) h =
    (IsCushioned-of_within b side top p room h.0, shift-IsCushioned b side top room ps h.1)

-- Every placement of a packed box keeps the side margin from the four walls and the top margin from
-- the lid, up to the tolerance EPS, whatever the items, the box and the margins.
pub pack_into_box-IsCushioned :
    (items : List PackItem) (box : Box) (side top : ℕ)
    → All (IsCushioned box side top) (pack_into_box items box side top).placements
pack_into_box-IsCushioned items box side top =
    pack_ind (λ r. All (IsCushioned box side top) r.placements) items box side top
      (IsWithin-rule (inner_box box side top) (max_weight box)) tt tt
      (λ room st. shift-IsCushioned box side top room st.placed)
