-- ===== src/Geometry.antt =====
-- app/domains/inventory/packing3d.py: items, boxes, placements, and the tests on cuboids.
-- Lengths are whole multiples of EPS = 1e-6 mm, and weights of 1e-6 g, so that EPS is 1.
use wms_secret_backend.Prelude.{
  ℕ, ◌+◌, ◌-◌, ◌*◌, min, max, Bool, true, false, ◌&&◌, ◌||◌, List, [], ◌∷◌, String, ltb, leb, ◌==◌,
  if◌then◌else◌, sum_of, any,
}
use wms_secret_backend.Prelude.Round.{round_half_even}

abbrev pub eps_len : ℕ
eps_len = 1

pub record PackItem : Type 0 where
  pub id : String
  pub name : String
  pub length : ℕ
  pub width : ℕ
  pub height : ℕ
  pub weight_g : ℕ

abbrev pub volume : PackItem → ℕ
volume it = it.length * it.width * it.height

abbrev pub footprint : PackItem → ℕ
footprint it = it.length * it.width

pub record Placement : Type 0 where
  pub item_id : String
  pub name : String
  pub x : ℕ
  pub y : ℕ
  pub z : ℕ
  pub length : ℕ
  pub width : ℕ
  pub height : ℕ
  pub rotated : Bool

-- `max_weight_kg` in millionths of a kilogram.
pub record Box : Type 0 where
  pub id : String
  pub category : String
  pub name : String
  pub length : ℕ
  pub width : ℕ
  pub height : ℕ
  pub max_weight_kg : ℕ

-- Truncated subtraction is `max(0.0, …)`.
unfoldable pub overlap_1d : ℕ → ℕ → ℕ → ℕ → ℕ
overlap_1d a0 a1 b0 b1 = min a1 b1 - max a0 b0

-- One round of the loop of `_collides`.
unfoldable pub hits : (x y z l w h : ℕ) → Placement → Bool
unfolding overlap_1d
hits x y z l w h p =
    ltb eps_len (overlap_1d x (x + l) p.x (p.x + p.length))
    && ltb eps_len (overlap_1d y (y + w) p.y (p.y + p.width))
    && ltb eps_len (overlap_1d z (z + h) p.z (p.z + p.height))

unfoldable pub collides : (x y z l w h : ℕ) → List Placement → Bool
unfolding hits
collides x y z l w h placed = any (hits x y z l w h) placed

-- The area of the bottom face at height `z` that rests on `p`.
unfoldable pub rests_on : (x y z l w : ℕ) → Placement → ℕ
unfolding overlap_1d
rests_on x y z l w p =
    if leb (p.z + p.height) (z + eps_len) && leb z (p.z + p.height + eps_len)
    then overlap_1d x (x + l) p.x (p.x + p.length) * overlap_1d y (y + w) p.y (p.y + p.width)
    else 0

-- A ratio as a fraction; a denominator of zero does not occur.
pub record Ratio : Type 0 where
  pub num : ℕ
  pub den : ℕ

unfoldable pub support_ratio : (x y z l w : ℕ) → List Placement → Ratio
unfolding rests_on
support_ratio x y z l w placed =
    if leb z eps_len
    then record { num = 1; den = 1 }
    else if ltb 0 (l * w)
    then record { num = sum_of (rests_on x y z l w) placed; den = l * w }
    else record { num = 0; den = 1 }

-- `ratio < SUPPORT_RATIO_MIN`, which is 0.75.
abbrev pub below_support_min : Ratio → Bool
below_support_min r = ltb (4 * r.num) (3 * r.den)

abbrev pub Point : Type 0
Point = ℕ × ℕ × ℕ

abbrev outside : Box → Point → Bool
outside box (x, y, z) =
    leb box.length (x + eps_len) || leb box.width (y + eps_len) || leb box.height (z + eps_len)

-- `p.x - EPS < x < p.x + p.length - EPS`, and so on each axis.
abbrev buries : Point → Placement → Bool
buries (x, y, z) p =
    ltb p.x (x + eps_len)
    && ltb (x + eps_len) (p.x + p.length)
    && ltb p.y (y + eps_len)
    && ltb (y + eps_len) (p.y + p.width)
    && ltb p.z (z + eps_len)
    && ltb (z + eps_len) (p.z + p.height)

-- `round(x, 3)` of a number of millimetres, in thousandths.
abbrev key_of : Point → Point
unfolding round_half_even
key_of (x, y, z) = (round_half_even x 1000, round_half_even y 1000, round_half_even z 1000)

abbrev same_key : Point → Point → Bool
same_key (a, b, c) (d, e, f) = (a == d) && (b == e) && (c == f)

prune_from : Box → List Placement → List Point → List Point → List Point
unfolding round_half_even
prune_from box placed seen [] = []
prune_from box placed seen (e ∷ es) =
    elim (outside box e || any (buries e) placed || any (same_key (key_of e)) seen) [
      | true ↦ prune_from box placed seen es
      | false ↦ e ∷ prune_from box placed (key_of e ∷ seen) es
    ]

unfoldable pub prune_eps : List Point → List Placement → Box → List Point
unfolding prune_from
prune_eps eps placed box = prune_from box placed [] eps
