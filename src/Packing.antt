-- ===== src/Packing.antt =====
-- app/domains/inventory/packing3d.py: extreme-point packing of books into one box.
pub mod Catalog
pub mod Recommend
pub mod Placing
pub mod Separation
pub mod Bounds
pub mod Support
pub mod Conserve
pub mod Leftover
pub mod Split
pub mod Smallest
pub mod Safe
pub mod Complete
mod Tests
use wms_secret_backend.Prelude.{
  ℕ, ◌+◌, ◌-◌, ◌*◌, max, Bool, true, false, not, ◌&&◌, ◌||◌, Option, none, some, List, [], ◌∷◌,
  ◌++◌, map, ltb, leb, ◌==◌, if◌then◌else◌, sum_of,
}
use wms_secret_backend.Prelude.Sort.{sort_by}
use wms_secret_backend.Prelude.Round.{round_half_even}
use wms_secret_backend.Geometry.{
  eps_len, PackItem, footprint, Placement, Box, collides, support_ratio, below_support_min, Point,
  prune_eps,
}

pub record PackResult : Type 0 where
  pub box : Box
  pub placements : List Placement
  pub unplaced : List PackItem
  pub total_weight_g : ℕ

abbrev pub all_placed : PackResult → Bool
all_placed r = elim (r.unplaced) [ [] ↦ true | _ ∷ _ ↦ false ]

abbrev max_of : List ℕ → ℕ
max_of [] = 0
max_of (n ∷ ns) = max n (max_of ns)

unfoldable pub stack_height : PackResult → ℕ
stack_height r = max_of (map (λ (p : Placement). p.z + p.height) r.placements)

-- In tenths of a percent.
unfoldable pub volume_fill_ratio : PackResult → ℕ
unfolding round_half_even
volume_fill_ratio r =
    let box_vol = r.box.length * r.box.width * r.box.height in
    let used = sum_of (λ (p : Placement). p.length * p.width * p.height) r.placements in
    if ltb 0 box_vol then round_half_even (used * 1000) box_vol else 0

-- Python compares the tuples of the sort key from the left.
abbrev lex_le : List ℕ → List ℕ → Bool
lex_le [] _ = true
lex_le (a ∷ as') [] = false
lex_le (a ∷ as') (b ∷ bs) = ltb a b || (a == b) && lex_le as' bs

-- (footprint, weight, height), in descending order.
abbrev pub bulk : PackItem → List ℕ
bulk it = footprint it ∷ it.weight_g ∷ it.height ∷ []

abbrev pub goes_first : PackItem → PackItem → Bool
goes_first a b = lex_le (bulk b) (bulk a)

-- (z, y, x), in ascending order.
abbrev pub lower_point : Point → Point → Bool
lower_point (x, y, z) (x', y', z') = lex_le (z ∷ y ∷ x ∷ []) (z' ∷ y' ∷ x' ∷ [])

abbrev pub along_x : PackItem → Bool → ℕ
along_x it rotated = if rotated then it.width else it.length

abbrev pub along_y : PackItem → Bool → ℕ
along_y it rotated = if rotated then it.length else it.width

-- The tests of the inner loop, in their order.
unfoldable pub fits : Box → List Placement → PackItem → Point → Bool → Bool
unfolding collides support_ratio
fits inner placed it (x, y, z) rotated =
    let l = along_x it rotated in
    let w = along_y it rotated in
    if ltb (inner.length + eps_len) (x + l) || ltb (inner.width + eps_len) (y + w)
    then false
    else if ltb (inner.height + eps_len) (z + it.height)
    then false
    else if collides x y z l w it.height placed
    then false
    else not (below_support_min (support_ratio x y z l w placed))

-- The two inner loops: the first point, and at it the first rotation, that fits.
unfoldable pub first_fit : Box → List Placement → PackItem → List Point → Option (Point × Bool)
unfolding fits
first_fit inner placed it [] = none
first_fit inner placed it (e ∷ es) =
    if fits inner placed it e false
    then some (e, false)
    else if fits inner placed it e true
    then some (e, true)
    else first_fit inner placed it es

-- The variables of the loop over the items.
pub record PackState : Type 0 where
  pub placed : List Placement
  pub unplaced : List PackItem
  pub total_weight_g : ℕ
  pub eps : List Point

abbrev pub placement : PackItem → Point → Bool → Placement
placement it (x, y, z) rotated = record {
  item_id = it.id;
  name = it.name;
  x = x;
  y = y;
  z = z;
  length = along_x it rotated;
  width = along_y it rotated;
  height = it.height;
  rotated = rotated;
}

abbrev pub skip : PackState → PackItem → PackState
skip st it = record st { unplaced = st.unplaced ++ it ∷ [] }

abbrev pub corners : Placement → List Point
corners p = (p.x + p.length, p.y, p.z) ∷ (p.x, p.y + p.width, p.z) ∷ (p.x, p.y, p.z + p.height) ∷ []

unfoldable pub put : Box → PackState → PackItem → Point → Bool → PackState
unfolding prune_eps
put inner st it e rotated =
    let p = placement it e rotated in
    let placed = st.placed ++ p ∷ [] in
    record st {
      placed = placed;
      total_weight_g = st.total_weight_g + it.weight_g;
      eps = prune_eps (st.eps ++ corners p) placed inner;
    }

-- The body of the loop over the items.
unfoldable pub place_item : Box → ℕ → PackState → PackItem → PackState
unfolding first_fit put sort_by
place_item inner max_weight_g st it =
    if ltb (max_weight_g + eps_len) (st.total_weight_g + it.weight_g)
    then skip st it
    else elim (first_fit inner st.placed it (sort_by lower_point st.eps)) [
      | none ↦ skip st it
      | some (e, rotated) ↦ put inner st it e rotated
    ]

unfoldable pub place_items : Box → ℕ → PackState → List PackItem → PackState
unfolding place_item
place_items inner max_weight_g st [] = st
place_items inner max_weight_g st (it ∷ its) =
    place_items inner max_weight_g (place_item inner max_weight_g st it) its

abbrev pub start : PackState
start = record { placed = []; unplaced = []; total_weight_g = 0; eps = (0, 0, 0) ∷ [] }

abbrev pub inner_box : Box → ℕ → ℕ → Box
inner_box box side top = record box {
  length = box.length - 2 * side;
  width = box.width - 2 * side;
  height = box.height - top;
}

abbrev pub shift : ℕ → Placement → Placement
shift side p = record p { x = p.x + side; y = p.y + side }

abbrev pub max_weight : Box → ℕ
max_weight box = box.max_weight_kg * 1000

-- The result at the end of the loop, moved from the inner space to the box.
abbrev pub finish : Box → ℕ → PackState → PackResult
finish box side st = record {
  box = box;
  placements = map (shift side) st.placed;
  unplaced = st.unplaced;
  total_weight_g = st.total_weight_g;
}

abbrev pub refuse : Box → List PackItem → PackResult
refuse box items = record { box = box; placements = []; unplaced = items; total_weight_g = 0 }

abbrev pub no_room : Box → Bool
no_room inner = leb inner.length eps_len || leb inner.width eps_len || leb inner.height eps_len

unfoldable pub pack_into_box : List PackItem → Box → ℕ → ℕ → PackResult
unfolding place_items sort_by
pack_into_box items box side top =
    let inner = inner_box box side top in
    if no_room inner
    then refuse box items
    else finish box side (place_items inner (max_weight box) start (sort_by goes_first items))
