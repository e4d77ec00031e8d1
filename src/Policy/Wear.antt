-- ===== src/Policy/Wear.antt =====
-- `_edge_wear_profile` of app/ai/agents/policy.py: how many corners of the book are worn, and how far.
use wms_secret_backend.Prelude.{
  ℕ, ◌+◌, ◌-◌, ◌*◌, max, min, Bool, true, false, not, ◌&&◌, ◌||◌, Option, none, some, List, [], ◌∷◌,
  ltb, ◌==◌, if◌then◌else◌,
}
use wms_secret_backend.Ubci.{edge_wear, edge_wear_spread_step, edge_wear_cap, tier_for}
use wms_secret_backend.Policy.{Bbox, Defect, dtype, effective_ratio, is_wear}

pub data Row : Type 0 where
  top mid bottom : Row

-- `side` is the column of a worn spine or inner page that no cover explains.
pub data Col : Type 0 where
  left right side : Col

abbrev pub same_row : Row → Row → Bool
same_row top top = true
same_row mid mid = true
same_row bottom bottom = true
same_row _ _ = false

abbrev pub same_col : Col → Col → Bool
same_col left left = true
same_col right right = true
same_col side side = true
same_col _ _ = false

-- Where a worn place lies on the book seen from the front, or in which row only.
pub data Spot : Type 0 where
  corner : Row → Col → Spot
  wildcard : Row → Spot

-- The centres are half of these sums.
abbrev pub row_of : Bbox → Row
row_of b =
    if ltb (b.ymin + b.ymax) 666 then top else if ltb 1334 (b.ymin + b.ymax) then bottom else mid

abbrev pub is_left : Bbox → Bool
is_left b = ltb (b.xmin + b.xmax) 1000

-- 0 is the front cover, and 1 the back cover, which shows the book mirrored.
abbrev pub spot_on : Bbox → Option ℕ → Spot
spot_on b none = wildcard (row_of b)
spot_on b (some idx) =
    if idx == 0
    then corner (row_of b) (if is_left b then left else right)
    else if idx == 1
    then corner (row_of b) (if is_left b then right else left)
    else wildcard (row_of b)

unfoldable pub spot_of : Defect → Spot
spot_of d = elim (d.bbox) [ none ↦ wildcard mid | some b ↦ spot_on b d.image_index ]

-- The sets of the code as tests of membership.
pub record Profile : Type 0 where
  pub corners : Row → Col → Bool
  pub wildcard_rows : Row → Bool
  pub max_ratio : ℕ

abbrev pub fresh : Profile
fresh = record { corners = λ _ _. false; wildcard_rows = λ _. false; max_ratio = 0 }

unfoldable pub at_corner : Row → Col → Spot → Bool
at_corner r c (corner r' c') = same_row r r' && same_col c c'
at_corner r c (wildcard _) = false

unfoldable pub at_wildcard : Row → Spot → Bool
at_wildcard r (corner _ _) = false
at_wildcard r (wildcard r') = same_row r r'

abbrev pub counts : Defect → Bool
counts d = is_wear (dtype d) && not d.evidence_suspect

abbrev pub observe : Profile → Defect → Profile
observe p d = record {
  corners = λ r c. p.corners r c || at_corner r c (spot_of d);
  wildcard_rows = λ r. p.wildcard_rows r || at_wildcard r (spot_of d);
  max_ratio = max p.max_ratio (effective_ratio 0 d);
}

unfoldable pub profile_from : Profile → List Defect → Profile
unfolding at_corner at_wildcard spot_of effective_ratio
profile_from p [] = p
profile_from p (d ∷ ds) = profile_from (if counts d then observe p d else p) ds

-- A wildcard adds a place of its own only in a row with no corner of a cover.
unfoldable pub worn_places : Profile → Row → Col → Bool
worn_places p r left = p.corners r left
worn_places p r right = p.corners r right
worn_places p r side =
    p.corners r side
    || p.wildcard_rows r && not (p.corners r left || p.corners r right || p.corners r side)

abbrev pub one_if : Bool → ℕ
one_if b = if b then 1 else 0

abbrev pub in_row : (Row → Col → Bool) → Row → ℕ
in_row s r = one_if (s r left) + one_if (s r right) + one_if (s r side)

unfoldable pub count_places : (Row → Col → Bool) → ℕ
count_places s = in_row s top + in_row s mid + in_row s bottom

-- `len(corners)` and the largest ratio.
unfoldable pub edge_wear_profile : List Defect → ℕ × ℕ
unfolding profile_from count_places worn_places
edge_wear_profile ds = let p = profile_from fresh ds in (count_places (worn_places p), p.max_ratio)

-- `wear_ded` of `policy_agent`.
unfoldable pub wear_points : ℕ × ℕ → ℕ
unfolding tier_for
wear_points (places, max_ratio) =
    min edge_wear_cap (tier_for edge_wear max_ratio + (max 1 places - 1) * edge_wear_spread_step)
