-- ===== src/Packing/Recommend.antt =====
-- `recommend_and_pack` of app/domains/inventory/packing3d.py: the smallest box, or several.
use mathlib.Core.Option
use text.Mathlib.Text.{◌==◌ as str_eq}
use wms_secret_backend.Prelude.{
  ℕ, zero, suc, ◌*◌, Bool, true, false, not, Option, none, some, List, [], ◌∷◌, map, String, leb,
  if◌then◌else◌, length, filter_by, any,
}
use wms_secret_backend.Prelude.Sort.{sort_by}
use wms_secret_backend.Geometry.{PackItem, Placement, Box}
use wms_secret_backend.Packing.{PackResult, all_placed, pack_into_box}
use wms_secret_backend.Packing.Catalog.{first_box, other_boxes}

pub record Recommendation : Type 0 where
  pub split : Bool
  pub results : List PackResult
  pub box_count : ℕ

abbrev pub box_volume : Box → ℕ
box_volume b = b.length * b.width * b.height

abbrev pub smaller : Box → Box → Bool
smaller a b = leb (box_volume a) (box_volume b)

unfoldable pub sorted_boxes : List Box → List Box
unfolding sort_by
sorted_boxes boxes = sort_by smaller boxes

-- `sorted_boxes[-1]`, with the value for an empty list given.
abbrev pub last_or : Box → List Box → Box
last_or b [] = b
last_or b (c ∷ cs) = last_or c cs

abbrev pub placed_ids : PackResult → List String
placed_ids r = map (λ (p : Placement). p.item_id) r.placements

unfoldable pub not_in : List String → PackItem → Bool
not_in ids it = not (any (λ i. str_eq i it.id) ids)

abbrev pub in_one : PackResult → Recommendation
in_one res = record { split = false; results = res ∷ []; box_count = 1 }

abbrev pub in_many : List PackResult → Recommendation
in_many rs = record { split = true; results = rs; box_count = length rs }

module _ (side top : ℕ) where
  -- The loop over the boxes, from the smallest.
  unfoldable pub first_holding : List PackItem → List Box → Option PackResult
  first_holding items [] = none
  first_holding items (b ∷ bs) =
      let res = pack_into_box items b side top in
      if all_placed res then some res else first_holding items bs

  -- The `while remaining` loop; `none` means that the fuel ran out.
  unfoldable pub split_loop : ℕ → Box → List PackItem → Option (List PackResult)
  unfolding not_in
  split_loop fuel master [] = some []
  split_loop zero master (it ∷ its) = none
  split_loop (suc fuel) master (it ∷ its) =
      let remaining = it ∷ its in
      let res = pack_into_box remaining master side top in
      elim (res.placements) [
        | [] ↦ some (record res { unplaced = remaining } ∷ [])
        | _ ∷ _ ↦
            Option.map (λ rs. res ∷ rs)
              (split_loop fuel master (filter_by (not_in (placed_ids res)) remaining))
      ]

  -- For a catalog that begins with the box `b`.
  unfoldable pub recommend_from : Box → List Box → List PackItem → Option Recommendation
  unfolding first_holding split_loop sorted_boxes
  recommend_from b bs items = elim (first_holding items (sorted_boxes (b ∷ bs))) [
    | some res ↦ some (in_one res)
    | none ↦
        Option.map in_many (split_loop (length items) (last_or b (sorted_boxes (b ∷ bs))) items)
  ]

unfoldable pub recommend_and_pack : List PackItem → ℕ → ℕ → Option Recommendation
unfolding recommend_from
recommend_and_pack items side top = recommend_from side top first_box other_boxes items
