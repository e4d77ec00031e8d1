-- ===== src/Packing/Tests.antt =====
-- A small order and a heavy one, packed, and the theorems applied to them.
use mathlib.Core.HLevel.{⊥_prop}
use mathlib.Core.Logic.Or
use mathlib.Core.List.{Nodup, Nodup-cons, Nodup-nil, mem-cons, not-mem-nil}
use text.Mathlib.TextEquality.{eq_iff}
use wms_secret_backend.Prelude.{ℕ, ◌*◌, ◌≡◌, refl, ◌≢◌, some, List, [], ◌∷◌, String, arith, All}
use wms_secret_backend.Geometry.{PackItem}
use wms_secret_backend.Packing.{pack_into_box, max_weight, stack_height}
use wms_secret_backend.Packing.Catalog.{box_catalog, master_carton}
use wms_secret_backend.Packing.Recommend.{Recommendation, recommend_and_pack}
use wms_secret_backend.Packing.Separation.{ArePairwiseApart, pack_into_box-apart}
use wms_secret_backend.Packing.Bounds.{IsCushioned, pack_into_box-IsCushioned}
use wms_secret_backend.Packing.Support.{AreSupported, pack_into_box-supported}
use wms_secret_backend.Packing.Conserve.{Accounts, pack_into_box-Accounts}
use wms_secret_backend.Packing.Leftover.{ids}
use wms_secret_backend.Packing.Split.{Ships, recommend_and_pack-total, recommend_and_pack-Ships}
use wms_secret_backend.Packing.Smallest.{IsJustified, recommend_and_pack-IsJustified}
use wms_secret_backend.Packing.Complete.{GoesAlone}

abbrev mm : ℕ → ℕ
mm n = n * 1_000_000

abbrev book : String → ℕ → ℕ → ℕ → ℕ → PackItem
book id length width height weight = record {
  id = id;
  name = id;
  length = mm length;
  width = mm width;
  height = mm height;
  weight_g = weight * 1_000_000;
}

abbrev order : List PackItem
order = book "a#1" 225 152 20 400 ∷ book "b#2" 188 128 15 300 ∷ []

-- Two sets of 20 kg each, more than a carton may hold together.
abbrev heavy : List PackItem
heavy = book "a#1" 400 300 200 20_000 ∷ book "b#2" 400 300 200 20_000 ∷ []

packed_order : (pack_into_box order master_carton (mm 5) (mm 10)).unplaced ≡ []
unfolding pack_into_box
packed_order = refl

-- The second book lies on the first.
order_height : stack_height (pack_into_box order master_carton (mm 5) (mm 10)) ≡ mm 20
unfolding stack_height pack_into_box
order_height = refl

abbrev order_boxes : Recommendation
order_boxes = (recommend_and_pack-total order (mm 5) (mm 10)).0

abbrev heavy_boxes : Recommendation
heavy_boxes = (recommend_and_pack-total heavy (mm 5) (mm 10)).0

different : ◌≢◌ {A = String} "a#1" "b#2"
different = ground (arith, eq_iff "a#1" "b#2")

two_ids : Nodup (ids heavy)
two_ids = Nodup-cons.1 (
  λ m. Or.elim ⊥_prop (mem-cons.0 m) different not-mem-nil,
  Nodup-cons.1 (not-mem-nil, Nodup-nil),
)

pack_into_box-apart_example :
    ArePairwiseApart (pack_into_box order master_carton (mm 5) (mm 10)).placements
pack_into_box-apart_example = pack_into_box-apart order master_carton (mm 5) (mm 10)

pack_into_box-IsCushioned_example :
    All
      (IsCushioned master_carton (mm 5) (mm 10))
      (pack_into_box order master_carton (mm 5) (mm 10)).placements
pack_into_box-IsCushioned_example = pack_into_box-IsCushioned order master_carton (mm 5) (mm 10)

pack_into_box-supported_example :
    AreSupported [] (pack_into_box order master_carton (mm 5) (mm 10)).placements
pack_into_box-supported_example = pack_into_box-supported order master_carton (mm 5) (mm 10)

pack_into_box-Accounts_example :
    let r = pack_into_box heavy master_carton (mm 5) (mm 10) in
    Accounts heavy (max_weight master_carton) r.placements r.unplaced r.total_weight_g
pack_into_box-Accounts_example = pack_into_box-Accounts heavy master_carton (mm 5) (mm 10)

recommend_and_pack-total_example :
    (r : Recommendation) × (recommend_and_pack heavy (mm 5) (mm 10) ≡ some r)
recommend_and_pack-total_example = recommend_and_pack-total heavy (mm 5) (mm 10)

recommend_and_pack-Ships_example : Ships heavy heavy_boxes.results
recommend_and_pack-Ships_example =
    recommend_and_pack-Ships heavy (mm 5) (mm 10) heavy_boxes two_ids
      (recommend_and_pack-total heavy (mm 5) (mm 10)).1

recommend_and_pack-IsJustified_example : IsJustified (mm 5) (mm 10) order box_catalog order_boxes
recommend_and_pack-IsJustified_example =
    recommend_and_pack-IsJustified order (mm 5) (mm 10) order_boxes
      (recommend_and_pack-total order (mm 5) (mm 10)).1

heavy_alone : All (GoesAlone master_carton (mm 5) (mm 10)) heavy
heavy_alone = ground arith
