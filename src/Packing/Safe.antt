-- ===== src/Packing/Safe.antt =====
-- What holds of every box of a recommendation.
use mathlib.Core.Path.{subst}
use wms_secret_backend.Prelude.{
  ℕ, ◌+◌, ◌≤◌, ◌≡◌, sym, inl, inr, some, List, [], ◌∷◌, arith, All, length, Option-cases,
  List-cases, Bool-cases, filter_by, zero, suc,
}
use wms_secret_backend.Geometry.{eps_len, PackItem, Box}
use wms_secret_backend.Packing.{PackResult, pack_into_box, max_weight, no_room, inner_box}
use wms_secret_backend.Packing.Catalog.{first_box, other_boxes}
use wms_secret_backend.Packing.Recommend.{
  Recommendation, in_one, in_many, placed_ids, not_in, split_loop, first_holding, recommend_from,
  recommend_and_pack, last_or, sorted_boxes,
}
use wms_secret_backend.Packing.Separation.{ArePairwiseApart, pack_into_box-apart}
use wms_secret_backend.Packing.Bounds.{IsCushioned, pack_into_box-IsCushioned}
use wms_secret_backend.Packing.Support.{AreSupported, pack_into_box-supported}
use wms_secret_backend.Packing.Conserve.{pack_into_box-Accounts}
use wms_secret_backend.Packing.Smallest.{first_holding-Found}

-- The books of one box lie apart, inside it, and supported, and are not too heavy for it.
pub record IsSafe (side top : ℕ) (r : PackResult) : Type 0 where
  pub apart : ArePairwiseApart r.placements
  pub cushioned : All (IsCushioned r.box side top) r.placements
  pub supported : AreSupported [] r.placements
  pub light : r.total_weight_g ≤ max_weight r.box + eps_len

module _ (side top : ℕ) where
  pack_into_box-box : (items : List PackItem) (b : Box) → (pack_into_box items b side top).box ≡ b
  unfolding pack_into_box
  pack_into_box-box items b = elim (Bool-cases (no_room (inner_box b side top))) [
    | inl e ↦ rw e
    | inr e ↦ rw e
  ]

  pack_into_box-IsSafe :
      (items : List PackItem) (b : Box) → IsSafe side top (pack_into_box items b side top)
  pack_into_box-IsSafe items b = record {
    apart = pack_into_box-apart items b side top;
    cushioned = rw (pack_into_box-box items b) (pack_into_box-IsCushioned items b side top);
    supported = pack_into_box-supported items b side top;
    light = rw (pack_into_box-box items b) ((pack_into_box-Accounts items b side top).light);
  }

  relabel-IsSafe :
      (r : PackResult) (us : List PackItem)
      → IsSafe side top r
      → IsSafe side top (record r { unplaced = us })
  relabel-IsSafe r us s = record {
    apart = s.apart;
    cushioned = s.cushioned;
    supported = s.supported;
    light = s.light;
  }

  split_loop-IsSafe :
      (fuel : ℕ) (master : Box) (items : List PackItem) (rs : List PackResult)
      → split_loop side top fuel master items ≡ some rs
      → All (IsSafe side top) rs
  unfolding split_loop
  split_loop-IsSafe zero master [] rs h =
      subst (All (IsSafe side top)) (let q : [] ≡ rs = cc in q) tt
  split_loop-IsSafe (suc fuel) master [] rs h =
      subst (All (IsSafe side top)) (let q : [] ≡ rs = cc in q) tt
  split_loop-IsSafe zero master (it ∷ its) rs h = cc
  split_loop-IsSafe (suc fuel) master (it ∷ its) rs h =
      let items = it ∷ its in
      let res = pack_into_box items master side top in
      let next = filter_by (not_in (placed_ids res)) items in
      let safe = pack_into_box-IsSafe items master in
      elim (List-cases res.placements) [
        | inl e ↦
            subst (All (IsSafe side top))
              (let q : record res { unplaced = items } ∷ [] ≡ rs = ground arith in q)
              (relabel-IsSafe res items safe, tt)
        | inr (p, ps, e) ↦ elim (Option-cases (split_loop side top fuel master next)) [
          | inl out ↦ absurd (ground arith)
          | inr (rs', e') ↦
              subst (All (IsSafe side top)) (let q : res ∷ rs' ≡ rs = ground arith in q)
                (safe, split_loop-IsSafe fuel master next rs' e')
        ]
      ]

  recommend_from-IsSafe :
      (b : Box) (bs : List Box) (items : List PackItem) (r : Recommendation)
      → recommend_from side top b bs items ≡ some r
      → All (IsSafe side top) r.results
  unfolding recommend_from
  recommend_from-IsSafe b bs items r h =
      let boxes = sorted_boxes (b ∷ bs) in
      elim (Option-cases (first_holding side top items boxes)) [
        | inr (res, e) ↦
            let f = first_holding-Found side top items boxes res e in
            subst (λ t. All (IsSafe side top) t.results)
              (let q : in_one res ≡ r = ground arith in q)
              (subst (IsSafe side top) (sym (f.result)) (pack_into_box-IsSafe items f.box), tt)
        | inl e ↦ elim (Option-cases (split_loop side top (length items) (last_or b boxes) items)) [
          | inl e' ↦ absurd (ground arith)
          | inr (rs, e') ↦
              subst (λ t. All (IsSafe side top) t.results)
                (let q : in_many rs ≡ r = ground arith in q)
                (split_loop-IsSafe (length items) (last_or b boxes) items rs e')
        ]
      ]

-- In every box of a recommendation the books do not overlap, keep the margins to the walls and the
-- lid, rest on the floor or for three quarters on books placed before them, and weigh no more than
-- the box may hold, each up to the tolerance EPS.
pub recommend_and_pack-IsSafe :
    (items : List PackItem) (side top : ℕ) (r : Recommendation)
    → recommend_and_pack items side top ≡ some r
    → All (IsSafe side top) r.results
unfolding recommend_and_pack
recommend_and_pack-IsSafe items side top r h =
    recommend_from-IsSafe side top first_box other_boxes items r h
