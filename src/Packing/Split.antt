-- ===== src/Packing/Split.antt =====
-- The `while remaining` loop of `recommend_and_pack`: it ends, and it accounts for every item.

use mathlib.Core.Path.{subst}
use mathlib.Core.List.Perm
use mathlib.Core.List.Nodup
use mathlib.Core.List.{Nodup, Perm, map-append}
use wms_secret_backend.Packing.Smallest.{first_holding-Found}
use wms_secret_backend.Prelude.{
  ℕ, zero, suc, ◌≤◌, ◌≡◌, refl, sym, inl, inr, some, List, [], ◌∷◌, ◌++◌, arith, length, filter_by,
  Option-cases, List-cases, append-nil, append_assoc,
}
use wms_secret_backend.Geometry.{PackItem, Placement, Box}
use wms_secret_backend.Packing.{PackResult, pack_into_box, max_weight}
use wms_secret_backend.Packing.Catalog.{first_box, other_boxes}
use wms_secret_backend.Packing.Recommend.{
  Recommendation, placed_ids, not_in, split_loop, first_holding, recommend_from, recommend_and_pack,
  in_one, in_many, last_or, sorted_boxes,
}
use wms_secret_backend.Packing.Conserve.{ArePlacementsOf, Accounts, pack_into_box-Accounts}
use wms_secret_backend.Packing.Leftover.{ids, length-remaining, remaining-perm}

-- The books that no box takes: those that the last result leaves unplaced.
abbrev pub left_over : List PackResult → List PackItem
left_over [] = []
left_over (r ∷ []) = r.unplaced
left_over (r ∷ r' ∷ rs) = left_over (r' ∷ rs)

abbrev pub all_placements : List PackResult → List Placement
all_placements [] = []
all_placements (r ∷ rs) = r.placements ++ all_placements rs

-- Every item lies in just one box, or is left over.
pub record Ships (items : List PackItem) (rs : List PackResult) : Type 0 where
  pub chosen : List PackItem
  pub split : Perm (chosen ++ left_over rs) items
  pub laid : ArePlacementsOf chosen (all_placements rs)

pub ArePlacementsOf-append :
    (xs ys : List PackItem) (ps qs : List Placement)
    → ArePlacementsOf xs ps
    → ArePlacementsOf ys qs
    → ArePlacementsOf (xs ++ ys) (ps ++ qs)
ArePlacementsOf-append [] ys [] qs h k = k
ArePlacementsOf-append [] ys (p ∷ ps) qs h k = absurd h
ArePlacementsOf-append (x ∷ xs) ys [] qs h k = absurd h
ArePlacementsOf-append (x ∷ xs) ys (p ∷ ps) qs h k = (h.0, ArePlacementsOf-append xs ys ps qs h.1 k)

nil_of_no_placements : (xs : List PackItem) → ArePlacementsOf xs [] → xs ≡ []
nil_of_no_placements [] h = refl
nil_of_no_placements (x ∷ xs) h = absurd h

nothing : Ships [] []
nothing = record { chosen = []; split = Perm.rfl; laid = tt }

module _ (side top : ℕ) (master : Box) where
  abbrev pub packed : List PackItem → PackResult
  packed items = pack_into_box items master side top

  abbrev pub accounts :
      (items : List PackItem)
      → Accounts items
          (max_weight master)
          (packed items).placements
          (packed items).unplaced
          (packed items).total_weight_g
  accounts items = pack_into_box-Accounts items master side top

  abbrev pub remaining : List PackItem → List PackItem
  remaining items = filter_by (not_in (placed_ids (packed items))) items

  -- As many rounds as there are items are enough.
  pub split_loop-total :
      (fuel : ℕ) (items : List PackItem)
      → length items ≤ fuel
      → (rs : List PackResult) × (split_loop side top fuel master items ≡ some rs)
  unfolding split_loop
  split_loop-total fuel [] h = ([], refl)
  split_loop-total zero (it ∷ its) h = absurd (omega arith)
  split_loop-total (suc fuel) (it ∷ its) h = elim (List-cases (packed (it ∷ its)).placements) [
    | inl e ↦ (record (packed (it ∷ its)) { unplaced = it ∷ its } ∷ [], ground arith)
    | inr (p, ps, e) ↦
        let (rs, done) =
          split_loop-total fuel (remaining (it ∷ its))
            (omega (arith, length-remaining (it ∷ its) _ _ (accounts (it ∷ its)) p ps e)) in
        (packed (it ∷ its) ∷ rs, ground arith)
  ]

  Ships-cons :
      (items : List PackItem) (rs : List PackResult)
      → Nodup (ids items)
      → Ships (remaining items) rs
      → Ships items (packed items ∷ rs)
  Ships-cons items [] distinct s = record {
    chosen = (accounts items).chosen;
    split = (accounts items).split;
    laid = rw append-nil ((accounts items).laid);
  }
  Ships-cons items (r ∷ rs) distinct s =
      let a = accounts items in
      let rest = Perm.trans s.split (remaining-perm items _ (packed items) a distinct) in
      record {
        chosen = a.chosen ++ s.chosen;
        split = rw append_assoc (Perm.trans (Perm.append_left a.chosen rest) a.split);
        laid = ArePlacementsOf-append a.chosen s.chosen _ _ a.laid s.laid;
      }

  pub remaining-Nodup : (items : List PackItem) → Nodup (ids items) → Nodup (ids (remaining items))
  remaining-Nodup items distinct =
      let a = accounts items in
      let parts = Perm.nodup (Perm.symm (Perm.map (λ (it : PackItem). it.id) a.split)) distinct in
      Perm.nodup
        (Perm.symm
          (Perm.map (λ (it : PackItem). it.id) (remaining-perm items _ (packed items) a distinct)))
        (Nodup.of_append_right (ids a.chosen) (rw map-append at parts))

  pub split_loop-Ships :
      (fuel : ℕ) (items : List PackItem) (rs : List PackResult)
      → Nodup (ids items)
      → split_loop side top fuel master items ≡ some rs
      → Ships items rs
  unfolding split_loop
  split_loop-Ships zero [] rs distinct h = subst (Ships []) (let q : [] ≡ rs = cc in q) nothing
  split_loop-Ships (suc fuel) [] rs distinct h =
      subst (Ships []) (let q : [] ≡ rs = cc in q) nothing
  split_loop-Ships zero (it ∷ its) rs distinct h = cc
  split_loop-Ships (suc fuel) (it ∷ its) rs distinct h =
      let items = it ∷ its in
      elim (List-cases (packed items).placements) [
        | inl e ↦
            subst (Ships items)
              (let q : record (packed items) { unplaced = items } ∷ [] ≡ rs = ground arith in q)
              (record { chosen = []; split = Perm.rfl; laid = rw e tt })
        | inr (p, ps, e) ↦ elim (Option-cases (split_loop side top fuel master (remaining items))) [
          | inl out ↦ absurd (ground arith)
          | inr (rs', e') ↦
              subst (Ships items) (let q : packed items ∷ rs' ≡ rs = ground arith in q) (
                Ships-cons items rs' distinct
                  (split_loop-Ships fuel (remaining items) rs' (remaining-Nodup items distinct) e'))
        ]
      ]

module _ (side top : ℕ) (b : Box) (bs : List Box) (items : List PackItem) where
  abbrev largest : Box
  largest = last_or b (sorted_boxes (b ∷ bs))

  from_total : (r : Recommendation) × (recommend_from side top b bs items ≡ some r)
  unfolding recommend_from
  from_total = elim (Option-cases (first_holding side top items (sorted_boxes (b ∷ bs)))) [
    | inr (res, e) ↦ (in_one res, ground arith)
    | inl e ↦
        let (rs, done) = split_loop-total side top largest (length items) items (omega arith) in
        (in_many rs, ground arith)
  ]

  in_one-Ships :
      (res : PackResult)
      → first_holding side top items (sorted_boxes (b ∷ bs)) ≡ some res
      → Ships items (res ∷ [])
  in_one-Ships res h =
      let f = first_holding-Found side top items (sorted_boxes (b ∷ bs)) res h in
      let a = pack_into_box-Accounts items f.box side top in
      subst (λ r. Ships items (r ∷ [])) (sym (f.result))
        (record { chosen = a.chosen; split = a.split; laid = rw append-nil (a.laid) })

  from_Ships :
      (r : Recommendation)
      → Nodup (ids items)
      → recommend_from side top b bs items ≡ some r
      → Ships items r.results
  unfolding recommend_from
  from_Ships r distinct h =
      elim (Option-cases (first_holding side top items (sorted_boxes (b ∷ bs)))) [
        | inr (res, e) ↦
            subst (λ t. Ships items t.results) (let q : in_one res ≡ r = ground arith in q)
              (in_one-Ships res e)
        | inl e ↦ elim (Option-cases (split_loop side top (length items) largest items)) [
          | inl e' ↦ absurd (ground arith)
          | inr (rs, e') ↦
              subst (λ t. Ships items t.results) (let q : in_many rs ≡ r = ground arith in q)
                (split_loop-Ships side top largest (length items) items rs distinct e')
        ]
      ]

-- Any order gets a recommendation: the loop needs no more rounds than there are items.
pub recommend_and_pack-total :
    (items : List PackItem) (side top : ℕ)
    → (r : Recommendation) × (recommend_and_pack items side top ≡ some r)
unfolding recommend_and_pack
recommend_and_pack-total items side top = from_total side top first_box other_boxes items

-- If the items have distinct ids, as the caller numbers them, each item of an order lies in exactly
-- one of the recommended boxes, as it is or turned by a quarter, or is left over as unplaced in the
-- last result.
pub recommend_and_pack-Ships :
    (items : List PackItem) (side top : ℕ) (r : Recommendation)
    → Nodup (ids items)
    → recommend_and_pack items side top ≡ some r
    → Ships items r.results
unfolding recommend_and_pack
recommend_and_pack-Ships items side top r distinct h =
    from_Ships side top first_box other_boxes items r distinct h
