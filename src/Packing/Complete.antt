-- ===== src/Packing/Complete.antt =====
-- Books that each go into the master carton are all shipped.
use mathlib.Core.List.Perm
use mathlib.Core.List.{Nodup}
use mathlib.Core.Path.{subst}
use wms_secret_backend.Prelude.{
  ℕ, zero, suc, ◌+◌, ◌*◌, ◌≤◌, ◌<◌, ◌≡◌, refl, sym, ap, ◌⊎◌, ◌≢◌, length-map, filter_by-All, inl,
  inr, true, false, some, List, [], ◌∷◌, map, arith, All, length, length-append, Option-cases,
  List-cases,
}
use wms_secret_backend.Prelude.Sort.{sort_by, sort_by-All, sort_by-perm}
use wms_secret_backend.Geometry.{PackItem, Box}
use wms_secret_backend.Packing.{
  placement, shift, PackResult, pack_into_box, max_weight, no_room, inner_box, fits, put,
  place_item, place_items, start, goes_first, all_placed,
}
use wms_secret_backend.Packing.Placing.{Rule, place_items_keep}
use wms_secret_backend.Packing.Catalog.{first_box, box_catalog, master_carton}
use wms_secret_backend.Packing.Recommend.{
  Recommendation, placed_ids, not_in, in_one, in_many, split_loop, first_holding,
  recommend_and_pack, last_or, sorted_boxes,
}
use wms_secret_backend.Packing.Leftover.{ids, remaining-perm}
use wms_secret_backend.Packing.Smallest.{first_holding-Found}
use wms_secret_backend.Packing.Split.{left_over, remaining, accounts, remaining-Nodup}

-- The book fits into the empty box with its margins, as it is or turned by a quarter.
pub record GoesAlone (b : Box) (side top : ℕ) (it : PackItem) : Type 0 where
  pub base :
      (it.length + 2 * side ≤ b.length) × (it.width + 2 * side ≤ b.width)
      ⊎ (it.width + 2 * side ≤ b.length) × (it.length + 2 * side ≤ b.width)
  pub tall : it.height + top ≤ b.height
  pub light : it.weight_g ≤ max_weight b

module _ (b : Box) (side top : ℕ) (room : no_room (inner_box b side top) ≡ false) where
  abbrev inner : Box
  inner = inner_box b side top

  fits_first :
      (it : PackItem)
      → GoesAlone b side top it
      → (fits inner [] it (0, 0, 0) false ≡ true) ⊎ (fits inner [] it (0, 0, 0) true ≡ true)
  unfolding fits
  fits_first it g = elim (g.base) [
    | inl (l, w) ↦ inl (ground (arith, g.tall))
    | inr (l, w) ↦ inr (ground (arith, g.tall))
  ]

  first_placed :
      (it : PackItem)
      → GoesAlone b side top it
      → 0 < length (place_item inner (max_weight b) start it).placed
  unfolding place_item
  first_placed it g = ground (arith, fits_first it g, g.light)

  grow_rule : Rule inner (max_weight b) (λ _ st. 0 < length st.placed)
  unfolding put
  grow_rule = record {
    skips = λ it todo st p. p;
    puts = λ it todo st e r p light fit.
        omega (arith, length-append st.placed (placement it e r ∷ []));
  }

  places_first :
      (its : List PackItem)
      → All (GoesAlone b side top) its
      → its ≢ []
      → 0 < length (place_items inner (max_weight b) start its).placed
  unfolding place_items
  places_first [] alone some_item = absurd (some_item refl)
  places_first (it ∷ its) alone some_item =
      place_items_keep grow_rule its _ (first_placed it alone.0)

  pack_into_box-places :
      (its : List PackItem)
      → All (GoesAlone b side top) its
      → its ≢ []
      → (pack_into_box its b side top).placements ≢ []
  unfolding pack_into_box
  pack_into_box-places its alone some_item none_placed =
      let sorted = sort_by goes_first its in
      let st = place_items inner (max_weight b) start sorted in
      let same = sort_by-perm goes_first its in
      let placed =
        places_first sorted (sort_by-All goes_first _ its alone)
          (λ e. some_item (Perm.eq-nil (Perm.symm (rw e at same)))) in
      let empty : map (shift side) st.placed ≡ [] = ground (arith, room) in
      omega (arith, placed, length-map (shift side) st.placed, ap length empty)

module _ (side top : ℕ) (master : Box) (room : no_room (inner_box master side top) ≡ false) where
  split_loop-nil :
      (fuel : ℕ) (items : List PackItem)
      → split_loop side top fuel master items ≡ some []
      → items ≡ []
  unfolding split_loop
  split_loop-nil zero [] h = refl
  split_loop-nil (suc fuel) [] h = refl
  split_loop-nil zero (it ∷ its) h = cc
  split_loop-nil (suc fuel) (it ∷ its) h =
      let res = pack_into_box (it ∷ its) master side top in
      elim (List-cases res.placements) [
        | inl e ↦ absurd (ground arith)
        | inr (p, ps, e) ↦
            elim (Option-cases
              (split_loop side top fuel master (remaining side top master (it ∷ its)))) [
                | inl e' ↦ absurd (ground arith)
                | inr (rs, e') ↦ absurd (ground arith)
              ]
      ]

  left_over-cons :
      (items : List PackItem) (fuel : ℕ) (rs : List PackResult)
      → Nodup (ids items)
      → split_loop side top fuel master (remaining side top master items) ≡ some rs
      → left_over rs ≡ []
      → left_over (pack_into_box items master side top ∷ rs) ≡ []
  left_over-cons items fuel (r ∷ rs) distinct h rest = rest
  left_over-cons items fuel [] distinct h rest =
      let all_gone = split_loop-nil fuel (remaining side top master items) h in
      let res = pack_into_box items master side top in
      let same = remaining-perm items _ res (accounts side top master items) distinct in
      Perm.eq-nil (Perm.symm (rw all_gone at same))

  split_loop-left :
      (fuel : ℕ) (items : List PackItem) (rs : List PackResult)
      → Nodup (ids items)
      → All (GoesAlone master side top) items
      → split_loop side top fuel master items ≡ some rs
      → left_over rs ≡ []
  unfolding split_loop
  split_loop-left zero [] rs distinct alone h = let q : [] ≡ rs = cc in ap left_over (sym q)
  split_loop-left (suc fuel) [] rs distinct alone h = let q : [] ≡ rs = cc in ap left_over (sym q)
  split_loop-left zero (it ∷ its) rs distinct alone h = cc
  split_loop-left (suc fuel) (it ∷ its) rs distinct alone h =
      let items = it ∷ its in
      let res = pack_into_box items master side top in
      let next = remaining side top master items in
      elim (List-cases res.placements) [
        | inl e ↦ absurd (pack_into_box-places master side top room items alone (λ q. cc) e)
        | inr (p, ps, e) ↦ elim (Option-cases (split_loop side top fuel master next)) [
          | inl out ↦ absurd (ground arith)
          | inr (rs', e') ↦
              let rest =
                split_loop-left fuel next rs' (remaining-Nodup side top master items distinct)
                  (filter_by-All (not_in (placed_ids res)) _ items alone) e' in
              subst (λ t. left_over t ≡ []) (let q : res ∷ rs' ≡ rs = ground arith in q)
                (left_over-cons items fuel rs' distinct e' rest)
        ]
      ]

largest_lem : last_or first_box (sorted_boxes box_catalog) ≡ master_carton
unfolding sorted_boxes
largest_lem = refl

-- If the margins leave room in the master carton and each item goes into it alone, as it is or
-- turned by a quarter, then a recommendation leaves no item over.
pub recommend_and_pack-leaves_none :
    (items : List PackItem) (side top : ℕ) (r : Recommendation)
    → 2 * side + 2 ≤ master_carton.width
    → top + 2 ≤ master_carton.height
    → Nodup (ids items)
    → All (GoesAlone master_carton side top) items
    → recommend_and_pack items side top ≡ some r
    → left_over r.results ≡ []
unfolding recommend_and_pack
recommend_and_pack-leaves_none items side top r wide high distinct alone h =
    let boxes = sorted_boxes box_catalog in
    elim (Option-cases (first_holding side top items boxes)) [
      | inr (res, e) ↦
          let f = first_holding-Found side top items boxes res e in
          let full : all_placed res ≡ true = rw (f.result) (f.takes) in
          subst (λ t. left_over t.results ≡ []) (let q : in_one res ≡ r = ground arith in q)
            (ground arith)
      | inl e ↦
          elim (Option-cases (split_loop side top (length items) (last_or first_box boxes) items)) [
            | inl e' ↦ absurd (ground arith)
            | inr (rs, e') ↦
                subst (λ t. left_over t.results ≡ []) (let q : in_many rs ≡ r = ground arith in q)
                  (split_loop-left side top master_carton (ground arith) (length items) items rs
                    distinct alone (rw largest_lem at e'))
          ]
    ]
