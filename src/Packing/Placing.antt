-- ===== src/Packing/Placing.antt =====
-- The proof rule of the loop of `pack_into_box`: what skipping and putting an item keep, holds.
use wms_secret_backend.Prelude.{
  ℕ, ◌+◌, ◌≤◌, ◌≡◌, inl, inr, Bool, true, false, some, List, [], ◌∷◌, arith, Bool-cases,
  Option-cases, ltb, ltb→le,
}
use wms_secret_backend.Prelude.Sort.{sort_by}
use wms_secret_backend.Geometry.{eps_len, PackItem, Placement, Box, Point}
use wms_secret_backend.Packing.{
  PackState, PackResult, fits, first_fit, lower_point, skip, put, place_item, place_items,
  goes_first, start, inner_box, max_weight, finish, refuse, no_room, pack_into_box,
}

pub first_fit-fits :
    (inner : Box) (placed : List Placement) (it : PackItem) (es : List Point) (e : Point) (r : Bool)
    → first_fit inner placed it es ≡ some (e, r)
    → fits inner placed it e r ≡ true
unfolding first_fit
first_fit-fits inner placed it [] e r h = cc
first_fit-fits inner placed it (e' ∷ es) e r h =
    ground (arith, first_fit-fits inner placed it es e r)

-- `P todo st`: what holds at the state `st` when the items `todo` are still to come.
pub record Rule (inner : Box) (max_weight_g : ℕ) (P : List PackItem → PackState → Type 0)
    : Type 0 where
  pub skips :
      (it : PackItem) (todo : List PackItem) (st : PackState)
      → P (it ∷ todo) st
      → P todo (skip st it)
  pub puts :
      (it : PackItem) (todo : List PackItem) (st : PackState) (e : Point) (r : Bool)
      → P (it ∷ todo) st
      → st.total_weight_g + it.weight_g ≤ max_weight_g + eps_len
      → fits inner st.placed it e r ≡ true
      → P todo (put inner st it e r)

module _ {inner : Box} {max_weight_g : ℕ} {P : List PackItem → PackState → Type 0}
    (rule : Rule inner max_weight_g P) where
  place_item_keeps :
      (it : PackItem) (todo : List PackItem) (st : PackState)
      → P (it ∷ todo) st
      → P todo (place_item inner max_weight_g st it)
  unfolding place_item
  place_item_keeps it todo st p =
      elim (Bool-cases (ltb (max_weight_g + eps_len) (st.total_weight_g + it.weight_g))) [
        | inl heavy ↦ rw heavy (rule.skips it todo st p)
        | inr light ↦
            elim (Option-cases (first_fit inner st.placed it (sort_by lower_point st.eps))) [
              | inl nowhere ↦ rw (light, nowhere) (rule.skips it todo st p)
              | inr ((e, r), found) ↦
                  rw (light, found)
                    (rule.puts it todo st e r p (ltb→le _ _ light)
                      (first_fit-fits inner st.placed it _ e r found))
            ]
      ]

  pub place_items_keep :
      (its : List PackItem) (st : PackState)
      → P its st
      → P [] (place_items inner max_weight_g st its)
  unfolding place_items
  place_items_keep [] st p = p
  place_items_keep (it ∷ its) st p = place_items_keep its _ (place_item_keeps it its st p)

-- A property of the result of `pack_into_box` by way of an invariant of its loop.
pub pack_ind :
    {P : List PackItem → PackState → Type 0} (Q : PackResult → Type 0) (items : List PackItem)
    (box : Box) (side top : ℕ)
    → Rule (inner_box box side top) (max_weight box) P
    → Q (refuse box items)
    → P (sort_by goes_first items) start
    → (no_room (inner_box box side top) ≡ false
        → (st : PackState) → P [] st
        → Q (finish box side st))
    → Q (pack_into_box items box side top)
unfolding pack_into_box
pack_ind Q items box side top rule small first last =
    elim (Bool-cases (no_room (inner_box box side top))) [
      | inl e ↦ rw e small
      | inr e ↦ rw e (last e _ (place_items_keep rule (sort_by goes_first items) start first))
    ]
