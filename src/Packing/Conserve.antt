-- ===== src/Packing/Conserve.antt =====
-- Packing loses no item and invents none, and adds up the weights of what it placed.
use mathlib.Core.List.{Perm, perm_middle}
use mathlib.Core.List.Perm
use wms_secret_backend.Prelude.{
  ℕ, ◌+◌, ◌≤◌, ◌≡◌, refl, ◌⊎◌, inl, inr, Bool, true, false, List, [], ◌∷◌, ◌++◌, map, arith, sum_of,
  sum_of-append, append_assoc, append-nil,
}
use wms_secret_backend.Prelude.Sort.{sort_by-perm}
use wms_secret_backend.Geometry.{eps_len, PackItem, Placement, Box, Point}
use wms_secret_backend.Packing.{
  PackState, placement, put, inner_box, max_weight, shift, pack_into_box, goes_first,
}
use wms_secret_backend.Packing.Placing.{Rule, pack_ind}

-- `p` is the item `it`, laid down as it is or turned by a quarter.
abbrev pub IsPlacementOf : PackItem → Placement → Type 0
IsPlacementOf it p =
    (p.item_id ≡ it.id)
    × (p.name ≡ it.name)
    × (p.height ≡ it.height)
    × ((p.rotated ≡ false) × (p.length ≡ it.length) × (p.width ≡ it.width)
        ⊎ (p.rotated ≡ true) × (p.length ≡ it.width) × (p.width ≡ it.length))

abbrev pub ArePlacementsOf : List PackItem → List Placement → Type 0
ArePlacementsOf [] [] = Unit
ArePlacementsOf (it ∷ its) (p ∷ ps) = IsPlacementOf it p × ArePlacementsOf its ps
ArePlacementsOf _ _ = ⊥

-- The items are the placed ones and the unplaced ones, and the weight is that of the placed ones.
pub record Accounts (items : List PackItem) (max_weight_g : ℕ) (placements : List Placement)
    (unplaced : List PackItem) (weight : ℕ) : Type 0 where
  pub chosen : List PackItem
  pub split : Perm (chosen ++ unplaced) items
  pub laid : ArePlacementsOf chosen placements
  pub weighed : weight ≡ sum_of (λ (it : PackItem). it.weight_g) chosen
  pub light : weight ≤ max_weight_g + eps_len

ArePlacementsOf-snoc :
    (its : List PackItem) (ps : List Placement) (it : PackItem) (p : Placement)
    → ArePlacementsOf its ps
    → IsPlacementOf it p
    → ArePlacementsOf (its ++ it ∷ []) (ps ++ p ∷ [])
ArePlacementsOf-snoc [] [] it p h g = (g, tt)
ArePlacementsOf-snoc [] (q ∷ qs) it p h g = absurd h
ArePlacementsOf-snoc (i ∷ is) [] it p h g = absurd h
ArePlacementsOf-snoc (i ∷ is) (q ∷ qs) it p h g = (h.0, ArePlacementsOf-snoc is qs it p h.1 g)

placement-IsPlacementOf :
    (it : PackItem) (e : Point) (r : Bool) → IsPlacementOf it (placement it e r)
placement-IsPlacementOf it (x, y, z) false = (refl, refl, refl, inl (refl, refl, refl))
placement-IsPlacementOf it (x, y, z) true = (refl, refl, refl, inr (refl, refl, refl))

shift-ArePlacementsOf :
    (s : ℕ) (its : List PackItem) (ps : List Placement)
    → ArePlacementsOf its ps
    → ArePlacementsOf its (map (shift s) ps)
shift-ArePlacementsOf s [] [] h = tt
shift-ArePlacementsOf s [] (p ∷ ps) h = absurd h
shift-ArePlacementsOf s (i ∷ is) [] h = absurd h
shift-ArePlacementsOf s (i ∷ is) (p ∷ ps) h = (h.0, shift-ArePlacementsOf s is ps h.1)

module _ (items : List PackItem) (inner : Box) (max_weight_g : ℕ) where
  -- While `todo` is still to come, it counts among the unplaced.
  abbrev IsAccounted : List PackItem → PackState → Type 0
  IsAccounted todo st =
      Accounts items max_weight_g st.placed (st.unplaced ++ todo) st.total_weight_g

  account_rule : Rule inner max_weight_g IsAccounted
  unfolding put
  account_rule = record {
    skips = λ it todo st a. rw append_assoc a;
    puts = λ it todo st e r a light fit. record {
      chosen = a.chosen ++ it ∷ [];
      split = Perm.trans (moved a.chosen st.unplaced it todo) a.split;
      laid = ArePlacementsOf-snoc a.chosen st.placed it _ a.laid (placement-IsPlacementOf it e r);
      weighed =
          omega (arith, a.weighed, sum_of-append (λ (i : PackItem). i.weight_g) a.chosen (it ∷ []));
      light = light;
    };
  }
    where
      moved :
          (cs us : List PackItem) (it : PackItem) (todo : List PackItem)
          → Perm ((cs ++ it ∷ []) ++ (us ++ todo)) (cs ++ (us ++ it ∷ todo))
      moved cs us it todo =
          simp append_assoc (Perm.append_left cs (Perm.symm (perm_middle us todo)))

-- Packing a box accounts for all items: some of them are placed, each as it is or turned by a
-- quarter, the rest is returned as unplaced, and the reported weight is that of the placed items and
-- keeps to the box's limit, up to the tolerance EPS.
pub pack_into_box-Accounts :
    (items : List PackItem) (box : Box) (side top : ℕ)
    → let r = pack_into_box items box side top in
      Accounts items (max_weight box) r.placements r.unplaced r.total_weight_g
pack_into_box-Accounts items box side top =
    pack_ind (λ r. Accounts items (max_weight box) r.placements r.unplaced r.total_weight_g) items
      box side top (account_rule items (inner_box box side top) (max_weight box))
      (record { chosen = []; split = Perm.rfl; laid = tt; weighed = refl; light = omega arith })
      (record {
        chosen = [];
        split = sort_by-perm goes_first items;
        laid = tt;
        weighed = refl;
        light = omega arith;
      })
      (λ _ st a. record {
        chosen = a.chosen;
        split = rw append-nil at (a.split);
        laid = shift-ArePlacementsOf side a.chosen st.placed a.laid;
        weighed = a.weighed;
        light = a.light;
      })
