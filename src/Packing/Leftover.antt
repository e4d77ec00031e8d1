-- ===== src/Packing/Leftover.antt =====
-- What the next round of `while remaining` gets: with distinct ids, just the unplaced items.
use mathlib.Core.Path.{subst}
use mathlib.Core.Logic.Or
use mathlib.Core.List.Perm
use mathlib.Core.List.{
  Mem, Nodup, Nodup-append, Perm, mem-cons, mem-cons_self, mem-cons_of_mem, not-mem-nil, map-append,
}
use text.Mathlib.Text.{◌==◌ as str_eq}
use text.Mathlib.TextEquality.{eq_iff}
use wms_secret_backend.Prelude.{
  ℕ, ◌<◌, ◌≡◌, refl, sym, inl, inr, true, false, List, [], ◌∷◌, ◌++◌, map, String, arith, All, any,
  length, filter_by, filter_by-append, filter_by-nil, filter_by_self, filter_by-perm,
  length-filter_by-lt, Bool-cases,
}
use wms_secret_backend.Geometry.{PackItem, Placement}
use wms_secret_backend.Packing.{PackResult}
use wms_secret_backend.Packing.Recommend.{placed_ids, not_in}
use wms_secret_backend.Packing.Conserve.{ArePlacementsOf, Accounts}

abbrev pub ids : List PackItem → List String
ids items = map (λ (it : PackItem). it.id) items

ids_of_placements :
    (its : List PackItem) (ps : List Placement)
    → ArePlacementsOf its ps
    → map (λ (p : Placement). p.item_id) ps ≡ ids its
ids_of_placements [] [] h = refl
ids_of_placements [] (p ∷ ps) h = absurd h
ids_of_placements (i ∷ is) [] h = absurd h
ids_of_placements (i ∷ is) (p ∷ ps) h = cc (h.0.0, ids_of_placements is ps h.1)

any-str_eq : (i : String) (is : List String) → Mem i is → any (λ j. str_eq j i) is ≡ true
any-str_eq i [] m = absurd (not-mem-nil m)
any-str_eq i (j ∷ js) m =
    Or.elim (hlevel) (mem-cons.0 m)
      (λ e. let e' : str_eq j i ≡ true = (eq_iff j i).1 (sym e) in rw e')
      (λ m'. let rest = any-str_eq i js m' in ground arith)

any-str_eq_none : (i : String) (is : List String) → ¬ Mem i is → any (λ j. str_eq j i) is ≡ false
any-str_eq_none i [] n = refl
any-str_eq_none i (j ∷ js) n = elim (Bool-cases (str_eq j i)) [
  | inl e ↦ absurd (n (subst (λ k. Mem k (j ∷ js)) ((eq_iff j i).0 e) mem-cons_self))
  | inr e ↦ rw e (any-str_eq_none i js (λ m. n (mem-cons_of_mem j m)))
]

not_in_of_mem : (is : List String) (it : PackItem) → Mem it.id is → not_in is it ≡ false
unfolding not_in
not_in_of_mem is it m = rw (any-str_eq it.id is m)

not_in_of_absent : (is : List String) (it : PackItem) → ¬ Mem it.id is → not_in is it ≡ true
unfolding not_in
not_in_of_absent is it n = rw (any-str_eq_none it.id is n)

All-in :
    (is : List String) (its : List PackItem)
    → ((i : String) → Mem i (ids its) → Mem i is)
    → All (λ it. not_in is it ≡ false) its
All-in is [] h = tt
All-in is (it ∷ its) h = (
  not_in_of_mem is it (h it.id mem-cons_self),
  All-in is its (λ i m. h i (mem-cons_of_mem it.id m)),
)

none_in :
    (is : List String) (its : List PackItem)
    → ((i : String) → Mem i is → Mem i (ids its) → ⊥)
    → All (λ it. not_in is it ≡ true) its
none_in is [] h = tt
none_in is (it ∷ its) h = (
  not_in_of_absent is it (λ m. h it.id m mem-cons_self),
  none_in is its (λ i m m'. h i m (mem-cons_of_mem it.id m')),
)

module _ (items : List PackItem) (limit : ℕ) (r : PackResult)
    (a : Accounts items limit r.placements r.unplaced r.total_weight_g) where
  placed_ids_lem : placed_ids r ≡ ids a.chosen
  placed_ids_lem = ids_of_placements a.chosen r.placements a.laid

  -- A round that places a book leaves fewer books for the next.
  pub length-remaining :
      (p : Placement) (ps : List Placement)
      → r.placements ≡ p ∷ ps
      → length (filter_by (not_in (placed_ids r)) items) < length items
  length-remaining p ps e = first a.chosen (rw e at (a.laid)) (Perm.subset a.split) placed_ids_lem
    where
      first :
          (cs : List PackItem)
          → ArePlacementsOf cs (p ∷ ps)
          → ((it : PackItem) → Mem it (cs ++ r.unplaced) → Mem it items)
          → placed_ids r ≡ ids cs
          → length (filter_by (not_in (placed_ids r)) items) < length items
      first [] laid sub same = absurd laid
      first (c ∷ cs) laid sub same =
          length-filter_by-lt _ c items (sub c mem-cons_self)
            (not_in_of_mem (placed_ids r) c (rw same mem-cons_self))

  remaining-eq :
      Nodup (ids (a.chosen ++ r.unplaced))
      → filter_by (not_in (placed_ids r)) (a.chosen ++ r.unplaced) ≡ r.unplaced
  remaining-eq distinct = rw (
    filter_by-append,
    placed_ids_lem,
    filter_by-nil _ a.chosen (All-in _ a.chosen (λ i m. m)),
    filter_by_self _ r.unplaced (none_in _ r.unplaced (apart.2)),
  )
    where
      apart :
          Nodup (ids a.chosen)
          × Nodup (ids r.unplaced)
          × ((i : String) → Mem i (ids a.chosen) → Mem i (ids r.unplaced) → ⊥)
      apart = Nodup-append.0 (rw map-append at distinct)

  pub remaining-perm : Nodup (ids items) → Perm (filter_by (not_in (placed_ids r)) items) r.unplaced
  remaining-perm distinct =
      subst (λ us. Perm (filter_by (not_in (placed_ids r)) items) us)
        (remaining-eq
          (Perm.nodup (Perm.symm (Perm.map (λ (it : PackItem). it.id) a.split)) distinct))
        (Perm.symm (filter_by-perm _ a.split))
