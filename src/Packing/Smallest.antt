-- ===== src/Packing/Smallest.antt =====
-- Which box is recommended: the smallest of the catalog that takes all items.
use mathlib.Core.Logic.Or
use mathlib.Core.List.Perm
use mathlib.Core.Path.{subst}
use mathlib.Core.List.{
  mem-append_right, Mem, mem-append, mem-cons, mem-cons_self, not-mem-nil, Perm,
}
use wms_secret_backend.Prelude.{
  ℕ, ◌<◌, ◌≡◌, refl, inl, inr, true, false, none, some, List, [], ◌∷◌, ◌++◌, arith, All, length,
  Bool-cases, Option-cases,
}
use wms_secret_backend.Prelude.Sort.{IsSortedBy, sort_by-perm, sort_by-IsSortedBy}
use wms_secret_backend.Geometry.{PackItem, Box}
use wms_secret_backend.Packing.{PackResult, all_placed, pack_into_box}
use wms_secret_backend.Packing.Catalog.{box_catalog}
use wms_secret_backend.Packing.Recommend.{
  in_one, in_many, Recommendation, box_volume, smaller, sorted_boxes, last_or, first_holding,
  split_loop, recommend_from, recommend_and_pack,
}

module _ (side top : ℕ) (items : List PackItem) where
  abbrev pub TakesAll : Box → Type 0
  TakesAll b = all_placed (pack_into_box items b side top) ≡ true

  abbrev pub LeavesSome : Box → Type 0
  LeavesSome b = all_placed (pack_into_box items b side top) ≡ false

  -- `box` takes all items, and every box of `boxes` with a smaller volume leaves some.
  pub record IsSmallest (boxes : List Box) (results : List PackResult) : Type 0 where
    pub box : Box
    pub listed : Mem box boxes
    pub packed : results ≡ pack_into_box items box side top ∷ []
    pub takes : all_placed (pack_into_box items box side top) ≡ true
    pub least :
        (c : Box)
        → Mem c boxes
        → box_volume c < box_volume box
        → all_placed (pack_into_box items c side top) ≡ false

  -- What a recommendation says of the boxes `boxes`, by whether it splits the order.
  abbrev pub IsJustified : List Box → Recommendation → Type 0
  IsJustified boxes r =
      (r.split ≡ false → IsSmallest boxes r.results)
      × (r.split ≡ true
          → (c : Box) → Mem c boxes
          → all_placed (pack_into_box items c side top) ≡ false)
      × (r.box_count ≡ length r.results)

  pub record Found (boxes : List Box) (r : PackResult) : Type 0 where
    pub before : List Box
    pub box : Box
    pub after : List Box
    pub split : boxes ≡ before ++ box ∷ after
    pub fail : All LeavesSome before
    pub takes : TakesAll box
    pub result : r ≡ pack_into_box items box side top

  Found-cons :
      (b : Box) (bs : List Box) (r : PackResult) → LeavesSome b → Found bs r → Found (b ∷ bs) r
  Found-cons b bs r no_fit f = record {
    before = b ∷ f.before;
    box = f.box;
    after = f.after;
    split = cc (f.split);
    fail = (no_fit, f.fail);
    takes = f.takes;
    result = f.result;
  }

  pub first_holding-Found :
      (bs : List Box) (r : PackResult) → first_holding side top items bs ≡ some r → Found bs r
  unfolding first_holding
  first_holding-Found [] r h = cc
  first_holding-Found (b ∷ bs) r h =
      elim (Bool-cases (all_placed (pack_into_box items b side top))) [
        | inl fit ↦ record {
          before = [];
          box = b;
          after = bs;
          split = refl;
          fail = tt;
          takes = fit;
          result = ground arith;
        }
        | inr no_fit ↦ Found-cons b bs r no_fit (first_holding-Found bs r (ground arith))
      ]

  first_holding-none : (bs : List Box) → first_holding side top items bs ≡ none → All LeavesSome bs
  unfolding first_holding
  first_holding-none [] h = tt
  first_holding-none (b ∷ bs) h = elim (Bool-cases (all_placed (pack_into_box items b side top))) [
    | inl fit ↦ ground arith
    | inr no_fit ↦ (no_fit, first_holding-none bs (ground arith))
  ]

  leaves_of_mem : (bs : List Box) (c : Box) → All LeavesSome bs → Mem c bs → LeavesSome c
  leaves_of_mem [] c h m = absurd (not-mem-nil m)
  leaves_of_mem (b ∷ bs) c h m =
      Or.elim (hlevel) (mem-cons.0 m) (λ e. rw e h.0) (leaves_of_mem bs c h.1)

  le_of_mem :
      (b : Box) (bs : List Box) (c : Box)
      → All (λ d. smaller b d ≡ true) bs
      → Mem c bs
      → box_volume c < box_volume b
      → LeavesSome c
  le_of_mem b [] c h m lt = absurd (not-mem-nil m)
  le_of_mem b (d ∷ bs) c h m lt =
      Or.elim (hlevel) (mem-cons.0 m) (λ e. absurd (clash d e h.0))
        (λ m'. le_of_mem b bs c h.1 m' lt)
    where
      clash : (d : Box) → c ≡ d → smaller b d ≡ true → ⊥
      clash d e s = let s' : smaller b c ≡ true = rw e s in ground arith

  tail_sorted : (xs ys : List Box) → IsSortedBy smaller (xs ++ ys) → IsSortedBy smaller ys
  tail_sorted [] ys h = h
  tail_sorted (x ∷ xs) ys h = tail_sorted xs ys h.1

  Found-least :
      (boxes : List Box) (r : PackResult) (f : Found boxes r)
      → IsSortedBy smaller boxes
      → (c : Box) → Mem c boxes
      → box_volume c < box_volume f.box
      → LeavesSome c
  Found-least boxes r f sorted c m lt =
      Or.elim (hlevel) (mem-append.0 (rw (f.split) at m)) (leaves_of_mem f.before c f.fail) (λ m'.
        le_of_mem f.box (f.box ∷ f.after) c
          (ground arith, (tail_sorted f.before (f.box ∷ f.after) (rw (f.split) at sorted)).0) m' lt)

sorted_boxes-perm : (boxes : List Box) → Perm (sorted_boxes boxes) boxes
unfolding sorted_boxes
sorted_boxes-perm boxes = sort_by-perm smaller boxes

sorted_boxes-IsSortedBy : (boxes : List Box) → IsSortedBy smaller (sorted_boxes boxes)
unfolding sorted_boxes
sorted_boxes-IsSortedBy boxes =
    sort_by-IsSortedBy smaller (λ x y h. ground arith) (λ x y z h k. ground arith) boxes

module _ (side top : ℕ) (items : List PackItem) (b : Box) (bs : List Box) where
  IsJustified-one :
      (res : PackResult)
      → first_holding side top items (sorted_boxes (b ∷ bs)) ≡ some res
      → IsJustified side top items (b ∷ bs) (in_one res)
  IsJustified-one res h =
      let f = first_holding-Found side top items (sorted_boxes (b ∷ bs)) res h in
      let same = sorted_boxes-perm (b ∷ bs) in
      (
        λ _. record {
          box = f.box;
          listed = Perm.subset same f.box (rw (f.split) (mem-append_right f.before mem-cons_self));
          packed = cc (f.result);
          takes = f.takes;
          least = λ c m.
              Found-least side top items (sorted_boxes (b ∷ bs)) res f
                (sorted_boxes-IsSortedBy (b ∷ bs)) c (Perm.subset (Perm.symm same) c m);
        },
        λ e. cc,
        refl,
      )

  IsJustified-many :
      (rs : List PackResult)
      → first_holding side top items (sorted_boxes (b ∷ bs)) ≡ none
      → IsJustified side top items (b ∷ bs) (in_many rs)
  IsJustified-many rs h = (
    λ e. cc,
    λ _ c m.
        leaves_of_mem side top items (sorted_boxes (b ∷ bs)) c
          (first_holding-none side top items (sorted_boxes (b ∷ bs)) h)
          (Perm.subset (Perm.symm (sorted_boxes-perm (b ∷ bs))) c m),
    refl,
  )

  recommend_from-IsJustified :
      (r : Recommendation)
      → recommend_from side top b bs items ≡ some r
      → IsJustified side top items (b ∷ bs) r
  unfolding recommend_from
  recommend_from-IsJustified r h =
      elim (Option-cases (first_holding side top items (sorted_boxes (b ∷ bs)))) [
        | inr (res, e) ↦
            subst (IsJustified side top items (b ∷ bs)) (let q : in_one res ≡ r = ground arith in q)
              (IsJustified-one res e)
        | inl e ↦
            elim (Option-cases
              (split_loop side top (length items) (last_or b (sorted_boxes (b ∷ bs))) items)) [
                | inr (rs, e') ↦
                    subst (IsJustified side top items (b ∷ bs))
                      (let q : in_many rs ≡ r = ground arith in q) (IsJustified-many rs e)
                | inl e' ↦ absurd (ground arith)
              ]
      ]

-- A recommendation that does not split the order has one result: the packing of a box of the catalog
-- that takes all items, while every box of the catalog with a smaller volume leaves some out. An
-- order is split only if every box of the catalog leaves some items out. `box_count` counts the
-- results.
pub recommend_and_pack-IsJustified :
    (items : List PackItem) (side top : ℕ) (r : Recommendation)
    → recommend_and_pack items side top ≡ some r
    → IsJustified side top items box_catalog r
unfolding recommend_and_pack
recommend_and_pack-IsJustified items side top r h =
    recommend_from-IsJustified side top items _ _ r h
