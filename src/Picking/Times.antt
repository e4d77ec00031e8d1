-- ===== src/Picking/Times.antt =====
-- How many lines take a used book, and what is left of the books in stock.
use mathlib.Core.Path.{subst}
use wms_secret_backend.Prelude.{
  ==_iff, ℕ, zero, suc, ◌+◌, ◌≤◌, ◌≡◌, refl, ◌∙◌, inl, inr, Bool, true, false, ◌&&◌, List, [], ◌∷◌,
  map, arith, ◌==◌, if◌then◌else◌, filter_by, sum_of, sum_of-append, Bool-cases,
}
use wms_secret_backend.Picking.{
  Book, allocated, is_in_stock, InventoryUsedItem, OrderItem, PickingInstructionItem, mark_item,
}
use wms_secret_backend.Picking.Instruct.{is_of}
use wms_secret_backend.Picking.Allocate.{Work, used_line, claim, take_used, new_line, take_new}
use wms_secret_backend.Picking.Locks.{takes, lock}
use wms_secret_backend.Picking.Keys.{one_if, with_key}

-- How many lines take the used book with the key `k`.
abbrev pub times : ℕ → List PickingInstructionItem → ℕ
times k its = sum_of (λ it. one_if (is_of k it.used_item_id)) its

pub times-none : (k : ℕ) (its : List PickingInstructionItem) → takes k its ≡ false → times k its ≡ 0
times-none k [] h = refl
times-none k (it ∷ its) h = ground (arith, times-none k its)

claim-times :
    (k : ℕ) (b : Book) (oi : OrderItem) (u : InventoryUsedItem) (w : Work)
    → times k (claim b oi u w).draft ≡ times k w.draft + one_if (u.id == k)
unfolding claim
claim-times k b oi u w =
    sum_of-append (λ it. one_if (is_of k it.used_item_id)) w.draft (used_line w.session b oi u ∷ [])
    ∙ omega arith

pub take_used-times :
    (k : ℕ) (b : Book) (oi : OrderItem) (us : List InventoryUsedItem) (n : ℕ) (w : Work)
    → times k (take_used b oi us n w).1.draft ≤ times k w.draft + with_key k us
unfolding take_used
take_used-times k b oi [] n w = omega arith
take_used-times k b oi (u ∷ us) zero w = omega arith
take_used-times k b oi (u ∷ us) (suc n) w =
    omega (arith, take_used-times k b oi us n (claim b oi u w), claim-times k b oi u w)

pub take_new-times :
    (k : ℕ) (b : Book) (oi : OrderItem) (n : ℕ) (w : Work)
    → times k (take_new b oi (n, w)).draft ≡ times k w.draft
unfolding take_new
take_new-times k b oi zero w = refl
take_new-times k b oi (suc n) w =
    sum_of-append (λ it. one_if (is_of k it.used_item_id)) w.draft
      (new_line w.session b oi (suc n) ∷ [])
    ∙ omega arith

-- Of the books in stock now, those with the key `k`: none once a line takes it.
skip_step :
    (k : ℕ) (a t e : Bool) (x : InventoryUsedItem) (xs : List InventoryUsedItem) (m : ℕ)
    → with_key k xs ≤ (if t then 0 else m)
    → with_key k (if a && false then x ∷ xs else xs) ≤ (if t then 0 else one_if e + m)
skip_step k a t e x xs m h = ground arith

keep_step :
    (k : ℕ) (a t : Bool) (x : InventoryUsedItem) (xs : List InventoryUsedItem) (m : ℕ)
    → ((x.id == k) ≡ true → t ≡ false)
    → with_key k xs ≤ (if t then 0 else m)
    → with_key k (if a then x ∷ xs else xs) ≤ (if t then 0 else one_if (x.id == k) + m)
keep_step k true true x xs m f h = elim (Bool-cases (x.id == k)) [
  | inl e ↦ absurd (true_ne (f e))
  | inr e ↦ rw e (omega (arith, h))
]
  where
    true_ne : true ≡ false → ⊥
    true_ne e = ground arith
keep_step k true false x xs m f h = omega (arith, h)
keep_step k false t x xs m f h = ground arith

pub left_in_stock :
    (k : ℕ) (p : InventoryUsedItem → Bool) (its : List PickingInstructionItem)
    (us : List InventoryUsedItem)
    → with_key k (filter_by (λ u. p u && is_in_stock u.item_status) (map (lock its) us))
      ≤ (if takes k its then 0 else with_key k us)
left_in_stock k p its [] = ground arith
left_in_stock k p its (u ∷ us) =
    let ih = left_in_stock k p its us in
    let rest = filter_by (λ u. p u && is_in_stock u.item_status) (map (lock its) us) in
    elim (Bool-cases (takes u.id its)) [
      | inl q ↦ rw q (
          skip_step k (p (mark_item allocated u)) (takes k its) (u.id == k) (mark_item allocated u)
            rest (with_key k us) ih)
      | inr q ↦ rw q (
          keep_step k (p u && is_in_stock u.item_status) (takes k its) u rest (with_key k us)
            (λ e. subst (λ n. takes n its ≡ false) ((==_iff u.id k).0 e) q) ih)
    ]
