-- ===== src/Picking/Locks.antt =====
-- Which used books an allocation takes, and that it takes none that is not in stock.
use mathlib.Core.Path.{subst}
use wms_secret_backend.Prelude.{
  ==_iff, ℕ, zero, suc, ◌≡◌, refl, sym, ap, ◌∙◌, inl, inr, Bool, true, false, ◌||◌, List, [], ◌∷◌,
  ◌++◌, map, arith, ◌==◌, if◌then◌else◌, any, All, All-append, Bool-cases,
}
use wms_secret_backend.Picking.{
  Book, allocated, is_in_stock, InventoryUsedItem, OrderItem, PickingInstructionItem, mark_item,
  set_item,
}
use wms_secret_backend.Picking.Instruct.{is_of, is_used}
use wms_secret_backend.Picking.Allocate.{Work, used_line, claim, take_used, new_line, take_new}

-- Whether a line takes the used book with the key `k`.
abbrev pub takes : ℕ → List PickingInstructionItem → Bool
takes k its = any (λ it. is_of k it.used_item_id) its

-- The used books once those that the lines take are allocated.
abbrev pub lock : List PickingInstructionItem → InventoryUsedItem → InventoryUsedItem
lock its u = if takes u.id its then mark_item allocated u else u

-- A key that a used book has names one in stock.
abbrev pub Free : List InventoryUsedItem → ℕ → Type 0
Free us k = All (λ u. (u.id == k) ≡ true → is_in_stock u.item_status ≡ true) us

-- Keys are unique, as far as the status goes.
abbrev pub Keyed : List InventoryUsedItem → Type 0
Keyed us = All (λ u. is_in_stock u.item_status ≡ true → Free us u.id) us

-- The line takes a book in stock, or none.
abbrev pub Takes : List InventoryUsedItem → PickingInstructionItem → Type 0
Takes us it = (k : ℕ) → is_of k it.used_item_id ≡ true → (is_used it.stock_type ≡ true) × Free us k

eq_comm : (a b : ℕ) → (a == b) ≡ (b == a)
eq_comm a b = ground arith

lock_step :
    (k : ℕ) (t n : Bool) (u : InventoryUsedItem)
    → n ≡ (k == u.id)
    → (let v = (if t then mark_item allocated u else u) in
        if v.id == k then mark_item allocated v else v)
      ≡ (if t || n then mark_item allocated u else u)
lock_step k true n u e = elim (Bool-cases (u.id == k)) [ inl q ↦ rw q refl | inr q ↦ rw q refl ]
lock_step k false n u e = elim (Bool-cases (u.id == k)) [
  | inl q ↦ rw (q, e ∙ eq_comm k u.id ∙ q) refl
  | inr q ↦ rw (q, e ∙ eq_comm k u.id ∙ q) refl
]

takes-append :
    (k : ℕ) (xs ys : List PickingInstructionItem) → takes k (xs ++ ys) ≡ (takes k xs || takes k ys)
takes-append k [] ys = refl
takes-append k (x ∷ xs) ys = ground (arith, takes-append k xs ys)

takes-snoc :
    (k : ℕ) (xs : List PickingInstructionItem) (x : PickingInstructionItem)
    → takes k (xs ++ x ∷ []) ≡ (takes k xs || is_of k x.used_item_id)
takes-snoc k xs x = ground (arith, takes-append k xs (x ∷ []))

-- The used books are those of `before` but for the ones that the lines take, which were in stock.
pub record Allocates (before : List InventoryUsedItem) (w : Work) : Type 0 where
  pub items : w.session.used_items ≡ map (lock w.draft) before
  pub lines : All (Takes before) w.draft

module _ (before : List InventoryUsedItem) where
  lock-snoc :
      (k : ℕ) (line : PickingInstructionItem) (its : List PickingInstructionItem)
      → ((n : ℕ) → is_of n line.used_item_id ≡ (k == n))
      → (us : List InventoryUsedItem)
      → set_item allocated k (map (lock its) us) ≡ map (lock (its ++ line ∷ [])) us
  lock-snoc k line its e [] = refl
  lock-snoc k line its e (u ∷ us) = λ i.
      (lock_step k (takes u.id its) (is_of u.id line.used_item_id) u (e u.id)
          ∙ ap (λ t. if t then mark_item allocated u else u) (sym (takes-snoc u.id its line)))
        i
      ∷ lock-snoc k line its e us i

  lock-new :
      (line : PickingInstructionItem) (its : List PickingInstructionItem)
      → ((n : ℕ) → is_of n line.used_item_id ≡ false)
      → (us : List InventoryUsedItem) → map (lock its) us ≡ map (lock (its ++ line ∷ [])) us
  lock-new line its e [] = refl
  lock-new line its e (u ∷ us) = λ i.
      ap (λ t. if t then mark_item allocated u else u)
        (sym (
          takes-snoc u.id its line
          ∙ or_none (takes u.id its) (is_of u.id line.used_item_id) (e u.id)))
        i
      ∷ lock-new line its e us i
    where
      or_none : (t n : Bool) → n ≡ false → (t || n) ≡ t
      or_none t n h = ground arith

  claim-Allocates :
      (b : Book) (oi : OrderItem) (u : InventoryUsedItem) (w : Work)
      → Allocates before w
      → Free before u.id
      → Allocates before (claim b oi u w)
  unfolding claim
  claim-Allocates b oi u w h free = record {
    items =
        ap (set_item allocated u.id) h.items
        ∙ lock-snoc u.id (used_line w.session b oi u) w.draft (λ n. refl) before;
    lines =
        All-append (Takes before) w.draft (used_line w.session b oi u ∷ []) h.lines
          ((λ k e. (refl, subst (Free before) ((==_iff u.id k).0 e) free)), tt);
  }

  pub take_used-Allocates :
      (b : Book) (oi : OrderItem) (us : List InventoryUsedItem) (n : ℕ) (w : Work)
      → Allocates before w
      → All (λ u. Free before u.id) us
      → Allocates before (take_used b oi us n w).1
  unfolding take_used
  take_used-Allocates b oi [] n w h free = h
  take_used-Allocates b oi (u ∷ us) zero w h free = h
  take_used-Allocates b oi (u ∷ us) (suc n) w h free =
      take_used-Allocates b oi us n (claim b oi u w) (claim-Allocates b oi u w h free.0) free.1

  pub take_new-Allocates :
      (b : Book) (oi : OrderItem) (n : ℕ) (w : Work)
      → Allocates before w
      → Allocates before (take_new b oi (n, w))
  unfolding take_new
  take_new-Allocates b oi zero w h = h
  take_new-Allocates b oi (suc n) w h = record {
    items = h.items ∙ lock-new (new_line w.session b oi (suc n)) w.draft (λ n. refl) before;
    lines =
        All-append (Takes before) w.draft (new_line w.session b oi (suc n) ∷ []) h.lines
          ((λ k e. absurd (ground arith)), tt);
  }
