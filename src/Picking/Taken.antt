-- ===== src/Picking/Taken.antt =====
-- An allocation takes only used books that are in stock.
use mathlib.Core.Path.{subst}
use wms_secret_backend.Prelude.{
  ℕ, suc, max, ◌≡◌, refl, sym, ap, ◌∙◌, inl, inr, Bool, true, false, ◌&&◌, ◌||◌, Option, none, some,
  List, [], ◌∷◌, map, arith, ◌==◌, if◌then◌else◌, filter_by, any-perm, All, Bool-cases,
}
use wms_secret_backend.Prelude.Sort.{sort_by, sort_by-perm, sort_by-All}
use wms_secret_backend.Picking.{
  Book, allocated, is_in_stock, InventoryUsedItem, OrderItem, PickingInstructionItem, Session,
  get_by, mark_item,
}
use wms_secret_backend.Picking.Instruct.{is_of}
use wms_secret_backend.Picking.Allocate.{
  Work, wants_used, fifo, pinned_item, pinned_or_fifo, used_rows, take_used, take_new,
  allocate_item, allocate_items, on_route, number_from, allocate_order_items,
}
use wms_secret_backend.Picking.Locks.{
  takes, lock, Free, Keyed, Takes, Allocates, take_used-Allocates, take_new-Allocates,
}
use wms_secret_backend.Picking.Keys.{HasKeys, HasKeys-Keyed}

module _ (before : List InventoryUsedItem) (keyed : Keyed before) where
  -- A used book that is in stock now was in stock before.
  abbrev Known : InventoryUsedItem → Type 0
  Known u = is_in_stock u.item_status ≡ true → Free before u.id

  lock-Known :
      (its : List PickingInstructionItem) (us : List InventoryUsedItem)
      → All Known us
      → All Known (map (lock its) us)
  lock-Known its [] h = tt
  lock-Known its (u ∷ us) h = (by (takes u.id its), lock-Known its us h.1)
    where
      by : (t : Bool) → Known (if t then mark_item allocated u else u)
      by true e = absurd (ground arith)
      by false e = h.0 e

  items-Known : (w : Work) → Allocates before w → All Known w.session.used_items
  items-Known w h = subst (All Known) (sym h.items) (lock-Known w.draft before keyed)

  keep_in_stock :
      (p : InventoryUsedItem → Bool) (us : List InventoryUsedItem)
      → All Known us
      → All (λ u. Free before u.id) (filter_by (λ u. p u && is_in_stock u.item_status) us)
  keep_in_stock p [] h = tt
  keep_in_stock p (u ∷ us) h = elim (Bool-cases (p u && is_in_stock u.item_status)) [
    | inl e ↦ rw e (h.0 (and_right (p u) (is_in_stock u.item_status) e), keep_in_stock p us h.1)
    | inr e ↦ rw e (keep_in_stock p us h.1)
  ]
    where
      and_right : (a b : Bool) → a && b ≡ true → b ≡ true
      and_right a b h = ground arith

  fifo-Free :
      (w : Work) (b : Book) → Allocates before w → All (λ u. Free before u.id) (fifo w.session b)
  fifo-Free w b h =
      sort_by-All _ (λ u. Free before u.id) _
        (keep_in_stock (λ u. u.book_id == b.id) w.session.used_items (items-Known w h))

  get_by-Known :
      (k : ℕ) (us : List InventoryUsedItem)
      → All Known us
      → elim (get_by (λ u. u.id) k us) as (λ _. Type 0) [ none ↦ Unit | some u ↦ Known u ]
  get_by-Known k [] h = tt
  get_by-Known k (u ∷ us) h = elim (Bool-cases (u.id == k)) [
    | inl e ↦ rw e (h.0)
    | inr e ↦ rw e (get_by-Known k us h.1)
  ]

  abbrev IsKnown : Option InventoryUsedItem → Type 0
  IsKnown none = Unit
  IsKnown (some u) = Known u

  pinned_item-Known :
      (w : Work) (oi : OrderItem) → Allocates before w → IsKnown (pinned_item w.session oi)
  pinned_item-Known w oi h = by oi.used_item_id
    where
      by :
          (o : Option ℕ)
          → IsKnown (elim o as (λ _. Option InventoryUsedItem) [
            | none ↦ none
            | some k ↦ get_by (λ u. u.id) k w.session.used_items
          ])
      by none = tt
      by (some k) = get_by-Known k w.session.used_items (items-Known w h)

  pinned_or_fifo-Free :
      (w : Work) (b : Book) (o : Option InventoryUsedItem)
      → Allocates before w
      → IsKnown o
      → All (λ u. Free before u.id) (pinned_or_fifo w.session b o)
  pinned_or_fifo-Free w b none h k = fifo-Free w b h
  pinned_or_fifo-Free w b (some u) h k = elim (Bool-cases (is_in_stock u.item_status)) [
    | inl e ↦ rw e (k e, tt)
    | inr e ↦ rw e (fifo-Free w b h)
  ]

  used_rows-Free :
      (w : Work) (b : Book) (oi : OrderItem)
      → Allocates before w
      → All (λ u. Free before u.id) (used_rows w.session b oi)
  unfolding used_rows
  used_rows-Free w b oi h = by (wants_used oi.condition_pref)
    where
      by :
          (t : Bool)
          → All
              (λ u. Free before u.id)
              (if t then pinned_or_fifo w.session b (pinned_item w.session oi) else [])
      by true = pinned_or_fifo-Free w b (pinned_item w.session oi) h (pinned_item-Known w oi h)
      by false = tt

  pub allocate_item-Allocates :
      (oi : OrderItem) (w : Work) → Allocates before w → Allocates before (allocate_item oi w)
  unfolding allocate_item
  allocate_item-Allocates oi w h = by (get_by (λ b. b.id) oi.book_id w.session.books)
    where
      by :
          (o : Option Book)
          → Allocates before (elim o as (λ _. Work) [
            | none ↦ w
            | some b ↦
                take_new b oi (take_used b oi (used_rows w.session b oi) (max 1 oi.quantity) w)
          ])
      by none = h
      by (some b) =
          let r = take_used b oi (used_rows w.session b oi) (max 1 oi.quantity) w in
          take_new-Allocates before b oi r.0 r.1 (
            take_used-Allocates before b oi (used_rows w.session b oi) (max 1 oi.quantity) w h
              (used_rows-Free w b oi h))

  allocate_items-Allocates :
      (ois : List OrderItem) (w : Work)
      → Allocates before w
      → Allocates before (allocate_items ois w)
  unfolding allocate_items
  allocate_items-Allocates [] w h = h
  allocate_items-Allocates (oi ∷ ois) w h =
      allocate_items-Allocates ois (allocate_item oi w) (allocate_item-Allocates oi w h)

  takes-number :
      (k n : ℕ) (its : List PickingInstructionItem) → takes k (number_from n its) ≡ takes k its
  unfolding number_from
  takes-number k n [] = refl
  takes-number k n (it ∷ its) = ap (λ t. is_of k it.used_item_id || t) (takes-number k (suc n) its)

  lines-number :
      (n : ℕ) (its : List PickingInstructionItem)
      → All (Takes before) its
      → All (Takes before) (number_from n its)
  unfolding number_from
  lines-number n [] h = tt
  lines-number n (it ∷ its) h = (h.0, lines-number (suc n) its h.1)

  lock-perm :
      (xs ys : List PickingInstructionItem)
      → ((k : ℕ) → takes k xs ≡ takes k ys)
      → (us : List InventoryUsedItem) → map (lock xs) us ≡ map (lock ys) us
  lock-perm xs ys e [] = refl
  lock-perm xs ys e (u ∷ us) =
      λ i. (if e u.id i then mark_item allocated u else u) ∷ lock-perm xs ys e us i

  number-Allocates :
      (w : Work)
      → Allocates before w
      → Allocates before (record w { draft = number_from 1 (sort_by on_route w.draft) })
  number-Allocates w h = record {
    items =
        h.items
        ∙ lock-perm w.draft (number_from 1 (sort_by on_route w.draft))
            (λ k. sym (
              takes-number k 1 (sort_by on_route w.draft)
              ∙ any-perm (λ it. is_of k it.used_item_id) (sort_by-perm on_route w.draft)))
            before;
    lines =
        lines-number 1 (sort_by on_route w.draft)
          (sort_by-All on_route (Takes before) w.draft h.lines);
  }

pub lock_nil : (us : List InventoryUsedItem) → us ≡ map (lock []) us
lock_nil [] = refl
lock_nil (u ∷ us) = λ i. u ∷ lock_nil us i

-- Where no two used books have the same key, an allocation takes only books that are in stock: after
-- it the table of used books is as before but that exactly those that the lines of the instruction
-- take are allocated, and each of these was in stock.
pub allocate_order_items-Allocates :
    (s : Session) (order_id : ℕ)
    → HasKeys s.used_items
    → Allocates s.used_items (allocate_order_items s order_id)
unfolding allocate_order_items
allocate_order_items-Allocates s order_id unique =
    let start : Work = record { session = s; draft = []; shortages = [] } in
    let ois = filter_by (λ oi. oi.order_id == order_id) s.order_items in
    let keyed = HasKeys-Keyed s.used_items unique in
    number-Allocates s.used_items keyed (allocate_items ois start) (
      allocate_items-Allocates s.used_items keyed ois start
        (record { items = lock_nil s.used_items; lines = tt }))
