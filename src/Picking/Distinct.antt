-- ===== src/Picking/Distinct.antt =====
-- No used book is taken twice.
use mathlib.Core.Path.{subst}
use wms_secret_backend.Prelude.{
  ==_iff, ℕ, suc, ◌+◌, ◌≤◌, max, ◌≡◌, refl, sym, ap, inl, inr, Bool, true, false, ◌&&◌, Option,
  none, some, List, [], ◌∷◌, map, arith, leb, ◌==◌, if◌then◌else◌, filter_by, All, sum_of-perm,
  Bool-cases,
}
use wms_secret_backend.Prelude.Sort.{sort_by, sort_by-perm}
use wms_secret_backend.Picking.{
  Book, is_in_stock, InventoryUsedItem, OrderItem, PickingInstructionItem, Session, get_by,
}
use wms_secret_backend.Picking.Instruct.{is_of}
use wms_secret_backend.Picking.Allocate.{
  Work, wants_used, fifo, pinned_item, pinned_or_fifo, used_rows, take_used, take_new,
  allocate_item, allocate_items, on_route, number_from, allocate_order_items,
}
use wms_secret_backend.Picking.Locks.{takes, lock, Keyed, Allocates}
use wms_secret_backend.Picking.Keys.{one_if, with_key, HasKeys, HasKeys-Keyed}
use wms_secret_backend.Picking.Times.{
  left_in_stock, take_new-times, take_used-times, times, times-none,
}
use wms_secret_backend.Picking.Taken.{allocate_item-Allocates, lock_nil}

-- A used book that is in stock now is taken by no line so far.
abbrev IsLeft : List PickingInstructionItem → InventoryUsedItem → Type 0
IsLeft its u = is_in_stock u.item_status ≡ true → takes u.id its ≡ false

lock-IsLeft :
    (its : List PickingInstructionItem) (us : List InventoryUsedItem)
    → All (IsLeft its) (map (lock its) us)
lock-IsLeft its [] = tt
lock-IsLeft its (u ∷ us) = (
  elim (Bool-cases (takes u.id its)) [
    | inl q ↦ rw q (λ e. absurd (ground arith))
    | inr q ↦ rw q (λ e. q)
  ],
  lock-IsLeft its us,
)

abbrev Left : List PickingInstructionItem → Option InventoryUsedItem → Type 0
Left its none = Unit
Left its (some u) = IsLeft its u

get_by-Left :
    (its : List PickingInstructionItem) (k : ℕ) (us : List InventoryUsedItem)
    → All (IsLeft its) us
    → Left its (get_by (λ u. u.id) k us)
get_by-Left its k [] h = tt
get_by-Left its k (u ∷ us) h = elim (Bool-cases (u.id == k)) [
  | inl e ↦ rw e (h.0)
  | inr e ↦ rw e (get_by-Left its k us h.1)
]

module _ (before : List InventoryUsedItem) (unique : HasKeys before) where
  -- No book is listed twice, and none that a line takes already.
  abbrev Open : Work → List InventoryUsedItem → Type 0
  Open w us = (k : ℕ) → with_key k us ≤ (if takes k w.draft then 0 else 1)

  fifo-Open :
      (w : Work) (b : Book)
      → w.session.used_items ≡ map (lock w.draft) before
      → Open w (fifo w.session b)
  fifo-Open w b e k =
      let rows =
        filter_by (λ u. (u.book_id == b.id) && is_in_stock u.item_status) w.session.used_items in
      let same =
        sum_of-perm (λ u. one_if (u.id == k))
          (sort_by-perm (λ u v. leb u.created_at v.created_at) rows) in
      let left =
        subst
          (λ us.
            with_key k (filter_by (λ u. (u.book_id == b.id) && is_in_stock u.item_status) us)
            ≤ (if takes k w.draft then 0 else with_key k before))
          (sym e) (left_in_stock k (λ u. u.book_id == b.id) w.draft before) in
      by (takes k w.draft) left same (unique k)
    where
      by :
          {n m b : ℕ} (t : Bool)
          → m ≤ (if t then 0 else b)
          → n ≡ m
          → b ≤ 1
          → n ≤ (if t then 0 else 1)
      by t h e u = ground arith

  pinned-Open :
      (w : Work) (b : Book) (o : Option InventoryUsedItem)
      → w.session.used_items ≡ map (lock w.draft) before
      → Left w.draft o
      → Open w (pinned_or_fifo w.session b o)
  pinned-Open w b none e h = fifo-Open w b e
  pinned-Open w b (some u) e h = elim (Bool-cases (is_in_stock u.item_status)) [
    | inl q ↦ rw q (λ k. one k (h q))
    | inr q ↦ rw q (fifo-Open w b e)
  ]
    where
      one :
          (k : ℕ)
          → takes u.id w.draft ≡ false
          → one_if (u.id == k) + 0 ≤ (if takes k w.draft then 0 else 1)
      one k l = elim (Bool-cases (u.id == k)) [
        | inl q ↦ rw (q, subst (λ n. takes n w.draft ≡ false) ((==_iff u.id k).0 q) l) (omega arith)
        | inr q ↦ rw q (omega arith)
      ]

  used_rows-Open :
      (w : Work) (b : Book) (oi : OrderItem)
      → w.session.used_items ≡ map (lock w.draft) before
      → Open w (used_rows w.session b oi)
  unfolding used_rows
  used_rows-Open w b oi e = rows (wants_used oi.condition_pref)
    where
      items : All (IsLeft w.draft) w.session.used_items
      items = subst (All (IsLeft w.draft)) (sym e) (lock-IsLeft w.draft before)

      pinned :
          (o : Option ℕ)
          → Left w.draft (elim o as (λ _. Option InventoryUsedItem) [
            | none ↦ none
            | some k ↦ get_by (λ u. u.id) k w.session.used_items
          ])
      pinned none = tt
      pinned (some k) = get_by-Left w.draft k w.session.used_items items

      rows :
          (t : Bool)
          → Open w (if t then pinned_or_fifo w.session b (pinned_item w.session oi) else [])
      rows true = pinned-Open w b (pinned_item w.session oi) e (pinned oi.used_item_id)
      rows false = λ k. ground arith

  -- No book is taken twice.
  abbrev Once : Work → Type 0
  Once w = (k : ℕ) → times k w.draft ≤ 1

  allocate_item-Once :
      (oi : OrderItem) (w : Work)
      → w.session.used_items ≡ map (lock w.draft) before
      → Once w
      → Once (allocate_item oi w)
  unfolding allocate_item
  allocate_item-Once oi w e h k = by (get_by (λ b. b.id) oi.book_id w.session.books)
    where
      bound :
          {n t c m : ℕ} (x : Bool)
          → n ≡ t
          → t ≤ m + c
          → c ≤ (if x then 0 else 1)
          → (x ≡ false → m ≡ 0)
          → m ≤ 1
          → n ≤ 1
      bound true a b c d h = omega (arith, a, b, c, h)
      bound false a b c d h = omega (arith, a, b, c, d refl)

      by :
          (o : Option Book)
          → times k
              (elim o as (λ _. Work) [
                | none ↦ w
                | some b ↦
                    take_new b oi (take_used b oi (used_rows w.session b oi) (max 1 oi.quantity) w)
              ]).draft
            ≤ 1
      by none = h k
      by (some b) =
          let r = take_used b oi (used_rows w.session b oi) (max 1 oi.quantity) w in
          bound (takes k w.draft) (take_new-times k b oi r.0 r.1)
            (take_used-times k b oi (used_rows w.session b oi) (max 1 oi.quantity) w)
            (used_rows-Open w b oi e k) (times-none k w.draft) (h k)

  allocate_items-Once :
      (keyed : Keyed before) (ois : List OrderItem) (w : Work)
      → Allocates before w
      → Once w
      → Once (allocate_items ois w)
  unfolding allocate_items
  allocate_items-Once keyed [] w a h = h
  allocate_items-Once keyed (oi ∷ ois) w a h =
      allocate_items-Once keyed ois (allocate_item oi w)
        (allocate_item-Allocates before keyed oi w a) (allocate_item-Once oi w a.items h)

times-number :
    (k n : ℕ) (its : List PickingInstructionItem) → times k (number_from n its) ≡ times k its
unfolding number_from
times-number k n [] = refl
times-number k n (it ∷ its) =
    ap (λ t. one_if (is_of k it.used_item_id) + t) (times-number k (suc n) its)

-- Where no two used books have the same key, no used book is taken by two lines of an instruction, in
-- whatever order the lines of the order name books and titles.
pub allocate_order_items-Once :
    (s : Session) (order_id : ℕ)
    → HasKeys s.used_items
    → (k : ℕ) → times k (allocate_order_items s order_id).draft ≤ 1
unfolding allocate_order_items
allocate_order_items-Once s order_id unique k =
    let start : Work = record { session = s; draft = []; shortages = [] } in
    let w = allocate_items (filter_by (λ oi. oi.order_id == order_id) s.order_items) start in
    let once =
      allocate_items-Once s.used_items unique (HasKeys-Keyed s.used_items unique)
        (filter_by (λ oi. oi.order_id == order_id) s.order_items) start
        (record { items = lock_nil s.used_items; lines = tt }) (λ k. omega arith) k in
    omega (
      arith,
      once,
      times-number k 1 (sort_by on_route w.draft),
      sum_of-perm (λ it. one_if (is_of k it.used_item_id)) (sort_by-perm on_route w.draft),
    )
