-- ===== src/Picking/Quantities.antt =====
-- How many books an order gets.
use wms_secret_backend.Prelude.{
  ℕ, zero, suc, ◌+◌, max, ◌≡◌, refl, ap, ◌∙◌, Option, none, some, List, [], ◌∷◌, arith, ◌==◌,
  filter_by, sum_of, sum_of-append, sum_of-perm,
}
use wms_secret_backend.Prelude.Sort.{sort_by, sort_by-perm}
use wms_secret_backend.Picking.{
  Book, InventoryUsedItem, OrderItem, PickingInstructionItem, Session, get_by,
}
use wms_secret_backend.Picking.Allocate.{
  Work, used_rows, used_line, claim, take_used, new_line, take_new, allocate_item, allocate_items,
  on_route, number_from, allocate_order_items,
}

abbrev drafted : Work → ℕ
drafted w = sum_of (λ it. it.quantity) w.draft

-- What an order line asks for: at least one, and nothing of an unknown book.
unfoldable pub asked : Session → OrderItem → ℕ
asked s oi = elim (get_by (λ b. b.id) oi.book_id s.books) [ none ↦ 0 | some b ↦ max 1 oi.quantity ]

claim_lem :
    (b : Book) (oi : OrderItem) (u : InventoryUsedItem) (w : Work)
    → (drafted (claim b oi u w) ≡ drafted w + 1)
      × ((claim b oi u w).session.books ≡ w.session.books)
unfolding claim
claim_lem b oi u w = (
  sum_of-append (λ it. it.quantity) w.draft (used_line w.session b oi u ∷ []) ∙ omega arith,
  refl,
)

take_used_lem :
    (b : Book) (oi : OrderItem) (us : List InventoryUsedItem) (n : ℕ) (w : Work)
    → let (m, w') = take_used b oi us n w in
      (drafted w' + m ≡ drafted w + n) × (w'.session.books ≡ w.session.books)
unfolding take_used
take_used_lem b oi [] n w = (refl, refl)
take_used_lem b oi (u ∷ us) zero w = (refl, refl)
take_used_lem b oi (u ∷ us) (suc n) w =
    let ih = take_used_lem b oi us n (claim b oi u w) in
    let c = claim_lem b oi u w in (omega (arith, ih.0, c.0), ih.1 ∙ c.1)

take_new_lem :
    (b : Book) (oi : OrderItem) (n : ℕ) (w : Work)
    → (drafted (take_new b oi (n, w)) ≡ drafted w + n)
      × ((take_new b oi (n, w)).session.books ≡ w.session.books)
unfolding take_new
take_new_lem b oi zero w = (omega arith, refl)
take_new_lem b oi (suc n) w = (
  sum_of-append (λ it. it.quantity) w.draft (new_line w.session b oi (suc n) ∷ []) ∙ omega arith,
  refl,
)

allocate_item_lem :
    (oi : OrderItem) (w : Work)
    → (drafted (allocate_item oi w) ≡ drafted w + asked w.session oi)
      × ((allocate_item oi w).session.books ≡ w.session.books)
unfolding allocate_item asked
allocate_item_lem oi w = by (get_by (λ b. b.id) oi.book_id w.session.books)
  where
    by :
        (o : Option Book)
        → let w' = elim o as (λ _. Work) [
          | none ↦ w
          | some b ↦ take_new b oi (take_used b oi (used_rows w.session b oi) (max 1 oi.quantity) w)
        ] in
          (drafted w' ≡ drafted w + (elim o as (λ _. ℕ) [ none ↦ 0 | some b ↦ max 1 oi.quantity ]))
          × (w'.session.books ≡ w.session.books)
    by none = (omega arith, refl)
    by (some b) =
        let r = take_used b oi (used_rows w.session b oi) (max 1 oi.quantity) w in
        let t = take_used_lem b oi (used_rows w.session b oi) (max 1 oi.quantity) w in
        let n = take_new_lem b oi r.0 r.1 in (n.0 ∙ t.0, n.1 ∙ t.1)

asked_by : (s s' : Session) → s.books ≡ s'.books → asked s ≡ asked s'
unfolding asked
asked_by s s' e = λ i oi. elim (get_by (λ b. b.id) oi.book_id (e i)) as (λ _. ℕ) [
  | none ↦ 0
  | some b ↦ max 1 oi.quantity
]

allocate_items_lem :
    (ois : List OrderItem) (w : Work)
    → drafted (allocate_items ois w) ≡ drafted w + sum_of (asked w.session) ois
unfolding allocate_items
allocate_items_lem [] w = omega arith
allocate_items_lem (oi ∷ ois) w =
    let a = allocate_item_lem oi w in
    let ih = allocate_items_lem ois (allocate_item oi w) in
    omega
      (arith, a.0, ih, ap (λ f. sum_of f ois) (asked_by (allocate_item oi w).session w.session a.1))

number_from_lem :
    (k : ℕ) (its : List PickingInstructionItem)
    → sum_of (λ it. it.quantity) (number_from k its) ≡ sum_of (λ it. it.quantity) its
unfolding number_from
number_from_lem k [] = refl
number_from_lem k (it ∷ its) = ap (λ n. it.quantity + n) (number_from_lem (suc k) its)

-- The lines of an instruction come to what the lines of the order ask for, neither more nor less,
-- whatever is in stock: a line of a known book asks for its quantity and at least one.
pub allocate_order_items-asked :
    (s : Session) (order_id : ℕ)
    → sum_of (λ it. it.quantity) (allocate_order_items s order_id).draft
      ≡ sum_of (asked s) (filter_by (λ oi. oi.order_id == order_id) s.order_items)
unfolding allocate_order_items
allocate_order_items-asked s order_id =
    let start : Work = record { session = s; draft = []; shortages = [] } in
    let ois = filter_by (λ oi. oi.order_id == order_id) s.order_items in
    let w = allocate_items ois start in
    number_from_lem 1 (sort_by on_route w.draft)
    ∙ sum_of-perm (λ it. it.quantity) (sort_by-perm on_route w.draft)
    ∙ allocate_items_lem ois start
    ∙ omega arith
