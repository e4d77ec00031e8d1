-- ===== src/Picking/Allocate.antt =====
-- `allocate_order_items` of app/domains/orders/picking.py: which books an order gets.
use wms_secret_backend.Prelude.{
  ℕ, zero, suc, ◌-◌, max, Bool, true, false, ◌&&◌, Option, none, some, List, [], ◌∷◌, ◌++◌, String,
  ltb, leb, ◌==◌, if◌then◌else◌, filter_by, sum_of,
}
use wms_secret_backend.Prelude.Sort.{sort_by}
use wms_secret_backend.Prelude.Texts.{nonempty_or, texts_le}
use wms_secret_backend.Picking.{
  Book, allocated, is_in_stock, InventoryUsedItem, Inventory, ConditionPref, new_only, used_first,
  automatic, OrderItem, StockType, new_stock, used_stock, line_pending, out_of_stock,
  PickingInstructionItem, Session, get_by, set_item,
}
use wms_secret_backend.Picking.Slots.{location_of}

-- The session, the lines so far, and the books and quantities asked of the supplier.
pub record Work : Type 0 where
  pub session : Session
  pub draft : List PickingInstructionItem
  pub shortages : List (ℕ × ℕ)

abbrev pub wants_used : ConditionPref → Bool
wants_used new_only = false
wants_used used_first = true
wants_used automatic = true

-- The used books of a title in stock, the oldest first.
abbrev pub fifo : Session → Book → List InventoryUsedItem
fifo s b =
    sort_by (λ u v. leb u.created_at v.created_at)
      (filter_by (λ u. (u.book_id == b.id) && is_in_stock u.item_status) s.used_items)

abbrev pub pinned_item : Session → OrderItem → Option InventoryUsedItem
pinned_item s oi = elim (oi.used_item_id) [
  | none ↦ none
  | some k ↦ get_by (λ u. u.id) k s.used_items
]

-- The book that the order names, if it is in stock, else those of the title.
abbrev pub pinned_or_fifo : Session → Book → Option InventoryUsedItem → List InventoryUsedItem
pinned_or_fifo s b none = fifo s b
pinned_or_fifo s b (some u) = if is_in_stock u.item_status then u ∷ [] else fifo s b

unfoldable pub used_rows : Session → Book → OrderItem → List InventoryUsedItem
unfolding sort_by
used_rows s b oi =
    if wants_used oi.condition_pref then pinned_or_fifo s b (pinned_item s oi) else []

abbrev pub used_line : Session → Book → OrderItem → InventoryUsedItem → PickingInstructionItem
unfolding location_of
used_line s b oi u =
    let loc =
      location_of s.locations (some u.location_id) b (nonempty_or "NORMAL" u.condition_grade) in
    record {
      instruction_id = none;
      order_item_id = oi.id;
      book_id = b.id;
      used_item_id = some u.id;
      stock_type = used_stock;
      lpn_barcode = some u.lpn_barcode;
      isbn = b.isbn;
      title = b.title;
      quantity = 1;
      zone = loc.zone;
      rack = loc.rack;
      shelf = loc.shelf;
      pick_seq = 1;
      unit_price = oi.unit_price;
      status = line_pending;
    }

-- One round of the loop over the used books.
unfoldable pub claim : Book → OrderItem → InventoryUsedItem → Work → Work
unfolding used_line
claim b oi u w = record w {
  session = record (w.session) { used_items = set_item allocated u.id w.session.used_items };
  draft = w.draft ++ used_line w.session b oi u ∷ [];
}

-- How many are left to find, and the work done.
unfoldable pub take_used : Book → OrderItem → List InventoryUsedItem → ℕ → Work → ℕ × Work
unfolding claim
take_used b oi [] remaining w = (remaining, w)
take_used b oi (u ∷ us) zero w = (zero, w)
take_used b oi (u ∷ us) (suc remaining) w = take_used b oi us remaining (claim b oi u w)

-- The oldest row of new books with any left.
abbrev pub first_inventory : Session → Book → Option Inventory
first_inventory s b =
    elim (sort_by (λ i j. leb i.created_at j.created_at)
      (filter_by (λ i. (i.book_id == b.id) && ltb 0 i.quantity) s.inventory)) [
        | [] ↦ none
        | inv ∷ _ ↦ some inv
      ]

-- Of app/domains/inventory/service.py.
unfoldable pub get_new_stock_qty : Session → ℕ → ℕ
get_new_stock_qty s k = sum_of (λ i. i.quantity) (filter_by (λ i. i.book_id == k) s.inventory)

abbrev pub new_line : Session → Book → OrderItem → ℕ → PickingInstructionItem
unfolding location_of get_new_stock_qty sort_by
new_line s b oi remaining =
    let place = elim (first_inventory s b) as (λ _. Option ℕ) [
      | none ↦ none
      | some inv ↦ some inv.location_id
    ] in
    let loc = location_of s.locations place b "NEW" in
    record {
      instruction_id = none;
      order_item_id = oi.id;
      book_id = b.id;
      used_item_id = none;
      stock_type = new_stock;
      lpn_barcode = none;
      isbn = b.isbn;
      title = b.title;
      quantity = remaining;
      zone = loc.zone;
      rack = loc.rack;
      shelf = loc.shelf;
      pick_seq = 1;
      unit_price = oi.unit_price;
      status = if ltb (get_new_stock_qty s b.id) remaining then out_of_stock else line_pending;
    }

-- The rest of a line is of new books; what is not there is asked of the supplier.
unfoldable pub take_new : Book → OrderItem → ℕ × Work → Work
unfolding new_line get_new_stock_qty
take_new b oi (zero, w) = w
take_new b oi (suc n, w) =
    let remaining = suc n in
    let available = get_new_stock_qty w.session b.id in
    record w {
      draft = w.draft ++ new_line w.session b oi remaining ∷ [];
      shortages =
          if ltb available remaining
          then w.shortages ++ (b.id, max 0 (remaining - available)) ∷ []
          else w.shortages;
    }

unfoldable pub allocate_item : OrderItem → Work → Work
unfolding take_new take_used used_rows
allocate_item oi w = elim (get_by (λ b. b.id) oi.book_id w.session.books) [
  | none ↦ w
  | some b ↦ take_new b oi (take_used b oi (used_rows w.session b oi) (max 1 oi.quantity) w)
]

unfoldable pub allocate_items : List OrderItem → Work → Work
unfolding allocate_item
allocate_items [] w = w
allocate_items (oi ∷ ois) w = allocate_items ois (allocate_item oi w)

abbrev stock_name : StockType → String
stock_name new_stock = "NEW"
stock_name used_stock = "USED"

abbrev pub on_route : PickingInstructionItem → PickingInstructionItem → Bool
on_route a b =
    texts_le (a.zone ∷ a.rack ∷ a.shelf ∷ stock_name a.stock_type ∷ [])
      (b.zone ∷ b.rack ∷ b.shelf ∷ stock_name b.stock_type ∷ [])

unfoldable pub number_from : ℕ → List PickingInstructionItem → List PickingInstructionItem
number_from k [] = []
number_from k (it ∷ its) = record it { pick_seq = k } ∷ number_from (suc k) its

unfoldable pub allocate_order_items : Session → ℕ → Work
unfolding allocate_items number_from sort_by
allocate_order_items s order_id =
    let w =
      allocate_items (filter_by (λ oi. oi.order_id == order_id) s.order_items)
        (record { session = s; draft = []; shortages = [] }) in
    record w { draft = number_from 1 (sort_by on_route w.draft) }
