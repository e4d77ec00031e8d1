-- ===== src/Stock/Inbound.antt =====
-- New books that come in: `fasttrack_new_stock_inbound` of app/domains/inventory/service.py.
use wms_secret_backend.Prelude.{
  ℕ, ◌+◌, ◌≡◌, refl, Bool, ◌&&◌, Option, List, [], ◌∷◌, ◌++◌, String, arith, ◌==◌, if◌then◌else◌,
  sum_of, filter_by,
}
use wms_secret_backend.Prelude.Texts.{nonempty_or}
use wms_secret_backend.Picking.{Book, Inventory}
use wms_secret_backend.Picking.Slots.{Slot, recommend_optimal_warehouse_zone}
use wms_secret_backend.Stock.{InventoryLog, Location, Store, get_or_create_location}
use wms_secret_backend.Stock.Labels.{stripped}

abbrev pub is_row : ℕ → ℕ → Inventory → Bool
is_row book location i = i.book_id == book && i.location_id == location

-- The first row of the book at the place, or a new one.
unfoldable pub add_quantity : ℕ → ℕ → ℕ → ℕ → List Inventory → List Inventory
add_quantity book location qty now [] =
    record { book_id = book; location_id = location; quantity = qty; created_at = now } ∷ []
add_quantity book location qty now (i ∷ is) =
    if is_row book location i
    then record i { quantity = i.quantity + qty } ∷ is
    else i ∷ add_quantity book location qty now is

-- Names of the category and the size that are empty fall back as in the code.
unfoldable pub fasttrack_new_stock_inbound : Book → ℕ → Option String → ℕ → Store → Location × Store
unfolding get_or_create_location add_quantity recommend_optimal_warehouse_zone
fasttrack_new_stock_inbound book qty worker now s =
    let slot =
      recommend_optimal_warehouse_zone "NEW" (nonempty_or "IT/컴퓨터" book.category_type)
        book.standard_size in
    let (location, s') = get_or_create_location slot s in
    let log : InventoryLog = record {
      book_id = book.id;
      quantity_change = qty;
      picked_location = location.slot;
      worker_id = stripped worker;
    } in
    (
      location,
      record s' {
        inventory = add_quantity book.id location.id qty now s'.inventory;
        logs = s'.logs ++ log ∷ [];
      },
    )

-- `get_new_stock_qty`, over the rows of these tables.
abbrev pub new_stock : ℕ → Store → ℕ
new_stock k s = sum_of (λ i. i.quantity) (filter_by (λ i. i.book_id == k) s.inventory)

abbrev pub inbound_total : ℕ → List InventoryLog → ℕ
inbound_total k logs = sum_of (λ l. l.quantity_change) (filter_by (λ l. l.book_id == k) logs)

add_quantity-sum :
    (k book location qty now : ℕ) (is : List Inventory)
    → sum_of
        (λ i. i.quantity)
        (filter_by (λ i. i.book_id == k) (add_quantity book location qty now is))
      ≡ sum_of (λ i. i.quantity) (filter_by (λ i. i.book_id == k) is)
        + (if book == k then qty else 0)
unfolding add_quantity
add_quantity-sum k book location qty now [] = ground arith
add_quantity-sum k book location qty now (i ∷ is) =
    ground (arith, add_quantity-sum k book location qty now is)

inventory-get : (p : Slot) (s : Store) → (get_or_create_location p s).1.inventory ≡ s.inventory
unfolding get_or_create_location
inventory-get p s = ground arith

logs-get : (p : Slot) (s : Store) → (get_or_create_location p s).1.logs ≡ s.logs
unfolding get_or_create_location
logs-get p s = ground arith

pub inbound_total-last :
    (k : ℕ) (ls : List InventoryLog) (l : InventoryLog)
    → inbound_total k (ls ++ l ∷ [])
      ≡ inbound_total k ls + (if l.book_id == k then l.quantity_change else 0)
inbound_total-last k [] l = ground arith
inbound_total-last k (m ∷ ms) l = ground (arith, inbound_total-last k ms l)

-- The copies are in stock and in the log of what came in.
pub fasttrack_new_stock_inbound-sum :
    (k : ℕ) (book : Book) (qty : ℕ) (worker : Option String) (now : ℕ) (s : Store)
    → let s' = (fasttrack_new_stock_inbound book qty worker now s).1 in
      let more = if book.id == k then qty else 0 in
      (new_stock k s' ≡ new_stock k s + more)
      × (inbound_total k s'.logs ≡ inbound_total k s.logs + more)
unfolding fasttrack_new_stock_inbound
fasttrack_new_stock_inbound-sum k book qty worker now s =
    let p =
      recommend_optimal_warehouse_zone "NEW" (nonempty_or "IT/컴퓨터" book.category_type)
        book.standard_size in
    let (location, s') = get_or_create_location p s in
    (
      rw (add_quantity-sum k book.id location.id qty now s'.inventory, inventory-get p s) refl,
      rw (inbound_total-last k s'.logs _, logs-get p s) refl,
    )

books-get : (p : Slot) (s : Store) → (get_or_create_location p s).1.books ≡ s.books
unfolding get_or_create_location
books-get p s = ground arith

pub books-fasttrack :
    (book : Book) (qty : ℕ) (worker : Option String) (now : ℕ) (s : Store)
    → (fasttrack_new_stock_inbound book qty worker now s).1.books ≡ s.books
unfolding fasttrack_new_stock_inbound
books-fasttrack book qty worker now s = books-get _ s
