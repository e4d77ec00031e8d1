-- ===== src/Stock/Tests.antt =====
-- A store with a few labels, and the theorems applied to it.
use wms_secret_backend.Prelude.{ℕ, zero, suc, ◌≡◌, refl, none, some, true, List, [], ◌∷◌, arith}
use wms_secret_backend.Prelude.Texts.{strip, lstrip, rstrip}
use wms_secret_backend.Picking.{Book}
use wms_secret_backend.Stock.{InventoryUsedItem, Store, get_or_create_location}
use wms_secret_backend.Stock.Labels.{
  failed, numbers_contended, zone_code, last_code, last_label, pad3, decimal, next_label,
  generate_next_lpn_barcode, generate_lpn,
}
use wms_secret_backend.Stock.Rows.{has_at}
use wms_secret_backend.Stock.Assign.{
  Assignment, find_item, assign_new, assign_rack_location_after_inspection,
}
use wms_secret_backend.Stock.Placed.{
  promised, IsPlaced, assign_rack_location_after_inspection-IsPlaced,
}
use wms_secret_backend.Picking.Slots.{
  recommend_optimal_warehouse_zone, zone_for, rack_for, shelf_for,
}
use wms_secret_backend.Stock.Fresh.{Numbered}
use wms_secret_backend.Stock.Issue.{IsIssued, generate_lpn-IsIssued}
use wms_secret_backend.Stock.Spent.{generate_lpn-IsSpent}

abbrev a_book : Book
a_book = record { id = 7; isbn = "979"; title = "t"; category_type = "IT"; standard_size = "" }

abbrev item_with : List ℕ → InventoryUsedItem
item_with digits = record {
  id = 1;
  book_id = some 7;
  location_id = 1;
  lpn_barcode = record { day = 260804; zone = "A"; digits = digits };
  ubci_score = none;
  condition_grade = "PENDING";
  item_status = "PENDING_INSPECTION";
  source_job_id = none;
  certificate_url = none;
  inspection_source = none;
  inspected_by = none;
  prelabel_worker_id = none;
}

abbrev store_with : List InventoryUsedItem → Store
store_with items = record {
  next_id = 100;
  books = a_book ∷ [];
  locations = [];
  used_items = items;
  inventory = [];
  logs = [];
}

abbrev two_labels : List InventoryUsedItem
two_labels = item_with (0 ∷ 0 ∷ 9 ∷ []) ∷ item_with (0 ∷ 1 ∷ 0 ∷ []) ∷ []

abbrev a_rival : ℕ → List InventoryUsedItem
a_rival zero = item_with (0 ∷ 1 ∷ 1 ∷ []) ∷ []
a_rival (suc n) = []

a_rival-Numbered : (k : ℕ) → Numbered 260804 "A" (a_rival k)
a_rival-Numbered zero = (λ e. (omega arith, omega arith, omega arith), tt)
a_rival-Numbered (suc n) = tt

of_zone : zone_code (some " b") ≡ some "B"
unfolding zone_code strip lstrip rstrip last_code
of_zone = refl

live_zone : zone_code none ≡ some "A"
unfolding zone_code strip lstrip rstrip last_code
live_zone = refl

next : (generate_next_lpn_barcode 260804 (some "x") two_labels).digits ≡ 0 ∷ 1 ∷ 1 ∷ []
unfolding generate_next_lpn_barcode zone_code strip lstrip rstrip last_code next_label last_label
    pad3 decimal
next = refl

generate_lpn-IsIssued_example :
    IsIssued a_book 260804 "A"
      (generate_lpn a_rival (some 7) none none none 260804 (store_with two_labels)).0
generate_lpn-IsIssued_example =
    generate_lpn-IsIssued a_rival (some 7) none none none 260804 (store_with two_labels) a_book "A"
      refl live_zone 1 (omega arith) tt a_rival-Numbered
      (
        λ e. (omega arith, omega arith, omega arith),
        (λ e. (omega arith, omega arith, omega arith), tt),
      )

abbrev spent : List InventoryUsedItem
spent = item_with (9 ∷ 9 ∷ 9 ∷ []) ∷ item_with (1 ∷ 0 ∷ 0 ∷ 0 ∷ []) ∷ []

generate_lpn-IsSpent_example :
    (generate_lpn (λ n. []) (some 7) none none none 260804 (store_with spent)).0
    ≡ failed numbers_contended
generate_lpn-IsSpent_example =
    generate_lpn-IsSpent (λ n. []) none 260804 "A" (λ k. tt) (some 7) none none (store_with spent)
      a_book refl live_zone
      (record {
        small = (λ e. (omega arith, omega arith, omega arith), (λ e. (refl, refl, refl, refl), tt));
        has_last = refl;
        has_thousandth = refl;
      })

abbrev to_shelf : Assignment
to_shelf = record {
  lpn_barcode = record { day = 260804; zone = "A"; digits = 0 ∷ 1 ∷ 0 ∷ [] };
  final_grade = "GOOD";
  final_status = "IN_STOCK";
  book_id = none;
  ubci_score = some 88;
  source_job_id = some 5;
  certificate_url = none;
  inspection_source = "AI_AUTO";
  inspected_by = none;
}

assign_rack_location_after_inspection-IsPlaced_example :
    let (item, s') = assign_rack_location_after_inspection to_shelf (store_with two_labels) in
    IsPlaced to_shelf
      (promised to_shelf (find_item to_shelf.lpn_barcode two_labels) (a_book ∷ []))
      item
      s'
assign_rack_location_after_inspection-IsPlaced_example =
    assign_rack_location_after_inspection-IsPlaced to_shelf (store_with two_labels) tt

abbrev held : Assignment
held = record to_shelf { final_status = "HITL_REQUIRED" }

-- A label that is not known is not held: its row goes to the shelf for its grade.
held_unknown :
    let (item, s') = assign_rack_location_after_inspection held (store_with []) in
    (item.location_id ≡ 100)
    × (item.item_status ≡ "HITL_REQUIRED")
    × (has_at 100 (record { zone = "C"; rack = "1"; shelf = "4" }) s'.locations ≡ true)
unfolding assign_rack_location_after_inspection get_or_create_location assign_new
    recommend_optimal_warehouse_zone zone_for rack_for shelf_for
held_unknown = (refl, refl, refl)
