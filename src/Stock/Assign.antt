-- ===== src/Stock/Assign.antt =====
-- `assign_rack_location_after_inspection` of app/domains/inventory/service.py.
use text.Mathlib.Text.{◌==◌ as str_eq}
use wms_secret_backend.Prelude.{
  ℕ, ◌+◌, Bool, ◌||◌, Option, none, some, List, [], ◌∷◌, ◌++◌, map, String, ◌==◌, if◌then◌else◌,
  is_in,
}
use wms_secret_backend.Picking.{Book}
use wms_secret_backend.Picking.Slots.{Slot, recommend_optimal_warehouse_zone}
use wms_secret_backend.Stock.{
  Label, Certificate, of_label, other_url, InventoryUsedItem, Location, Store, first_by,
  get_or_create_location,
}
use wms_secret_backend.Stock.Labels.{is_taken_by}

-- The arguments, without the defaults.
pub record Assignment : Type 0 where
  pub lpn_barcode : Label
  pub final_grade : String
  pub final_status : String
  pub book_id : Option ℕ
  pub ubci_score : Option ℕ
  pub source_job_id : Option ℕ
  pub certificate_url : Option String
  pub inspection_source : String
  pub inspected_by : Option String

abbrev pub find_by_id : Option ℕ → List Book → Option Book
find_by_id none books = none
find_by_id (some k) books = first_by (λ b. b.id == k) books

abbrev pub item_book : Option InventoryUsedItem → Option ℕ → List Book → Option Book
item_book none book_id books = find_by_id book_id books
item_book (some u) book_id books = find_by_id u.book_id books

abbrev pub rack_slot : String → Option Book → Slot
rack_slot grade none = recommend_optimal_warehouse_zone grade "IT/컴퓨터" ""
rack_slot grade (some b) = recommend_optimal_warehouse_zone grade b.category_type b.standard_size

abbrev or_first : Option ℕ → List Book → Option ℕ
or_first (some k) books = some k
or_first none [] = none
or_first none (b ∷ bs) = some b.id

-- An empty text is none.
abbrev pub present : Option String → Option String
present none = none
present (some t) = if str_eq t "" then none else some t

abbrev given_or_label : Option String → Label → Certificate
given_or_label (some url) l = other_url url
given_or_label none l = of_label l

abbrev pub new_item : Assignment → ℕ → ℕ → List Book → InventoryUsedItem
new_item a k location books = record {
  id = k;
  book_id = or_first a.book_id books;
  location_id = location;
  lpn_barcode = a.lpn_barcode;
  ubci_score = a.ubci_score;
  condition_grade = a.final_grade;
  item_status = a.final_status;
  source_job_id = a.source_job_id;
  certificate_url = some (given_or_label (present a.certificate_url) a.lpn_barcode);
  inspection_source = some a.inspection_source;
  inspected_by = a.inspected_by;
  prelabel_worker_id = none;
}

-- A link of the form CERT-… is not served.
abbrev renewed : Option Certificate → Label → Option Certificate
renewed none l = some (of_label l)
renewed (some (of_label m)) l = some (of_label m)
renewed (some (other_url url)) l =
    if str_eq url "" || is_in "/certificate/CERT-" url
    then some (of_label l)
    else some (other_url url)

abbrev new_certificate : Option String → Option Certificate → Label → Option Certificate
new_certificate (some url) old l = some (other_url url)
new_certificate none old l = renewed old l

abbrev or_old : Option ℕ → Option ℕ → Option ℕ
or_old none old = old
or_old (some k) old = some k

abbrev pub inspected : Assignment → InventoryUsedItem → InventoryUsedItem
inspected a u = record u {
  inspection_source = some a.inspection_source;
  inspected_by = a.inspected_by;
  ubci_score = a.ubci_score;
  source_job_id = or_old a.source_job_id u.source_job_id;
  certificate_url = new_certificate (present a.certificate_url) u.certificate_url u.lpn_barcode;
}

abbrev pub awaits_person : String → Bool
awaits_person status = str_eq status "HITL_REQUIRED" || str_eq status "HITL_PENDING"

abbrev pub is_refused : String → Bool
is_refused grade = str_eq grade "REJECT" || str_eq grade "POOR" || str_eq grade "DISCARD"

abbrev pub holding : Slot
holding = record { zone = "Z"; rack = "1"; shelf = "1" }

abbrev pub quarantine : Slot
quarantine = record { zone = "E"; rack = "1"; shelf = "1" }

-- Where a known item goes, with its new grade and status.
pub record Place : Type 0 where
  pub slot : Slot
  pub grade : String
  pub status : String

unfoldable pub place_of : Assignment → Option Book → Place
place_of a book =
    if awaits_person a.final_status
    then record { slot = holding; grade = "PENDING"; status = "HITL_PENDING" }
    else if is_refused a.final_grade
    then record { slot = quarantine; grade = "REJECT"; status = "REJECTED" }
    else record {
      slot = rack_slot a.final_grade book;
      grade = a.final_grade;
      status = a.final_status;
    }

abbrev pub put_row : InventoryUsedItem → List InventoryUsedItem → List InventoryUsedItem
put_row u us = map (λ v. if v.id == u.id then u else v) us

abbrev pub put_at : Place → ℕ → InventoryUsedItem → InventoryUsedItem
put_at p location u = record u {
  location_id = location;
  condition_grade = p.grade;
  item_status = p.status;
}

unfoldable pub assign_known : Assignment → InventoryUsedItem → Store → InventoryUsedItem × Store
unfolding place_of get_or_create_location
assign_known a u s =
    let p = place_of a (find_by_id u.book_id s.books) in
    let (location, s') = get_or_create_location p.slot s in
    let item = put_at p location.id (inspected a u) in
    (item, record s' { used_items = put_row item s'.used_items })

unfoldable pub assign_new : Assignment → Location → Store → InventoryUsedItem × Store
assign_new a location s =
    let item = new_item a s.next_id location.id s.books in
    (item, record s { next_id = s.next_id + 1; used_items = s.used_items ++ item ∷ [] })

abbrev pub find_item : Label → List InventoryUsedItem → Option InventoryUsedItem
find_item l us = first_by (is_taken_by l) us

abbrev pub assign_item :
    Assignment → Location → Store → Option InventoryUsedItem → InventoryUsedItem × Store
assign_item a location s none = assign_new a location s
assign_item a location s (some u) = assign_known a u s

-- The recommended place is made first, also where it is then not used.
unfoldable pub assign_rack_location_after_inspection :
    Assignment → Store → InventoryUsedItem × Store
unfolding get_or_create_location
assign_rack_location_after_inspection a s =
    let item = find_item a.lpn_barcode s.used_items in
    let (location, s') =
      get_or_create_location (rack_slot a.final_grade (item_book item a.book_id s.books)) s in
    assign_item a location s' item
