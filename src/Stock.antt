-- ===== src/Stock.antt =====
-- The tables that app/domains/inventory/service.py writes, and `get_or_create_location`.
pub mod Labels
pub mod Fresh
pub mod Issue
pub mod Spent
pub mod Rows
pub mod Assign
pub mod Placed
pub mod Inbound
mod Tests
use wms_secret_backend.Prelude.{
  ℕ, ◌+◌, ◌≡◌, refl, Bool, true, false, ◌&&◌, Option, none, some, List, [], ◌∷◌, ◌++◌, map, String,
  arith, ◌==◌, if◌then◌else◌,
}
use text.Mathlib.Text.{◌==◌ as str_eq}
use wms_secret_backend.Picking.{Book, Inventory}
use wms_secret_backend.Picking.Slots.{Slot}

-- "LOC-zone-rack-shelf" as its three parts, which have no dash.
abbrev pub slot_eq : Slot → Slot → Bool
slot_eq a b = str_eq a.zone b.zone && str_eq a.rack b.rack && str_eq a.shelf b.shelf

pub record Location : Type 0 where
  pub id : ℕ
  pub slot : Slot
  pub barcode : Slot

-- "LPN-day-zone" and the digits behind it, most significant first.
pub record Label : Type 0 where
  pub day : ℕ
  pub zone : String
  pub digits : List ℕ

-- "/certificate/" and a label, or any other text.
pub data Certificate : Type 0 where
  of_label : Label → Certificate
  other_url : String → Certificate

pub record InventoryUsedItem : Type 0 where
  pub id : ℕ
  pub book_id : Option ℕ
  pub location_id : ℕ
  pub lpn_barcode : Label
  pub ubci_score : Option ℕ
  pub condition_grade : String
  pub item_status : String
  pub source_job_id : Option ℕ
  pub certificate_url : Option Certificate
  pub inspection_source : Option String
  pub inspected_by : Option String
  pub prelabel_worker_id : Option String

pub record InventoryLog : Type 0 where
  pub book_id : ℕ
  pub quantity_change : ℕ
  pub picked_location : Slot
  pub worker_id : Option String

-- `next_id` stands for the keys that `uuid4` draws.
pub record Store : Type 0 where
  pub next_id : ℕ
  pub books : List Book
  pub locations : List Location
  pub used_items : List InventoryUsedItem
  pub inventory : List Inventory
  pub logs : List InventoryLog

-- The first row that a query gives.
abbrev pub first_by {ℓ} : {A : Type ℓ} → (A → Bool) → List A → Option A
first_by p [] = none
first_by p (x ∷ xs) = if p x then some x else first_by p xs

abbrev new_location : ℕ → Slot → Location
new_location k slot = record { id = k; slot = slot; barcode = slot }

abbrev pub or_new_location : Slot → Store → Option Location → Location × Store
or_new_location slot s (some loc) = (loc, s)
or_new_location slot s none = (
  new_location s.next_id slot,
  record s { next_id = s.next_id + 1; locations = s.locations ++ new_location s.next_id slot ∷ [] },
)

unfoldable pub get_or_create_location : Slot → Store → Location × Store
get_or_create_location slot s =
    or_new_location slot s (first_by (λ l. slot_eq l.barcode slot) s.locations)
