-- ===== src/Picking.antt =====
-- The tables of app/models/wms.py that app/domains/orders/picking.py reads and writes, as lists of
-- rows. Keys are numbers, and a query is a filter of a list.
pub mod Slots
pub mod Allocate
pub mod Instruct
pub mod Quantities
pub mod Locks
pub mod Keys
pub mod Taken
pub mod Times
pub mod Distinct
pub mod Rest
pub mod Release
pub mod Same
pub mod Restores
pub mod Numbers
mod Tests
use wms_secret_backend.Prelude.{
  ℕ, Bool, true, false, ◌&&◌, Option, none, some, List, [], ◌∷◌, map, String, ◌==◌, if◌then◌else◌,
}

-- The columns read. A text that is absent is the empty text.
pub record Book : Type 0 where
  pub id : ℕ
  pub isbn : String
  pub title : String
  pub category_type : String
  pub standard_size : String

pub record Location : Type 0 where
  pub id : ℕ
  pub zone : String
  pub rack : String
  pub shelf : String

pub data ItemStatus : Type 0 where
  in_stock allocated shipped : ItemStatus

abbrev pub is_in_stock : ItemStatus → Bool
is_in_stock in_stock = true
is_in_stock allocated = false
is_in_stock shipped = false

-- A used book, which is a thing of its own with a label (LPN).
pub record InventoryUsedItem : Type 0 where
  pub id : ℕ
  pub book_id : ℕ
  pub location_id : ℕ
  pub lpn_barcode : String
  pub condition_grade : String
  pub item_status : ItemStatus
  pub created_at : ℕ

-- New books, which are counted.
pub record Inventory : Type 0 where
  pub book_id : ℕ
  pub location_id : ℕ
  pub quantity : ℕ
  pub created_at : ℕ

-- "NEW", "USED", or absent.
pub data ConditionPref : Type 0 where
  new_only used_first automatic : ConditionPref

pub record OrderItem : Type 0 where
  pub id : ℕ
  pub order_id : ℕ
  pub book_id : ℕ
  pub quantity : ℕ
  pub unit_price : ℕ
  pub condition_pref : ConditionPref
  pub used_item_id : Option ℕ

pub data OrderStatus : Type 0 where
  order_pending order_picking order_shipped return_requested : OrderStatus

pub record Order : Type 0 where
  pub id : ℕ
  pub status : OrderStatus

pub data StockType : Type 0 where
  new_stock used_stock : StockType

pub data LineStatus : Type 0 where
  line_pending line_picked out_of_stock : LineStatus

pub record PickingInstructionItem : Type 0 where
  pub instruction_id : Option ℕ
  pub order_item_id : ℕ
  pub book_id : ℕ
  pub used_item_id : Option ℕ
  pub stock_type : StockType
  pub lpn_barcode : Option String
  pub isbn : String
  pub title : String
  pub quantity : ℕ
  pub zone : String
  pub rack : String
  pub shelf : String
  pub pick_seq : ℕ
  pub unit_price : ℕ
  pub status : LineStatus

pub data InstructionStatus : Type 0 where
  pending accepted in_progress picked packed sent cancelled : InstructionStatus

-- "PICK-YYMMDD-####": the day, and the number if it can be read.
pub record InstructionNo : Type 0 where
  pub day : ℕ
  pub seq : Option ℕ

pub record PickingInstruction : Type 0 where
  pub id : ℕ
  pub order_id : ℕ
  pub instruction_no : InstructionNo
  pub status : InstructionStatus
  pub total_items : ℕ
  pub picked_items : ℕ

-- The returns and the purchase proposals are the order ids that they name; a notification is what
-- it refers to.
pub record Session : Type 0 where
  pub orders : List Order
  pub order_items : List OrderItem
  pub books : List Book
  pub locations : List Location
  pub used_items : List InventoryUsedItem
  pub inventory : List Inventory
  pub instructions : List PickingInstruction
  pub lines : List PickingInstructionItem
  pub return_orders : List (Option ℕ)
  pub proposal_orders : List (Option ℕ)
  pub notes : List (String × ℕ)

-- `session.get`: the row with a key.
abbrev pub get_by {ℓ} : {A : Type ℓ} → (A → ℕ) → ℕ → List A → Option A
get_by key k [] = none
get_by key k (x ∷ xs) = if key x == k then some x else get_by key k xs

-- The rows with a key, changed.
abbrev pub set_by {ℓ} : {A : Type ℓ} → (A → ℕ) → ℕ → (A → A) → List A → List A
set_by key k f xs = map (λ x. if key x == k then f x else x) xs

abbrev pub mark_item : ItemStatus → InventoryUsedItem → InventoryUsedItem
mark_item status u = record u { item_status = status }

abbrev pub set_item : ItemStatus → ℕ → List InventoryUsedItem → List InventoryUsedItem
set_item status k us = set_by (λ u. u.id) k (mark_item status) us
