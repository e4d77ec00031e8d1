-- ===== src/Picking/Tests.antt =====
-- An order of two books, one of them named by its label, and the theorems applied to it.
use wms_secret_backend.Prelude.{ℕ, ◌≤◌, ◌≡◌, refl, Option, none, some, [], ◌∷◌, arith, map}
use wms_secret_backend.Prelude.Texts.{strip, lstrip}
use wms_secret_backend.Prelude.Sort.{sort_by}
use wms_secret_backend.Picking.{
  in_stock, allocated, ItemStatus, InventoryUsedItem, automatic, OrderItem, order_pending, Session,
  PickingInstructionItem,
}
use wms_secret_backend.Picking.Slots.{unpad}
use wms_secret_backend.Picking.Allocate.{allocate_order_items, number_from, allocate_items}
use wms_secret_backend.Picking.Instruct.{
  create_picking_instruction, delete_picking_instruction, instruction_for,
}
use wms_secret_backend.Picking.Keys.{HasKeys}
use wms_secret_backend.Picking.Times.{times}
use wms_secret_backend.Picking.Distinct.{allocate_order_items-Once}
use wms_secret_backend.Picking.Same.{Same}
use wms_secret_backend.Picking.Restores.{IsFresh, delete_picking_instruction-create}

abbrev copy : ℕ → ItemStatus → ℕ → InventoryUsedItem
copy id status created = record {
  id = id;
  book_id = 1;
  location_id = 7;
  lpn_barcode = "LPN";
  condition_grade = "GOOD";
  item_status = status;
  created_at = created;
}

abbrev line : ℕ → ℕ → Option ℕ → OrderItem
line id quantity used = record {
  id = id;
  order_id = 5;
  book_id = 1;
  quantity = quantity;
  unit_price = 100;
  condition_pref = automatic;
  used_item_id = used;
}

-- Three copies, one of them allocated to another order, and one new book.
abbrev shop : Session
shop = record {
  orders = record { id = 5; status = order_pending } ∷ [];
  order_items = line 1 1 (some 12) ∷ line 2 3 none ∷ [];
  books =
      record { id = 1; isbn = "979"; title = "T"; category_type = "소설/시/희곡"; standard_size = "신국판" }
      ∷ [];
  locations = record { id = 7; zone = "Zone C"; rack = "01"; shelf = "4" } ∷ [];
  used_items = copy 11 in_stock 3 ∷ copy 12 in_stock 2 ∷ copy 13 allocated 1 ∷ [];
  inventory = record { book_id = 1; location_id = 7; quantity = 1; created_at = 0 } ∷ [];
  instructions = [];
  lines = [];
  return_orders = [];
  proposal_orders = [];
  notes = [];
}

shop_keys : HasKeys shop.used_items
shop_keys k = ground arith

unpad_test : unpad " 010 " "1" ≡ "10"
unfolding unpad strip lstrip
unpad_test = refl

-- The named copy, the other one in stock, and two new books for the rest.
taken :
    map (λ (it : PickingInstructionItem). it.used_item_id) (allocate_order_items shop 5).draft
    ≡ none ∷ some 12 ∷ some 11 ∷ []
unfolding allocate_order_items number_from allocate_items sort_by
taken = refl

allocate_order_items-Once_example : times 12 (allocate_order_items shop 5).draft ≤ 1
allocate_order_items-Once_example = allocate_order_items-Once shop 5 shop_keys 12

issued : (s : Session) × (create_picking_instruction 260_810 9 5 shop ≡ some s)
unfolding create_picking_instruction allocate_order_items number_from allocate_items sort_by
issued = (_, refl)

IsFresh-key : IsFresh 9 shop
IsFresh-key = record { instructions = tt; lines = tt; notes = tt }

delete_picking_instruction-create_example :
    Same shop
      (delete_picking_instruction
        (instruction_for 260_810 9 5 (allocate_order_items shop 5))
        issued.0).0
delete_picking_instruction-create_example =
    delete_picking_instruction-create 260_810 9 5 shop issued.0 shop_keys IsFresh-key issued.1
