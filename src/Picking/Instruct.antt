-- ===== src/Picking/Instruct.antt =====
-- The issue and the removal of picking instructions: app/domains/orders/picking.py. The key of a new
-- row is given; the narrative of the language model is a text for display and is left out.
use wms_secret_backend.Prelude.{
  ℕ, ◌+◌, max, Bool, true, false, not, ◌&&◌, ◌||◌, Option, none, some, List, [], ◌∷◌, ◌++◌, map,
  String, ◌==◌, if◌then◌else◌, filter_by, sum_of, any,
}
use text.Mathlib.Text.{◌==◌ as str_eq}
use wms_secret_backend.Picking.{
  in_stock, Order, OrderStatus, order_pending, order_picking, order_shipped, StockType, used_stock,
  new_stock, LineStatus, line_pending, line_picked, out_of_stock, PickingInstructionItem,
  InstructionStatus, pending, InstructionNo, PickingInstruction, Session, get_by, set_by, set_item,
}
use wms_secret_backend.Picking.Allocate.{Work, allocate_order_items}

abbrev pub seq_or_zero : Option ℕ → ℕ
seq_or_zero none = 0
seq_or_zero (some n) = n

-- The largest number of the day; one that cannot be read is passed over.
unfoldable pub max_seq : ℕ → List PickingInstruction → ℕ
max_seq day [] = 0
max_seq day (i ∷ is) =
    if i.instruction_no.day == day
    then max (seq_or_zero i.instruction_no.seq) (max_seq day is)
    else max_seq day is

unfoldable pub generate_instruction_no : ℕ → List PickingInstruction → InstructionNo
unfolding max_seq
generate_instruction_no day is = record { day = day; seq = some (max_seq day is + 1) }

abbrev pub is_out : LineStatus → Bool
is_out out_of_stock = true
is_out line_pending = false
is_out line_picked = false

abbrev pub is_used : StockType → Bool
is_used used_stock = true
is_used new_stock = false

abbrev pub set_order : OrderStatus → ℕ → List Order → List Order
set_order status k os = set_by (λ o. o.id) k (λ o. record o { status = status }) os

abbrev pub ref_type : String
ref_type = "PICKING_INSTRUCTION"

abbrev pub instruction_for : ℕ → ℕ → ℕ → Work → PickingInstruction
instruction_for day key order_id w = record {
  id = key;
  order_id = order_id;
  instruction_no = generate_instruction_no day w.session.instructions;
  status = pending;
  total_items = sum_of (λ it. it.quantity) (filter_by (λ it. not (is_out it.status)) w.draft);
  picked_items = 0;
}

-- The session after the issue; `key` is the key of the new instruction. The notification, whose
-- failure the code swallows, is taken to be stored.
unfoldable pub issue : ℕ → ℕ → ℕ → Work → Session
issue day key order_id w = record (w.session) {
  instructions = w.session.instructions ++ instruction_for day key order_id w ∷ [];
  lines =
      w.session.lines
      ++ map (λ (it : PickingInstructionItem). record it { instruction_id = some key }) w.draft;
  orders = set_order order_picking order_id w.session.orders;
  notes = w.session.notes ++ (ref_type, key) ∷ [];
}

-- `none` is the ValueError of an order for which nothing can be drafted.
unfoldable pub create_picking_instruction : ℕ → ℕ → ℕ → Session → Option Session
unfolding allocate_order_items issue generate_instruction_no
create_picking_instruction day key order_id s =
    let w = allocate_order_items s order_id in
    elim (w.draft) [ [] ↦ none | _ ∷ _ ↦ some (issue day key order_id w) ]

abbrev pub is_of : ℕ → Option ℕ → Bool
is_of k none = false
is_of k (some j) = j == k

-- Whether an order that is there stands alone: nothing else refers to it.
abbrev pub stands_alone : Session → Order → Bool
stands_alone s o = not (
    (elim (o.status) as (λ _. Bool) [ order_shipped ↦ true | _ ↦ false ])
    || any (λ i. i.order_id == o.id) s.instructions
    || any (is_of o.id) s.return_orders
    || any (is_of o.id) s.proposal_orders)

-- The lines of an order go with it.
abbrev pub delete_order : ℕ → Session → Session
delete_order order_id s = record s {
  orders = filter_by (λ o. not (o.id == order_id)) s.orders;
  order_items = filter_by (λ oi. not (oi.order_id == order_id)) s.order_items;
}

unfoldable pub purge_order_if_orphaned : ℕ → Session → Session × Bool
purge_order_if_orphaned order_id s = elim (get_by (λ o. o.id) order_id s.orders) [
  | none ↦ (s, false)
  | some o ↦ if stands_alone s o then (delete_order order_id s, true) else (s, false)
]

-- The loop over the lines that gives their used books back.
unfoldable pub release : List PickingInstructionItem → Session → Session
release [] s = s
release (it ∷ its) s = elim (it.used_item_id) [
  | none ↦ release its s
  | some k ↦ release its (
      if is_used it.stock_type
      then record s { used_items = set_item in_stock k s.used_items }
      else s)
]

abbrev pub is_pending : InstructionStatus → Bool
is_pending pending = true
is_pending _ = false

-- What is undone of an instruction that nobody has accepted.
abbrev pub undo : PickingInstruction → Session → Session
undo i s =
    let s' = release (filter_by (λ it. is_of i.id it.instruction_id) s.lines) s in
    record s' { orders = set_order order_pending i.order_id s'.orders }

-- The lines of an instruction go with it.
abbrev pub drop_instruction : PickingInstruction → Session → Session
drop_instruction i s = record s {
  notes = filter_by (λ n. not (str_eq n.0 ref_type && (n.1 == i.id))) s.notes;
  instructions = filter_by (λ j. not (j.id == i.id)) s.instructions;
  lines = filter_by (λ it. not (is_of i.id it.instruction_id)) s.lines;
}

unfoldable pub delete_picking_instruction : PickingInstruction → Session → Session × Bool
unfolding release purge_order_if_orphaned
delete_picking_instruction i s =
    purge_order_if_orphaned i.order_id
      (drop_instruction i (if is_pending i.status then undo i s else s))
