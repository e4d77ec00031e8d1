-- ===== src/Restock.antt =====
-- Proposals that are made: app/ai/agents/restock.py, and the scan for low stock of
-- app/domains/po/service.py. The language model, and the columns of books and settings that are read
-- only here, are parameters; texts, alerts and the estimated cost are left out.
pub mod Cards
pub mod Bounds
pub mod Fallback
pub mod Few
pub mod Scan
pub mod Served
pub mod Order
pub mod Rejects
pub mod Single
mod Tests
use text.Mathlib.Text.{◌==◌ as str_eq}
use wms_secret_backend.Prelude.{
  ℕ, zero, suc, ◌+◌, ◌-◌, ◌*◌, ◌/◌, min, max, ◌≡◌, refl, Bool, true, false, not, ◌&&◌, ◌||◌, Option,
  none, some, List, [], ◌∷◌, ◌++◌, String, arith, ltb, leb, ◌==◌, if◌then◌else◌, length, sum_of,
  filter_by, any,
}
use wms_secret_backend.Picking.{Book, set_by}
use wms_secret_backend.Stock.{Store, InventoryUsedItem, first_by}
use wms_secret_backend.Stock.Inbound.{new_stock}
use wms_secret_backend.Purchase.{
  pending, OrderProposal, Urgency, critical, high, medium, low, Trigger, inspection_reject,
  safety_stock, manual, Tables, is_pending,
}

-- A row of the log for what went out, with its size.
pub record Outbound : Type 0 where
  pub book_id : ℕ
  pub quantity : ℕ
  pub created_at : ℕ

-- What is read beside the tables of the board: the log, the price of a book (0 if it is absent), the
-- least safety stock, and the time in days.
pub record Market : Type 0 where
  pub outbound : List Outbound
  pub base_price : ℕ → ℕ
  pub is_active : ℕ → Bool
  pub min_safety_stock : ℕ
  pub now : ℕ

pub record Context : Type 0 where
  pub current_stock : ℕ
  pub sales_velocity_30d : ℕ
  pub rejected_quantity : ℕ
  pub baseline_quantity : ℕ
  pub rule_urgency : Urgency
  pub has_sales_history : Bool
  pub stockout_recovery : Bool

abbrev sold_since : ℕ → ℕ → List Outbound → ℕ
sold_since k now ls =
    sum_of (λ l. l.quantity) (filter_by (λ l. (l.book_id == k) && leb now (l.created_at + 30)) ls)

abbrev pub ever_sold : ℕ → List Outbound → Bool
ever_sold k ls = any (λ l. l.book_id == k) ls

abbrev is_of : ℕ → Option ℕ → Bool
is_of k none = false
is_of k (some j) = j == k

abbrev used_in_stock : ℕ → List InventoryUsedItem → ℕ
used_in_stock k us =
    length (filter_by (λ u. is_of k u.book_id && str_eq u.item_status "IN_STOCK") us)

abbrev pub available : ℕ → Store → ℕ
available k s = new_stock k s + used_in_stock k s.used_items

-- The demand of fourteen days, rounded up.
abbrev pub fortnight : ℕ → ℕ
fortnight sales = (14 * sales + 29) / 30

-- Days of stock are 30 * stock / sales, and without end if nothing is sold.
abbrev lasts_less : ℕ → ℕ → ℕ → Bool
lasts_less days stock sales = ltb 0 sales && ltb (30 * stock) (days * sales)

abbrev urgency_for : Bool → ℕ → ℕ → ℕ → Urgency
urgency_for stockout stock sales baseline =
    if stockout || leb stock 2 || lasts_less 7 stock sales
    then critical
    else if leb stock 5 || lasts_less 14 stock sales
    then high
    else if ltb 0 baseline
    then medium
    else low

unfoldable pub collect_restock_context : Market → Store → ℕ → ℕ → Context
collect_restock_context m s k rejected =
    let sales = sold_since k m.now m.outbound in
    let history = ever_sold k m.outbound in
    let stock = available k s in
    let stockout = (stock == 0) && history in
    let demand_cover = max (fortnight sales) m.min_safety_stock in
    let baseline = max (demand_cover - stock) 0 + rejected in
    record {
      current_stock = stock;
      sales_velocity_30d = sales;
      rejected_quantity = rejected;
      baseline_quantity = baseline;
      rule_urgency = urgency_for stockout stock sales baseline;
      has_sales_history = history;
      stockout_recovery = stockout;
    }

-- A number that the language model writes.
pub data Amount : Type 0 where
  absent negative : Amount
  amount : ℕ → Amount

pub record Suggestion : Type 0 where
  pub reorder_quantity : Amount
  pub urgency : Option Urgency

abbrev rule_based_decision : Context → Suggestion
rule_based_decision c = record {
  reorder_quantity = amount (max 1 c.baseline_quantity);
  urgency = some c.rule_urgency;
}

-- `none`: the language model is not there or fails.
abbrev pub run_restock_agent : (Context → Option Suggestion) → Context → Suggestion
run_restock_agent model c = elim (model c) [ none ↦ rule_based_decision c | some d ↦ d ]

pub record Decision : Type 0 where
  pub reorder_quantity : ℕ
  pub urgency : Urgency

abbrev clamp : Amount → ℕ → ℕ → ℕ
clamp absent baseline upper = max 1 (min baseline upper)
clamp negative baseline upper = 1
clamp (amount zero) baseline upper = max 1 (min baseline upper)
clamp (amount (suc n)) baseline upper = max 1 (min (suc n) upper)

abbrev or_rule : Option Urgency → Urgency → Urgency
or_rule none rule = rule
or_rule (some u) rule = u

unfoldable pub validate_decision : Suggestion → Context → Decision
validate_decision d c =
    let baseline = max 1 c.baseline_quantity in
    record {
      reorder_quantity = clamp d.reorder_quantity baseline ((3 * baseline + 1) / 2);
      urgency = if c.stockout_recovery then critical else or_rule d.urgency c.rule_urgency;
    }
