-- ===== src/Restock/Cards.antt =====
-- The card for a book that is wanted: `generate_and_store_proposal` of app/ai/agents/restock.py.
use wms_secret_backend.Prelude.{
  ℕ, ◌+◌, ◌*◌, ◌/◌, Bool, not, ◌&&◌, ◌||◌, Option, none, some, [], ◌∷◌, ◌++◌, ◌==◌, if◌then◌else◌,
}
use wms_secret_backend.Picking.{set_by}
use wms_secret_backend.Stock.{first_by}
use wms_secret_backend.Purchase.{
  pending, OrderProposal, medium, Trigger, inspection_reject, safety_stock, manual, Tables,
  is_pending,
}
use wms_secret_backend.Restock.{
  Market, Context, Suggestion, Decision, collect_restock_context, validate_decision,
  run_restock_agent,
}

-- 60% of the price, rounded; no price counts as 25000.
abbrev pub wholesale : ℕ → ℕ
wholesale price = if price == 0 then 15_000 else (6 * price + 5) / 10

abbrev pub is_pending_of : ℕ → OrderProposal → Bool
is_pending_of k p = p.book_id == k && is_pending p.status

abbrev pub existing_rejected : Trigger → Option OrderProposal → ℕ
existing_rejected inspection_reject (some p) = p.rejected_quantity
existing_rejected _ _ = 0

abbrev pub promoted : Trigger → Trigger → Trigger
promoted inspection_reject old = inspection_reject
promoted safety_stock old = old
promoted manual old = old

-- The columns that are written on a card, new or old.
abbrev pub written : Context → Decision → ℕ → Trigger → OrderProposal → OrderProposal
written c d cost trigger p = record p {
  current_stock = c.current_stock;
  sales_velocity_30d = c.sales_velocity_30d;
  rejected_quantity = c.rejected_quantity;
  baseline_quantity = c.baseline_quantity;
  proposed_quantity = d.reorder_quantity;
  urgency = d.urgency;
  unit_cost = cost;
  trigger_type = trigger;
}

abbrev pub new_card : ℕ → ℕ → Trigger → OrderProposal
new_card key k trigger = record {
  id = key;
  book_id = k;
  proposed_quantity = 0;
  unit_cost = 0;
  status = pending;
  decided_by = none;
  order_id = none;
  trigger_type = trigger;
  current_stock = 0;
  sales_velocity_30d = 0;
  rejected_quantity = 0;
  baseline_quantity = 0;
  urgency = medium;
}

abbrev pub is_needless : Context → Bool
is_needless c =
    (not c.has_sales_history && c.rejected_quantity == 0)
    || (c.baseline_quantity == 0 && c.rejected_quantity == 0)

-- The card that is stored, and the tables with it.
unfoldable pub store_card :
    Context → Decision → ℕ → Trigger → ℕ → Option OrderProposal → Tables → OrderProposal × Tables
store_card c d cost trigger k none t =
    let card = written c d cost trigger (new_card t.store.next_id k trigger) in
    (
      card,
      record t {
        store = record t.store { next_id = t.store.next_id + 1 };
        proposals = t.proposals ++ card ∷ [];
      },
    )
store_card c d cost trigger k (some p) t =
    let write = λ (q : OrderProposal). written c d cost (promoted trigger q.trigger_type) q in
    (write p, record t { proposals = set_by (λ q. q.id) p.id write t.proposals })

module _ (model : Context → Option Suggestion) (m : Market) where
  unfoldable pub generate_and_store_proposal :
      Trigger → ℕ → ℕ → Tables → Option OrderProposal × Tables
  unfolding collect_restock_context validate_decision store_card
  generate_and_store_proposal trigger rejected k t =
      let existing = first_by (is_pending_of k) t.proposals in
      let c = collect_restock_context m t.store k (rejected + existing_rejected trigger existing) in
      let d = validate_decision (run_restock_agent model c) c in
      let (card, t') = store_card c d (wholesale (m.base_price k)) trigger k existing t in
      if is_needless c then (none, t) else (some card, t')
