-- ===== src/Restock/Bounds.antt =====
-- The numbers of a card, whatever the language model answers.
use wms_secret_backend.Prelude.{
  ℕ, zero, suc, ◌+◌, ◌*◌, ◌/◌, ◌≤◌, max, ◌≡◌, refl, inl, inr, Bool, true, Option, none, some,
  Bool-cases, arith,
}
use wms_secret_backend.Stock.{first_by}
use wms_secret_backend.Purchase.{OrderProposal, critical, Trigger, Tables}
use wms_secret_backend.Restock.{
  Market, Context, Suggestion, Amount, absent, negative, amount, clamp, available, ever_sold,
  run_restock_agent, collect_restock_context, validate_decision,
}
use wms_secret_backend.Restock.Cards.{
  is_pending_of, existing_rejected, is_needless, wholesale, store_card, generate_and_store_proposal,
}

-- A copy at least, and at most half more than the rule asks for.
pub record IsBounded (quantity baseline : ℕ) : Type 0 where
  pub at_least : 1 ≤ quantity
  pub at_most : 2 * quantity ≤ 3 * max 1 baseline + 1

clamp-IsBounded : (a : Amount) (n : ℕ) → IsBounded (clamp a (max 1 n) ((3 * max 1 n + 1) / 2)) n
clamp-IsBounded absent n = record { at_least = ground arith; at_most = ground arith }
clamp-IsBounded negative n = record { at_least = ground arith; at_most = ground arith }
clamp-IsBounded (amount zero) n = record { at_least = ground arith; at_most = ground arith }
clamp-IsBounded (amount (suc k)) n = record { at_least = ground arith; at_most = ground arith }

-- What is shown on a card for a book of which there are `stock` copies, sold before or not.
pub record IsSafe (stock : ℕ) (sold : Bool) (p : OrderProposal) : Type 0 where
  pub bounded : IsBounded p.proposed_quantity p.baseline_quantity
  pub stock_shown : p.current_stock ≡ stock
  pub stock_out : stock ≡ 0 → sold ≡ true → p.urgency ≡ critical

abbrev pub OnCard : (OrderProposal → Type 0) → Option OrderProposal → Type 0
OnCard P none = Unit
OnCard P (some p) = P p

validate_decision-critical :
    (m : Market) (t : Tables) (k r : ℕ) (d : Suggestion)
    → available k t.store ≡ 0
    → ever_sold k m.outbound ≡ true
    → (validate_decision d (collect_restock_context m t.store k r)).urgency ≡ critical
unfolding validate_decision collect_restock_context
validate_decision-critical m t k r d e h = rw (e, h) refl

module _ (model : Context → Option Suggestion) (m : Market) where
  stored-IsSafe :
      (trigger : Trigger) (r cost k : ℕ) (o : Option OrderProposal) (t : Tables)
      → (d : Suggestion)
      → let c = collect_restock_context m t.store k r in
        IsSafe
          (available k t.store)
          (ever_sold k m.outbound)
          (store_card c (validate_decision d c) cost trigger k o t).0
  unfolding collect_restock_context validate_decision store_card
  stored-IsSafe trigger r cost k none t d = record {
    bounded = clamp-IsBounded d.reorder_quantity _;
    stock_shown = refl;
    stock_out = validate_decision-critical m t k r d;
  }
  stored-IsSafe trigger r cost k (some p) t d = record {
    bounded = clamp-IsBounded d.reorder_quantity _;
    stock_shown = refl;
    stock_out = validate_decision-critical m t k r d;
  }

  -- For any answers of the language model, a card that is made or renewed for a book shows its
  -- stock, asks for one copy at least and, rounded up, for at most half more than the rule's number,
  -- and is critical if a book that has sold before is out of stock.
  pub generate_and_store_proposal-IsSafe :
      (trigger : Trigger) (rejected k : ℕ) (t : Tables)
      → OnCard
          (IsSafe (available k t.store) (ever_sold k m.outbound))
          (generate_and_store_proposal model m trigger rejected k t).0
  unfolding generate_and_store_proposal
  generate_and_store_proposal-IsSafe trigger rejected k t =
      let existing = first_by (is_pending_of k) t.proposals in
      let r = rejected + existing_rejected trigger existing in
      let c = collect_restock_context m t.store k r in
      let card =
        stored-IsSafe trigger r (wholesale (m.base_price k)) k existing t
          (run_restock_agent model c) in
      elim (Bool-cases (is_needless c)) [ inl e ↦ rw e tt | inr e ↦ rw e card ]
