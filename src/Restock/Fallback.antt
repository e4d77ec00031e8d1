-- ===== src/Restock/Fallback.antt =====
-- Proposals without the language model.
use wms_secret_backend.Prelude.{
  ℕ, ◌+◌, zero, suc, max, ◌*◌, ◌/◌, ◌≡◌, refl, inl, inr, Bool, true, false, Option, none, some,
  Bool-cases, arith,
}
use wms_secret_backend.Stock.{first_by}
use wms_secret_backend.Purchase.{OrderProposal, Trigger, Tables}
use wms_secret_backend.Restock.{
  Market, Context, Suggestion, amount, clamp, rule_based_decision, collect_restock_context,
  validate_decision,
}
use wms_secret_backend.Restock.Cards.{
  is_pending_of, existing_rejected, is_needless, wholesale, store_card, generate_and_store_proposal,
}
use wms_secret_backend.Restock.Bounds.{OnCard}

abbrev pub is_made : Option OrderProposal → Bool
is_made none = false
is_made (some p) = true

clamp_rule : (n : ℕ) → clamp (amount (max 1 n)) (max 1 n) ((3 * max 1 n + 1) / 2) ≡ max 1 n
clamp_rule zero = refl
clamp_rule (suc n) = ground arith

-- The quantity is what the rule asks for.
abbrev pub ByRule : OrderProposal → Type 0
ByRule p = p.proposed_quantity ≡ max 1 p.baseline_quantity

abbrev pub no_model : Context → Option Suggestion
no_model c = none

stored-ByRule :
    (c : Context) (cost k : ℕ) (trigger : Trigger) (o : Option OrderProposal) (t : Tables)
    → ByRule (store_card c (validate_decision (rule_based_decision c) c) cost trigger k o t).0
unfolding store_card validate_decision
stored-ByRule c cost k trigger none t = clamp_rule c.baseline_quantity
stored-ByRule c cost k trigger (some p) t = clamp_rule c.baseline_quantity

-- Without the language model, a card is made or renewed if and only if it is with it, and the card
-- then asks for the rule's number, or one copy if that is 0.
pub generate_and_store_proposal-ByRule :
    (model : Context → Option Suggestion) (m : Market) (trigger : Trigger) (rejected k : ℕ)
    (t : Tables)
    → OnCard ByRule (generate_and_store_proposal no_model m trigger rejected k t).0
      × (is_made (generate_and_store_proposal no_model m trigger rejected k t).0
          ≡ is_made (generate_and_store_proposal model m trigger rejected k t).0)
unfolding generate_and_store_proposal
generate_and_store_proposal-ByRule model m trigger rejected k t =
    let existing = first_by (is_pending_of k) t.proposals in
    let c = collect_restock_context m t.store k (rejected + existing_rejected trigger existing) in
    let card = stored-ByRule c (wholesale (m.base_price k)) k trigger existing t in
    elim (Bool-cases (is_needless c)) [ inl e ↦ rw e (tt, refl) | inr e ↦ rw e (card, refl) ]
