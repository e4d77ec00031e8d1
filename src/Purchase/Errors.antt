-- ===== src/Purchase/Errors.antt =====
-- A malformed id among the ids of an operation.
use wms_secret_backend.Prelude.{ℕ, ◌≡◌, refl, ap, Option, none, List, [], ◌∷◌, ◌++◌, String}
use wms_secret_backend.Purchase.{
  ProposalId, not_uuid, Report, empty_report, Tables, Response, Turn, raised, next, approve_turn,
  dismiss_turn, delete_turn, loop, or_rolled_back, remove_done, approve_proposals,
  dismiss_proposals, delete_proposals,
}

module _ (turn : ProposalId → Report → Tables → Turn)
    (refuses : (r : Report) (t : Tables) → turn not_uuid r t ≡ raised) where
  step_raised :
      (pids rest : List ProposalId) (t : Tables)
      → ((r' : Report) (t' : Tables)
          → loop turn (pids ++ not_uuid ∷ rest) r' t' ≡ ((loop turn pids r' t').0, none))
      → (o : Turn)
      → elim o as (λ _. Response) [
        | raised ↦ (t, none)
        | next r' t' ↦ loop turn (pids ++ not_uuid ∷ rest) r' t'
      ]
        ≡ (
          (elim o as (λ _. Response) [ raised ↦ (t, none) | next r' t' ↦ loop turn pids r' t' ]).0,
          none,
        )
  step_raised pids rest t h raised = refl
  step_raised pids rest t h (next r' t') = h r' t'

  loop-raised :
      (pids rest : List ProposalId) (r : Report) (t : Tables)
      → loop turn (pids ++ not_uuid ∷ rest) r t ≡ ((loop turn pids r t).0, none)
  unfolding loop
  loop-raised [] rest r t = rw (refuses r t) refl
  loop-raised (pid ∷ pids) rest r t = step_raised pids rest t (loop-raised pids rest) (turn pid r t)

refuses_approve :
    (who : String) (worker : Option String) (now : ℕ) (r : Report) (t : Tables)
    → approve_turn who worker now not_uuid r t ≡ raised
unfolding approve_turn
refuses_approve who worker now r t = refl

refuses_dismiss : (who : String) (r : Report) (t : Tables) → dismiss_turn who not_uuid r t ≡ raised
unfolding dismiss_turn
refuses_dismiss who r t = refl

refuses_delete : (r : Report) (t : Tables) → delete_turn not_uuid r t ≡ raised
unfolding delete_turn
refuses_delete r t = refl

-- A malformed id is answered by an exception. The approvals of the ids before it stay, as if they had
-- been asked for alone, and no later id is looked at; of a dismissal and of a deletion nothing stays.
pub proposals-raised :
    (who : String) (worker : Option String) (now : ℕ) (pids rest : List ProposalId) (t : Tables)
    → (approve_proposals who worker now (pids ++ not_uuid ∷ rest) t
        ≡ ((approve_proposals who worker now pids t).0, none))
      × (dismiss_proposals who (pids ++ not_uuid ∷ rest) t ≡ (t, none))
      × (delete_proposals (pids ++ not_uuid ∷ rest) t ≡ (t, none))
unfolding approve_proposals dismiss_proposals delete_proposals
proposals-raised who worker now pids rest t = (
  loop-raised (approve_turn who worker now) (refuses_approve who worker now) pids rest empty_report
      t,
  ap (or_rolled_back t)
      (loop-raised (dismiss_turn who) (refuses_dismiss who) pids rest empty_report t),
  ap (remove_done t) (loop-raised delete_turn refuses_delete pids rest empty_report t),
)
