-- ===== src/Purchase/Loop.antt =====
-- Invariants of the loops over proposals, and what they do at a malformed id.
use wms_secret_backend.Prelude.{◌≡◌, ◌⊎◌, inl, inr, refl, none, some, List, [], ◌∷◌}
use wms_secret_backend.Purchase.{ProposalId, Report, Tables, Response, Turn, raised, next, loop}

-- What holds in the end, also of the report that an exception discards.
abbrev pub Ends : (Report → Tables → Type 0) → Response → Type 0
Ends P (t, o) = (r : Report) × P r t × ((o ≡ none) ⊎ (o ≡ some r))

abbrev pub Holds : (Report → Tables → Type 0) → Turn → Type 0
Holds P raised = Unit
Holds P (next r t) = P r t

abbrev pub Keeps : (Report → Tables → Type 0) → (ProposalId → Report → Tables → Turn) → Type 0
Keeps P turn = (pid : ProposalId) (r : Report) (t : Tables) → P r t → Holds P (turn pid r t)

loop_from :
    (P : Report → Tables → Type 0) (turn : ProposalId → Report → Tables → Turn)
    (pids : List ProposalId) (r : Report) (t : Tables)
    → P r t
    → ((r' : Report) (t' : Tables) → P r' t' → Ends P (loop turn pids r' t'))
    → (o : Turn) → Holds P o
    → Ends P (elim o [ raised ↦ (t, none) | next r' t' ↦ loop turn pids r' t' ])
loop_from P turn pids r t h rest raised k = (r, h, inl refl)
loop_from P turn pids r t h rest (next r' t') k = rest r' t' k

pub loop-Ends :
    (P : Report → Tables → Type 0) (turn : ProposalId → Report → Tables → Turn)
    → Keeps P turn
    → (pids : List ProposalId) (r : Report) (t : Tables) → P r t
    → Ends P (loop turn pids r t)
unfolding loop
loop-Ends P turn keep [] r t h = (r, h, inr refl)
loop-Ends P turn keep (pid ∷ pids) r t h =
    loop_from P turn pids r t h (loop-Ends P turn keep pids) (turn pid r t) (keep pid r t h)
