-- ===== src/Purchase/Decide.antt =====
-- The operations move the cards as the board promises.
use mathlib.Core.Path.{sym}
use mathlib.Core.Option.{some-injective}
use wms_secret_backend.Prelude.{
  ℕ, ◌≡◌, ◌⊎◌, inl, inr, refl, ap, ◌∙◌, false, not, Option, none, some, List, [], ◌∷◌, String, ◌==◌,
  filter_by, any, All, All-append, Bool-cases,
}
use wms_secret_backend.Picking.{Book, get_by}
use wms_secret_backend.Purchase.{
  ProposalStatus, pending, approved, dismissed, OrderProposal, ProposalId, not_uuid, uuid, Report,
  empty_report, Tables, Response, is_pending, get_pending, is_any_of, approved_by, dismissed_by,
  execute, with_book, approve_pending, approve_turn, dismiss_pending, dismiss_turn, is_gone,
  delete_decided, delete_turn, loop, or_rolled_back, remove_done, approve_proposals,
  dismiss_proposals, delete_proposals,
}
use wms_secret_backend.Purchase.Loop.{Ends, Holds, Keeps, loop-Ends}
use wms_secret_backend.Purchase.Board.{
  Card, approve, dismiss, remove_approved, remove_dismissed, Reach, here, then_move, card, find,
  decide-Reach, find-filter, All-any,
}

module _ (c : Card) (k : ℕ) where
  abbrev Reaches : Report → Tables → Type 0
  Reaches r t = Reach c (card (find k t.proposals))

  module _ (who : String) (worker : Option String) (now : ℕ) where
    execute-Reach :
        (j : ℕ) (r : Report) (t : Tables) (p : OrderProposal) (o : Option Book)
        → get_pending j t.proposals ≡ some p
        → Reaches r t
        → Holds Reaches (with_book who worker now j r t p o)
    unfolding execute
    execute-Reach j r t p none e h = h
    execute-Reach j r t p (some book) e h =
        decide-Reach (approved_by who t.store.next_id) (λ q. refl) c k j t.proposals p approved e
          refl approve h

    approve_pending-Reach :
        (j : ℕ) (r : Report) (t : Tables) (o : Option OrderProposal)
        → get_pending j t.proposals ≡ o
        → Reaches r t
        → Holds Reaches (approve_pending who worker now j r t o)
    approve_pending-Reach j r t none e h = h
    approve_pending-Reach j r t (some p) e h =
        execute-Reach j r t p (get_by (λ b. b.id) p.book_id t.store.books) e h

    approve_turn-Reach : Keeps Reaches (approve_turn who worker now)
    unfolding approve_turn
    approve_turn-Reach not_uuid r t h = tt
    approve_turn-Reach (uuid j) r t h =
        approve_pending-Reach j r t (get_pending j t.proposals) refl h

  module _ (who : String) where
    dismiss_pending-Reach :
        (j : ℕ) (r : Report) (t : Tables) (o : Option OrderProposal)
        → get_pending j t.proposals ≡ o
        → Reaches r t
        → Holds Reaches (dismiss_pending who j r t o)
    dismiss_pending-Reach j r t none e h = h
    dismiss_pending-Reach j r t (some p) e h =
        decide-Reach (dismissed_by who) (λ q. refl) c k j t.proposals p dismissed e refl dismiss h

    dismiss_turn-Reach : Keeps Reaches (dismiss_turn who)
    unfolding dismiss_turn
    dismiss_turn-Reach not_uuid r t h = tt
    dismiss_turn-Reach (uuid j) r t h =
        dismiss_pending-Reach j r t (get_pending j t.proposals) refl h

  rolled_back-Reach :
      (t : Tables) (o : Response)
      → Reaches empty_report t
      → Ends Reaches o
      → Reaches empty_report (or_rolled_back t o).0
  rolled_back-Reach t (t', none) h e = h
  rolled_back-Reach t (t', some r) h e = e.1

-- The rows that a deletion has reported are there and decided.
abbrev Decided : List OrderProposal → ℕ → Type 0
Decided ps k = (card (find k ps) ≡ some approved) ⊎ (card (find k ps) ≡ some dismissed)

module _ (t₀ : Tables) where
  abbrev Reported : Report → Tables → Type 0
  Reported r t = (t ≡ t₀) × All (Decided t₀.proposals) r.done

  status_decided :
      (st : ProposalStatus) → is_pending st ≡ false → (st ≡ approved) ⊎ (st ≡ dismissed)
  status_decided pending e = absurd (cc)
  status_decided approved e = inl refl
  status_decided dismissed e = inr refl

  from_find :
      (k : ℕ) (p : OrderProposal)
      → find k t₀.proposals ≡ some p
      → (p.status ≡ approved) ⊎ (p.status ≡ dismissed)
      → Decided t₀.proposals k
  from_find k p e (inl s) = inl (ap card e ∙ ap some s)
  from_find k p e (inr s) = inr (ap card e ∙ ap some s)

  delete_decided-Reported :
      (j : ℕ) (r : Report) (t : Tables) (o : Option OrderProposal)
      → find j t₀.proposals ≡ o
      → Reported r t
      → Holds Reported (delete_decided j r t o)
  delete_decided-Reported j r t none e h = h
  delete_decided-Reported j r t (some p) e h = elim (Bool-cases (is_pending p.status)) [
    | inl w ↦ rw w h
    | inr w ↦ rw w (
      h.0,
      All-append (Decided t₀.proposals) r.done (j ∷ []) h.1
          (from_find j p e (status_decided p.status w), tt),
    )
  ]

  delete_turn-Reported : Keeps Reported delete_turn
  unfolding delete_turn
  delete_turn-Reported not_uuid r t h = tt
  delete_turn-Reported (uuid j) r t h = elim (Bool-cases (is_gone j r)) [
    | inl g ↦ rw g h
    | inr g ↦ rw g (
        delete_decided-Reported j r t (find j t.proposals)
          (ap (λ u. find j u.proposals) (sym (h.0))) h)
  ]

removed :
    (c : Card) (ps : List OrderProposal) (k : ℕ)
    → Decided ps k
    → Reach c (card (find k ps))
    → Reach c none
removed c ps k (inl s) h = then_move (rw s at h) remove_approved
removed c ps k (inr s) h = then_move (rw s at h) remove_dismissed

removed_rows :
    (c : Card) (k : ℕ) (ks : List ℕ) (ps : List OrderProposal)
    → All (Decided ps) ks
    → Reach c (card (find k ps))
    → Reach c (card (find k (filter_by (λ q. not (is_any_of ks q)) ps)))
removed_rows c k ks ps d h = elim (Bool-cases (any (λ j. k == j) ks)) [
  | inl t ↦ rw (find-filter k ks ps, t) (removed c ps k (All-any (Decided ps) k ks t d) h)
  | inr f ↦ rw (find-filter k ks ps, f) h
]

removed-Reach :
    (c : Card) (k : ℕ) (t : Tables) (o : Response)
    → Reach c (card (find k t.proposals))
    → Ends (Reported t) o
    → Reach c (card (find k (remove_done t o).0.proposals))
removed-Reach c k t (t', none) h e = h
removed-Reach c k t (t', some r) h (r', (same, decided), inl b) = absurd (none_ne r b)
  where
    none_ne : (r : Report) → some r ≡ none → ⊥
    none_ne r b = cc
removed-Reach c k t (t', some r) h (r', (same, decided), inr b) =
    let q : r.done ≡ r'.done = ap (λ u. u.done) (some-injective _ _ b) in
    rw (q, same) (removed_rows c k r'.done t.proposals decided h)

-- The operations of the board.
pub data Op : Type 0 where
  approve_op : String → Option String → ℕ → List ProposalId → Op
  dismiss_op : String → List ProposalId → Op
  delete_op : List ProposalId → Op

abbrev pub run : Op → Tables → Tables
run (approve_op who worker now pids) t = (approve_proposals who worker now pids t).0
run (dismiss_op who pids) t = (dismiss_proposals who pids t).0
run (delete_op pids) t = (delete_proposals pids t).0

abbrev pub run_all : List Op → Tables → Tables
run_all [] t = t
run_all (op ∷ ops) t = run_all ops (run op t)

pub run-Reach :
    (op : Op) (c : Card) (k : ℕ) (t : Tables)
    → Reach c (card (find k t.proposals))
    → Reach c (card (find k (run op t).proposals))
unfolding approve_proposals dismiss_proposals delete_proposals
run-Reach (approve_op who worker now pids) c k t h =
    (loop-Ends (Reaches c k) (approve_turn who worker now) (approve_turn-Reach c k who worker now)
      pids empty_report t h).1
run-Reach (dismiss_op who pids) c k t h =
    rolled_back-Reach c k t (loop (dismiss_turn who) pids empty_report t) h (
      loop-Ends (Reaches c k) (dismiss_turn who) (dismiss_turn-Reach c k who) pids empty_report t h)
run-Reach (delete_op pids) c k t h =
    removed-Reach c k t (loop delete_turn pids empty_report t) h
      (loop-Ends (Reported t) delete_turn (delete_turn-Reported t) pids empty_report t (refl, tt))

run_all-Reach :
    (ops : List Op) (c : Card) (k : ℕ) (t : Tables)
    → Reach c (card (find k t.proposals))
    → Reach c (card (find k (run_all ops t).proposals))
run_all-Reach [] c k t h = h
run_all-Reach (op ∷ ops) c k t h = run_all-Reach ops c k (run op t) (run-Reach op c k t h)

-- Through any sequence of approvals, dismissals and deletions, with any ids, the card of a proposal
-- takes only the moves of the board: a pending one is approved or dismissed, once, and only a decided
-- one is removed, for good.
pub run_all-Moves :
    (ops : List Op) (k : ℕ) (t : Tables)
    → Reach (card (find k t.proposals)) (card (find k (run_all ops t).proposals))
run_all-Moves ops k t = run_all-Reach ops (card (find k t.proposals)) k t here
