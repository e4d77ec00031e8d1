-- ===== src/Restock/Few.antt =====
-- The pending cards for a book, and what the decisions leave of them.
use wms_secret_backend.Prelude.{
  ℕ, ◌≤◌, ◌≡◌, refl, inl, inr, Bool, false, not, Option, none, some, List, [], ◌∷◌, Bool-cases,
  arith, length, filter_by, String,
}
use wms_secret_backend.Picking.{Book, get_by, set_by}
use wms_secret_backend.Stock.{first_by}
use wms_secret_backend.Purchase.{
  OrderProposal, is_pending, not_uuid, uuid, Report, empty_report, Tables, Response, get_pending,
  is_any_of, delete_decided, delete_turn, loop, or_rolled_back, remove_done, approved_by,
  dismissed_by, execute, with_book, approve_pending, approve_turn, dismiss_pending, dismiss_turn,
  approve_proposals, dismiss_proposals, delete_proposals,
}
use wms_secret_backend.Purchase.Loop.{Ends, Holds, Keeps, loop-Ends}
use wms_secret_backend.Purchase.Decide.{Op, approve_op, dismiss_op, delete_op, run}
use wms_secret_backend.Restock.Cards.{is_pending_of}

abbrev pub pending_cards : ℕ → List OrderProposal → ℕ
pending_cards k ps = length (filter_by (is_pending_of k) ps)

module _ (k : ℕ) where
  pub set_by-same :
      (f : OrderProposal → OrderProposal)
      → ((p : OrderProposal) → is_pending_of k (f p) ≡ is_pending_of k p)
      → (j : ℕ) (ps : List OrderProposal)
      → pending_cards k (set_by (λ q. q.id) j f ps) ≡ pending_cards k ps
  set_by-same f same j [] = refl
  set_by-same f same j (p ∷ ps) = ground (arith, same p, set_by-same f same j ps)

  set_by-fewer :
      (f : OrderProposal → OrderProposal)
      → ((p : OrderProposal) → is_pending_of k (f p) ≡ false)
      → (j : ℕ) (ps : List OrderProposal)
      → pending_cards k (set_by (λ q. q.id) j f ps) ≤ pending_cards k ps
  set_by-fewer f decided j [] = ground arith
  set_by-fewer f decided j (p ∷ ps) = ground (arith, decided p, set_by-fewer f decided j ps)

  filter_by-fewer :
      (keep : OrderProposal → Bool) (ps : List OrderProposal)
      → pending_cards k (filter_by keep ps) ≤ pending_cards k ps
  filter_by-fewer keep [] = ground arith
  filter_by-fewer keep (p ∷ ps) = ground (arith, filter_by-fewer keep ps)

  pub none-pending :
      (ps : List OrderProposal) → first_by (is_pending_of k) ps ≡ none → pending_cards k ps ≡ 0
  none-pending [] e = refl
  none-pending (p ∷ ps) e = ground (arith, none-pending ps)

-- What a decision leaves.
module _ (k n : ℕ) where
  abbrev Few : Report → Tables → Type 0
  Few r t = pending_cards k t.proposals ≤ n

  with_book-Few :
      (who : String) (worker : Option String) (now j : ℕ) (r : Report) (t : Tables)
      (p : OrderProposal) (o : Option Book)
      → Few r t
      → Holds Few (with_book who worker now j r t p o)
  unfolding execute
  with_book-Few who worker now j r t p none h = h
  with_book-Few who worker now j r t p (some book) h =
      omega (
        arith,
        set_by-fewer k (approved_by who t.store.next_id) (λ q. ground arith) p.id t.proposals,
      )

  approve_pending-Few :
      (who : String) (worker : Option String) (now j : ℕ) (r : Report) (t : Tables)
      (o : Option OrderProposal)
      → Few r t
      → Holds Few (approve_pending who worker now j r t o)
  approve_pending-Few who worker now j r t none h = h
  approve_pending-Few who worker now j r t (some p) h =
      with_book-Few who worker now j r t p (get_by (λ b. b.id) p.book_id t.store.books) h

  approve_turn-Few :
      (who : String) (worker : Option String) (now : ℕ) → Keeps Few (approve_turn who worker now)
  unfolding approve_turn
  approve_turn-Few who worker now not_uuid r t h = tt
  approve_turn-Few who worker now (uuid j) r t h =
      approve_pending-Few who worker now j r t (get_pending j t.proposals) h

  dismiss_pending-Few :
      (who : String) (j : ℕ) (r : Report) (t : Tables) (o : Option OrderProposal)
      → Few r t
      → Holds Few (dismiss_pending who j r t o)
  dismiss_pending-Few who j r t none h = h
  dismiss_pending-Few who j r t (some p) h =
      omega (arith, set_by-fewer k (dismissed_by who) (λ q. ground arith) p.id t.proposals)

  dismiss_turn-Few : (who : String) → Keeps Few (dismiss_turn who)
  unfolding dismiss_turn
  dismiss_turn-Few who not_uuid r t h = tt
  dismiss_turn-Few who (uuid j) r t h = dismiss_pending-Few who j r t (get_pending j t.proposals) h

  or_rolled_back-Few :
      (t : Tables) (o : Response)
      → pending_cards k t.proposals ≤ n
      → Ends Few o
      → pending_cards k (or_rolled_back t o).0.proposals ≤ n
  or_rolled_back-Few t (t', none) h e = h
  or_rolled_back-Few t (t', some r) h (r', few, q) = few

  delete_decided-Few :
      (j : ℕ) (r : Report) (t : Tables) (o : Option OrderProposal)
      → Few r t
      → Holds Few (delete_decided j r t o)
  delete_decided-Few j r t none h = h
  delete_decided-Few j r t (some p) h = elim (Bool-cases (is_pending p.status)) [
    | inl e ↦ rw e h
    | inr e ↦ rw e h
  ]

  delete_turn-Few : Keeps Few delete_turn
  unfolding delete_turn
  delete_turn-Few not_uuid r t h = tt
  delete_turn-Few (uuid j) r t h = delete_decided-Few j r t _ h

  remove_done-Few :
      (t : Tables) (o : Response)
      → pending_cards k t.proposals ≤ n
      → Ends Few o
      → pending_cards k (remove_done t o).0.proposals ≤ n
  remove_done-Few t (t', none) h e = h
  remove_done-Few t (t', some r) h (r', few, q) =
      omega (arith, filter_by-fewer k (λ q. not (is_any_of r.done q)) t'.proposals, few)

  pub run-Few :
      (op : Op) (t : Tables)
      → pending_cards k t.proposals ≤ n
      → pending_cards k (run op t).proposals ≤ n
  unfolding approve_proposals dismiss_proposals delete_proposals
  run-Few (approve_op who worker now pids) t h =
      (loop-Ends Few (approve_turn who worker now) (approve_turn-Few who worker now) pids
        empty_report t h).1
  run-Few (dismiss_op who pids) t h =
      or_rolled_back-Few t (loop (dismiss_turn who) pids empty_report t) h
        (loop-Ends Few (dismiss_turn who) (dismiss_turn-Few who) pids empty_report t h)
  run-Few (delete_op pids) t h =
      remove_done-Few t (loop delete_turn pids empty_report t) h
        (loop-Ends Few delete_turn delete_turn-Few pids empty_report t h)
