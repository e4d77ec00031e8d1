-- ===== src/Restock/Single.antt =====
-- One pending card for a book.
use mathlib.Core.Path.{subst}
use wms_secret_backend.Prelude.{
  ℕ, ◌+◌, ◌≤◌, ◌≡◌, refl, inl, inr, ◌||◌, Option, none, some, List, [], ◌∷◌, ◌++◌, Bool-cases,
  arith, leb, ◌==◌, if◌then◌else◌, ==_iff,
}
use wms_secret_backend.Stock.{first_by}
use wms_secret_backend.Purchase.{OrderProposal, Trigger, Tables}
use wms_secret_backend.Purchase.Decide.{Op, run}
use wms_secret_backend.Restock.{
  Market, Context, Suggestion, Decision, run_restock_agent, collect_restock_context,
  validate_decision,
}
use wms_secret_backend.Restock.Cards.{
  is_pending_of, existing_rejected, is_needless, wholesale, store_card, new_card, written, promoted,
  generate_and_store_proposal,
}
use wms_secret_backend.Prelude.{any}
use wms_secret_backend.Prelude.Sort.{sort_by}
use wms_secret_backend.Purchase.{safety_stock}
use wms_secret_backend.Restock.Scan.{
  Candidate, scan_limit, scan_turn, scan_loop, count_of, comes_first, candidates, scan_safety_stock,
}
use wms_secret_backend.Restock.Few.{pending_cards, set_by-same, none-pending, run-Few}

pub data IsSingle (ps : List OrderProposal) : Type 0 where
  single : ((k : ℕ) → pending_cards k ps ≤ 1) → IsSingle ps

pub cards : {ps : List OrderProposal} → IsSingle ps → (k : ℕ) → pending_cards k ps ≤ 1
cards (single h) = h

pub append-pending :
    (k : ℕ) (ps : List OrderProposal) (p : OrderProposal)
    → pending_cards k (ps ++ p ∷ []) ≡ pending_cards k ps + (if is_pending_of k p then 1 else 0)
append-pending k [] p = ground arith
append-pending k (q ∷ qs) p = ground (arith, append-pending k qs p)

module _ (j k cost : ℕ) (c : Context) (d : Decision) (trigger : Trigger) (t : Tables) where
  store_card-single :
      (o : Option OrderProposal)
      → first_by (is_pending_of k) t.proposals ≡ o
      → pending_cards j t.proposals ≤ 1
      → pending_cards j (store_card c d cost trigger k o t).1.proposals ≤ 1
  unfolding store_card
  store_card-single none e h =
      let last =
        append-pending j t.proposals
          (written c d cost trigger (new_card t.store.next_id k trigger)) in
      let here : k ≡ j → pending_cards j t.proposals ≡ 0 =
        λ q. subst (λ i. pending_cards i t.proposals ≡ 0) q (none-pending k t.proposals e) in
      elim (Bool-cases (k == j)) [
        | inl q ↦ let none_yet = here ((==_iff k j).0 q) in rw (last, q, none_yet) (omega arith)
        | inr q ↦ rw (last, q) (omega (arith, h))
      ]
  store_card-single (some p) e h =
      let write = λ (q : OrderProposal). written c d cost (promoted trigger q.trigger_type) q in
      let same = set_by-same j write (λ q. refl) p.id t.proposals in omega (arith, same, h)

module _ (model : Context → Option Suggestion) (m : Market) where
  pub generate_and_store_proposal-single :
      (trigger : Trigger) (rejected j k : ℕ) (t : Tables)
      → pending_cards j t.proposals ≤ 1
      → pending_cards j (generate_and_store_proposal model m trigger rejected k t).1.proposals ≤ 1
  unfolding generate_and_store_proposal
  generate_and_store_proposal-single trigger rejected j k t h =
      let existing = first_by (is_pending_of k) t.proposals in
      let c = collect_restock_context m t.store k (rejected + existing_rejected trigger existing) in
      let stored =
        store_card-single j k (wholesale (m.base_price k)) c
          (validate_decision (run_restock_agent model c) c) trigger t existing refl h in
      elim (Bool-cases (is_needless c)) [ inl e ↦ rw e h | inr e ↦ rw e stored ]

  scan_turn-single :
      (before : List OrderProposal) (n j : ℕ) (c : Candidate) (t : Tables)
      → pending_cards j t.proposals ≤ 1
      → pending_cards j (scan_turn model m before n c t).1.proposals ≤ 1
  scan_turn-single before n j c t h =
      let made = generate_and_store_proposal-single safety_stock 0 j c.book_id t h in
      elim (Bool-cases (leb scan_limit n || any (is_pending_of c.book_id) before)) [
        | inl e ↦ rw e h
        | inr e ↦ rw e made
      ]

  scan_loop-single :
      (before : List OrderProposal) (n j : ℕ) (cs : List Candidate) (t : Tables)
      → pending_cards j t.proposals ≤ 1
      → pending_cards j (scan_loop model m before n cs t).1.proposals ≤ 1
  unfolding scan_loop
  scan_loop-single before n j [] t h = h
  scan_loop-single before n j (c ∷ cs) t h =
      let turn = scan_turn model m before n c t in
      scan_loop-single before (n + count_of turn.0) j cs turn.1 (scan_turn-single before n j c t h)

-- What changes the cards: a decision, a book that is wanted, or a scan, each at its own time.
pub data Act : Type 0 where
  decide : Op → Act
  want : Market → Trigger → ℕ → ℕ → Act
  scan_stock : Market → Act

module _ (model : Context → Option Suggestion) where
  abbrev pub act : Act → Tables → Tables
  act (decide op) t = run op t
  act (want m trigger rejected k) t = (generate_and_store_proposal model m trigger rejected k t).1
  act (scan_stock m) t = (scan_safety_stock model m t).1

  abbrev pub act_all : List Act → Tables → Tables
  act_all [] t = t
  act_all (a ∷ acts) t = act_all acts (act a t)

  act-single :
      (a : Act) (k : ℕ) (t : Tables)
      → pending_cards k t.proposals ≤ 1
      → pending_cards k (act a t).proposals ≤ 1
  unfolding scan_safety_stock
  act-single (decide op) k t h = run-Few k 1 op t h
  act-single (want m trigger rejected b) k t h =
      generate_and_store_proposal-single model m trigger rejected k b t h
  act-single (scan_stock m) k t h =
      scan_loop-single model m t.proposals 0 k
        (sort_by comes_first (candidates m t.store t.store.books)) t h

  -- Through any sequence of approvals, dismissals, deletions, wanted books and scans, done one after
  -- another, with any answers of the language model, a board that has at most one pending card for
  -- each book keeps it so.
  pub act_all-IsSingle :
      (acts : List Act) (t : Tables) → IsSingle t.proposals → IsSingle (act_all acts t).proposals
  act_all-IsSingle [] t h = h
  act_all-IsSingle (a ∷ acts) t h =
      act_all-IsSingle acts (act a t) (single (λ k. act-single a k t (cards h k)))
