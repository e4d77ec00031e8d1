-- ===== src/Purchase/Again.antt =====
-- An approval that is asked for twice.
use wms_secret_backend.Prelude.{
  ℕ, ◌≡◌, inl, inr, refl, ◌∙◌, Bool, true, false, Option, none, some, List, [], ◌∷◌, ◌++◌, map,
  append_assoc, append-nil, String, ◌==◌, ==_iff, All, Bool-cases,
}
use wms_secret_backend.Picking.{Book, get_by, set_by}
use wms_secret_backend.Stock.Inbound.{books-fasttrack}
use wms_secret_backend.Purchase.{
  OrderProposal, not_uuid, uuid, Report, empty_report, Tables, Response, Turn, raised, next, skip,
  if_pending, get_pending, approved_by, execute, with_book, approve_pending, approve_turn, loop,
  approve_proposals,
}
use wms_secret_backend.Purchase.Loop.{Holds, Keeps, loop-Ends}
use wms_secret_backend.Purchase.Board.{find, find-id, find-set_by, get_pending-some, on_some}

-- There is nothing to approve.
abbrev Waits : List Book → Option OrderProposal → Type 0
Waits books none = Unit
Waits books (some p) = get_by (λ b. b.id) p.book_id books ≡ none

abbrev Settled : ℕ → Tables → Type 0
Settled k t = Waits t.store.books (get_pending k t.proposals)

abbrev AllSettled : List ℕ → Tables → Type 0
AllSettled ks t = All (λ k. Settled k t) ks

module _ (who : String) (worker : Option String) (now : ℕ) where
  books-execute :
      (p : OrderProposal) (book : Book) (t : Tables)
      → (execute who worker now p book t).store.books ≡ t.store.books
  unfolding execute
  books-execute p book t = books-fasttrack book _ worker now _

  proposals-execute :
      (p : OrderProposal) (book : Book) (t : Tables)
      → (execute who worker now p book t).proposals
        ≡ set_by (λ q. q.id) p.id (approved_by who t.store.next_id) t.proposals
  unfolding execute
  proposals-execute p book t = refl

  gone :
      (order : ℕ) (o : Option OrderProposal) → if_pending (on_some (approved_by who order) o) ≡ none
  gone order none = refl
  gone order (some p) = refl

  -- Once a proposal is approved, it is settled, and what is settled stays so.
  execute-Settled :
      (k : ℕ) (p : OrderProposal) (book : Book) (t : Tables)
      → ((p.id == k) ≡ false → Settled k t)
      → Settled k (execute who worker now p book t)
  execute-Settled k p book t h =
      rw
        (
          books-execute p book t,
          proposals-execute p book t,
          find-set_by (approved_by who t.store.next_id) (λ q. refl) k p.id t.proposals,
        )
        (elim (Bool-cases (p.id == k)) [
          | inl e ↦ rw (e, gone t.store.next_id (find k t.proposals)) tt
          | inr e ↦ rw e (h e)
        ])

  with_book-Settled :
      (k j : ℕ) (r : Report) (t : Tables) (p : OrderProposal) (o : Option Book)
      → Settled k t
      → Holds (λ _ t'. Settled k t') (with_book who worker now j r t p o)
  with_book-Settled k j r t p none h = h
  with_book-Settled k j r t p (some book) h = execute-Settled k p book t (λ _. h)

  approve_pending-Settled :
      (k j : ℕ) (r : Report) (t : Tables) (o : Option OrderProposal)
      → Settled k t
      → Holds (λ _ t'. Settled k t') (approve_pending who worker now j r t o)
  approve_pending-Settled k j r t none h = h
  approve_pending-Settled k j r t (some p) h =
      with_book-Settled k j r t p (get_by (λ b. b.id) p.book_id t.store.books) h

  approve_turn-Settled : (k : ℕ) → Keeps (λ _ t. Settled k t) (approve_turn who worker now)
  unfolding approve_turn
  approve_turn-Settled k not_uuid r t h = tt
  approve_turn-Settled k (uuid j) r t h =
      approve_pending-Settled k j r t (get_pending j t.proposals) h

  -- A turn settles its own id, and raises no exception.
  abbrev Settles : ℕ → Turn → Type 0
  Settles j raised = ⊥
  Settles j (next r t) = Settled j t

  with_book-own :
      (j : ℕ) (r : Report) (t : Tables) (p : OrderProposal) (o : Option Book)
      → get_pending j t.proposals ≡ some p
      → get_by (λ b. b.id) p.book_id t.store.books ≡ o
      → Settles j (with_book who worker now j r t p o)
  with_book-own j r t p none e b = rw e b
  with_book-own j r t p (some book) e b =
      let same = find-id j t.proposals p (get_pending-some j t.proposals p e).0 in
      execute-Settled j p book t (λ f. absurd (clash ((==_iff p.id j).1 same) f))
    where
      clash : {b : Bool} → b ≡ true → b ≡ false → ⊥
      clash e f = cc

  approve_pending-own :
      (j : ℕ) (r : Report) (t : Tables) (o : Option OrderProposal)
      → get_pending j t.proposals ≡ o
      → Settles j (approve_pending who worker now j r t o)
  approve_pending-own j r t none e = rw e tt
  approve_pending-own j r t (some p) e =
      with_book-own j r t p (get_by (λ b. b.id) p.book_id t.store.books) e refl

  approve_turn-own :
      (j : ℕ) (r : Report) (t : Tables) → Settles j (approve_turn who worker now (uuid j) r t)
  unfolding approve_turn
  approve_turn-own j r t = approve_pending-own j r t (get_pending j t.proposals) refl

  -- A settled id is skipped.
  passes_over :
      (j : ℕ) (r : Report) (t : Tables) (o : Option OrderProposal)
      → Waits t.store.books o
      → approve_pending who worker now j r t o ≡ next (skip (uuid j) r) t
  passes_over j r t none h = refl
  passes_over j r t (some p) h = rw h refl

  approve_turn-skip :
      (j : ℕ) (r : Report) (t : Tables)
      → Settled j t
      → approve_turn who worker now (uuid j) r t ≡ next (skip (uuid j) r) t
  unfolding approve_turn
  approve_turn-skip j r t h = passes_over j r t (get_pending j t.proposals) h

  loop-AllSettled :
      (ks : List ℕ) (r : Report) (t : Tables)
      → AllSettled ks (loop (approve_turn who worker now) (map uuid ks) r t).0
  unfolding loop
  loop-AllSettled [] r t = tt
  loop-AllSettled (k ∷ ks) r t =
      let rest = loop-AllSettled ks in
      from_turn (approve_turn who worker now (uuid k) r t) (approve_turn-own k r t) rest
    where
      from_turn :
          (o : Turn)
          → Settles k o
          → ((r : Report) (t : Tables)
              → AllSettled ks (loop (approve_turn who worker now) (map uuid ks) r t).0)
          → AllSettled
              (k ∷ ks)
              (elim o as (λ _. Response) [
                | raised ↦ (t, none)
                | next r' t' ↦ loop (approve_turn who worker now) (map uuid ks) r' t'
              ]).0
      from_turn raised h rest = absurd h
      from_turn (next r' t') h rest = (
        (loop-Ends (λ _ t'. Settled k t') (approve_turn who worker now) (approve_turn-Settled k)
            (map uuid ks) r' t' h).1,
        rest r' t',
      )

  loop-skip :
      (ks : List ℕ) (r : Report) (t : Tables)
      → AllSettled ks t
      → loop (approve_turn who worker now) (map uuid ks) r t
        ≡ (t, some (record r { skipped = r.skipped ++ map uuid ks }))
  unfolding loop
  loop-skip [] r t h = rw append-nil refl
  loop-skip (k ∷ ks) r t h =
      rw (loop, approve_turn-skip k r t h.0)
        (loop-skip ks (skip (uuid k) r) t h.1 ∙ rw append_assoc refl)

-- Approving the same ids again, by whomever, changes nothing: it reports each of them as skipped.
approve_proposals-again :
    (who who' : String) (worker worker' : Option String) (now now' : ℕ) (ks : List ℕ) (t : Tables)
    → let t' = (approve_proposals who worker now (map uuid ks) t).0 in
      approve_proposals who' worker' now' (map uuid ks) t'
      ≡ (t', some (record { done = []; skipped = map uuid ks; unflushed = none }))
unfolding approve_proposals
approve_proposals-again who who' worker worker' now now' ks t =
    let t' = (loop (approve_turn who worker now) (map uuid ks) empty_report t).0 in
    loop-skip who' worker' now' ks empty_report t'
      (loop-AllSettled who worker now ks empty_report t)
