-- ===== src/Purchase/Conserve.antt =====
-- The copies that are ordered, in stock and in the log.
use wms_secret_backend.Prelude.{
  ℕ, ◌+◌, max, ◌≡◌, refl, Option, none, some, List, [], ◌∷◌, ◌++◌, String, arith, ◌==◌,
  if◌then◌else◌, sum_of, filter_by,
}
use wms_secret_backend.Picking.{Book, get_by}
use wms_secret_backend.Stock.Inbound.{new_stock, inbound_total, fasttrack_new_stock_inbound-sum}
use wms_secret_backend.Purchase.{
  OrderProposal, AutoOrderItem, ProposalId, not_uuid, uuid, Report, empty_report, Tables,
  get_pending, execute, with_book, approve_pending, approve_turn, approve_proposals,
}
use wms_secret_backend.Purchase.Loop.{Holds, Keeps, loop-Ends}

-- The copies of a book that the orders ask for.
abbrev pub ordered : ℕ → List AutoOrderItem → ℕ
ordered k is = sum_of (λ i. i.quantity) (filter_by (λ i. i.book_id == k) is)

-- From t to t', the stock and the log have grown by what was ordered.
pub record Balanced (k : ℕ) (t t' : Tables) : Type 0 where
  pub in_stock :
      new_stock k t'.store + ordered k t.order_items
      ≡ new_stock k t.store + ordered k t'.order_items
  pub in_log :
      inbound_total k t'.store.logs + ordered k t.order_items
      ≡ inbound_total k t.store.logs + ordered k t'.order_items

ordered-last :
    (k : ℕ) (is : List AutoOrderItem) (i : AutoOrderItem)
    → ordered k (is ++ i ∷ []) ≡ ordered k is + (if i.book_id == k then i.quantity else 0)
ordered-last k [] i = ground arith
ordered-last k (j ∷ js) i = ground (arith, ordered-last k js i)

module _ (k : ℕ) (t₀ : Tables) (who : String) (worker : Option String) (now : ℕ) where
  execute-Balanced :
      (p : OrderProposal) (book : Book) (t : Tables)
      → Balanced k t₀ t
      → Balanced k t₀ (execute who worker now p book t)
  unfolding execute
  execute-Balanced p book t h =
      let qty = max 1 p.proposed_quantity in
      let order = t.store.next_id in
      let store = record t.store { next_id = t.store.next_id + 1 } in
      let (stock, log) = fasttrack_new_stock_inbound-sum k book qty worker now store in
      let more = ordered-last k t.order_items (record {
        order_id = order;
        book_id = book.id;
        quantity = qty;
        unit_price = p.unit_cost;
      }) in
      let a = h.in_stock in
      let b = h.in_log in
      record { in_stock = omega (arith, stock, more, a); in_log = omega (arith, log, more, b) }

  with_book-Balanced :
      (j : ℕ) (r : Report) (t : Tables) (p : OrderProposal) (o : Option Book)
      → Balanced k t₀ t
      → Holds (λ _ t'. Balanced k t₀ t') (with_book who worker now j r t p o)
  with_book-Balanced j r t p none h = h
  with_book-Balanced j r t p (some book) h = execute-Balanced p book t h

  approve_pending-Balanced :
      (j : ℕ) (r : Report) (t : Tables) (o : Option OrderProposal)
      → Balanced k t₀ t
      → Holds (λ _ t'. Balanced k t₀ t') (approve_pending who worker now j r t o)
  approve_pending-Balanced j r t none h = h
  approve_pending-Balanced j r t (some p) h =
      with_book-Balanced j r t p (get_by (λ b. b.id) p.book_id t.store.books) h

  approve_turn-Balanced : Keeps (λ _ t. Balanced k t₀ t) (approve_turn who worker now)
  unfolding approve_turn
  approve_turn-Balanced not_uuid r t h = tt
  approve_turn-Balanced (uuid j) r t h =
      approve_pending-Balanced j r t (get_pending j t.proposals) h

-- Whatever ids are approved, and also where a malformed id ends the loop with an exception: the stock of
-- a book and the log of what came in grow by the copies that the new orders ask for, and by no others.
pub approve_proposals-Balanced :
    (k : ℕ) (who : String) (worker : Option String) (now : ℕ) (pids : List ProposalId) (t : Tables)
    → Balanced k t (approve_proposals who worker now pids t).0
unfolding approve_proposals
approve_proposals-Balanced k who worker now pids t =
    (loop-Ends (λ _ t'. Balanced k t t') (approve_turn who worker now)
      (approve_turn-Balanced k t who worker now) pids empty_report t
      (record { in_stock = refl; in_log = refl })).1
