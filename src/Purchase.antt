-- ===== src/Purchase.antt =====
-- Proposals to order new books: the decisions of app/domains/po/service.py.
pub mod Loop
pub mod Conserve
pub mod Board
pub mod Decide
pub mod Errors
pub mod Again
mod Tests
use wms_secret_backend.Prelude.{
  ℕ, ◌+◌, ◌*◌, max, ◌≡◌, refl, Bool, true, false, not, ◌&&◌, Option, none, some, List, [], ◌∷◌,
  ◌++◌, String, arith, ◌==◌, if◌then◌else◌, sum_of, filter_by, any,
}
use wms_secret_backend.Picking.{Book, get_by, set_by}
use wms_secret_backend.Stock.{Store, Location}
use wms_secret_backend.Stock.Inbound.{fasttrack_new_stock_inbound}

pub data ProposalStatus : Type 0 where
  pending approved dismissed : ProposalStatus

pub data Urgency : Type 0 where
  critical high medium low : Urgency

pub data Trigger : Type 0 where
  inspection_reject safety_stock manual : Trigger

-- Prices are whole; a quantity that is missing or negative is 0.
pub record OrderProposal : Type 0 where
  pub id : ℕ
  pub book_id : ℕ
  pub proposed_quantity : ℕ
  pub unit_cost : ℕ
  pub status : ProposalStatus
  pub decided_by : Option String
  pub order_id : Option ℕ
  pub trigger_type : Trigger
  pub current_stock : ℕ
  pub sales_velocity_30d : ℕ
  pub rejected_quantity : ℕ
  pub baseline_quantity : ℕ
  pub urgency : Urgency

-- An order of the type AUTO_PO, which is made as SHIPPED.
pub record AutoOrder : Type 0 where
  pub id : ℕ
  pub total_price : ℕ

pub record AutoOrderItem : Type 0 where
  pub order_id : ℕ
  pub book_id : ℕ
  pub quantity : ℕ
  pub unit_price : ℕ

pub record Tables : Type 0 where
  pub store : Store
  pub proposals : List OrderProposal
  pub orders : List AutoOrder
  pub order_items : List AutoOrderItem

-- A text that is given as an id: it may be none.
pub data ProposalId : Type 0 where
  not_uuid : ProposalId
  uuid : ℕ → ProposalId

-- What is reported so far, and the proposal that the session has deleted since its last query; the
-- session sends a deletion to the database with the next query.
pub record Report : Type 0 where
  pub done : List ℕ
  pub skipped : List ProposalId
  pub unflushed : Option ℕ

-- What the tables are in the end, and the response, or `none` for a BadRequestException.
abbrev pub Response : Type 0
Response = Tables × Option Report

abbrev pub empty_report : Report
empty_report = record { done = []; skipped = []; unflushed = none }

abbrev pub did : ℕ → Report → Report
did k r = record r { done = r.done ++ k ∷ [] }

abbrev pub skip : ProposalId → Report → Report
skip pid r = record r { skipped = r.skipped ++ pid ∷ [] }

abbrev pub is_pending : ProposalStatus → Bool
is_pending pending = true
is_pending approved = false
is_pending dismissed = false

abbrev pub if_pending : Option OrderProposal → Option OrderProposal
if_pending none = none
if_pending (some p) = if is_pending p.status then some p else none

abbrev pub get_pending : ℕ → List OrderProposal → Option OrderProposal
get_pending k ps = if_pending (get_by (λ p. p.id) k ps)

-- One id of a loop: the exception, or the state in which the loop goes on.
pub data Turn : Type 0 where
  raised : Turn
  next : Report → Tables → Turn

abbrev pub approved_by : String → ℕ → OrderProposal → OrderProposal
approved_by who order p = record p {
  status = approved;
  decided_by = some who;
  order_id = some order;
}

unfoldable pub execute : String → Option String → ℕ → OrderProposal → Book → Tables → Tables
execute who worker now p book t =
    let qty = max 1 p.proposed_quantity in
    let order = t.store.next_id in
    let store = record t.store { next_id = t.store.next_id + 1 } in
    record t {
      store = (fasttrack_new_stock_inbound book qty worker now store).1;
      proposals = set_by (λ q. q.id) p.id (approved_by who order) t.proposals;
      orders = t.orders ++ record { id = order; total_price = p.unit_cost * qty } ∷ [];
      order_items =
          t.order_items
          ++ record {
            order_id = order;
            book_id = book.id;
            quantity = qty;
            unit_price = p.unit_cost;
          }
            ∷ [];
    }

abbrev pub with_book :
    String → Option String → ℕ → ℕ → Report → Tables → OrderProposal → Option Book → Turn
with_book who worker now k r t p none = next (skip (uuid k) r) t
with_book who worker now k r t p (some book) = next (did p.id r) (execute who worker now p book t)

abbrev pub approve_pending :
    String → Option String → ℕ → ℕ → Report → Tables → Option OrderProposal → Turn
approve_pending who worker now k r t none = next (skip (uuid k) r) t
approve_pending who worker now k r t (some p) =
    with_book who worker now k r t p (get_by (λ b. b.id) p.book_id t.store.books)

unfoldable pub approve_turn : String → Option String → ℕ → ProposalId → Report → Tables → Turn
unfolding execute
approve_turn who worker now not_uuid r t = raised
approve_turn who worker now (uuid k) r t =
    approve_pending who worker now k r t (get_pending k t.proposals)

abbrev pub dismissed_by : String → OrderProposal → OrderProposal
dismissed_by who p = record p { status = dismissed; decided_by = some who }

abbrev pub dismiss_pending : String → ℕ → Report → Tables → Option OrderProposal → Turn
dismiss_pending who k r t none = next (skip (uuid k) r) t
dismiss_pending who k r t (some p) =
    next (did p.id r)
      (record t { proposals = set_by (λ q. q.id) p.id (dismissed_by who) t.proposals })

unfoldable pub dismiss_turn : String → ProposalId → Report → Tables → Turn
dismiss_turn who not_uuid r t = raised
dismiss_turn who (uuid k) r t = dismiss_pending who k r t (get_pending k t.proposals)

abbrev is_unflushed : ℕ → Option ℕ → Bool
is_unflushed k none = false
is_unflushed k (some j) = j == k

-- A row that the session has deleted is found once more as long as no other one is asked for.
abbrev pub is_gone : ℕ → Report → Bool
is_gone k r = any (λ j. j == k) r.done && not (is_unflushed k r.unflushed)

abbrev pub delete_decided : ℕ → Report → Tables → Option OrderProposal → Turn
delete_decided k r t none = next (record (skip (uuid k) r) { unflushed = none }) t
delete_decided k r t (some p) =
    if is_pending p.status
    then next (record (skip (uuid k) r) { unflushed = none }) t
    else next (record (did k r) { unflushed = some k }) t

unfoldable pub delete_turn : ProposalId → Report → Tables → Turn
delete_turn not_uuid r t = raised
delete_turn (uuid k) r t =
    delete_decided k r t (if is_gone k r then none else get_by (λ p. p.id) k t.proposals)

-- The loops of the three operations: with an exception, what the loop has reached.
unfoldable pub loop :
    (ProposalId → Report → Tables → Turn) → List ProposalId → Report → Tables → Response
loop turn [] r t = (t, some r)
loop turn (pid ∷ pids) r t = elim (turn pid r t) [
  | raised ↦ (t, none)
  | next r' t' ↦ loop turn pids r' t'
]

-- Each approval is committed by itself.
unfoldable pub approve_proposals : String → Option String → ℕ → List ProposalId → Tables → Response
unfolding loop approve_turn
approve_proposals who worker now pids t = loop (approve_turn who worker now) pids empty_report t

-- One commit at the end: an exception takes all back.
abbrev pub or_rolled_back : Tables → Response → Response
or_rolled_back t (t', none) = (t, none)
or_rolled_back t (t', some r) = (t', some r)

unfoldable pub dismiss_proposals : String → List ProposalId → Tables → Response
unfolding loop dismiss_turn
dismiss_proposals who pids t = or_rolled_back t (loop (dismiss_turn who) pids empty_report t)

abbrev pub is_any_of : List ℕ → OrderProposal → Bool
is_any_of ks q = any (λ k. q.id == k) ks

abbrev pub remove_done : Tables → Response → Response
remove_done t (t', none) = (t, none)
remove_done t (t', some r) =
    (record t' { proposals = filter_by (λ q. not (is_any_of r.done q)) t'.proposals }, some r)

unfoldable pub delete_proposals : List ProposalId → Tables → Response
unfolding loop delete_turn
delete_proposals pids t = remove_done t (loop delete_turn pids empty_report t)
