-- ===== src/Purchase/Tests.antt =====
-- A board with three proposals, and the theorems applied to it.
use wms_secret_backend.Prelude.{ℕ, ◌≡◌, refl, none, some, List, [], ◌∷◌, ◌++◌}
use wms_secret_backend.Picking.{Book}
use wms_secret_backend.Stock.{get_or_create_location}
use wms_secret_backend.Stock.Inbound.{fasttrack_new_stock_inbound, add_quantity, new_stock}
use wms_secret_backend.Purchase.{
  manual, medium, pending, OrderProposal, not_uuid, uuid, Tables, execute, approve_turn,
  dismiss_turn, delete_turn, loop, approve_proposals, dismiss_proposals, delete_proposals,
}
use wms_secret_backend.Purchase.Conserve.{Balanced, approve_proposals-Balanced}
use wms_secret_backend.Purchase.Board.{Reach, card, find}
use wms_secret_backend.Purchase.Decide.{
  Op, approve_op, dismiss_op, delete_op, run_all, run_all-Moves,
}
use wms_secret_backend.Purchase.Errors.{proposals-raised}

abbrev a_book : Book
a_book = record { id = 7; isbn = "979"; title = "t"; category_type = "IT"; standard_size = "" }

abbrev proposal : ℕ → ℕ → OrderProposal
proposal k book = record {
  id = k;
  book_id = book;
  proposed_quantity = 4;
  unit_cost = 600;
  status = pending;
  decided_by = none;
  order_id = none;
  trigger_type = manual;
  current_stock = 0;
  sales_velocity_30d = 0;
  rejected_quantity = 0;
  baseline_quantity = 4;
  urgency = medium;
}

abbrev board : Tables
board = record {
  store = record {
    next_id = 100;
    books = a_book ∷ [];
    locations = [];
    used_items = [];
    inventory = [];
    logs = [];
  };
  proposals = proposal 1 7 ∷ proposal 2 8 ∷ proposal 3 7 ∷ [];
  orders = [];
  order_items = [];
}

stocked :
    new_stock 7
      (approve_proposals "admin" none 0 (uuid 1 ∷ uuid 2 ∷ uuid 1 ∷ uuid 3 ∷ []) board).0.store
    ≡ 8
unfolding approve_proposals loop approve_turn execute fasttrack_new_stock_inbound add_quantity
    get_or_create_location
stocked = refl

-- The second deletion of a row comes before a query and is reported, the third behind one.
reported_twice :
    (delete_proposals
      (uuid 1 ∷ uuid 1 ∷ uuid 3 ∷ uuid 1 ∷ [])
      (dismiss_proposals "admin" (uuid 1 ∷ uuid 3 ∷ []) board).0).1
    ≡ some (record { done = 1 ∷ 1 ∷ 3 ∷ []; skipped = uuid 1 ∷ []; unflushed = none })
unfolding delete_proposals dismiss_proposals loop delete_turn dismiss_turn
reported_twice = refl

approve_proposals-Balanced_example :
    Balanced 7 board (approve_proposals "admin" none 0 (uuid 1 ∷ not_uuid ∷ []) board).0
approve_proposals-Balanced_example =
    approve_proposals-Balanced 7 "admin" none 0 (uuid 1 ∷ not_uuid ∷ []) board

abbrev day : List Op
day =
    approve_op "admin" none 0 (uuid 1 ∷ [])
    ∷ dismiss_op "admin" (uuid 1 ∷ uuid 3 ∷ [])
    ∷ delete_op (uuid 1 ∷ uuid 2 ∷ [])
    ∷ []

run_all-Moves_example :
    Reach (card (find 1 board.proposals)) (card (find 1 (run_all day board).proposals))
run_all-Moves_example = run_all-Moves day 1 board

proposals-raised_example :
    (approve_proposals "admin" none 0 ((uuid 1 ∷ []) ++ not_uuid ∷ uuid 3 ∷ []) board
      ≡ ((approve_proposals "admin" none 0 (uuid 1 ∷ []) board).0, none))
    × (dismiss_proposals "admin" ((uuid 1 ∷ []) ++ not_uuid ∷ uuid 3 ∷ []) board ≡ (board, none))
    × (delete_proposals ((uuid 1 ∷ []) ++ not_uuid ∷ uuid 3 ∷ []) board ≡ (board, none))
proposals-raised_example = proposals-raised "admin" none 0 (uuid 1 ∷ []) (uuid 3 ∷ []) board
