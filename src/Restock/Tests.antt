-- ===== src/Restock/Tests.antt =====
-- A board with a book that has sold, and the theorems applied to it.
use wms_secret_backend.Prelude.{ℕ, ◌≡◌, refl, true, none, some, Option, List, [], ◌∷◌, map, arith}
use wms_secret_backend.Prelude.Sort.{sort_by, insert_by}
use wms_secret_backend.Picking.{Book}
use wms_secret_backend.Purchase.{inspection_reject, low, uuid, Tables}
use wms_secret_backend.Purchase.Decide.{approve_op}
use wms_secret_backend.Restock.{
  Outbound, Market, Context, Suggestion, amount, collect_restock_context, validate_decision,
  available, ever_sold,
}
use wms_secret_backend.Restock.Cards.{store_card, generate_and_store_proposal}
use wms_secret_backend.Restock.Bounds.{IsSafe, OnCard, generate_and_store_proposal-IsSafe}
use wms_secret_backend.Restock.Scan.{scan_safety_stock, scan_loop}
use wms_secret_backend.Restock.Order.{IsServed, scan_safety_stock-IsServed}
use wms_secret_backend.Restock.Single.{
  IsSingle, single, Act, decide, want, scan_stock, act_all, act_all-IsSingle,
}

abbrev book : ℕ → Book
book k = record { id = k; isbn = "979"; title = "t"; category_type = "IT"; standard_size = "" }

abbrev board : Tables
board = record {
  store = record {
    next_id = 100;
    books = book 7 ∷ book 8 ∷ book 9 ∷ [];
    locations = [];
    used_items = [];
    inventory = record { book_id = 8; location_id = 1; quantity = 3; created_at = 0 } ∷ [];
    logs = [];
  };
  proposals = [];
  orders = [];
  order_items = [];
}

abbrev sold : ℕ → ℕ → ℕ → Outbound
sold k n day = record { book_id = k; quantity = n; created_at = day }

abbrev market : ℕ → Market
market day = record {
  outbound = sold 7 30 95 ∷ sold 7 9 20 ∷ sold 8 2 90 ∷ [];
  base_price = λ k. 10_001;
  is_active = λ k. true;
  min_safety_stock = 5;
  now = day;
}

-- Three thousand copies, and no hurry.
abbrev wild : Context → Option Suggestion
wild c = some (record { reorder_quantity = amount 3_000; urgency = some low })

first_quantities :
    map (λ p. p.proposed_quantity) (scan_safety_stock wild (market 100) board).0 ≡ 21 ∷ 3 ∷ []
unfolding scan_safety_stock scan_loop generate_and_store_proposal collect_restock_context
    validate_decision store_card sort_by insert_by
first_quantities = refl

generate_and_store_proposal-IsSafe_example :
    OnCard
      (IsSafe (available 7 board.store) (ever_sold 7 (market 100).outbound))
      (generate_and_store_proposal wild (market 100) inspection_reject 2 7 board).0
generate_and_store_proposal-IsSafe_example =
    generate_and_store_proposal-IsSafe wild (market 100) inspection_reject 2 7 board

abbrev two_days : List (Market × ℕ)
two_days = (market 100, 2) ∷ (market 101, 3) ∷ []

scan_safety_stock-IsServed_example :
    IsServed board.proposals board.store 0 (scan_safety_stock wild (market 100) board).0
scan_safety_stock-IsServed_example = scan_safety_stock-IsServed wild (market 100) board

board-IsSingle : IsSingle board.proposals
board-IsSingle = single (λ k. omega arith)

abbrev day : List Act
day =
    scan_stock (market 100)
    ∷ want (market 100) inspection_reject 2 7
    ∷ decide (approve_op "admin" none 0 (uuid 100 ∷ []))
    ∷ scan_stock (market 101)
    ∷ []

act_all-IsSingle_example : IsSingle (act_all wild day board).proposals
act_all-IsSingle_example = act_all-IsSingle wild day board board-IsSingle
