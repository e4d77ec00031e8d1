-- ===== src/Restock/Scan.antt =====
-- The scan for low stock: `scan_safety_stock` of app/domains/po/service.py.
use wms_secret_backend.Prelude.{
  ℕ, ◌+◌, Bool, ◌&&◌, ◌||◌, Option, none, some, List, [], ◌∷◌, leb, ltb, ◌==◌, if◌then◌else◌, any,
}
use wms_secret_backend.Prelude.Sort.{sort_by}
use wms_secret_backend.Picking.{Book}
use wms_secret_backend.Stock.{Store}
use wms_secret_backend.Purchase.{OrderProposal, safety_stock, Tables}
use wms_secret_backend.Restock.{Market, Outbound, Context, Suggestion, available, ever_sold}
use wms_secret_backend.Restock.Cards.{is_pending_of, generate_and_store_proposal}

-- SCAN_LIMIT
abbrev pub scan_limit : ℕ
scan_limit = 8

-- A book that is out of stock has class 0, one that runs low class 1.
pub record Candidate : Type 0 where
  pub class : ℕ
  pub stock : ℕ
  pub book_id : ℕ

abbrev pub recent_demand : ℕ → ℕ → List Outbound → Bool
recent_demand k now ls = any (λ l. (l.book_id == k) && leb now (l.created_at + 30)) ls

abbrev pub candidate : Market → Store → ℕ → Option Candidate
candidate m s k =
    let stock = available k s in
    if (stock == 0) && ever_sold k m.outbound
    then some (record { class = 0; stock = stock; book_id = k })
    else if recent_demand k m.now m.outbound && ltb stock m.min_safety_stock
    then some (record { class = 1; stock = stock; book_id = k })
    else none

abbrev pub add {ℓ} : {A : Type ℓ} → Option A → List A → List A
add none xs = xs
add (some x) xs = x ∷ xs

abbrev pub candidates : Market → Store → List Book → List Candidate
candidates m s [] = []
candidates m s (b ∷ bs) =
    let rest = candidates m s bs in if m.is_active b.id then add (candidate m s b.id) rest else rest

abbrev pub comes_first : Candidate → Candidate → Bool
comes_first c d = ltb c.class d.class || ((c.class == d.class) && leb c.stock d.stock)

abbrev pub count_of {ℓ} : {A : Type ℓ} → Option A → ℕ
count_of none = 0
count_of (some x) = 1

module _ (model : Context → Option Suggestion) (m : Market) (before : List OrderProposal) where
  -- One candidate, with `n` cards created: nothing is done once the limit is reached, or for a book
  -- with a pending card before the scan.
  abbrev pub scan_turn : ℕ → Candidate → Tables → Option OrderProposal × Tables
  scan_turn n c t =
      if leb scan_limit n || any (is_pending_of c.book_id) before
      then (none, t)
      else generate_and_store_proposal model m safety_stock 0 c.book_id t

  unfoldable pub scan_loop : ℕ → List Candidate → Tables → List OrderProposal × Tables
  unfolding generate_and_store_proposal
  scan_loop n [] t = ([], t)
  scan_loop n (c ∷ cs) t =
      let (o, t') = scan_turn n c t in
      let (created, t'') = scan_loop (n + count_of o) cs t' in (add o created, t'')

-- The cards that are created, and the tables.
unfoldable pub scan_safety_stock :
    (Context → Option Suggestion) → Market → Tables → List OrderProposal × Tables
unfolding scan_loop sort_by
scan_safety_stock model m t =
    scan_loop model m t.proposals 0 (sort_by comes_first (candidates m t.store t.store.books)) t
