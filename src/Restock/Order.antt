-- ===== src/Restock/Order.antt =====
-- The order in which a scan serves the books.
use wms_secret_backend.Prelude.{
  ℕ, ◌+◌, ◌≤◌, ◌≡◌, refl, inl, inr, true, false, Option, none, some, List, [], ◌∷◌, length, arith,
  All, Bool-cases,
}
use wms_secret_backend.Prelude.Sort.{sort_by, sort_by-All, IsSortedBy, sort_by-IsSortedBy}
use wms_secret_backend.Picking.{Book}
use wms_secret_backend.Stock.{Store}
use wms_secret_backend.Purchase.{OrderProposal, Tables}
use wms_secret_backend.Restock.{Market, Context, Suggestion}
use wms_secret_backend.Restock.Scan.{
  Candidate, scan_limit, candidate, candidates, add, comes_first, count_of, scan_turn, scan_loop,
  scan_safety_stock,
}
use wms_secret_backend.Restock.Bounds.{OnCard}
use wms_secret_backend.Restock.Served.{
  IsTrue, IsNew, OnCandidate, candidate-IsTrue, Same, scan_turn-IsTurn, class_of,
}

-- The stock of each card is at least n.
abbrev Least : ℕ → List OrderProposal → Type 0
Least n ps = All (λ p. n ≤ p.current_stock) ps

-- In order of stock: the books that are out of stock first.
abbrev pub IsByStock : List OrderProposal → Type 0
IsByStock [] = Unit
IsByStock (p ∷ ps) = Least p.current_stock ps × IsByStock ps

comes_first_total : (c d : Candidate) → comes_first c d ≡ false → comes_first d c ≡ true
comes_first_total c d e = ground arith

comes_first_trans :
    (b c d : Candidate) → comes_first b c ≡ true → comes_first c d ≡ true → comes_first b d ≡ true
comes_first_trans b c d e f = ground arith

module _ (before : List OrderProposal) (s : Store) where
  candidates-IsTrue : (m : Market) (bs : List Book) → All (IsTrue before s) (candidates m s bs)
  candidates-IsTrue m [] = tt
  candidates-IsTrue m (b ∷ bs) =
      let rest = candidates-IsTrue m bs in
      elim (Bool-cases (m.is_active b.id)) [
        | inl e ↦
            rw e
              (go (candidates m s bs) (candidate m s b.id) (candidate-IsTrue before m s b.id) rest)
        | inr e ↦ rw e rest
      ]
    where
      go :
          (cs : List Candidate) (o : Option Candidate)
          → OnCandidate (IsTrue before s) o
          → All (IsTrue before s) cs
          → All (IsTrue before s) (add o cs)
      go cs none h r = r
      go cs (some c) h r = (h, r)

  -- The candidate that stands first has no more stock.
  first-least :
      (c d : Candidate)
      → IsTrue before s c
      → IsTrue before s d
      → comes_first c d ≡ true
      → c.stock ≤ d.stock
  first-least c d h k e =
      let a : c.class ≡ class_of c.stock = h.class in
      let b : d.class ≡ class_of d.stock = k.class in ground (arith, a, b)

  firsts-least :
      (c : Candidate) (cs : List Candidate)
      → IsTrue before s c
      → All (IsTrue before s) cs
      → All (λ d. comes_first c d ≡ true) cs
      → All (λ d. c.stock ≤ d.stock) cs
  firsts-least c [] h k e = tt
  firsts-least c (d ∷ cs) h k e = (first-least c d h k.0 e.0, firsts-least c cs h k.1 e.1)

-- What a scan promises of the cards that it creates, with n created before them.
pub record IsServed (before : List OrderProposal) (s : Store) (n : ℕ) (ps : List OrderProposal)
    : Type 0 where
  pub few : n + length ps ≤ scan_limit
  pub fresh : All (IsNew before s) ps
  pub by_stock : IsByStock ps

module _ (model : Context → Option Suggestion) (m : Market) (before : List OrderProposal)
    (s : Store) where
  add-Least :
      (x : ℕ) (c : Candidate) (o : Option OrderProposal) (ps : List OrderProposal)
      → x ≤ c.stock
      → OnCard (λ p. IsNew before s p × (p.current_stock ≡ c.stock)) o
      → Least x ps
      → Least x (add o ps)
  add-Least x c none ps l h r = r
  add-Least x c (some p) ps l h r = (rw (h.1) l, r)

  scan_loop-Least :
      (x n : ℕ) (cs : List Candidate) (t : Tables)
      → All (IsTrue before s) cs
      → All (λ c. x ≤ c.stock) cs
      → Same model m before s t
      → Least x (scan_loop model m before n cs t).0
  unfolding scan_loop
  scan_loop-Least x n [] t h l same = tt
  scan_loop-Least x n (c ∷ cs) t h l same =
      let out = scan_turn model m before n c t in
      let turn = scan_turn-IsTurn model m before s n c t h.0 same in
      add-Least x c out.0 _ l.0 turn.card
        (scan_loop-Least x (n + count_of out.0) cs out.1 h.1 l.1 turn.same)

  add-IsServed :
      (n : ℕ) (c : Candidate) (o : Option OrderProposal) (ps : List OrderProposal)
      → OnCard (λ p. IsNew before s p × (p.current_stock ≡ c.stock)) o
      → Least c.stock ps
      → IsServed before s (n + count_of o) ps
      → IsServed before s n (add o ps)
  add-IsServed n c none ps h l r =
      let f = r.few in record { few = omega (arith, f); fresh = r.fresh; by_stock = r.by_stock }
  add-IsServed n c (some p) ps h l r = record {
    few = omega (arith, r.few);
    fresh = (h.0, r.fresh);
    by_stock = (rw (h.1) l, r.by_stock);
  }

  scan_loop-IsServed :
      (n : ℕ) (cs : List Candidate) (t : Tables)
      → n ≤ scan_limit
      → All (IsTrue before s) cs
      → IsSortedBy comes_first cs
      → Same model m before s t
      → IsServed before s n (scan_loop model m before n cs t).0
  unfolding scan_loop
  scan_loop-IsServed n [] t b h l same = record {
    few = omega (arith, b);
    fresh = tt;
    by_stock = tt;
  }
  scan_loop-IsServed n (c ∷ cs) t b h l same =
      let out = scan_turn model m before n c t in
      let turn = scan_turn-IsTurn model m before s n c t h.0 same in
      let least = firsts-least before s c cs h.0 h.1 l.0 in
      let counted = turn.counted in
      let within : n + count_of out.0 ≤ scan_limit = ground (arith, counted, b) in
      add-IsServed n c out.0 _ turn.card
        (scan_loop-Least c.stock (n + count_of out.0) cs out.1 h.1 least turn.same)
        (scan_loop-IsServed (n + count_of out.0) cs out.1 within h.1 l.1 turn.same)

-- For any answers of the language model, a scan creates at most 8 cards, each for a book that had no
-- pending card before the scan, with the stock that the book had then, and in order of that stock:
-- the books that are out of stock come first.
pub scan_safety_stock-IsServed :
    (model : Context → Option Suggestion) (m : Market) (t : Tables)
    → IsServed t.proposals t.store 0 (scan_safety_stock model m t).0
unfolding scan_safety_stock
scan_safety_stock-IsServed model m t =
    let before = t.proposals in
    let found = candidates m t.store t.store.books in
    let true_all = candidates-IsTrue before t.store m t.store.books in
    scan_loop-IsServed model m before t.store 0 (sort_by comes_first found) t (omega arith)
      (sort_by-All comes_first (IsTrue before t.store) found true_all)
      (sort_by-IsSortedBy comes_first comes_first_total comes_first_trans found) (λ j. refl)
