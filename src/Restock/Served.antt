-- ===== src/Restock/Served.antt =====
-- Which books a scan serves, and in which order.
use wms_secret_backend.Prelude.{
  ℕ, ◌+◌, ◌≤◌, ◌<◌, sym, ◌∙◌, ◌≡◌, refl, inl, inr, Bool, true, false, ◌||◌, ◌&&◌, Option, none,
  some, List, [], ◌∷◌, leb, ltb, ◌==◌, if◌then◌else◌, any, max, arith, Bool-cases,
}
use wms_secret_backend.Stock.{Store, first_by}
use wms_secret_backend.Purchase.{OrderProposal, Trigger, safety_stock, Tables}
use wms_secret_backend.Restock.{
  Market, Outbound, Decision, Context, Suggestion, available, ever_sold, run_restock_agent,
  collect_restock_context, validate_decision,
}
use wms_secret_backend.Restock.Cards.{
  is_pending_of, is_needless, wholesale, store_card, generate_and_store_proposal,
}
use wms_secret_backend.Restock.Scan.{
  Candidate, scan_limit, recent_demand, candidate, count_of, scan_turn,
}
use wms_secret_backend.Restock.Bounds.{OnCard}

abbrev pub class_of : ℕ → ℕ
class_of n = if n == 0 then 0 else 1

module _ (before : List OrderProposal) (s : Store) where
  -- The books that a candidate stands for, in this store.
  pub record IsTrue (c : Candidate) : Type 0 where
    pub stock : c.stock ≡ available c.book_id s
    pub class : c.class ≡ class_of c.stock

  -- A card for a book that had none, with its stock.
  pub record IsNew (p : OrderProposal) : Type 0 where
    pub none_before : any (is_pending_of p.book_id) before ≡ false
    pub stock : p.current_stock ≡ available p.book_id s

recent→ever :
    (k now : ℕ) (ls : List Outbound) → recent_demand k now ls ≡ true → ever_sold k ls ≡ true
recent→ever k now [] e = e
recent→ever k now (l ∷ ls) e = elim (Bool-cases (l.book_id == k)) [
  | inl q ↦ rw q refl
  | inr q ↦ rw q (recent→ever k now ls (rw q at e))
]

abbrev pub OnCandidate : (Candidate → Type 0) → Option Candidate → Type 0
OnCandidate P none = Unit
OnCandidate P (some c) = P c

class_out : (n : ℕ) (b : Bool) → ((n == 0) && b) ≡ true → 0 ≡ class_of n
class_out n b e = ground arith

class_low :
    (n : ℕ) (ever recent few : Bool)
    → ((n == 0) && ever) ≡ false
    → (recent ≡ true → ever ≡ true)
    → (recent && few) ≡ true
    → 1 ≡ class_of n
class_low n true recent few e i f = ground arith
class_low n false true few e i f = let q = i refl in absurd (cc)
class_low n false false few e i f = absurd (cc)

pub candidate-IsTrue :
    (before : List OrderProposal) (m : Market) (s : Store) (k : ℕ)
    → OnCandidate (IsTrue before s) (candidate m s k)
candidate-IsTrue before m s k =
    let out = (available k s == 0) && ever_sold k m.outbound in
    let low = recent_demand k m.now m.outbound && ltb (available k s) m.min_safety_stock in
    elim (Bool-cases out) [
      | inl e ↦
          rw e
            (record { stock = refl; class = class_out (available k s) (ever_sold k m.outbound) e })
      | inr e ↦ elim (Bool-cases low) [
        | inl f ↦
            rw (e, f)
              (record {
                stock = refl;
                class =
                    class_low (available k s) (ever_sold k m.outbound)
                      (recent_demand k m.now m.outbound) (ltb (available k s) m.min_safety_stock) e
                      (recent→ever k m.now m.outbound) f;
              })
        | inr f ↦ rw (e, f) tt
      ]
    ]

first_by-holds :
    (k : ℕ) (ps : List OrderProposal) (p : OrderProposal)
    → first_by (is_pending_of k) ps ≡ some p
    → p.book_id ≡ k
first_by-holds k [] p e = absurd (cc)
first_by-holds k (q ∷ qs) p e = ground (arith, first_by-holds k qs p)

-- What a proposal for book k shows, and that it leaves the stock of each book.
record IsFor (k : ℕ) (t : Tables) (out : Option OrderProposal × Tables) : Type 0 where
  shown : OnCard (λ p. (p.book_id ≡ k) × (p.current_stock ≡ available k t.store)) out.0
  kept : (j : ℕ) → available j out.1.store ≡ available j t.store

module _ (model : Context → Option Suggestion) (m : Market) where
  store_card-IsFor :
      (trigger : Trigger) (cost k r : ℕ) (d : Decision) (o : Option OrderProposal) (t : Tables)
      → first_by (is_pending_of k) t.proposals ≡ o
      → let out = store_card (collect_restock_context m t.store k r) d cost trigger k o t in
        IsFor k t (some out.0, out.1)
  unfolding store_card collect_restock_context
  store_card-IsFor trigger cost k r d none t e = record { shown = (refl, refl); kept = λ j. refl }
  store_card-IsFor trigger cost k r d (some p) t e = record {
    shown = (first_by-holds k t.proposals p e, refl);
    kept = λ j. refl;
  }

  generate-IsFor :
      (k : ℕ) (t : Tables) → IsFor k t (generate_and_store_proposal model m safety_stock 0 k t)
  unfolding generate_and_store_proposal
  generate-IsFor k t =
      let existing = first_by (is_pending_of k) t.proposals in
      let c = collect_restock_context m t.store k 0 in
      let card =
        store_card-IsFor safety_stock (wholesale (m.base_price k)) k 0
          (validate_decision (run_restock_agent model c) c) existing t refl in
      elim (Bool-cases (is_needless c)) [
        | inl e ↦ rw e (record { shown = tt; kept = λ j. refl })
        | inr e ↦ rw e card
      ]

OnCard-mono :
    (P Q : OrderProposal → Type 0)
    → ((p : OrderProposal) → P p → Q p)
    → (o : Option OrderProposal) → OnCard P o
    → OnCard Q o
OnCard-mono P Q f none h = tt
OnCard-mono P Q f (some p) h = f p h

leb-lt : (a b : ℕ) → leb a b ≡ false → b < a
leb-lt a b e = ground arith

or_no : (a b : Bool) → (a || b) ≡ false → (a ≡ false) × (b ≡ false)
or_no true b e = absurd (cc)
or_no false b e = (refl, e)

count_one : (o : Option OrderProposal) → count_of o ≤ 1
count_one none = omega arith
count_one (some p) = omega arith

module _ (model : Context → Option Suggestion) (m : Market) (before : List OrderProposal)
    (s : Store) where
  abbrev pub Same : Tables → Type 0
  Same t = (j : ℕ) → available j t.store ≡ available j s

  -- A turn: a card is for the candidate and new, and the stock is kept.
  pub record IsTurn (n : ℕ) (c : Candidate) (out : Option OrderProposal × Tables) : Type 0 where
    pub same : Same out.1
    pub card : OnCard (λ p. IsNew before s p × (p.current_stock ≡ c.stock)) out.0
    pub counted : n + count_of out.0 ≤ max n scan_limit

  pub scan_turn-IsTurn :
      (n : ℕ) (c : Candidate) (t : Tables)
      → IsTrue before s c
      → Same t
      → IsTurn n c (scan_turn model m before n c t)
  scan_turn-IsTurn n c t h same =
      let made = generate_and_store_proposal model m safety_stock 0 c.book_id t in
      let is_for = generate-IsFor model m c.book_id t in
      elim (Bool-cases (leb scan_limit n || any (is_pending_of c.book_id) before)) [
        | inl e ↦ rw e (record { same = same; card = tt; counted = ground arith })
        | inr e ↦
            let (open_still, none_yet) = or_no _ _ e in
            let below = leb-lt scan_limit n open_still in
            let one = count_one made.0 in
            rw e (record {
              same = λ j. is_for.kept j ∙ same j;
              card = OnCard-mono _ _ (λ p q. new p q.0 q.1 none_yet) made.0 is_for.shown;
              counted = ground (arith, below, one);
            })
      ]
    where
      new :
          (p : OrderProposal)
          → p.book_id ≡ c.book_id
          → p.current_stock ≡ available c.book_id t.store
          → any (is_pending_of c.book_id) before ≡ false
          → IsNew before s p × (p.current_stock ≡ c.stock)
      new p q shown none_yet =
          let here = shown ∙ same c.book_id in
          (record { none_before = rw q none_yet; stock = rw q here }, here ∙ sym h.stock)
