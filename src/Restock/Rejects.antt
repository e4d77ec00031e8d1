-- ===== src/Restock/Rejects.antt =====
-- The rejected copies that a card adds up.
use mathlib.Core.Path.{ap}
use mathlib.Core.Option.{some-injective}
use wms_secret_backend.Prelude.{
  ℕ, ◌+◌, ◌≡◌, refl, inl, inr, true, Option, none, some, List, [], ◌∷◌, ◌++◌, ◌==◌, sum_of, arith,
  Bool-cases, ==_iff,
}
use wms_secret_backend.Picking.{set_by}
use wms_secret_backend.Stock.{first_by}
use wms_secret_backend.Purchase.{OrderProposal, inspection_reject, Tables}
use wms_secret_backend.Restock.{
  Market, Context, Suggestion, Decision, run_restock_agent, collect_restock_context,
  validate_decision,
}
use wms_secret_backend.Restock.Cards.{
  is_pending_of, existing_rejected, new_card, written, promoted, is_needless, wholesale, store_card,
  generate_and_store_proposal,
}

-- The rejected copies on the pending card of a book.
abbrev pub rejected_of : ℕ → List OrderProposal → ℕ
rejected_of k ps = existing_rejected inspection_reject (first_by (is_pending_of k) ps)

first_by-append :
    (k : ℕ) (ps : List OrderProposal) (p : OrderProposal)
    → first_by (is_pending_of k) ps ≡ none
    → is_pending_of k p ≡ true
    → first_by (is_pending_of k) (ps ++ p ∷ []) ≡ some p
first_by-append k [] p e h = rw h refl
first_by-append k (q ∷ qs) p e h = elim (Bool-cases (is_pending_of k q)) [
  | inl b ↦ let bad : some q ≡ none = rw b at e in absurd (cc)
  | inr b ↦ rw b (first_by-append k qs p (rw b at e) h)
]

first_by-set_by :
    (f : OrderProposal → OrderProposal) (k : ℕ) (ps : List OrderProposal) (p : OrderProposal)
    → ((q : OrderProposal) → is_pending_of k (f q) ≡ is_pending_of k q)
    → first_by (is_pending_of k) ps ≡ some p
    → first_by (is_pending_of k) (set_by (λ q. q.id) p.id f ps) ≡ some (f p)
first_by-set_by f k [] p same e = absurd (cc)
first_by-set_by f k (q ∷ qs) p same e = elim (Bool-cases (is_pending_of k q)) [
  | inl b ↦
      let found : q ≡ p = some-injective _ _ (rw b at e) in
      let hit = (==_iff q.id p.id).1 (ap (λ r. r.id) found) in
      let kept = same q in rw (hit, kept, b) (ap (λ r. some (f r)) found)
  | inr b ↦
      let later = first_by-set_by f k qs p same (rw b at e) in
      let kept = same q in
      elim (Bool-cases (q.id == p.id)) [ inl h ↦ rw (h, kept, b) later | inr h ↦ rw (h, b) later ]
]

module _ (model : Context → Option Suggestion) where
  stored-rejected :
      (m : Market) (cost k r : ℕ) (d : Decision) (o : Option OrderProposal) (t : Tables)
      → first_by (is_pending_of k) t.proposals ≡ o
      → rejected_of k
          (store_card
            (collect_restock_context m t.store k r)
            d
            cost
            inspection_reject
            k
            o
            t).1.proposals
        ≡ r
  unfolding store_card collect_restock_context
  stored-rejected m cost k r d none t e =
      let c = collect_restock_context m t.store k r in
      let card =
        written c d cost inspection_reject (new_card t.store.next_id k inspection_reject) in
      ap (existing_rejected inspection_reject) (first_by-append k t.proposals card e (ground arith))
  stored-rejected m cost k r d (some p) t e =
      let c = collect_restock_context m t.store k r in
      let write =
        λ (q : OrderProposal). written c d cost (promoted inspection_reject q.trigger_type) q in
      ap (existing_rejected inspection_reject) (first_by-set_by write k t.proposals p (λ q. refl) e)

  needless-zero :
      (m : Market) (k r : ℕ) (t : Tables)
      → is_needless (collect_restock_context m t.store k r) ≡ true
      → r ≡ 0
  unfolding collect_restock_context
  needless-zero m k r t e = ground arith

  generate-rejected :
      (m : Market) (rejected k : ℕ) (t : Tables)
      → rejected_of k
          (generate_and_store_proposal model m inspection_reject rejected k t).1.proposals
        ≡ rejected_of k t.proposals + rejected
  unfolding generate_and_store_proposal
  generate-rejected m rejected k t =
      let existing = first_by (is_pending_of k) t.proposals in
      let r = rejected + existing_rejected inspection_reject existing in
      let c = collect_restock_context m t.store k r in
      let d = validate_decision (run_restock_agent model c) c in
      let stored = stored-rejected m (wholesale (m.base_price k)) k r d existing t refl in
      elim (Bool-cases (is_needless c)) [
        | inl e ↦ let none_rejected = needless-zero m k r t e in rw e (omega (arith, none_rejected))
        | inr e ↦ rw e (omega (arith, stored))
      ]

  -- Copies of one book that are rejected one after another, each with what is read at its time.
  abbrev pub reject_all : ℕ → List (Market × ℕ) → Tables → Tables
  reject_all k [] t = t
  reject_all k (x ∷ xs) t =
      reject_all k xs (generate_and_store_proposal model x.0 inspection_reject x.1 k t).1

  -- Whatever the language model answers and whatever is read, after any rejections of copies of a
  -- book its pending card counts all of them, beside what it counted before: none is lost, none twice.
  pub reject_all-sum :
      (k : ℕ) (xs : List (Market × ℕ)) (t : Tables)
      → rejected_of k (reject_all k xs t).proposals
        ≡ rejected_of k t.proposals + sum_of (λ x. x.1) xs
  reject_all-sum k [] t = omega arith
  reject_all-sum k (x ∷ xs) t =
      let t' = (generate_and_store_proposal model x.0 inspection_reject x.1 k t).1 in
      let first = generate-rejected x.0 x.1 k t in
      let rest = reject_all-sum k xs t' in omega (arith, first, rest)
