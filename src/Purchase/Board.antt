-- ===== src/Purchase/Board.antt =====
-- The life of a proposal, as the board promises it, and the rows behind it.
use mathlib.Core.Path.{subst, sym}
use mathlib.Core.Option.{some-injective}
use wms_secret_backend.Prelude.{
  ℕ, ◌≡◌, inl, inr, refl, ap, ◌∙◌, true, not, Option, none, some, List, [], ◌∷◌, arith, ◌==◌,
  ==_iff, if◌then◌else◌, filter_by, any, All, Bool-cases,
}
use wms_secret_backend.Picking.{get_by, set_by}
use wms_secret_backend.Purchase.{
  ProposalStatus, pending, approved, dismissed, OrderProposal, is_pending, if_pending, get_pending,
  is_any_of,
}

-- A proposal is there with its status, or not there.
abbrev pub Card : Type 0
Card = Option ProposalStatus

pub data Move : Card → Card → Type 0 where
  approve : Move (some pending) (some approved)
  dismiss : Move (some pending) (some dismissed)
  remove_approved : Move (some approved) none
  remove_dismissed : Move (some dismissed) none

pub data Reach (c : Card) : Card → Type 0 where
  here : Reach c c
  then_move : {d e : Card} → Reach c d → Move d e → Reach c e

abbrev pub card : Option OrderProposal → Card
card none = none
card (some p) = some p.status

abbrev pub find : ℕ → List OrderProposal → Option OrderProposal
find k ps = get_by (λ p. p.id) k ps

pub find-id : (k : ℕ) (ps : List OrderProposal) (p : OrderProposal) → find k ps ≡ some p → p.id ≡ k
find-id k [] p e = cc
find-id k (q ∷ qs) p e = ground (arith, find-id k qs p)

is_pending→eq : (st : ProposalStatus) → is_pending st ≡ true → st ≡ pending
is_pending→eq pending e = refl
is_pending→eq approved e = cc
is_pending→eq dismissed e = cc

if_pending-some :
    (o : Option OrderProposal) (p : OrderProposal)
    → if_pending o ≡ some p
    → (o ≡ some p) × (p.status ≡ pending)
if_pending-some none p e = absurd (cc)
if_pending-some (some q) p e = elim (Bool-cases (is_pending q.status)) [
  | inl t ↦
      let e' : some q ≡ some p = rw t at e in
      (e', ap (λ r. r.status) (sym (some-injective _ _ e')) ∙ is_pending→eq q.status t)
  | inr f ↦ absurd (nothing (rw f at e))
]
  where
    nothing : none ≡ some p → ⊥
    nothing e = cc

pub get_pending-some :
    (j : ℕ) (ps : List OrderProposal) (p : OrderProposal)
    → get_pending j ps ≡ some p
    → (find j ps ≡ some p) × (p.status ≡ pending)
get_pending-some j ps p e = if_pending-some (find j ps) p e

abbrev pub on_some : (OrderProposal → OrderProposal) → Option OrderProposal → Option OrderProposal
on_some f none = none
on_some f (some p) = some (f p)

module _ (f : OrderProposal → OrderProposal) (same : (p : OrderProposal) → (f p).id ≡ p.id) where
  pub find-set_by :
      (k j : ℕ) (ps : List OrderProposal)
      → find k (set_by (λ q. q.id) j f ps) ≡ (if j == k then on_some f (find k ps) else find k ps)
  find-set_by k j [] = ground arith
  find-set_by k j (p ∷ ps) = ground (arith, same p, find-set_by k j ps)

  -- A pending proposal is decided: one card makes one move.
  pub decide-Reach :
      (c : Card) (k j : ℕ) (ps : List OrderProposal) (p : OrderProposal) (new : ProposalStatus)
      → get_pending j ps ≡ some p
      → (f p).status ≡ new
      → Move (some pending) (some new)
      → Reach c (card (find k ps))
      → Reach c (card (find k (set_by (λ q. q.id) p.id f ps)))
  decide-Reach c k j ps p new e s m r = elim (Bool-cases (p.id == k)) [
    | inr f ↦ rw (find-set_by k p.id ps, f) r
    | inl t ↦
        let (found, was) = get_pending-some j ps p e in
        let q : j ≡ k = sym (find-id j ps p found) ∙ (==_iff p.id k).0 t in
        let found' : find k ps ≡ some p = rw (← q) found in
        let r' : Reach c (some pending) = rw (← was) (rw found' at r) in
        rw (find-set_by k p.id ps, t, found') (rw s (then_move r' m))
  ]

pub find-filter :
    (k : ℕ) (ks : List ℕ) (ps : List OrderProposal)
    → find k (filter_by (λ q. not (is_any_of ks q)) ps)
      ≡ (if any (λ j. k == j) ks then none else find k ps)
find-filter k ks [] = ground arith
find-filter k ks (p ∷ ps) = elim (Bool-cases (p.id == k)) [
  | inl t ↦
      let q : p.id ≡ k = (==_iff p.id k).0 t in
      let same : is_any_of ks p ≡ any (λ j. k == j) ks = ap (λ n. any (λ j. n == j) ks) q in
      elim (Bool-cases (any (λ j. k == j) ks)) [
        | inl a ↦ rw (same, a) (find-filter k ks ps ∙ rw a refl)
        | inr b ↦ rw (same, b, t) refl
      ]
  | inr f ↦ elim (Bool-cases (is_any_of ks p)) [
    | inl a ↦ rw (a, f) (find-filter k ks ps)
    | inr b ↦ rw (b, f) (find-filter k ks ps)
  ]
]

pub All-any : (P : ℕ → Type 0) (k : ℕ) (ks : List ℕ) → any (λ j. k == j) ks ≡ true → All P ks → P k
All-any P k [] e h = absurd (cc)
All-any P k (j ∷ js) e h = elim (Bool-cases (k == j)) [
  | inl t ↦ subst P (sym ((==_iff k j).0 t)) h.0
  | inr f ↦ All-any P k js (rw f at e) h.1
]
