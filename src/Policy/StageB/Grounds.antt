-- ===== src/Policy/StageB/Grounds.antt =====
-- What a disposal of Stage B rests on.
use text.Mathlib.TextEquality.{eq_iff}
use wms_secret_backend.Prelude.{
  ◌≡◌, refl, ◌⊎◌, inl, inr, Bool, true, false, not, ◌&&◌, Option, none, some, List, [], ◌∷◌, map,
  String, arith, if◌then◌else◌, All, All-mono, filter_by, Bool-cases,
}
use wms_secret_backend.Policy.StageB.{
  Clause, Citation, Reference, ReturnPolicyVerdict, Status, ok, no_binding_clause, llm_unavailable,
  llm_error, ReturnPolicy, Answer, unavailable, failed, answered, is_nil, binding, reference, cite,
  hold, same_id, is_known, drop_foreign, is_undetermined, charges_customer, spare_customer,
  void_uncited, ask_human, settle, search_clauses, respond, evaluate_return_policy,
}

abbrev pub is_ok : Status → Bool
is_ok ok = true
is_ok _ = false

abbrev pub is_some {ℓ} : {A : Type ℓ} → Option A → Bool
is_some none = false
is_some (some _) = true

-- Every citation is of a binding clause among those found.
abbrev pub Grounded : List Clause → ReturnPolicy → Type 0
Grounded cs r = All (λ c. is_known (binding cs) c ≡ true) r.verdict.cited_clauses

-- What may be carried out without a person, and what never may.
pub record IsGuarded (r : ReturnPolicy) : Type 0 where
  spared :
      is_undetermined r.verdict.liability && charges_customer r.verdict.shipping_fee_bearer ≡ false
  unsettled : is_undetermined r.verdict.liability ≡ true → r.verdict.requires_human ≡ true
  alone : r.verdict.requires_human ≡ false → is_ok r.status ≡ true
  cited : is_ok r.status ≡ true → is_nil r.verdict.cited_clauses ≡ false
  accepted : is_some r.verdict.return_accepted ≡ true → is_ok r.status ≡ true
  charged : is_some r.verdict.shipping_fee_bearer ≡ true → is_ok r.status ≡ true
  refunded : is_some r.verdict.refund_ratio ≡ true → is_ok r.status ≡ true

pub hold-IsGuarded :
    (cited : List Citation) (refs : List Reference) (status : Status)
    → is_ok status ≡ false
    → IsGuarded (hold cited refs status)
hold-IsGuarded cited refs status h = record {
  spared = refl;
  unsettled = λ _. refl;
  alone = λ e. ground arith;
  cited = λ e. ground arith;
  accepted = λ e. ground arith;
  charged = λ e. ground arith;
  refunded = λ e. ground arith;
}

abbrev close : List Reference → ReturnPolicyVerdict → ReturnPolicy
close refs verdict =
    let (v, status) = void_uncited (spare_customer verdict) in
    record { verdict = ask_human v; reference_clauses = refs; status = status }

close-IsGuarded : (refs : List Reference) (v : ReturnPolicyVerdict) → IsGuarded (close refs v)
close-IsGuarded refs v = record {
  spared = ground arith;
  unsettled = λ e. ground arith;
  alone = λ e. ground arith;
  cited = λ e. ground arith;
  accepted = λ e. ground arith;
  charged = λ e. ground arith;
  refunded = λ e. ground arith;
}

settle-IsGuarded : (cs : List Clause) (v : ReturnPolicyVerdict) → IsGuarded (settle cs v)
unfolding settle
settle-IsGuarded cs v = close-IsGuarded (reference cs) (drop_foreign (binding cs) v)

filter_by-Known :
    (p : Citation → Bool) (xs : List Citation) → All (λ c. p c ≡ true) (filter_by p xs)
filter_by-Known p [] = tt
filter_by-Known p (x ∷ xs) = elim (Bool-cases (p x)) [
  | inl e ↦ rw e (e, filter_by-Known p xs)
  | inr e ↦ rw e (filter_by-Known p xs)
]

known_of_nil :
    (p : Citation → Bool) (xs : List Citation)
    → is_nil (filter_by (λ c. not (p c)) xs) ≡ true
    → All (λ c. p c ≡ true) xs
known_of_nil p [] h = tt
known_of_nil p (x ∷ xs) h = elim (Bool-cases (p x)) [
  | inl e ↦ (e, known_of_nil p xs (rw e at h))
  | inr e ↦ absurd (ground arith)
]

drop_foreign-Known :
    (bs : List Clause) (v : ReturnPolicyVerdict)
    → All (λ c. is_known bs c ≡ true) (drop_foreign bs v).cited_clauses
drop_foreign-Known bs v =
    by v v.cited_clauses refl
      (Bool-cases (is_nil (filter_by (λ c. not (is_known bs c)) v.cited_clauses)))
  where
    by :
        (v : ReturnPolicyVerdict) (xs : List Citation)
        → v.cited_clauses ≡ xs
        → (is_nil (filter_by (λ c. not (is_known bs c)) v.cited_clauses) ≡ true)
          ⊎ (is_nil (filter_by (λ c. not (is_known bs c)) v.cited_clauses) ≡ false)
        → All (λ c. is_known bs c ≡ true) (drop_foreign bs v).cited_clauses
    by v xs q (inl e) = rw e (known_of_nil (is_known bs) v.cited_clauses e)
    by v xs q (inr e) = rw e (filter_by-Known (is_known bs) v.cited_clauses)

close_cited :
    (refs : List Reference) (v : ReturnPolicyVerdict)
    → (close refs v).verdict.cited_clauses ≡ v.cited_clauses
close_cited refs v = ground arith

settle-Grounded : (cs : List Clause) (v : ReturnPolicyVerdict) → Grounded cs (settle cs v)
unfolding settle
settle-Grounded cs v =
    rw (close_cited (reference cs) (drop_foreign (binding cs) v))
      (drop_foreign-Known (binding cs) v)

same_id_refl : (i : Option String) → same_id i i ≡ true
same_id_refl none = refl
same_id_refl (some s) = (eq_iff s s).1 refl

is_known-cons :
    (b : Clause) (bs : List Clause) (c : Citation)
    → is_known bs c ≡ true
    → is_known (b ∷ bs) c ≡ true
unfolding is_known
is_known-cons b bs c h = rw h (ground arith)

cite-Known : (bs : List Clause) → All (λ c. is_known bs c ≡ true) (map cite bs)
unfolding is_known
cite-Known [] = tt
cite-Known (b ∷ bs) = (
  rw (same_id_refl b.chunk_id) refl,
  All-mono (λ c. is_known bs c ≡ true) (λ c. is_known (b ∷ bs) c ≡ true) (is_known-cons b bs)
      (map cite bs) (cite-Known bs),
)

module _ (search : Option String → List Clause)
    (model : List Clause → List Reference → Answer) where
  respond-Holds :
      (cs : List Clause) (a : Answer)
      → IsGuarded (respond search model cs a) × Grounded cs (respond search model cs a)
  unfolding respond
  respond-Holds cs unavailable = (
    hold-IsGuarded (map cite (binding cs)) (reference cs) llm_unavailable refl,
    cite-Known (binding cs),
  )
  respond-Holds cs failed = (
    hold-IsGuarded (map cite (binding cs)) (reference cs) llm_error refl,
    cite-Known (binding cs),
  )
  respond-Holds cs (answered v) = (settle-IsGuarded cs v, settle-Grounded cs v)

  choose_holds :
      (cs : List Clause) (none_binds : Bool) (a : Answer)
      → let r =
          if none_binds
          then hold [] (reference cs) no_binding_clause
          else respond search model cs a in
        IsGuarded r × Grounded cs r
  choose_holds cs true a = (hold-IsGuarded [] (reference cs) no_binding_clause refl, tt)
  choose_holds cs false a = respond-Holds cs a

  -- Whatever the search finds and the model answers, a disposal that is not left to a person has a
  -- citation, and so has one that accepts or refuses a return, names who pays, or refunds; the
  -- customer pays no fee while it is open who is liable, and then a person decides; and every
  -- citation is of a clause found that binds.
  pub evaluate_return_policy-IsGuarded :
      (platform : String)
      → IsGuarded (evaluate_return_policy search model platform)
        × Grounded
            (search_clauses search model platform)
            (evaluate_return_policy search model platform)
  unfolding evaluate_return_policy
  evaluate_return_policy-IsGuarded platform =
      let cs = search_clauses search model platform in
      choose_holds cs (is_nil (binding cs)) (model (binding cs) (reference cs))
