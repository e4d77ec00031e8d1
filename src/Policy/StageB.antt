-- ===== src/Policy/StageB.antt =====
-- Stage B of app/ai/agents/policy.py: `evaluate_return_policy`, the disposal of a return, and its use
-- by `policy_agent`. The search in the rule base (app/core/rag_service.py, over an embedding and a
-- vector database) and the language model are parameters. The texts of the prompt and of the
-- rationale are left out.
pub mod Grounds
pub mod Agent
use text.Mathlib.Text.{◌==◌ as str_eq}
use wms_secret_backend.Prelude.{
  ℕ, Bool, true, false, not, ◌&&◌, ◌||◌, Option, none, some, List, [], ◌∷◌, map, String,
  if◌then◌else◌, any, filter_by,
}

pub record Clause : Type 0 where
  pub chunk_id : Option String
  pub doc_title : Option String
  pub clause_ref : Option String
  pub authority_level : Option String
  pub authority_rank : Option ℕ

-- PolicyClauseCitation of app/ai/agents/schemas.py, and the same keys of a clause.
pub record Citation : Type 0 where
  pub chunk_id : Option String
  pub doc_title : Option String
  pub clause_ref : Option String
  pub authority_rank : Option ℕ

pub record Reference : Type 0 where
  pub doc_title : Option String
  pub clause_ref : Option String
  pub authority_level : Option String

pub data Bearer : Type 0 where
  customer_pays seller_pays carrier_pays : Bearer

pub data Liability : Type 0 where
  customer carrier warehouse undetermined : Liability

-- What the language model fills in. The refund is in thousandths.
pub record ReturnPolicyVerdict : Type 0 where
  pub return_accepted : Option Bool
  pub shipping_fee_bearer : Option Bearer
  pub liability : Liability
  pub refund_ratio : Option ℕ
  pub cited_clauses : List Citation
  pub requires_human : Bool

pub data Status : Type 0 where
  ok no_binding_clause llm_unavailable llm_error uncited_verdict exception : Status

pub record ReturnPolicy : Type 0 where
  pub verdict : ReturnPolicyVerdict
  pub reference_clauses : List Reference
  pub status : Status

-- `llm_mini` that is not there, a call that raises, or a verdict.
pub data Answer : Type 0 where
  unavailable failed : Answer
  answered : ReturnPolicyVerdict → Answer

abbrev pub is_nil {ℓ} : {A : Type ℓ} → List A → Bool
is_nil [] = true
is_nil (_ ∷ _) = false

-- Membership of `authority_level` in BINDING_AUTHORITY.
unfoldable pub is_binding : Clause → Bool
is_binding c = elim (c.authority_level) [
  | none ↦ false
  | some level ↦ str_eq level "Internal" || str_eq level "Statute"
]

abbrev pub binding : List Clause → List Clause
binding cs = filter_by is_binding cs

abbrev pub reference : List Clause → List Reference
reference cs =
    map
      (λ c. record {
        doc_title = c.doc_title;
        clause_ref = c.clause_ref;
        authority_level = c.authority_level;
      })
      (filter_by (λ c. not (is_binding c)) cs)

abbrev pub cite : Clause → Citation
cite c = record {
  chunk_id = c.chunk_id;
  doc_title = c.doc_title;
  clause_ref = c.clause_ref;
  authority_rank = c.authority_rank;
}

-- What is returned where nothing is decided.
abbrev pub hold : List Citation → List Reference → Status → ReturnPolicy
hold cited refs status = record {
  verdict = record {
    return_accepted = none;
    shipping_fee_bearer = none;
    liability = undetermined;
    refund_ratio = none;
    cited_clauses = cited;
    requires_human = true;
  };
  reference_clauses = refs;
  status = status;
}

abbrev pub same_id : Option String → Option String → Bool
same_id none none = true
same_id (some a) (some b) = str_eq a b
same_id _ _ = false

-- Membership of a chunk's id in `binding_ids`.
unfoldable pub is_known : List Clause → Citation → Bool
is_known cs c = any (λ b. same_id b.chunk_id c.chunk_id) cs

-- The citations of clauses that do not bind are taken out.
abbrev pub drop_foreign : List Clause → ReturnPolicyVerdict → ReturnPolicyVerdict
drop_foreign cs v =
    let dropped = filter_by (λ c. not (is_known cs c)) v.cited_clauses in
    if is_nil dropped
    then v
    else record v { cited_clauses = filter_by (is_known cs) v.cited_clauses }

abbrev pub is_undetermined : Liability → Bool
is_undetermined undetermined = true
is_undetermined _ = false

abbrev pub charges_customer : Option Bearer → Bool
charges_customer (some customer_pays) = true
charges_customer _ = false

-- Article 16-3 (2): no fee for the customer while it is open who is liable.
abbrev pub spare_customer : ReturnPolicyVerdict → ReturnPolicyVerdict
spare_customer v =
    if is_undetermined v.liability && charges_customer v.shipping_fee_bearer
    then record v { shipping_fee_bearer = none; requires_human = true }
    else v

-- A verdict without a citation is void.
abbrev pub void_uncited : ReturnPolicyVerdict → ReturnPolicyVerdict × Status
void_uncited v =
    if is_nil v.cited_clauses
    then (
      record v {
        return_accepted = none;
        shipping_fee_bearer = none;
        refund_ratio = none;
        requires_human = true;
      },
      uncited_verdict,
    )
    else (v, ok)

abbrev pub ask_human : ReturnPolicyVerdict → ReturnPolicyVerdict
ask_human v = if is_undetermined v.liability then record v { requires_human = true } else v

-- What is done with a verdict of the model, in the order of the code.
unfoldable pub settle : List Clause → ReturnPolicyVerdict → ReturnPolicy
unfolding is_known is_binding
settle cs verdict =
    let (v, status) = void_uncited (spare_customer (drop_foreign (binding cs) verdict)) in
    record { verdict = ask_human v; reference_clauses = reference cs; status = status }

module _ (search : Option String → List Clause)
    (model : List Clause → List Reference → Answer) where
  -- The clauses of the platform and the common ones; where there is none, those of all platforms.
  unfoldable pub search_clauses : String → List Clause
  search_clauses platform =
      if str_eq platform ""
      then search none
      else (let found = search (some platform) in if is_nil found then search none else found)

  unfoldable pub respond : List Clause → Answer → ReturnPolicy
  unfolding settle is_binding
  respond cs unavailable = hold (map cite (binding cs)) (reference cs) llm_unavailable
  respond cs failed = hold (map cite (binding cs)) (reference cs) llm_error
  respond cs (answered v) = settle cs v

  unfoldable pub evaluate_return_policy : String → ReturnPolicy
  unfolding search_clauses respond is_binding
  evaluate_return_policy platform =
      let cs = search_clauses platform in
      if is_nil (binding cs)
      then hold [] (reference cs) no_binding_clause
      else respond cs (model (binding cs) (reference cs))
