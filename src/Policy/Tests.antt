-- ===== src/Policy/Tests.antt =====
-- Runs of app/ai/agents/policy.py and app/core/ubci_matrix.py at concrete inputs.

use wms_secret_backend.Prelude.{
  ℕ, ◌-◌, ◌≡◌, refl, Bool, true, false, Option, none, some, List, [], ◌∷◌, length, String,
  if◌then◌else◌,
}
use wms_secret_backend.Policy.{Defect}
use wms_secret_backend.Policy.Wear.{edge_wear_profile, wear_points}
use wms_secret_backend.Policy.Scan.{scan}
use wms_secret_backend.Policy.StageA.{stage_a, conclude}
use wms_secret_backend.Policy.Verdict.{stage_a_score, points_off, has_fatal}
use wms_secret_backend.Policy.StageB.{
  Clause, Reference, Answer, answered, customer_pays, undetermined, charges_customer,
  evaluate_return_policy, search_clauses,
}
use wms_secret_backend.Policy.StageB.Grounds.{IsGuarded, Grounded, evaluate_return_policy-IsGuarded}
use wms_secret_backend.Policy.StageB.Agent.{Request}

abbrev found : String → ℕ → Bool → Defect
found type ratio suspect = record {
  type = type;
  label = "";
  description = "";
  ratio = some ratio;
  bbox = none;
  image_index = none;
  page_count = none;
  pages = none;
  level = none;
  text_overlap = false;
  evidence_suspect = suspect;
  applied_deduction = none;
  deduction_scope = none;
  deduction_group = none;
}

abbrev worn : Defect
worn = record (found "DMG_EDGE_WEAR" 4 false) {
  bbox = some (record { xmin = 10; ymin = 10; xmax = 60; ymax = 60 });
  image_index = some 0;
}

abbrev stain : Defect
stain = found "DMG_INT_STAIN" 20 false

abbrev wet : Defect
wet = found "DMG_EXT_WET" 1 false

abbrev clauses : List Clause
clauses =
    record {
      chunk_id = some "c1";
      doc_title = some "policy";
      clause_ref = some "16";
      authority_level = some "Internal";
      authority_rank = some 5;
    }
    ∷ record {
      chunk_id = some "c2";
      doc_title = some "terms";
      clause_ref = some "3";
      authority_level = some "Contract";
      authority_rank = some 2;
    }
    ∷ []

-- A platform without rules of its own.
abbrev search : Option String → List Clause
search none = clauses
search (some _) = []

-- An answer that cites one clause that binds and one that does not, and charges the customer though
-- it leaves open who is liable.
abbrev answer : List Clause → List Reference → Answer
answer _ _ = answered (record {
  return_accepted = some true;
  shipping_fee_bearer = some customer_pays;
  liability = undetermined;
  refund_ratio = none;
  cited_clauses =
      record {
        chunk_id = some "c1";
        doc_title = some "policy";
        clause_ref = some "16";
        authority_rank = none;
      }
      ∷ record {
        chunk_id = some "c2";
        doc_title = some "terms";
        clause_ref = some "3";
        authority_rank = none;
      }
      ∷ [];
  requires_human = false;
})

abbrev request : Request
request = record {
  vision_failed = false;
  defects = worn ∷ stain ∷ [];
  book_title = "";
  book_category = "";
  platform = "kyobo";
}

abbrev two : List Defect
two = worn ∷ stain ∷ []

score_of_two : (stage_a "" "" two).ubci_score ≡ 77
unfolding stage_a conclude scan wear_points edge_wear_profile
score_of_two = refl

score_of_wet : (stage_a "" "" (worn ∷ wet ∷ stain ∷ [])).ubci_score ≡ 0
unfolding stage_a conclude scan wear_points edge_wear_profile
score_of_wet = refl

-- The customer is spared, and the citation that does not bind is gone.
disposal_of_answer :
    charges_customer (evaluate_return_policy search answer "kyobo").verdict.shipping_fee_bearer
    ≡ false
unfolding evaluate_return_policy
disposal_of_answer = refl

cited_of_answer : length (evaluate_return_policy search answer "kyobo").verdict.cited_clauses ≡ 1
unfolding evaluate_return_policy
cited_of_answer = refl

stage_a_score_example :
    ((stage_a "" "" two).ledger.fatal ≡ has_fatal "" "" two)
    × ((stage_a "" "" two).ubci_score
        ≡ (if has_fatal "" "" two then 0 else 100 - points_off "" "" two))
stage_a_score_example = stage_a_score "" "" two

abbrev doubted : List Defect
doubted = worn ∷ found "DMG_INT_STAIN" 20 true ∷ []

evaluate_return_policy-IsGuarded_example :
    IsGuarded (evaluate_return_policy search answer "kyobo")
    × Grounded (search_clauses search answer "kyobo") (evaluate_return_policy search answer "kyobo")
evaluate_return_policy-IsGuarded_example = evaluate_return_policy-IsGuarded search answer "kyobo"
