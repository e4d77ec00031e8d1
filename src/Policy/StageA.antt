-- ===== src/Policy/StageA.antt =====
-- Stage A of `policy_agent` of app/ai/agents/policy.py after its loop: the score, grade and decision.
use wms_secret_backend.Prelude.{
  ℕ, ◌-◌, max, min, Bool, true, false, not, ◌&&◌, Option, none, some, List, [], ◌∷◌, String, ◌==◌,
  if◌then◌else◌,
}
use wms_secret_backend.Ubci.{base_score, grade_for, decision_for}
use wms_secret_backend.Policy.{
  Defect, Scope, single, group, excluded, Group, edge_wear_group, workbook_doodle_group,
}
use wms_secret_backend.Policy.Wear.{edge_wear_profile, wear_points}
use wms_secret_backend.Policy.Scan.{Context, Ledger, blank, scan, is_workbook}

abbrev is_wear_group : Option Group → Bool
is_wear_group none = false
is_wear_group (some edge_wear_group) = true
is_wear_group (some workbook_doodle_group) = false

abbrev is_excluded : Option Scope → Bool
is_excluded none = false
is_excluded (some single) = false
is_excluded (some group) = false
is_excluded (some excluded) = true

-- The loop after the loop, which writes the points of the group into its members.
unfoldable pub engrave : ℕ → List Defect → List Defect
engrave points [] = []
engrave points (d ∷ ds) =
    (if is_wear_group d.deduction_group && not (is_excluded d.deduction_scope)
      then record d { applied_deduction = some points }
      else d)
    ∷ engrave points ds

pub record Judgement : Type 0 where
  pub ubci_score : ℕ
  pub grade : String
  pub decision : String
  pub score_unverified : Bool
  pub ledger : Ledger
  pub defects : List Defect

abbrev is_nil : {A : Type 0} → List A → Bool
is_nil [] = true
is_nil (_ ∷ _) = false

abbrev pub unverified : List Defect → Ledger → Bool
unverified ds st = not (is_nil ds) && (st.total == 0) && not (is_nil st.suspects)

unfoldable pub conclude : List Defect → Ledger → List Defect → Judgement
unfolding grade_for decision_for
conclude ds st marked =
    if st.fatal
    then record {
      ubci_score = 0;
      grade = "REJECT C급 (폐기)";
      decision = "REJECT";
      score_unverified = false;
      ledger = st;
      defects = marked;
    }
    else let score = max 0 (min base_score (base_score - st.total)) in
      record {
        ubci_score = score;
        grade = if unverified ds st then "판정 보류 (증거 대조 전건 반려)" else grade_for score;
        decision = if unverified ds st then "HITL" else decision_for score;
        score_unverified = unverified ds st;
        ledger = st;
        defects = marked;
      }

abbrev pub context : String → String → List Defect → Context
context title category ds = record {
  workbook = is_workbook title category;
  wear_ded = wear_points (edge_wear_profile ds);
}

unfoldable pub stage_a : String → String → List Defect → Judgement
stage_a title category ds =
    let ctx = context title category ds in
    let (st, ds') = scan ctx blank ds in
    conclude ds st (if st.wear_added then engrave ctx.wear_ded ds' else ds')
