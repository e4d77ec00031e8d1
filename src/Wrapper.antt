-- ===== src/Wrapper.antt =====
-- What the worker is told of a run of the graph of agents: the conversions of
-- app/ai/langgraph_wrapper.py.
pub mod Held
mod Tests
use text.Mathlib.Text.{◌==◌ as str_eq}
use wms_secret_backend.Prelude.{
  ℕ, ◌≤◌, ◌≡◌, ◌≢◌, ◌⊎◌, refl, sym, ap, ◌∙◌, inl, inr, Bool, true, false, ◌&&◌, ◌||◌, Option, none,
  some, List, [], ◌∷◌, String, arith, leb, leb→le, if◌then◌else◌, Bool-cases,
}
use wms_secret_backend.Returns.{LoggedDefect, Candidate}
use wms_secret_backend.Worker.{AiDecision, approve, reject, hitl, unknown, AiResult}
use wms_secret_backend.Override.{ubci_grade_from_score}

-- The state at the end of the graph, with the keys that are read; a text that is missing is none.
pub record FinalState : Type 0 where
  pub is_mint : Option Bool
  pub reason_code : Option String
  pub ubci_score : Option ℕ
  pub supervisor_decision : Option String
  pub defects : List LoggedDefect
  pub yolo_candidates : List (Option Candidate)

abbrev pub is_text : String → Option String → Bool
is_text t none = false
is_text t (some s) = str_eq s t

abbrev pub is_true : Option Bool → Bool
is_true none = false
is_true (some b) = b

abbrev pub at_least : ℕ → Option ℕ → Bool
at_least n none = false
at_least n (some m) = leb n m

abbrev pub asks_person : FinalState → Bool
asks_person s =
    is_text "ESCALATE_HUMAN" s.supervisor_decision || is_text "AWAITING_HUMAN_REVIEW" s.reason_code

unfoldable pub convert_state_to_decision : FinalState → AiDecision
convert_state_to_decision s =
    if asks_person s
    then hitl
    else if is_true s.is_mint
    then approve
    else if is_text "OK" s.reason_code && at_least 70 s.ubci_score
    then approve
    else reject

-- An absent type is the empty text here, and is told as none.
abbrev first_type : List LoggedDefect → Option String
first_type [] = none
first_type (d ∷ ds) = if str_eq d.seen.type "" then none else some d.seen.type

unfoldable pub convert_final_state_to_worker_result : FinalState → AiResult
unfolding convert_state_to_decision
convert_final_state_to_worker_result s = record {
  decision = convert_state_to_decision s;
  ubci_score = s.ubci_score;
  final_grade = some (if is_true s.is_mint then "MINT" else ubci_grade_from_score s.ubci_score);
  reason_code = s.reason_code;
  defects = s.defects;
  yolo_candidates = s.yolo_candidates;
  primary_reason_code = first_type s.defects;
}
