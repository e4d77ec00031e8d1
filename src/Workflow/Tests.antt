-- ===== src/Workflow/Tests.antt =====
-- An inspection whose first round has no score and whose second has one, and the theorems applied to it.
use wms_secret_backend.Prelude.{
  ℕ, zero, suc, ◌≡◌, refl, Bool, true, false, Option, none, some, [], ◌∷◌, if◌then◌else◌,
}
use wms_secret_backend.Workflow.{
  at_image, Finding, Inspection, malformed, index_out_of_range, critic_stage_a_integrity_check,
  all_issues, critic_agent, route_from_supervisor, supervisor_node, run_graph, escalated, reported,
}
use wms_secret_backend.Workflow.Ends.{is_clear, asks_again, run_graph-outcome}
use wms_secret_backend.Workflow.Reported.{IsTrusted, run_graph-IsTrusted}

abbrev finding_at : ℕ → Finding
finding_at i = record {
  is_dict = true;
  has_bbox = true;
  image_index = at_image i;
  conf_copied_from_candidate = false;
  bbox_ungrounded = false;
}

abbrev rounds : ℕ → Inspection
rounds zero = record { defects = []; invalid_images = 0; ubci_score = none }
rounds (suc n) = record { defects = finding_at 1 ∷ []; invalid_images = 1; ubci_score = some 90 }

abbrev no_model : ℕ → Option Bool
no_model n = none

abbrev objects : ℕ → Option Bool
objects n = some true

issues :
    critic_stage_a_integrity_check
      (finding_at 4 ∷ record (finding_at 0) { is_dict = false } ∷ [])
      4
      (some 90)
    ≡ index_out_of_range ∷ malformed ∷ []
unfolding critic_stage_a_integrity_check all_issues
issues = refl

second_round : run_graph 4 rounds no_model 2 0 0 ≡ some (reported 1)
unfolding run_graph critic_agent critic_stage_a_integrity_check all_issues supervisor_node
    route_from_supervisor
second_round = refl

objected : run_graph 4 (λ n. rounds (suc n)) objects 9 0 0 ≡ some (escalated 1)
unfolding run_graph critic_agent critic_stage_a_integrity_check all_issues supervisor_node
    route_from_supervisor
objected = refl

run_graph-IsTrusted_example : IsTrusted 4 (rounds 1) (no_model 1)
run_graph-IsTrusted_example = run_graph-IsTrusted 4 rounds no_model 2 0 0 1 second_round

run_graph-outcome_example :
    run_graph 4 rounds no_model 2 0 0
    ≡ some (
        if is_clear 4 (rounds 0) (no_model 0)
        then reported 0
        else if asks_again 4 (rounds 0) (no_model 0)
        then (if is_clear 4 (rounds 1) (no_model 1) then reported 1 else escalated 1)
        else escalated 0)
run_graph-outcome_example = run_graph-outcome 4 rounds no_model 0
