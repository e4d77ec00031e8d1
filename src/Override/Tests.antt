-- ===== src/Override/Tests.antt =====
-- A book that waits for a person, and the theorems applied to it.
use wms_secret_backend.Prelude.{◌≡◌, ◌≢◌, refl, true, none, some, List, [], ◌∷◌, map}
use wms_secret_backend.Policy.Wear.{wear_points, edge_wear_profile}
use wms_secret_backend.Policy.Scan.{scan}
use wms_secret_backend.Policy.StageA.{stage_a, conclude}
use wms_secret_backend.Stock.{other_url, get_or_create_location}
use wms_secret_backend.Stock.Assign.{assign_rack_location_after_inspection, assign_new}
use wms_secret_backend.Returns.{pending, approved, hitl_required, ReturnJob}
use wms_secret_backend.Worker.{World, approve as ai_approve, find_job}
use wms_secret_backend.Worker.Process.{
  stored, acquired, answered, Visit, reset, deliver, trigger_ai_reinspection,
}
use wms_secret_backend.Worker.Jobs.{status_of}
use wms_secret_backend.Override.{ubci_grade_from_score, band_of, spells, clamp_ubci_score_to_grade}
use wms_secret_backend.Override.Edits.{
  apply_bbox_edits, exclude_all, adopt_all, edit_all, add_all, change_at, item_at,
}
use wms_secret_backend.Override.Score.{preview, rescored, shown, preview_score_with_edits}
use wms_secret_backend.Override.Session.{
  HitlOverrideRequest, Tables, Session, Placing, placed, bad_request, goes, place,
}
use wms_secret_backend.Override.Submit.{
  approve, decide, record_decision, verdict_of, run_items, Outcome, on_item, error,
  submit_hitl_override,
}
use wms_secret_backend.Override.Recall.{recalled, meant, recall_inventory_to_hitl}
use wms_secret_backend.Override.Kept.{Extends, apply_bbox_edits-Extends}
use wms_secret_backend.Override.Bands.{ubci_grade_from_score-clamp}
use wms_secret_backend.Override.Previewed.{preview_score_with_edits-approved}
use wms_secret_backend.Override.Reconsidered.{
  recall_inventory_to_hitl-unapproved, on_item-unapproved,
}
use wms_secret_backend.Override.Served.{handled}
use wms_secret_backend.Override.Examples.{
  desk, job, no_key, one_excluded, request, session, tables, torn,
}
use wms_secret_backend.Override.Batch.{
  IsCarriedOut, known_in, submit_hitl_override-IsCarriedOut, submit_hitl_override-error,
}

apply_bbox_edits-Extends_example :
    Extends (torn ∷ torn ∷ []) (apply_bbox_edits (torn ∷ torn ∷ []) [] one_excluded)
apply_bbox_edits-Extends_example = apply_bbox_edits-Extends (torn ∷ torn ∷ []) [] one_excluded

good : band_of "good" ≡ some (85, 94)
unfolding band_of spells
good = refl

ubci_grade_from_score-clamp_example :
    band_of (ubci_grade_from_score (clamp_ubci_score_to_grade (some 100) (some "good")))
    ≡ some (85, 94)
ubci_grade_from_score-clamp_example = ubci_grade_from_score-clamp (some 100) "good" (85, 94) good

previewed :
    preview_score_with_edits (some 5) one_excluded (tables hitl_required).world
    ≡ shown (preview one_excluded (job hitl_required))
unfolding preview_score_with_edits
previewed = refl

-- One tear of three percent.
shown_score : (preview one_excluded (job hitl_required)).ubci_score ≡ 95
unfolding preview apply_bbox_edits exclude_all adopt_all edit_all add_all change_at item_at stage_a
    conclude scan wear_points edge_wear_profile
shown_score = refl

preview_score_with_edits-approved_example :
    let v = preview one_excluded (job hitl_required) in
    let r = request "APPROVE_NORMAL" v.grade in
    (s' : Session) × (j : ReturnJob) × (on_item desk (r, placed) session ≡ goes s')
    × (find_job 5 s'.live.world.jobs ≡ some j)
    × (j.status ≡ approved)
    × (j.ubci_score ≡ some v.ubci_score)
unfolding verdict_of
preview_score_with_edits-approved_example =
    preview_score_with_edits-approved desk 5
      (request "APPROVE_NORMAL" (preview one_excluded (job hitl_required)).grade)
      (preview one_excluded (job hitl_required)) session previewed refl refl refl refl tt

abbrev downgrade : HitlOverrideRequest
downgrade = request "APPROVE_DOWNGRADE" (some "NORMAL")

abbrev visit : Visit
visit = record {
  task_id = 1;
  now = 1_000;
  lock = acquired;
  answer = answered (record {
    decision = ai_approve;
    ubci_score = some 90;
    final_grade = some "GOOD";
    reason_code = none;
    defects = [];
    yolo_candidates = [];
    primary_reason_code = none;
  });
  takes_place = true;
  takes_failure = true;
  task_saving = stored;
  status_saving = stored;
  result_saving = stored;
  failure_saving = stored;
}

abbrev after_recall : Tables
after_recall = record {
  world = record (tables hitl_required).world {
    jobs =
        record (job hitl_required) {
          agent_logs = record (job hitl_required).agent_logs {
            recall_history =
                record {
                  reason = "관리자 임의 회수";
                  previous_status = approved;
                  previous_score = some 90;
                  previous_grade = none;
                }
                ∷ [];
          };
        }
        ∷ [];
  };
  audits =
      record {
        target_id = 5;
        action = "RECALL_TO_HITL";
        previous_state = approved;
        new_state = hitl_required;
        target_grade = none;
        primary_reason_code = "ADMIN_RECALL";
        defect_coordinates = [];
        review_duration_ms = none;
      }
      ∷ [];
}

taken_back : recall_inventory_to_hitl 5 none (tables approved) ≡ recalled 5 after_recall
unfolding recall_inventory_to_hitl meant
taken_back = refl

abbrev asked_anew : World
asked_anew = record after_recall.world { jobs = map reset after_recall.world.jobs }

asked : trigger_ai_reinspection 5 after_recall.world ≡ some (5, true, asked_anew)
unfolding trigger_ai_reinspection
asked = refl

recall_inventory_to_hitl-unapproved_example :
    (true ≡ true) × (status_of 5 (deliver (λ n. visit) 5 true asked_anew).1 ≢ some approved)
recall_inventory_to_hitl-unapproved_example =
    recall_inventory_to_hitl-unapproved (λ n. visit) 5 5 none (tables approved) after_recall 5 true
      asked_anew taken_back asked

on_item-unapproved_example :
    (s' : Session) × (on_item desk (request "RE_CHECK" none, placed) session ≡ goes s')
    × (s'.sent ≡ (5, true) ∷ [])
    × (status_of 5 s'.disk.world ≡ some pending)
    × (status_of 5 (deliver (λ n. visit) 5 true s'.disk.world).1 ≢ some approved)
unfolding verdict_of
on_item-unapproved_example =
    on_item-unapproved (λ n. visit) desk placed 5 (request "RE_CHECK" none) (job hitl_required)
      session refl refl refl refl

-- A ticket without a job is passed over.
abbrev items : List (HitlOverrideRequest × Placing)
items =
    (downgrade, placed)
    ∷ (record downgrade { ticket_id = some 6 }, placed)
    ∷ (request "RE_CHECK" none, placed)
    ∷ []

submit_hitl_override-IsCarriedOut_example :
    IsCarriedOut
      (handled (known_in (tables hitl_required)) items)
      (tables hitl_required)
      (submit_hitl_override desk items (tables hitl_required))
unfolding verdict_of
submit_hitl_override-IsCarriedOut_example =
    submit_hitl_override-IsCarriedOut desk items (tables hitl_required) (refl, (refl, (refl, tt)))

submit_hitl_override-error_example :
    let out =
      submit_hitl_override desk
        ((downgrade, placed) ∷ (no_key, placed) ∷ [])
        (tables hitl_required) in
    (out.reply ≡ error bad_request) × (out.certificates ≡ [])
unfolding verdict_of
submit_hitl_override-error_example =
    submit_hitl_override-error desk ((downgrade, placed) ∷ []) [] (no_key, placed)
      (tables hitl_required) (refl, tt) refl

-- The request ends with an error, and yet the first book stays approved and in stock, without a row
-- for the audit, and no certificate is asked for.
abbrev half_done : Outcome
half_done =
    submit_hitl_override desk ((downgrade, placed) ∷ (no_key, placed) ∷ []) (tables hitl_required)

left_behind :
    (status_of 5 half_done.tables.world ≡ some approved)
    × (half_done.tables.audits ≡ [])
    × (half_done.certificates ≡ [])
unfolding submit_hitl_override run_items on_item decide approve place record_decision verdict_of
    assign_rack_location_after_inspection rescored
left_behind = (refl, refl, refl)

-- The link that an approval gives is of the form that is not served.
link :
    map (λ u. u.certificate_url) half_done.tables.world.store.used_items
    ≡ some (other_url "/certificate/CERT-20260728-0A1B2C") ∷ []
unfolding submit_hitl_override run_items on_item decide approve place record_decision verdict_of
    assign_rack_location_after_inspection assign_new get_or_create_location rescored
link = refl
