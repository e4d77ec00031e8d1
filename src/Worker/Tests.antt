-- ===== src/Worker/Tests.antt =====
-- A job with a label, and the theorems applied to it.
use wms_secret_backend.Prelude.{
  ℕ, zero, suc, ◌≡◌, ◌≢◌, refl, true, false, none, some, [], ◌∷◌, map, arith,
}
use wms_secret_backend.Stock.{get_or_create_location}
use wms_secret_backend.Stock.Assign.{assign_new, assign_rack_location_after_inspection}
use wms_secret_backend.Returns.{
  JobStatus, pending, processing, approved, rejected, hitl_required, failed, ReturnJob,
}
use wms_secret_backend.Worker.{World, AiDecision, approve, reject, execute_wms_action}
use wms_secret_backend.Worker.Process.{
  stored, unstored, interrupted, raised, acquired, Answer, answered, api_error, Visit, done,
  is_retry, process_inspection, run_from, deliver, trigger_ai_reinspection,
  requeue_stale_pending_inspections,
}
use wms_secret_backend.Worker.Jobs.{status_of}
use wms_secret_backend.Worker.Ended.{IsEnd, deliver-IsEnd}
use wms_secret_backend.Worker.Locked.{trigger_ai_reinspection-unapproved}
use wms_secret_backend.Worker.Again.{deliver_twice}
use wms_secret_backend.Worker.Limits.{IsLimited}

abbrev job : JobStatus → ℕ → ReturnJob
job status day = record {
  id = 5;
  book_id = 7;
  task_id = none;
  status = status;
  images = 1;
  ubci_score = none;
  agent_logs = record {
    lpn_barcode = some (record { day = 260_810; zone = "A"; digits = 0 ∷ 1 ∷ 2 ∷ [] });
    reason_code = none;
    escalations = [];
    error = none;
    defects = [];
    yolo_candidates = [];
    suggested_grade = none;
    primary_reason_code = none;
    defect_coordinates = [];
    hitl_revalidation = none;
    admin_decision = none;
    admin_comment = none;
    target_grade = none;
    recall_history = [];
  };
  retry_count = 0;
  created_at = 0;
  updated_at = day;
}

abbrev world : JobStatus → World
world status = record {
  store = record {
    next_id = 100;
    books = [];
    locations = [];
    used_items = [];
    inventory = [];
    logs = [];
  };
  jobs = job status 0 ∷ [];
  dlq = [];
  wanted = [];
}

abbrev says : AiDecision → Answer
says d = answered (record {
  decision = d;
  ubci_score = some 90;
  final_grade = some "GOOD";
  reason_code = none;
  defects = [];
  yolo_candidates = [];
  primary_reason_code = none;
})

abbrev visit : Answer → Visit
visit a = record {
  task_id = 1;
  now = 1_000;
  lock = acquired;
  answer = a;
  takes_place = true;
  takes_failure = true;
  task_saving = stored;
  status_saving = stored;
  result_saving = stored;
  failure_saving = stored;
}

-- The first two runs meet an error of the network.
abbrev shaky : AiDecision → ℕ → Visit
shaky d zero = visit api_error
shaky d (suc zero) = visit api_error
shaky d (suc (suc n)) = visit (says d)

approved_late : (deliver (shaky approve) 5 false (world pending)).0 ≡ done approved
unfolding deliver run_from process_inspection execute_wms_action
approved_late = refl

abbrev after_reset : World
after_reset = record (world hitl_required) {
  jobs = record (job pending 0) { retry_count = 1 } ∷ [];
}

asked_anew : trigger_ai_reinspection 5 (world hitl_required) ≡ some (5, true, after_reset)
unfolding trigger_ai_reinspection
asked_anew = refl

held : (deliver (shaky approve) 5 true after_reset).0 ≡ done hitl_required
unfolding deliver run_from process_inspection execute_wms_action
held = refl

-- A rejection is not held for the person.
not_held : (deliver (shaky reject) 5 true after_reset).0 ≡ done rejected
unfolding deliver run_from process_inspection execute_wms_action
not_held = refl

-- If the worker of a new inspection dies, the sweep delivers the job without the flag of the person,
-- and it is approved.
abbrev left_in_work : World
left_in_work = record (world hitl_required) { jobs = job processing 0 ∷ [] }

swept : requeue_stale_pending_inspections 481 left_in_work ≡ (5, false) ∷ []
unfolding requeue_stale_pending_inspections
swept = refl

approved_by_sweep : (deliver (shaky approve) 5 false left_in_work).0 ≡ done approved
unfolding deliver run_from process_inspection execute_wms_action
approved_by_sweep = refl

-- So is one that waits for its turn, if the job is older than two minutes.
swept_waiting : requeue_stale_pending_inspections 121 after_reset ≡ (5, false) ∷ []
unfolding requeue_stale_pending_inspections
swept_waiting = refl

-- The book of a rejection whose row cannot be saved has failed, and a proposal is asked for.
abbrev lost_rejection : Visit
lost_rejection = record (visit (says reject)) { result_saving = unstored }

proposal_left :
    let end = deliver (λ n. lost_rejection) 5 false (world pending) in
    (end.0 ≡ raised) × (end.1.wanted ≡ 5 ∷ []) × (status_of 5 end.1 ≡ some failed)
unfolding deliver run_from process_inspection execute_wms_action
proposal_left = (refl, refl, refl)

-- An approval is committed, the event for the page raises, and the job has failed; its book stays in
-- stock.
abbrev untold_approval : Visit
untold_approval = record (visit (says approve)) { result_saving = interrupted }

approval_undone :
    let end = deliver (λ n. untold_approval) 5 false (world pending) in
    (end.0 ≡ raised)
    × (status_of 5 end.1 ≡ some failed)
    × (map (λ u. u.item_status) end.1.store.used_items ≡ "IN_STOCK" ∷ [])
unfolding deliver run_from process_inspection execute_wms_action
    assign_rack_location_after_inspection assign_new get_or_create_location
approval_undone = (refl, refl, refl)

deliver-IsEnd_example :
    (is_retry (deliver (λ n. visit api_error) 5 false (world pending)).0 ≡ false)
    × IsEnd (λ n. visit api_error) 5 [] (deliver (λ n. visit api_error) 5 false (world pending))
deliver-IsEnd_example = deliver-IsEnd (λ n. visit api_error) 5 false (world pending) (λ n. refl)

trigger_ai_reinspection-unapproved_example :
    status_of 5 (deliver (shaky approve) 5 true after_reset).1 ≢ some approved
trigger_ai_reinspection-unapproved_example =
    trigger_ai_reinspection-unapproved (shaky approve) 5 5 (world hitl_required) after_reset
      asked_anew

deliver_twice_example :
    let w = (deliver (shaky approve) 5 false (world pending)).1 in
    (deliver (shaky reject) 5 false w).1 ≡ w
deliver_twice_example =
    deliver_twice (shaky approve) (shaky reject) 5 false (world pending) approved approved_late refl

world-IsLimited : IsLimited (world pending)
world-IsLimited = record { queued = omega arith; escalations = (omega arith, tt) }
