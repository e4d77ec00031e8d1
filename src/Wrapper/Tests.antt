-- ===== src/Wrapper/Tests.antt =====
-- A book of 67 points, and the theorem applied to it.
use wms_secret_backend.Prelude.{◌≡◌, ◌≢◌, refl, true, false, none, some, [], ◌∷◌}
use wms_secret_backend.Returns.{pending, approved}
use wms_secret_backend.Worker.{World, reject}
use wms_secret_backend.Worker.Process.{stored, acquired, answered, Visit, deliver}
use wms_secret_backend.Worker.Jobs.{status_of}
use wms_secret_backend.Override.{ubci_grade_from_score}
use wms_secret_backend.Wrapper.{
  FinalState, convert_state_to_decision, convert_final_state_to_worker_result,
}
use wms_secret_backend.Wrapper.Held.{convert_final_state_to_worker_result-unapproved}

abbrev sound : FinalState
sound = record {
  is_mint = some false;
  reason_code = some "OK";
  ubci_score = some 67;
  supervisor_decision = some "ISSUE_REPORT";
  defects = [];
  yolo_candidates = [];
}

-- It is rejected, although its grade is NORMAL.
turned_down :
    ((convert_final_state_to_worker_result sound).decision ≡ reject)
    × ((convert_final_state_to_worker_result sound).final_grade ≡ some "NORMAL")
unfolding convert_final_state_to_worker_result convert_state_to_decision ubci_grade_from_score
turned_down = (refl, refl)

abbrev visit : Visit
visit = record {
  task_id = 1;
  now = 1_000;
  lock = acquired;
  answer = answered (convert_final_state_to_worker_result sound);
  takes_place = true;
  takes_failure = true;
  task_saving = stored;
  status_saving = stored;
  result_saving = stored;
  failure_saving = stored;
}

abbrev world : World
world = record {
  store = record {
    next_id = 100;
    books = [];
    locations = [];
    used_items = [];
    inventory = [];
    logs = [];
  };
  jobs =
      record {
        id = 5;
        book_id = 7;
        task_id = none;
        status = pending;
        images = 1;
        ubci_score = none;
        agent_logs = record {
          lpn_barcode = none;
          reason_code = none;
          escalations = [];
          error = none;
          defects = [];
          yolo_candidates = [];
          suggested_grade = none;
          primary_reason_code = none;
          defect_coordinates = [];
          hitl_revalidation = none;
          admin_decision = none;
          admin_comment = none;
          target_grade = none;
          recall_history = [];
        };
        retry_count = 0;
        created_at = 0;
        updated_at = 0;
      }
      ∷ [];
  dlq = [];
  wanted = [];
}

convert_final_state_to_worker_result-unapproved_example :
    status_of 5 (deliver (λ n. visit) 5 false world).1 ≢ some approved
convert_final_state_to_worker_result-unapproved_example =
    convert_final_state_to_worker_result-unapproved (λ n. visit) (λ n. sound) 5 false world
      (λ n. refl) (λ n. refl) (λ e. absurd (cc))
