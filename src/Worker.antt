-- ===== src/Worker.antt =====
-- The worker that inspects a returned book: app/worker/tasks.py with the rows of
-- app/domains/returns/job_service.py. What the lock, the graph of agents, the database and the queue
-- for failures do at a visit is a parameter; events, notifications and texts are left out.
pub mod Process
pub mod Runs
pub mod Jobs
pub mod Ended
pub mod Locked
pub mod Again
pub mod Limits
mod Tests
use wms_secret_backend.Prelude.{
  ℕ, zero, suc, ◌+◌, ◌-◌, ◌≡◌, refl, Bool, true, false, Option, none, some, List, [], ◌∷◌, ◌++◌,
  String, arith, ltb, if◌then◌else◌, length, drop,
}
use wms_secret_backend.Picking.{get_by, set_by}
use wms_secret_backend.Returns.{
  JobStatus, pending, processing, approved, rejected, hitl_required, failed, Escalation,
  LoggedDefect, Candidate, ReturnJob, build_defect_coordinates,
}
use wms_secret_backend.Stock.{Label, Store}
use wms_secret_backend.Stock.Assign.{Assignment, assign_rack_location_after_inspection}

pub record DlqEntry : Type 0 where
  pub task_id : ℕ
  pub return_job_id : ℕ
  pub retries : ℕ

-- The tables, the queue for failures, and the jobs for which a proposal is asked.
pub record World : Type 0 where
  pub store : Store
  pub jobs : List ReturnJob
  pub dlq : List DlqEntry
  pub wanted : List ℕ

pub data AiDecision : Type 0 where
  approve reject hitl unknown : AiDecision

pub record AiResult : Type 0 where
  pub decision : AiDecision
  pub ubci_score : Option ℕ
  pub final_grade : Option String
  pub reason_code : Option String
  pub defects : List LoggedDefect
  pub yolo_candidates : List (Option Candidate)
  pub primary_reason_code : Option String

abbrev pub find_job : ℕ → List ReturnJob → Option ReturnJob
find_job k js = get_by (λ j. j.id) k js

abbrev pub set_job : ℕ → (ReturnJob → ReturnJob) → List ReturnJob → List ReturnJob
set_job k f js = set_by (λ j. j.id) k f js

-- Python's `xs[-n:]` for n > 0, and LTRIM -n -1.
abbrev pub keep_last {ℓ} : {A : Type ℓ} → ℕ → List A → List A
keep_last n xs = drop (length xs - n) xs

abbrev pub dlq_max : ℕ
dlq_max = 1_000

abbrev pub push_to_dlq : Bool → DlqEntry → List DlqEntry → List DlqEntry
push_to_dlq true e es = keep_last dlq_max (es ++ e ∷ [])
push_to_dlq false e es = es

-- The two commits of `prepare_processing_job`, on its row: the task of a job that has none, and the
-- new status.
abbrev pub tasked : ℕ → ℕ → ReturnJob → ReturnJob
tasked task now j = record j { task_id = some task; updated_at = now }

abbrev pub in_work : ℕ → ReturnJob → ReturnJob
in_work now j = record j { status = processing; updated_at = now }

abbrev pub escalation_history_limit : ℕ
escalation_history_limit = 20

abbrev pub escalation : AiResult → ℕ → Escalation
escalation a retries = record {
  reason_code = a.reason_code;
  ubci_score = a.ubci_score;
  final_grade = a.final_grade;
  retry_count = retries;
}

abbrev pub escalated : JobStatus → AiResult → ℕ → List Escalation → List Escalation
escalated hitl_required a retries es =
    keep_last escalation_history_limit (es ++ escalation a retries ∷ [])
escalated _ a retries es = es

abbrev pub kept_status : JobStatus → JobStatus → JobStatus
kept_status hitl_required new = hitl_required
kept_status _ new = new

-- `save_inspection_result`, on its row. The result of the graph has no label of its own, so the
-- second assignment of a place is never made.
abbrev pub saved : AiResult → JobStatus → ℕ → ReturnJob → ReturnJob
saved a new now j = record j {
  ubci_score = a.ubci_score;
  agent_logs = record j.agent_logs {
    reason_code = a.reason_code;
    defects = a.defects;
    yolo_candidates = a.yolo_candidates;
    suggested_grade = a.final_grade;
    primary_reason_code = a.primary_reason_code;
    defect_coordinates = build_defect_coordinates a.defects;
    escalations = escalated new a j.retry_count j.agent_logs.escalations;
  };
  status = kept_status j.status new;
  updated_at = now;
}

-- `save_inspection_failed`, on its row.
abbrev pub save_failed : ℕ → ℕ → ReturnJob → ReturnJob
save_failed task now j = record j {
  status = failed;
  agent_logs = record j.agent_logs { error = some task };
  updated_at = now;
}

abbrev pub status_for : AiDecision → JobStatus
status_for hitl = hitl_required
status_for approve = approved
status_for _ = rejected

abbrev item_status : AiDecision → String
item_status hitl = "HITL_REQUIRED"
item_status reject = "REJECTED"
item_status _ = "IN_STOCK"

abbrev source_for : AiDecision → String
source_for hitl = "PENDING_HITL"
source_for _ = "AI_AUTO"

abbrev inspector_for : AiDecision → Option String
inspector_for hitl = none
inspector_for _ = some "Nexus Vision AI (LangGraph 4-Agent)"

abbrev score_or_85 : Option ℕ → ℕ
score_or_85 none = 85
score_or_85 (some n) = n

abbrev grade_or_normal : Option String → String
grade_or_normal none = "NORMAL"
grade_or_normal (some g) = g

abbrev pub assignment_for : ℕ → AiResult → Label → ReturnJob → Assignment
assignment_for k a label j = record {
  lpn_barcode = label;
  final_grade = grade_or_normal a.final_grade;
  final_status = item_status a.decision;
  book_id = some j.book_id;
  ubci_score = some (score_or_85 a.ubci_score);
  source_job_id = some k;
  certificate_url = none;
  inspection_source = source_for a.decision;
  inspected_by = inspector_for a.decision;
}

abbrev pub asked : JobStatus → ℕ → List ℕ → List ℕ
asked rejected k ks = ks ++ k ∷ []
asked _ k ks = ks

-- With `false` the database does not take the assignment: the error is only logged.
abbrev pub assigned : Bool → ℕ → AiResult → Option Label → ReturnJob → Store → Store
assigned true k a (some label) j s =
    (assign_rack_location_after_inspection (assignment_for k a label j) s).1
assigned _ k a _ j s = s

unfoldable pub execute_wms_action : Bool → ℕ → AiResult → ReturnJob → World → JobStatus × World
unfolding assign_rack_location_after_inspection
execute_wms_action takes k a j w = (
  status_for a.decision,
  record w {
    wanted = asked (status_for a.decision) k w.wanted;
    store = assigned takes k a j.agent_logs.lpn_barcode j w.store;
  },
)
