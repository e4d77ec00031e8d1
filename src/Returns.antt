-- ===== src/Returns.antt =====
-- The rows of the table return_jobs (app/models/wms.py) with the keys of `agent_logs` that the worker
-- and the requests of an admin read or write, and `build_defect_coordinates` of
-- app/ai/langgraph_wrapper.py. Texts for display are left out.
use wms_secret_backend.Prelude.{
  ℕ, Bool, Option, none, some, List, [], ◌∷◌, ◌++◌, String, ltb, ◌==◌, if◌then◌else◌,
}
use wms_secret_backend.Policy.{Defect, Bbox}
use wms_secret_backend.Stock.{Label}
use wms_secret_backend.Workflow.{Issue}

pub data JobStatus : Type 0 where
  pending processing approved rejected hitl_required failed : JobStatus

pub record Escalation : Type 0 where
  pub reason_code : Option String
  pub ubci_score : Option ℕ
  pub final_grade : Option String
  pub retry_count : ℕ

-- An entry of `defects`, which is a dictionary: what the Policy Agent reads and writes, and the other
-- keys. The confidence is in thousandths.
pub record LoggedDefect : Type 0 where
  pub seen : Defect
  pub confidence : Option ℕ
  pub conf_copied_from_candidate : Bool
  pub bbox_ungrounded : Bool
  pub hitl_excluded : Bool
  pub hitl_adopted : Bool
  pub hitl_bbox_edited : Bool
  pub hitl_added : Bool

-- An entry of `yolo_candidates`; an absent text is the empty text.
pub record Candidate : Type 0 where
  pub defect_type : String
  pub type : String
  pub confidence : Option ℕ
  pub bbox : Option Bbox
  pub image_index : Option ℕ

-- An entry of `recall_history`.
pub record Recall : Type 0 where
  pub reason : String
  pub previous_status : JobStatus
  pub previous_score : Option ℕ
  pub previous_grade : Option String

-- `hitl_revalidation`: the score and the issues after an edit by a person.
pub record Revalidation : Type 0 where
  pub policy_score : ℕ
  pub critic_stage_a_issues : List Issue

-- The boxes of one picture, each with its defect.
pub record Coordinates : Type 0 where
  pub image_index : ℕ
  pub bboxes : List (Bbox × LoggedDefect)

-- The keys that are read or written here; `error` is the task that failed. A candidate that is no
-- dictionary is `none`.
pub record AgentLogs : Type 0 where
  pub lpn_barcode : Option Label
  pub reason_code : Option String
  pub escalations : List Escalation
  pub error : Option ℕ
  pub defects : List LoggedDefect
  pub yolo_candidates : List (Option Candidate)
  pub suggested_grade : Option String
  pub primary_reason_code : Option String
  pub defect_coordinates : List Coordinates
  pub hitl_revalidation : Option Revalidation
  pub admin_decision : Option String
  pub admin_comment : Option String
  pub target_grade : Option String
  pub recall_history : List Recall

-- `images` is the number of the pictures.
pub record ReturnJob : Type 0 where
  pub id : ℕ
  pub book_id : ℕ
  pub task_id : Option ℕ
  pub status : JobStatus
  pub images : ℕ
  pub ubci_score : Option ℕ
  pub agent_logs : AgentLogs
  pub retry_count : ℕ
  pub created_at : ℕ
  pub updated_at : ℕ

abbrev or_zero : Option ℕ → ℕ
or_zero none = 0
or_zero (some n) = n

-- Into the group of its picture, which is made where it is missing; the groups stay in order.
abbrev pub into_group : ℕ → Bbox × LoggedDefect → List Coordinates → List Coordinates
into_group i b [] = record { image_index = i; bboxes = b ∷ [] } ∷ []
into_group i b (g ∷ gs) =
    if g.image_index == i
    then record g { bboxes = g.bboxes ++ b ∷ [] } ∷ gs
    else if ltb i g.image_index
    then record { image_index = i; bboxes = b ∷ [] } ∷ g ∷ gs
    else g ∷ into_group i b gs

abbrev pub with_box : LoggedDefect → Option Bbox → List Coordinates → List Coordinates
with_box d none gs = gs
with_box d (some b) gs = into_group (or_zero d.seen.image_index) (b, d) gs

abbrev pub group_boxes : List Coordinates → List LoggedDefect → List Coordinates
group_boxes gs [] = gs
group_boxes gs (d ∷ ds) = group_boxes (with_box d d.seen.bbox gs) ds

unfoldable pub build_defect_coordinates : List LoggedDefect → List Coordinates
build_defect_coordinates ds = group_boxes [] ds
