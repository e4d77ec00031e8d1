-- ===== src/Override/Examples.antt =====
-- A book that waits for a person, and the requests about it.
use wms_secret_backend.Prelude.{false, none, some, Option, [], ◌∷◌, String}
use wms_secret_backend.Stock.{Label}
use wms_secret_backend.Returns.{JobStatus, hitl_required, LoggedDefect, ReturnJob}
use wms_secret_backend.Override.{at, negative, BboxEdits}
use wms_secret_backend.Override.Session.{HitlOverrideRequest, Tables, Session, Desk}
use wms_secret_backend.Override.Submit.{opened}

abbrev pub torn : LoggedDefect
torn = record {
  seen = record {
    type = "TEAR";
    label = "";
    description = "";
    ratio = some 3;
    bbox = some (record { xmin = 100; ymin = 100; xmax = 200; ymax = 200 });
    image_index = some 0;
    page_count = none;
    pages = none;
    level = none;
    text_overlap = false;
    evidence_suspect = false;
    applied_deduction = none;
    deduction_scope = none;
    deduction_group = none;
  };
  confidence = some 900;
  conf_copied_from_candidate = false;
  bbox_ungrounded = false;
  hitl_excluded = false;
  hitl_adopted = false;
  hitl_bbox_edited = false;
  hitl_added = false;
}

abbrev pub a_label : Label
a_label = record { day = 260_810; zone = "A"; digits = 0 ∷ 1 ∷ 2 ∷ [] }

abbrev pub job : JobStatus → ReturnJob
job status = record {
  id = 5;
  book_id = 7;
  task_id = none;
  status = status;
  images = 2;
  ubci_score = some 90;
  agent_logs = record {
    lpn_barcode = some a_label;
    reason_code = none;
    escalations = [];
    error = none;
    defects = torn ∷ torn ∷ [];
    yolo_candidates = [];
    suggested_grade = some "GOOD";
    primary_reason_code = some "TEAR";
    defect_coordinates = [];
    hitl_revalidation = none;
    admin_decision = none;
    admin_comment = none;
    target_grade = none;
    recall_history = [];
  };
  retry_count = 0;
  created_at = 0;
  updated_at = 0;
}

abbrev pub tables : JobStatus → Tables
tables status = record {
  world = record {
    store = record {
      next_id = 100;
      books = [];
      locations = [];
      used_items = [];
      inventory = [];
      logs = [];
    };
    jobs = job status ∷ [];
    dlq = [];
    wanted = [];
  };
  audits = [];
}

-- The second defect is excluded; the other indexes are out of range.
abbrev pub one_excluded : BboxEdits
one_excluded = record {
  excluded_defect_indexes = negative ∷ at 1 ∷ at 9 ∷ [];
  adopted_candidate_indexes = at 0 ∷ [];
  edited_bboxes = none ∷ [];
  added_bboxes = [];
}

abbrev pub request : String → Option String → HitlOverrideRequest
request decision grade = record {
  ticket_id = some 5;
  decision = decision;
  target_grade = grade;
  primary_reason_code = "DMG_EXT_TEAR";
  reason_comment = none;
  review_duration_ms = some 4_000;
  edits = one_excluded;
}

abbrev pub no_key : HitlOverrideRequest
no_key = record (request "APPROVE_NORMAL" none) { ticket_id = none }

abbrev pub desk : Desk
desk = record { hitl_inspector = "HITL 관리자"; day = 260_811; cert_code = λ k. "0A1B2C" }

abbrev pub session : Session
session = opened (tables hitl_required)
