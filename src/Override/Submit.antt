-- ===== src/Override/Submit.antt =====
-- `submit_hitl_override` of app/domains/admin/service.py: the decisions of an admin on several books,
-- in one session of the database; an error ends the request and drops what is not committed.
use Prim.Native.String
use text.Mathlib.Text.{◌==◌ as str_eq, starts_with}
use wms_secret_backend.Prelude.{
  ℕ, ◌+◌, Bool, not, ◌||◌, Option, none, some, List, [], ◌∷◌, ◌++◌, String, if◌then◌else◌,
}
use wms_secret_backend.Workflow.{is_nil}
use wms_secret_backend.Stock.{Label, Store}
use wms_secret_backend.Stock.Labels.{generate_next_lpn_barcode}
use wms_secret_backend.Stock.Assign.{Assignment, present}
use wms_secret_backend.Returns.{
  JobStatus, pending, approved, rejected, ReturnJob, build_defect_coordinates,
}
use wms_secret_backend.Worker.{find_job}
use wms_secret_backend.Worker.Process.{is_human_owned}
use wms_secret_backend.Override.{BboxEdits, clamp_ubci_score_to_grade}
use wms_secret_backend.Override.Score.{rescored}
use wms_secret_backend.Override.Session.{
  HitlOverrideRequest, AdminAuditLog, Tables, Session, Desk, Placing, Failure, Step, commit, write,
  place, bad_request, goes, fails,
}

abbrev or_list : {A : Type 0} → List A → Bool
or_list xs = not (is_nil xs)

abbrev pub has_bbox_ui_edits : BboxEdits → Bool
has_bbox_ui_edits e =
    or_list e.excluded_defect_indexes
    || or_list e.adopted_candidate_indexes
    || or_list e.edited_bboxes
    || or_list e.added_bboxes

abbrev pub with_coordinates : ReturnJob → ReturnJob
with_coordinates j = record j {
  agent_logs = record j.agent_logs {
    defect_coordinates = build_defect_coordinates j.agent_logs.defects;
  };
}

-- The job after the edits of an item.
abbrev pub edited : BboxEdits → ReturnJob → ReturnJob
edited e j = with_coordinates (if has_bbox_ui_edits e then rescored e j else j)

abbrev pub or_new_label : Desk → Store → Option Label → Label
or_new_label d st none = generate_next_lpn_barcode d.day (some "B") st.used_items
or_new_label d st (some l) = l

abbrev pub or_suggested : Option String → Option String → Option String
or_suggested none suggested = suggested
or_suggested (some g) suggested = some g

-- `item.targetGrade or job.agent_logs.get("suggested_grade")`
abbrev pub target_of : HitlOverrideRequest → ReturnJob → Option String
target_of r j = or_suggested (present r.target_grade) j.agent_logs.suggested_grade

abbrev pub decided : JobStatus → Option String → Label → ReturnJob → ReturnJob
decided status grade l j = record j {
  status = status;
  ubci_score = clamp_ubci_score_to_grade j.ubci_score grade;
  agent_logs = record j.agent_logs { lpn_barcode = some l };
}

-- The arguments of an approval, for the job as it is decided.
abbrev pub approval : Desk → ReturnJob → Label → String → Assignment
approval d j l grade = record {
  lpn_barcode = l;
  final_grade = grade;
  final_status = "IN_STOCK";
  book_id = some j.book_id;
  ubci_score = j.ubci_score;
  source_job_id = some j.id;
  certificate_url = some (String.◌++◌ "/certificate/CERT-20260728-" (d.cert_code j.id));
  inspection_source = "HITL";
  inspected_by = some d.hitl_inspector;
}

abbrev pub rejection : Desk → ReturnJob → Label → String → Assignment
rejection d j l grade = record (approval d j l grade) {
  final_status = "REJECTED";
  certificate_url = none;
}

unfoldable pub approve : Desk → Placing → HitlOverrideRequest → ReturnJob → Session → Step
approve d p r j s =
    let grade = target_of r j in
    let l = or_new_label d s.live.world.store j.agent_logs.lpn_barcode in
    let j' = decided approved grade l j in
    place p grade (approval d j' l)
      (record (write j.id (λ _. j') s) { approved_ids = s.approved_ids ++ j.id ∷ [] })

-- The job is noted after its place, which does not matter, as an error drops the note.
unfoldable pub reject : Desk → Placing → ReturnJob → Session → Step
reject d p j s =
    let l = or_new_label d s.live.world.store j.agent_logs.lpn_barcode in
    let j' = decided rejected (some "REJECT") l j in
    place p (some "REJECT") (rejection d j' l)
      (record (write j.id (λ _. j') s) { rejected_ids = s.rejected_ids ++ j.id ∷ [] })

abbrev pub back_to_pending : ReturnJob → ReturnJob
back_to_pending j = record j { status = pending; retry_count = j.retry_count + 1 }

unfoldable pub recheck : JobStatus → ReturnJob → Session → Step
recheck previous j s =
    let s' = commit (write j.id (λ _. back_to_pending j) s) in
    goes (record s' { sent = s'.sent ++ (j.id, is_human_owned previous) ∷ [] })

pub data Verdict : Type 0 where
  approves rejects rechecks unknown : Verdict

unfoldable pub verdict_of : String → Verdict
verdict_of decision =
    if starts_with decision "APPROVE"
    then approves
    else if starts_with decision "REJECT"
    then rejects
    else if str_eq decision "RE_CHECK" || str_eq decision "AI_REINSPECT"
    then rechecks
    else unknown

unfoldable pub decide :
    Desk → Placing → HitlOverrideRequest → JobStatus → Verdict → ReturnJob → Session → Step
decide d p r previous approves j s = approve d p r j s
decide d p r previous rejects j s = reject d p j s
decide d p r previous rechecks j s = recheck previous j s
decide d p r previous unknown j s = fails bad_request s

abbrev pub commented : HitlOverrideRequest → ReturnJob → ReturnJob
commented r j = record j {
  agent_logs = record j.agent_logs {
    admin_decision = some r.decision;
    admin_comment = r.reason_comment;
    primary_reason_code = some r.primary_reason_code;
    target_grade = r.target_grade;
  };
}

-- The status of the verdict.
abbrev pub new_state : Verdict → JobStatus
new_state approves = approved
new_state rejects = rejected
new_state _ = pending

abbrev pub audit_row : HitlOverrideRequest → JobStatus → ReturnJob → AdminAuditLog
audit_row r previous j = record {
  target_id = j.id;
  action = r.decision;
  previous_state = previous;
  new_state = new_state (verdict_of r.decision);
  target_grade = r.target_grade;
  primary_reason_code = r.primary_reason_code;
  defect_coordinates = j.agent_logs.defect_coordinates;
  review_duration_ms = r.review_duration_ms;
}

-- The comment and the row for the audit, after the decision.
unfoldable pub record_decision : HitlOverrideRequest → JobStatus → ReturnJob → Step → Step
record_decision r previous j (fails f s) = fails f s
record_decision r previous j (goes s) =
    let s' = write j.id (commented r) s in
    goes (record s' {
      live = record s'.live { audits = s'.live.audits ++ audit_row r previous j ∷ [] };
      processed = s'.processed + 1;
    })

abbrev pub on_job : Desk → Placing → HitlOverrideRequest → Option ReturnJob → Session → Step
on_job d p r none s = goes s
on_job d p r (some j) s =
    let j' = edited r.edits j in
    record_decision r j.status j' (decide d p r j.status (verdict_of r.decision) j' s)

abbrev pub on_ticket : Desk → Placing → HitlOverrideRequest → Option ℕ → Session → Step
on_ticket d p r none s = fails bad_request s
on_ticket d p r (some k) s = on_job d p r (find_job k s.live.world.jobs) s

unfoldable pub on_item : Desk → HitlOverrideRequest × Placing → Session → Step
on_item d (r, p) s = on_ticket d p r r.ticket_id s

unfoldable pub run_items : Desk → List (HitlOverrideRequest × Placing) → Session → Step
run_items d [] s = goes s
run_items d (i ∷ is) s = elim (on_item d i s) [
  | fails f s' ↦ fails f s'
  | goes s' ↦ run_items d is s'
]

abbrev pub opened : Tables → Session
opened t = record {
  live = t;
  disk = t;
  sent = [];
  approved_ids = [];
  rejected_ids = [];
  processed = 0;
}

pub data Reply : Type 0 where
  success : ℕ → Reply
  error : Failure → Reply

-- What a request leaves: its tables, and the jobs put into the queues for inspections and for
-- certificates; the one for proposals stands in the world.
pub record Outcome : Type 0 where
  pub reply : Reply
  pub tables : Tables
  pub inspections : List (ℕ × Bool)
  pub certificates : List ℕ

abbrev pub ask_proposals : List ℕ → Tables → Tables
ask_proposals ks t = record t { world = record t.world { wanted = t.world.wanted ++ ks } }

abbrev pub closed : Step → Outcome
closed (fails f s) = record {
  reply = error f;
  tables = s.disk;
  inspections = s.sent;
  certificates = [];
}
closed (goes s) = record {
  reply = success s.processed;
  tables = ask_proposals s.rejected_ids s.live;
  inspections = s.sent;
  certificates = s.approved_ids;
}

unfoldable pub submit_hitl_override : Desk → List (HitlOverrideRequest × Placing) → Tables → Outcome
submit_hitl_override d items t = closed (run_items d items (opened t))
