-- ===== src/Worker/Process.antt =====
-- `process_inspection` of app/worker/tasks.py, its repetition by the queue, the sweep for stale jobs,
-- and the request of an admin for a new inspection (app/domains/admin/service.py).
use wms_secret_backend.Prelude.{
  ℕ, zero, suc, ◌+◌, ◌^◌, Bool, true, false, not, ◌&&◌, Option, none, some, List, ltb,
  if◌then◌else◌, filter_by, map,
}
use wms_secret_backend.Picking.{get_by}
use wms_secret_backend.Stock.{InventoryUsedItem}
use wms_secret_backend.Returns.{
  JobStatus, pending, processing, approved, rejected, hitl_required, ReturnJob,
}
use wms_secret_backend.Worker.{
  World, DlqEntry, AiDecision, approve, hitl, unknown, AiResult, find_job, set_job, push_to_dlq,
  tasked, in_work, saved, save_failed, execute_wms_action,
}

pub data Lock : Type 0 where
  taken acquired no_quorum : Lock

-- What the graph of agents gives: `api_error` is an error of the network or of the language model.
pub data Answer : Type 0 where
  answered : AiResult → Answer
  api_error other_error : Answer

-- What becomes of a row that the worker saves: it is committed; it is not, and an exception is raised;
-- or it is committed, and an exception is raised behind that, as the row is read anew or the page is
-- told by an event.
pub data Saving : Type 0 where
  stored unstored interrupted : Saving

-- What a visit of the worker finds outside: the lock, the answer of the graph, whether the database
-- takes the place of the book and the queue for failures its entry, and what becomes of the rows that
-- it saves: the task and the new status, the result, and the failure.
pub record Visit : Type 0 where
  pub task_id : ℕ
  pub now : ℕ
  pub lock : Lock
  pub answer : Answer
  pub takes_place : Bool
  pub takes_failure : Bool
  pub task_saving : Saving
  pub status_saving : Saving
  pub result_saving : Saving
  pub failure_saving : Saving

abbrev pub save : Saving → ℕ → (ReturnJob → ReturnJob) → World → World
save unstored k f w = w
save _ k f w = record w { jobs = set_job k f w.jobs }

pub data Skip : Type 0 where
  locked lock_failed : Skip
  already : JobStatus → Skip

pub data Outcome : Type 0 where
  skipped : Skip → Outcome
  done : JobStatus → Outcome
  retry : ℕ → Outcome
  raised : Outcome

abbrev pub max_retries : ℕ
max_retries = 3

abbrev pub is_terminal : JobStatus → Bool
is_terminal approved = true
is_terminal rejected = true
is_terminal _ = false

-- The exception is raised again in the end, or another one if the failure is not saved.
abbrev pub fail : ℕ → Visit → ℕ → World → Outcome × World
fail retries v k w =
    let failure : DlqEntry = record { task_id = v.task_id; return_job_id = k; retries = retries } in
    (
      raised,
      save v.failure_saving k (save_failed v.task_id v.now)
          (record w { dlq = push_to_dlq v.takes_failure failure w.dlq }),
    )

abbrev pub is_unknown : AiDecision → Bool
is_unknown unknown = true
is_unknown _ = false

-- A job that belongs to a person is not approved by the machine.
abbrev pub hitl_locked : Bool → AiResult → AiResult
hitl_locked was_hitl a = elim a.decision [
  | approve ↦
      if was_hitl
      then record a { decision = hitl; reason_code = some "HITL_LOCKED_REINSPECTION" }
      else a
  | _ ↦ a
]

abbrev pub finish : ℕ → Visit → ℕ → JobStatus → Saving → World → Outcome × World
finish retries v k status stored w = (done status, w)
finish retries v k status unstored w = fail retries v k w
finish retries v k status interrupted w = fail retries v k w

-- The place and the wish for a proposal come before the result is saved, and stay without it.
abbrev pub settle : ℕ → Visit → ℕ → ReturnJob → AiResult → World → Outcome × World
settle retries v k j a w =
    let (status, w') = execute_wms_action v.takes_place k a j w in
    finish retries v k status v.result_saving (save v.result_saving k (saved a status v.now) w')

abbrev pub on_answer : ℕ → Visit → ℕ → Bool → ReturnJob → Answer → World → Outcome × World
on_answer retries v k was_hitl j (answered a) w =
    if is_unknown a.decision
    then fail retries v k w
    else settle retries v k j (hitl_locked was_hitl a) w
on_answer retries v k was_hitl j api_error w =
    if ltb retries max_retries then (retry (2 ^ retries), w) else fail retries v k w
on_answer retries v k was_hitl j other_error w = fail retries v k w

-- The rest of a run once the status is to be saved.
abbrev pub work_on : ℕ → Visit → ℕ → Bool → ReturnJob → Saving → World → Outcome × World
work_on retries v k was_hitl j stored w =
    on_answer retries v k was_hitl j v.answer (save stored k (in_work v.now) w)
work_on retries v k was_hitl j s w = fail retries v k (save s k (in_work v.now) w)

abbrev pub take_on : ℕ → Visit → ℕ → Bool → ReturnJob → Saving → World → Outcome × World
take_on retries v k was_hitl j stored w =
    work_on retries v k was_hitl j v.status_saving (save stored k (tasked v.task_id v.now) w)
take_on retries v k was_hitl j s w = fail retries v k (save s k (tasked v.task_id v.now) w)

-- From `prepare_processing_job` on, for a job with or without a task.
abbrev pub prepare : ℕ → Visit → ℕ → Bool → ReturnJob → Option ℕ → World → Outcome × World
prepare retries v k was_hitl j none w = take_on retries v k was_hitl j v.task_saving w
prepare retries v k was_hitl j (some task) w = work_on retries v k was_hitl j v.status_saving w

abbrev pub inspect : ℕ → Visit → ℕ → Bool → World → Option ReturnJob → Outcome × World
inspect retries v k was_hitl w none = fail retries v k w
inspect retries v k was_hitl w (some j) =
    if is_terminal j.status && not was_hitl
    then (skipped (already j.status), w)
    else prepare retries v k was_hitl j j.task_id w

unfoldable pub process_inspection : ℕ → Visit → ℕ → Bool → World → Outcome × World
unfolding execute_wms_action
process_inspection retries v k was_hitl w = elim v.lock [
  | taken ↦ (skipped locked, w)
  | no_quorum ↦ (skipped lock_failed, w)
  | acquired ↦ inspect retries v k was_hitl w (find_job k w.jobs)
]

abbrev pub is_retry : Outcome → Bool
is_retry (retry n) = true
is_retry _ = false

-- The queue runs a task again, with the same arguments, as long as it asks for it: at most `left`
-- times more.
unfoldable pub run_from : (ℕ → Visit) → ℕ → Bool → ℕ → ℕ → World → Outcome × World
unfolding process_inspection
run_from visits k was_hitl zero retries w = process_inspection retries (visits retries) k was_hitl w
run_from visits k was_hitl (suc left) retries w =
    let out = process_inspection retries (visits retries) k was_hitl w in
    let again = run_from visits k was_hitl left (retries + 1) out.1 in
    if is_retry out.0 then again else out

-- A task from its first run to its end.
unfoldable pub deliver : (ℕ → Visit) → ℕ → Bool → World → Outcome × World
unfolding run_from
deliver visits k was_hitl w = run_from visits k was_hitl max_retries 0 w

-- `_is_human_owned` of app/domains/admin/service.py.
abbrev pub is_human_owned : JobStatus → Bool
is_human_owned hitl_required = true
is_human_owned approved = true
is_human_owned rejected = true
is_human_owned _ = false

abbrev pub reset : ReturnJob → ReturnJob
reset j = record j { status = pending; retry_count = j.retry_count + 1 }

-- The job with this key, or else the one that a used book with this key came from.
abbrev pub job_of_item : List ReturnJob → Option InventoryUsedItem → Option ReturnJob
job_of_item js none = none
job_of_item js (some u) = elim u.source_job_id [ none ↦ none | some k ↦ find_job k js ]

abbrev pub asked_job : ℕ → World → Option ReturnJob
asked_job k w = elim (find_job k w.jobs) [
  | some j ↦ some j
  | none ↦ job_of_item w.jobs (get_by (λ u. u.id) k w.store.used_items)
]

abbrev pub reinspect_job : World → Option ReturnJob → Option (ℕ × Bool × World)
reinspect_job w none = none
reinspect_job w (some j) =
    if ltb 0 j.images
    then some (j.id, is_human_owned j.status, record w { jobs = set_job j.id reset w.jobs })
    else none

-- The request of an admin: the job and whether it belongs to a person, which the task is given, or
-- none for an error.
unfoldable pub trigger_ai_reinspection : ℕ → World → Option (ℕ × Bool × World)
trigger_ai_reinspection k w = reinspect_job w (asked_job k w)

-- Two minutes for a waiting job, eight for one in work; times are seconds.
abbrev is_stale : ℕ → ReturnJob → Bool
is_stale now j = elim j.status [
  | pending ↦ ltb (j.created_at + 120) now
  | processing ↦ ltb (j.updated_at + 480) now
  | _ ↦ false
]

-- The tasks of a sweep: each is put into the queue without the flag of a person.
unfoldable pub requeue_stale_pending_inspections : ℕ → World → List (ℕ × Bool)
requeue_stale_pending_inspections now w = map (λ j. (j.id, false)) (filter_by (is_stale now) w.jobs)
