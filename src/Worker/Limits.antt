-- ===== src/Worker/Limits.antt =====
-- What is kept for a job and in the queue for failures has a limit.
use wms_secret_backend.Prelude.{
  ℕ, drop, zero, suc, ◌-◌, ◌≤◌, ◌≡◌, inl, inr, Bool, true, false, List, [], ◌∷◌, ◌++◌, arith, ◌==◌,
  Bool-cases, length, All,
}
use wms_secret_backend.Returns.{
  JobStatus, pending, processing, approved, rejected, hitl_required, failed, Escalation, ReturnJob,
}
use wms_secret_backend.Worker.{
  DlqEntry, World, AiResult, set_job, tasked, in_work, saved, save_failed, escalated, escalation,
  escalation_history_limit, status_for, keep_last, dlq_max, push_to_dlq, execute_wms_action,
}
use wms_secret_backend.Worker.Process.{
  Visit, Saving, stored, unstored, interrupted, save, finish, max_retries, fail, hitl_locked,
  settle, process_inspection, deliver,
}
use wms_secret_backend.Worker.Runs.{save-holds, process_inspection-branch, run_from-holds}

module _ {ℓ} {A : Type ℓ} where
  length-drop : (n : ℕ) (xs : List A) → length (drop n xs) ≡ length xs - n
  length-drop zero xs = omega arith
  length-drop (suc n) [] = omega arith
  length-drop (suc n) (x ∷ xs) = omega (arith, length-drop n xs)

  length-keep_last : (n : ℕ) (xs : List A) → length (keep_last n xs) ≤ n
  length-keep_last n xs = omega (arith, length-drop (length xs - n) xs)

abbrev HasFew : ReturnJob → Type 0
HasFew j = length j.agent_logs.escalations ≤ escalation_history_limit

-- At most 1000 failures are queued, and at most 20 escalations kept for each job.
pub record IsLimited (w : World) : Type 0 where
  pub queued : length w.dlq ≤ dlq_max
  pub escalations : All HasFew w.jobs

set_job-HasFew :
    (f : ReturnJob → ReturnJob)
    → ((j : ReturnJob) → HasFew j → HasFew (f j))
    → (k : ℕ) (js : List ReturnJob) → All HasFew js
    → All HasFew (set_job k f js)
set_job-HasFew f keep k [] h = tt
set_job-HasFew f keep k (j ∷ js) h = elim (Bool-cases (j.id == k)) [
  | inl q ↦ rw q (keep j h.0, set_job-HasFew f keep k js h.1)
  | inr q ↦ rw q (h.0, set_job-HasFew f keep k js h.1)
]

escalated-few :
    (s : JobStatus) (a : AiResult) (n : ℕ) (es : List Escalation)
    → length es ≤ escalation_history_limit
    → length (escalated s a n es) ≤ escalation_history_limit
escalated-few pending a n es h = h
escalated-few processing a n es h = h
escalated-few approved a n es h = h
escalated-few rejected a n es h = h
escalated-few failed a n es h = h
escalated-few hitl_required a n es h =
    length-keep_last escalation_history_limit (es ++ escalation a n ∷ [])

push_to_dlq-few :
    (b : Bool) (e : DlqEntry) (es : List DlqEntry)
    → length es ≤ dlq_max
    → length (push_to_dlq b e es) ≤ dlq_max
push_to_dlq-few true e es h = length-keep_last dlq_max (es ++ e ∷ [])
push_to_dlq-few false e es h = h

module _ (n : ℕ) (v : Visit) (k : ℕ) where
  put-IsLimited :
      (f : ReturnJob → ReturnJob)
      → ((j : ReturnJob) → HasFew j → HasFew (f j))
      → (s : Saving) (w : World) → IsLimited w
      → IsLimited (save s k f w)
  put-IsLimited f keep s w h =
      save-holds IsLimited k f s w h
        (record { queued = h.queued; escalations = set_job-HasFew f keep k w.jobs h.escalations })

  fail-IsLimited : (w : World) → IsLimited w → IsLimited (fail n v k w).1
  fail-IsLimited w h =
      put-IsLimited (save_failed v.task_id v.now) (λ j l. l) v.failure_saving _
        (record {
          queued = push_to_dlq-few v.takes_failure _ w.dlq h.queued;
          escalations = h.escalations;
        })

  finish-IsLimited :
      (s : JobStatus) (r : Saving) (w : World) → IsLimited w → IsLimited (finish n v k s r w).1
  finish-IsLimited s stored w h = h
  finish-IsLimited s unstored w h = fail-IsLimited w h
  finish-IsLimited s interrupted w h = fail-IsLimited w h

  settle-IsLimited :
      (w : World) (j : ReturnJob) (a : AiResult) → IsLimited w → IsLimited (settle n v k j a w).1
  unfolding execute_wms_action
  settle-IsLimited w j a h =
      let s = status_for a.decision in
      finish-IsLimited s v.result_saving _ (
        put-IsLimited (saved a s v.now)
          (λ i l. escalated-few s a i.retry_count i.agent_logs.escalations l) v.result_saving
          (execute_wms_action v.takes_place k a j w).1
          (record { queued = h.queued; escalations = h.escalations }))

  run-IsLimited : (b : Bool) (w : World) → IsLimited w → IsLimited (process_inspection n v k b w).1
  run-IsLimited b w h =
      let begun = put-IsLimited (in_work v.now) (λ j l. l) stored in
      process_inspection-branch n v k b w IsLimited (λ out. IsLimited out.1)
        (record {
          skip = λ r. h;
          lost = λ e. fail-IsLimited w h;
          start = λ j e. h;
          marked = put-IsLimited (tasked v.task_id v.now) (λ j l. l) stored;
          begun = begun;
          failing = fail-IsLimited;
          again = λ u q l. q;
          settled = λ u j a q given. settle-IsLimited _ j (hitl_locked b a) (begun u q);
        })

-- Whatever a task meets, at most 1000 failures are queued and at most 20 escalations kept for each
-- job when it ends, if that was so when it began.
pub deliver-IsLimited :
    (visits : ℕ → Visit) (k : ℕ) (b : Bool) (w : World)
    → IsLimited w
    → IsLimited (deliver visits k b w).1
unfolding deliver
deliver-IsLimited visits k b w h =
    run_from-holds visits k b IsLimited (λ out. IsLimited out.1)
      (λ n u q. run-IsLimited n (visits n) k b u q) (λ m u q. q) max_retries 0 w h
