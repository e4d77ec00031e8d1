-- ===== src/Worker/Locked.antt =====
-- A job that belongs to a person, when an admin asks for a new inspection.
use mathlib.Core.Path.{subst}
use mathlib.Core.Option.{some-injective}
use wms_secret_backend.Prelude.{
  ℕ, ◌≡◌, ◌≢◌, refl, sym, ap, ◌∙◌, inl, inr, Bool, true, false, none, some, Option, List,
  Bool-cases, ltb,
}
use wms_secret_backend.Returns.{
  JobStatus, pending, processing, approved, rejected, hitl_required, failed, ReturnJob,
}
use wms_secret_backend.Worker.{
  World, AiDecision, approve, reject, hitl, unknown, AiResult, find_job, set_job, tasked, in_work,
  kept_status, saved, save_failed, status_for, execute_wms_action,
}
use wms_secret_backend.Worker.Process.{
  Saving, stored, unstored, interrupted, save, fail, finish, answered, Visit, max_retries,
  hitl_locked, settle, process_inspection, reset, asked_job, reinspect_job, trigger_ai_reinspection,
  deliver,
}
use wms_secret_backend.Worker.Jobs.{status_in, status_of, find-changed}
use wms_secret_backend.Worker.Runs.{save-holds, process_inspection-branch, run_from-holds}

abbrev pub is_approved : Option JobStatus → Bool
is_approved (some approved) = true
is_approved _ = false

abbrev pub IsHeld : ℕ → World → Type 0
IsHeld k w = is_approved (status_of k w) ≡ false

-- A change after which the job is not approved.
pub set-IsHeld :
    (f : ReturnJob → ReturnJob)
    → ((j : ReturnJob) → (f j).id ≡ j.id)
    → ((j : ReturnJob) → is_approved (some (f j).status) ≡ false)
    → (k : ℕ) (js : List ReturnJob) (o : Option ReturnJob) → find_job k js ≡ o
    → is_approved (status_in (find_job k (set_job k f js))) ≡ false
set-IsHeld f same held k js none e =
    ap (λ o. is_approved (status_in o)) (find-changed f same k js none e)
set-IsHeld f same held k js (some j) e =
    ap (λ o. is_approved (status_in o)) (find-changed f same k js (some j) e) ∙ held j

-- A change that keeps the status.
same-IsHeld :
    (f : ReturnJob → ReturnJob)
    → ((j : ReturnJob) → (f j).id ≡ j.id)
    → ((j : ReturnJob) → (f j).status ≡ j.status)
    → (k : ℕ) (w : World) → IsHeld k w
    → IsHeld k (record w { jobs = set_job k f w.jobs })
same-IsHeld f same status k w h = by (find_job k w.jobs) refl
  where
    by :
        (o : Option ReturnJob)
        → find_job k w.jobs ≡ o
        → is_approved (status_in (find_job k (set_job k f w.jobs))) ≡ false
    by none e = ap (λ o. is_approved (status_in o)) (find-changed f same k w.jobs none e)
    by (some j) e =
        ap (λ o. is_approved (status_in o)) (find-changed f same k w.jobs (some j) e)
        ∙ ap (λ s. is_approved (some s)) (status j)
        ∙ ap (λ o. is_approved (status_in o)) (sym e)
        ∙ h

-- The status that is kept is that of a person, or the new one.
kept_held :
    (old new : JobStatus)
    → is_approved (some new) ≡ false
    → is_approved (some (kept_status old new)) ≡ false
kept_held hitl_required new h = refl
kept_held pending new h = h
kept_held processing new h = h
kept_held approved new h = h
kept_held rejected new h = h
kept_held failed new h = h

locked_status :
    (d : AiDecision) (a : AiResult)
    → a.decision ≡ d
    → is_approved (some (status_for (hitl_locked true a).decision)) ≡ false
locked_status approve a e = rw e refl
locked_status reject a e = rw e refl
locked_status hitl a e = rw e refl
locked_status unknown a e = rw e refl

module _ (n : ℕ) (v : Visit) (k : ℕ) where
  put-IsHeld :
      (f : ReturnJob → ReturnJob)
      → ((j : ReturnJob) → (f j).id ≡ j.id)
      → ((j : ReturnJob) → is_approved (some (f j).status) ≡ false)
      → (s : Saving) (w : World) → IsHeld k w
      → IsHeld k (save s k f w)
  put-IsHeld f same held s w h =
      save-holds (IsHeld k) k f s w h (set-IsHeld f same held k w.jobs _ refl)

  fail-IsHeld : (w : World) → IsHeld k w → IsHeld k (fail n v k w).1
  fail-IsHeld w h =
      put-IsHeld (save_failed v.task_id v.now) (λ j. refl) (λ j. refl) v.failure_saving _ h

  finish-IsHeld :
      (s : JobStatus) (r : Saving) (w : World) → IsHeld k w → IsHeld k (finish n v k s r w).1
  finish-IsHeld s stored w h = h
  finish-IsHeld s unstored w h = fail-IsHeld w h
  finish-IsHeld s interrupted w h = fail-IsHeld w h

  settle-IsHeld :
      (w : World) (j : ReturnJob) (a : AiResult)
      → is_approved (some (status_for a.decision)) ≡ false
      → IsHeld k w
      → IsHeld k (settle n v k j a w).1
  unfolding execute_wms_action
  settle-IsHeld w j a held h =
      let s = status_for a.decision in
      finish-IsHeld s v.result_saving _ (
        put-IsHeld (saved a s v.now) (λ j. refl) (λ j. kept_held j.status s held) v.result_saving
          (execute_wms_action v.takes_place k a j w).1 h)

  run-IsHeld :
      (b : Bool)
      → ((a : AiResult)
          → v.answer ≡ answered a
          → is_approved (some (status_for (hitl_locked b a).decision)) ≡ false)
      → (w : World) → IsHeld k w
      → IsHeld k (process_inspection n v k b w).1
  run-IsHeld b held w h =
      let begun = put-IsHeld (in_work v.now) (λ j. refl) (λ j. refl) stored in
      process_inspection-branch n v k b w (IsHeld k) (λ out. IsHeld k out.1)
        (record {
          skip = λ r. h;
          lost = λ e. fail-IsHeld w h;
          start = λ j e. h;
          marked = λ u q. same-IsHeld (tasked v.task_id v.now) (λ j. refl) (λ j. refl) k u q;
          begun = begun;
          failing = fail-IsHeld;
          again = λ u q l. q;
          settled = λ u j a q given. settle-IsHeld _ j (hitl_locked b a) (held a given) (begun u q);
        })

pub reinspect_job-IsHeld :
    (w w' : World) (k : ℕ) (b : Bool) (o : Option ReturnJob)
    → reinspect_job w o ≡ some (k, b, w')
    → IsHeld k w'
reinspect_job-IsHeld w w' k b none r = absurd (cc)
reinspect_job-IsHeld w w' k b (some j) r = elim (Bool-cases (ltb 0 j.images)) [
  | inl q ↦
      let given = some-injective _ _ (rw q at r) in
      let held = set-IsHeld reset (λ i. refl) (λ i. refl) j.id w.jobs _ refl in
      subst (λ x. IsHeld x.0 x.2) given held
  | inr q ↦
      let bad : ◌≡◌ {A = Option (ℕ × Bool × World)} none (some (k, b, w')) = rw q at r in
      absurd (cc)
]

-- A task none of whose answers would approve the job.
pub deliver-IsHeld_by :
    (visits : ℕ → Visit) (k : ℕ) (b : Bool)
    → ((n : ℕ) (a : AiResult)
        → (visits n).answer ≡ answered a
        → is_approved (some (status_for (hitl_locked b a).decision)) ≡ false)
    → (w : World) → IsHeld k w
    → IsHeld k (deliver visits k b w).1
unfolding deliver
deliver-IsHeld_by visits k b held w h =
    run_from-holds visits k b (IsHeld k) (λ out. IsHeld k out.1)
      (λ n u q. run-IsHeld n (visits n) k b (held n) u q) (λ m u q. q) max_retries 0 w h

pub deliver-IsHeld :
    (visits : ℕ → Visit) (k : ℕ) (w : World) → IsHeld k w → IsHeld k (deliver visits k true w).1
deliver-IsHeld visits k w h =
    deliver-IsHeld_by visits k true (λ n a e. locked_status a.decision a refl) w h

pub not_approved : (o : Option JobStatus) → is_approved o ≡ false → o ≢ some approved
not_approved o h e = let q : true ≡ false = rw e at h in absurd (cc)

-- If an admin asks for a new inspection, by the key of a job or of a used book, and the job belongs
-- to a person, then whatever the lock, the graph of agents and the database do in up to four runs of
-- the task, it does not approve the job.
pub trigger_ai_reinspection-unapproved :
    (visits : ℕ → Visit) (key k : ℕ) (w w' : World)
    → trigger_ai_reinspection key w ≡ some (k, true, w')
    → status_of k (deliver visits k true w').1 ≢ some approved
unfolding trigger_ai_reinspection
trigger_ai_reinspection-unapproved visits key k w w' e =
    not_approved (status_of k (deliver visits k true w').1)
      (deliver-IsHeld visits k w' (reinspect_job-IsHeld w w' k true (asked_job key w) e))
