-- ===== src/Worker/Again.antt =====
-- A task that is delivered again after the job was decided.
use wms_secret_backend.Prelude.{ℕ, ◌≡◌, refl, ap, ◌∙◌, Bool, true, false, none, some, Option}
use mathlib.Core.Option.{some-injective}
use wms_secret_backend.Returns.{JobStatus, ReturnJob}
use wms_secret_backend.Worker.{World, find_job, tasked, in_work}
use wms_secret_backend.Worker.Process.{
  Lock, taken, acquired, no_quorum, Visit, locked, lock_failed, Outcome, skipped, done, max_retries,
  is_terminal, hitl_locked, inspect, process_inspection, is_retry, run_from, deliver,
}
use wms_secret_backend.Worker.Jobs.{status_in, status_of}
use wms_secret_backend.Worker.Runs.{process_inspection-branch, run_from-holds}
use wms_secret_backend.Worker.Ended.{IsThere, set-IsThere, settle-shown}

-- The result of a run is the status of the job.
abbrev IsShown : ℕ → Outcome × World → Type 0
IsShown k out = (s : JobStatus) → out.0 ≡ done s → status_of k out.1 ≡ some s

run-IsShown :
    (visits : ℕ → Visit) (n k : ℕ) (b : Bool) (w : World)
    → IsShown k (process_inspection n (visits n) k b w)
run-IsShown visits n k b w =
    process_inspection-branch n (visits n) k b w (IsThere k) (IsShown k) (record {
      skip = λ r s e. absurd (cc);
      lost = λ e s r. absurd (cc);
      start = λ j e. (j, e);
      marked = set-IsThere (tasked (visits n).task_id (visits n).now) (λ j. refl) k;
      begun = set-IsThere (in_work (visits n).now) (λ j. refl) k;
      failing = λ u q s r. absurd (cc);
      again = λ u q l s r. absurd (cc);
      settled = λ u j a q given s. settle-shown visits n k b u j (hitl_locked b a) s q;
    })

-- Nothing is changed and no further run asked for.
abbrev IsIdle : World → Outcome × World → Type 0
IsIdle w out = (is_retry out.0 ≡ false) × (out.1 ≡ w)

module _ (n : ℕ) (v : Visit) (k : ℕ) (w : World) (s : JobStatus) (t : is_terminal s ≡ true) where
  inspect-IsIdle :
      (o : Option ReturnJob) → status_in o ≡ some s → IsIdle w (inspect n v k false w o)
  inspect-IsIdle none e = absurd (cc)
  inspect-IsIdle (some j) e =
      let same : j.status ≡ s = some-injective _ _ e in
      let decided : is_terminal j.status ≡ true = ap is_terminal same ∙ t in rw decided (refl, refl)

  lock-IsIdle :
      (l : Lock)
      → status_of k w ≡ some s
      → IsIdle w (elim l [
        | taken ↦ (skipped locked, w)
        | no_quorum ↦ (skipped lock_failed, w)
        | acquired ↦ inspect n v k false w (find_job k w.jobs)
      ])
  lock-IsIdle taken e = (refl, refl)
  lock-IsIdle no_quorum e = (refl, refl)
  lock-IsIdle acquired e = inspect-IsIdle (find_job k w.jobs) e

  run-IsIdle : status_of k w ≡ some s → IsIdle w (process_inspection n v k false w)
  unfolding process_inspection
  run-IsIdle e = lock-IsIdle v.lock e

deliver-IsIdle :
    (visits : ℕ → Visit) (k : ℕ) (w : World) (s : JobStatus)
    → is_terminal s ≡ true
    → status_of k w ≡ some s
    → (deliver visits k false w).1 ≡ w
unfolding deliver run_from
deliver-IsIdle visits k w s t e =
    let idle = run-IsIdle 0 (visits 0) k w s t e in rw (idle.0) (idle.1)

-- If a task has ended with an approval or a rejection, then the same task, delivered again without
-- the flag of a person, changes nothing, whatever the lock and the graph of agents then do.
pub deliver_twice :
    (visits visits' : ℕ → Visit) (k : ℕ) (b : Bool) (w : World) (s : JobStatus)
    → (deliver visits k b w).0 ≡ done s
    → is_terminal s ≡ true
    → (deliver visits' k false (deliver visits k b w).1).1 ≡ (deliver visits k b w).1
unfolding deliver
deliver_twice visits visits' k b w s e t =
    let shown =
      run_from-holds visits k b (λ u. Unit) (IsShown k) (λ n u q. run-IsShown visits n k b u)
        (λ m u q. tt) max_retries 0 w tt in
    deliver-IsIdle visits' k (deliver visits k b w).1 s t (shown s e)
