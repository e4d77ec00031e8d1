-- ===== src/Worker/Ended.antt =====
-- How a task ends: no inspection is lost.
use mathlib.Core.Path.{subst, sym}
use wms_secret_backend.Prelude.{
  ℕ, zero, suc, ◌+◌, ◌≡◌, ◌≢◌, refl, ap, ◌∙◌, inl, inr, ◌⊎◌, Bool, true, false, none, some, Option,
  List, [], ◌∷◌, ◌++◌, arith, Bool-cases,
}
use wms_secret_backend.Returns.{
  JobStatus, pending, processing, approved, rejected, hitl_required, failed, ReturnJob,
}
use wms_secret_backend.Worker.{
  World, AiResult, push_to_dlq, find_job, set_job, tasked, in_work, saved, save_failed, asked,
  status_for, execute_wms_action,
}
use wms_secret_backend.Worker.Process.{
  Saving, stored, unstored, interrupted, save, finish, retry, Visit, Outcome, done, raised,
  max_retries, fail, hitl_locked, settle, process_inspection, is_retry, run_from, deliver,
}
use wms_secret_backend.Worker.Jobs.{
  status_in, status_of, find-changed, is_queued, push_to_dlq-is_queued,
}
use wms_secret_backend.Worker.Runs.{save-holds, process_inspection-branch, run_from-holds}

-- The job has failed, or there is none.
abbrev HasFailed : ℕ → World → Type 0
HasFailed k w = (status_of k w ≡ none) ⊎ (status_of k w ≡ some failed)

abbrev wants : Outcome → ℕ → List ℕ → List ℕ
wants (done rejected) k ks = ks ++ k ∷ []
wants _ k ks = ks

-- In one of the runs the failure, or the result, was not saved as it should.
abbrev LosesFailure : (ℕ → Visit) → Type 0
LosesFailure visits = (n : ℕ) × ((visits n).failure_saving ≡ unstored)

abbrev BreaksResult : (ℕ → Visit) → Type 0
BreaksResult visits = (n : ℕ) × ((visits n).result_saving ≢ stored)

-- A rejection that has asked for a proposal, and then met an exception.
abbrev IsBroken : (ℕ → Visit) → ℕ → List ℕ → Outcome × World → Type 0
IsBroken visits k ks end = (end.0 ≡ raised) × (end.1.wanted ≡ ks ++ k ∷ []) × BreaksResult visits

-- What is promised of a task for job k, which found the wishes `ks`, at its end.
pub record IsEnd (visits : ℕ → Visit) (k : ℕ) (ks : List ℕ) (end : Outcome × World) : Type 0 where
  pub shown : (s : JobStatus) → end.0 ≡ done s → status_of k end.1 ≡ some s
  pub caught :
      end.0 ≡ raised → (is_queued k end.1.dlq ≡ true) × (HasFailed k end.1 ⊎ LosesFailure visits)
  pub wished : (end.1.wanted ≡ wants end.0 k ks) ⊎ IsBroken visits k ks end

abbrev result : Outcome → Option JobStatus
result (done s) = some s
result _ = none

asked-wants : (st : JobStatus) (k : ℕ) (ks : List ℕ) → asked st k ks ≡ wants (done st) k ks
asked-wants pending k ks = refl
asked-wants processing k ks = refl
asked-wants approved k ks = refl
asked-wants rejected k ks = refl
asked-wants hitl_required k ks = refl
asked-wants failed k ks = refl

failed_after :
    (v : Visit) (k : ℕ) (w : World) (o : Option ReturnJob)
    → find_job k w.jobs ≡ o
    → let f = save_failed v.task_id v.now in
      (status_in (find_job k (set_job k f w.jobs)) ≡ none)
      ⊎ (status_in (find_job k (set_job k f w.jobs)) ≡ some failed)
failed_after v k w none e =
    inl (ap status_in (find-changed (save_failed v.task_id v.now) (λ j. refl) k w.jobs none e))
failed_after v k w (some j) e =
    inr (ap status_in (find-changed (save_failed v.task_id v.now) (λ j. refl) k w.jobs (some j) e))

-- The job is there.
abbrev pub IsThere : ℕ → World → Type 0
IsThere k w = (j : ReturnJob) × (find_job k w.jobs ≡ some j)

pub set-IsThere :
    (f : ReturnJob → ReturnJob)
    → ((j : ReturnJob) → (f j).id ≡ j.id)
    → (k : ℕ) (w : World) → IsThere k w
    → IsThere k (record w { jobs = set_job k f w.jobs })
set-IsThere f same k w (j, e) = (f j, find-changed f same k w.jobs (some j) e)

module _ (visits : ℕ → Visit) (n k : ℕ) (b : Bool) where
  abbrev run : Visit
  run = visits n

  fail-caught :
      run.takes_failure ≡ true
      → (w : World)
      → (is_queued k (fail n run k w).1.dlq ≡ true)
        × (HasFailed k (fail n run k w).1 ⊎ LosesFailure visits)
  fail-caught takes w = by run.failure_saving refl
    where
      queued :
          is_queued k (
            push_to_dlq run.takes_failure
              (record { task_id = run.task_id; return_job_id = k; retries = n })
              w.dlq)
          ≡ true
      queued = rw takes (
          push_to_dlq-is_queued (record { task_id = run.task_id; return_job_id = k; retries = n })
            w.dlq)

      failure : World
      failure = record w {
        dlq =
            push_to_dlq run.takes_failure
              (record { task_id = run.task_id; return_job_id = k; retries = n }) w.dlq;
      }

      by :
          (s : Saving)
          → run.failure_saving ≡ s
          → let u = save s k (save_failed run.task_id run.now) failure in
            (is_queued k u.dlq ≡ true) × (HasFailed k u ⊎ LosesFailure visits)
      by stored e = (queued, inl (failed_after run k w (find_job k w.jobs) refl))
      by unstored e = (queued, inr (n, e))
      by interrupted e = (queued, inl (failed_after run k w (find_job k w.jobs) refl))

  fail-wanted : (w : World) → (fail n run k w).1.wanted ≡ w.wanted
  fail-wanted w =
      save-holds (λ u. u.wanted ≡ w.wanted) k (save_failed run.task_id run.now) run.failure_saving _
        refl refl

  fail-IsEnd :
      (ks : List ℕ)
      → run.takes_failure ≡ true
      → (w : World) → (w.wanted ≡ ks) ⊎ ((w.wanted ≡ ks ++ k ∷ []) × BreaksResult visits)
      → IsEnd visits k ks (fail n run k w)
  fail-IsEnd ks takes w q = record {
    shown = λ s e. absurd (cc);
    caught = λ e. fail-caught takes w;
    wished = elim q [
      | inl q ↦ inl (fail-wanted w ∙ q)
      | inr q ↦ inr (refl, fail-wanted w ∙ q.0, q.1)
    ];
  }

  finish-shown :
      (s t : JobStatus) (f : ReturnJob → ReturnJob) (r : Saving) (u : World)
      → status_of k (save stored k f u) ≡ some s
      → (finish n run k s r (save r k f u)).0 ≡ done t
      → status_of k (finish n run k s r (save r k f u)).1 ≡ some t
  finish-shown s t f stored u q e = q ∙ ap result e
  finish-shown s t f unstored u q e = absurd (cc)
  finish-shown s t f interrupted u q e = absurd (cc)

  -- A result is the status of the job.
  pub settle-shown :
      (w : World) (j : ReturnJob) (a : AiResult) (t : JobStatus)
      → IsThere k w
      → let out = settle n run k j a (record w { jobs = set_job k (in_work run.now) w.jobs }) in
        out.0 ≡ done t → status_of k out.1 ≡ some t
  unfolding execute_wms_action
  settle-shown w j a t (i, e) =
      let s = status_for a.decision in
      let u = record w { jobs = set_job k (in_work run.now) w.jobs } in
      let found = find-changed (in_work run.now) (λ j. refl) k w.jobs (some i) e in
      let after = find-changed (saved a s run.now) (λ j. refl) k u.jobs _ found in
      finish-shown s t (saved a s run.now) run.result_saving
        (execute_wms_action run.takes_place k a j u).1 (ap status_in after)

  module _ (ks : List ℕ) (takes : run.takes_failure ≡ true) where
    wanted_so_far :
        (s : JobStatus) (u : World)
        → u.wanted ≡ wants (done s) k ks
        → run.result_saving ≢ stored
        → (u.wanted ≡ ks) ⊎ ((u.wanted ≡ ks ++ k ∷ []) × BreaksResult visits)
    wanted_so_far rejected u q broken = inr (q, (n, broken))
    wanted_so_far pending u q broken = inl q
    wanted_so_far processing u q broken = inl q
    wanted_so_far approved u q broken = inl q
    wanted_so_far hitl_required u q broken = inl q
    wanted_so_far failed u q broken = inl q

    finish-IsEnd :
        (s : JobStatus) (r : Saving) (u : World)
        → run.result_saving ≡ r
        → u.wanted ≡ wants (done s) k ks
        → ((t : JobStatus)
            → (finish n run k s r u).0 ≡ done t
            → status_of k (finish n run k s r u).1 ≡ some t)
        → IsEnd visits k ks (finish n run k s r u)
    finish-IsEnd s stored u e q shown = record {
      shown = shown;
      caught = λ r. absurd (cc);
      wished = inl q;
    }
    finish-IsEnd s unstored u e q shown =
        fail-IsEnd ks takes u (wanted_so_far s u q (λ p. absurd (cc)))
    finish-IsEnd s interrupted u e q shown =
        fail-IsEnd ks takes u (wanted_so_far s u q (λ p. absurd (cc)))

    settle-IsEnd :
        (w : World) (j : ReturnJob) (a : AiResult)
        → w.wanted ≡ ks
        → IsThere k w
        → IsEnd visits k ks
            (settle n run k j a (record w { jobs = set_job k (in_work run.now) w.jobs }))
    unfolding execute_wms_action
    settle-IsEnd w j a q there =
        let s = status_for a.decision in
        finish-IsEnd s run.result_saving _ refl
          (save-holds (λ u. u.wanted ≡ wants (done s) k ks) k (saved a s run.now) run.result_saving
            _ (rw q (asked-wants s k ks)) (rw q (asked-wants s k ks)))
          (λ t. settle-shown w j a t there)

    run-IsEnd : (w : World) → w.wanted ≡ ks → IsEnd visits k ks (process_inspection n run k b w)
    run-IsEnd w q =
        process_inspection-branch n run k b w (λ u. (u.wanted ≡ ks) × IsThere k u)
          (IsEnd visits k ks)
          (record {
            skip = λ r. record {
              shown = λ s e. absurd (cc);
              caught = λ e. absurd (cc);
              wished = inl q;
            };
            lost = λ e. fail-IsEnd ks takes w (inl q);
            start = λ j e. (q, (j, e));
            marked = λ u p. (p.0, set-IsThere (tasked run.task_id run.now) (λ j. refl) k u p.1);
            begun = λ u p. (p.0, set-IsThere (in_work run.now) (λ j. refl) k u p.1);
            failing = λ u p. fail-IsEnd ks takes u (inl p.0);
            again = λ u p l. record {
              shown = λ s e. absurd (cc);
              caught = λ e. absurd (cc);
              wished = inl p.0;
            };
            settled = λ u j a p given. settle-IsEnd u j (hitl_locked b a) p.0 p.1;
          })

finish-is_retry :
    (n : ℕ) (v : Visit) (k : ℕ) (s : JobStatus) (r : Saving) (w : World)
    → is_retry (finish n v k s r w).0 ≡ false
finish-is_retry n v k s stored w = refl
finish-is_retry n v k s unstored w = refl
finish-is_retry n v k s interrupted w = refl

no_retry_last :
    (v : Visit) (k : ℕ) (b : Bool) (w : World)
    → is_retry (process_inspection max_retries v k b w).0 ≡ false
unfolding execute_wms_action
no_retry_last v k b w =
    process_inspection-branch max_retries v k b w (λ u. Unit) (λ out. is_retry out.0 ≡ false)
      (record {
        skip = λ r. refl;
        lost = λ e. refl;
        start = λ j e. tt;
        marked = λ u q. tt;
        begun = λ u q. tt;
        failing = λ u q. refl;
        again = λ u q l. absurd (cc);
        settled = λ u j a q given.
            finish-is_retry max_retries v k (status_for (hitl_locked b a).decision) v.result_saving
              _;
      })

run_from-ends :
    (visits : ℕ → Visit) (k : ℕ) (b : Bool) (left n : ℕ) (w : World)
    → left + n ≡ max_retries
    → is_retry (run_from visits k b left n w).0 ≡ false
unfolding run_from
run_from-ends visits k b zero n w e =
    let q : n ≡ max_retries = omega (arith, e) in
    subst (λ m. is_retry (process_inspection m (visits m) k b w).0 ≡ false) (sym q)
      (no_retry_last (visits max_retries) k b w)
run_from-ends visits k b (suc left) n w e =
    let out = process_inspection n (visits n) k b w in
    elim (Bool-cases (is_retry out.0)) [
      | inl r ↦ rw r (run_from-ends visits k b left (n + 1) out.1 (omega (arith, e)))
      | inr r ↦ rw (r, r) refl
    ]

-- A retry leaves the wishes as they were.
wished_before :
    (visits : ℕ → Visit) (k m : ℕ) (ks : List ℕ) (u : World)
    → IsEnd visits k ks (retry m, u)
    → u.wanted ≡ ks
wished_before visits k m ks u e = elim e.wished [ inl q ↦ q | inr q ↦ absurd (cc (q.0)) ]

-- Whatever the lock and the graph of agents do, and whichever of the rows that it saves are stored, a
-- task ends after at most four runs, if the queue for failures takes its entries: with a result, which is
-- then the status of the job; with an exception, and then the job is in that queue and, if it is there
-- and no run leaves its failure unsaved, has failed; or with a run that was skipped. A proposal for new
-- books is asked for once if the task ends with a rejection, and else not, except that it may also be
-- asked for once where the task ends with an exception and in some run the saving of the result fails
-- or is followed by an exception.
pub deliver-IsEnd :
    (visits : ℕ → Visit) (k : ℕ) (b : Bool) (w : World)
    → ((n : ℕ) → (visits n).takes_failure ≡ true)
    → (is_retry (deliver visits k b w).0 ≡ false) × IsEnd visits k w.wanted (deliver visits k b w)
unfolding deliver
deliver-IsEnd visits k b w takes = (
  run_from-ends visits k b max_retries 0 w (omega arith),
  run_from-holds visits k b (λ u. u.wanted ≡ w.wanted) (IsEnd visits k w.wanted)
      (λ n u q. run-IsEnd visits n k b w.wanted (takes n) u q)
      (λ m u e. wished_before visits k m w.wanted u e) max_retries 0 w refl,
)
