-- ===== src/Worker/Runs.antt =====
-- What a run of the task can be, and what a repeated one is in the end.
use wms_secret_backend.Prelude.{
  ℕ, zero, suc, ◌+◌, ◌^◌, ◌≡◌, refl, inl, inr, Bool, true, not, ◌&&◌, none, some, Option, ltb,
  Bool-cases,
}
use wms_secret_backend.Returns.{ReturnJob}
use wms_secret_backend.Worker.{World, AiResult, find_job, set_job, tasked, in_work}
use wms_secret_backend.Worker.Process.{
  Lock, taken, acquired, no_quorum, Answer, answered, api_error, other_error, Saving, stored,
  unstored, interrupted, Visit, save, work_on, take_on, prepare, Skip, locked, lock_failed, already,
  Outcome, skipped, done, raised, retry, max_retries, is_terminal, fail, is_unknown, hitl_locked,
  settle, on_answer, inspect, process_inspection, is_retry, run_from,
}

-- A row with a change that is saved, or not.
module _ (Q : World → Type 0) (k : ℕ) (f : ReturnJob → ReturnJob) where
  pub save-holds :
      (s : Saving) (w : World) → Q w → Q (record w { jobs = set_job k f w.jobs }) → Q (save s k f w)
  save-holds stored w q q' = q'
  save-holds unstored w q q' = q
  save-holds interrupted w q q' = q'

-- What is to be shown of each branch of a run. `Q` is what holds of the tables between its commits.
pub record Branches (n : ℕ) (v : Visit) (k : ℕ) (b : Bool) (w : World) (Q : World → Type 0)
    (R : Outcome × World → Type 0) : Type 0 where
  pub skip : (r : Skip) → R (skipped r, w)
  pub lost : find_job k w.jobs ≡ none → R (fail n v k w)
  pub start : (j : ReturnJob) → find_job k w.jobs ≡ some j → Q w
  pub marked : (u : World) → Q u → Q (record u { jobs = set_job k (tasked v.task_id v.now) u.jobs })
  pub begun : (u : World) → Q u → Q (record u { jobs = set_job k (in_work v.now) u.jobs })
  pub failing : (u : World) → Q u → R (fail n v k u)
  pub again : (u : World) → Q u → ltb n max_retries ≡ true → R (retry (2 ^ n), u)
  pub settled :
      (u : World) (j : ReturnJob) (a : AiResult)
      → Q u
      → v.answer ≡ answered a
      → R (settle n v k j (hitl_locked b a) (record u { jobs = set_job k (in_work v.now) u.jobs }))

module _ (n : ℕ) (v : Visit) (k : ℕ) (b : Bool) (w : World) (Q : World → Type 0)
    (R : Outcome × World → Type 0) (h : Branches n v k b w Q R) where
  on_answer-branch :
      (j : ReturnJob) (a : Answer) (u : World)
      → Q u
      → v.answer ≡ a
      → R (on_answer n v k b j a (record u { jobs = set_job k (in_work v.now) u.jobs }))
  on_answer-branch j (answered a) u q given = elim (Bool-cases (is_unknown a.decision)) [
    | inl e ↦ rw e (h.failing _ (h.begun u q))
    | inr e ↦ rw e (h.settled u j a q given)
  ]
  on_answer-branch j api_error u q given = elim (Bool-cases (ltb n max_retries)) [
    | inl e ↦ rw e (h.again _ (h.begun u q) e)
    | inr e ↦ rw e (h.failing _ (h.begun u q))
  ]
  on_answer-branch j other_error u q given = h.failing _ (h.begun u q)

  work_on-branch : (j : ReturnJob) (s : Saving) (u : World) → Q u → R (work_on n v k b j s u)
  work_on-branch j stored u q = on_answer-branch j v.answer u q refl
  work_on-branch j unstored u q = h.failing u q
  work_on-branch j interrupted u q = h.failing _ (h.begun u q)

  take_on-branch : (j : ReturnJob) (s : Saving) (u : World) → Q u → R (take_on n v k b j s u)
  take_on-branch j stored u q = work_on-branch j v.status_saving _ (h.marked u q)
  take_on-branch j unstored u q = h.failing u q
  take_on-branch j interrupted u q = h.failing _ (h.marked u q)

  prepare-branch : (j : ReturnJob) (o : Option ℕ) → Q w → R (prepare n v k b j o w)
  prepare-branch j none q = take_on-branch j v.task_saving w q
  prepare-branch j (some t) q = work_on-branch j v.status_saving w q

  inspect-branch : (o : Option ReturnJob) → find_job k w.jobs ≡ o → R (inspect n v k b w o)
  inspect-branch none e = h.lost e
  inspect-branch (some j) e =
      let rest = prepare-branch j j.task_id (h.start j e) in
      elim (Bool-cases (is_terminal j.status && not b)) [
        | inl q ↦ rw q (h.skip (already j.status))
        | inr q ↦ rw q rest
      ]

  locked-branch :
      (l : Lock)
      → R (elim l [
        | taken ↦ (skipped locked, w)
        | no_quorum ↦ (skipped lock_failed, w)
        | acquired ↦ inspect n v k b w (find_job k w.jobs)
      ])
  locked-branch taken = h.skip locked
  locked-branch no_quorum = h.skip lock_failed
  locked-branch acquired = inspect-branch (find_job k w.jobs) refl

  pub process_inspection-branch : R (process_inspection n v k b w)
  unfolding process_inspection
  process_inspection-branch = locked-branch v.lock

module _ (visits : ℕ → Visit) (k : ℕ) (b : Bool) (Q : World → Type 0) (R : Outcome × World → Type 0)
    (run : (n : ℕ) (w : World) → Q w → R (process_inspection n (visits n) k b w))
    (back : (m : ℕ) (w : World) → R (retry m, w) → Q w) where
  back_to : (o : Outcome) (w : World) → is_retry o ≡ true → R (o, w) → Q w
  back_to (retry m) w e r = back m w r
  back_to (skipped s) w e r = absurd (cc)
  back_to (done s) w e r = absurd (cc)
  back_to raised w e r = absurd (cc)

  pub run_from-holds : (left n : ℕ) (w : World) → Q w → R (run_from visits k b left n w)
  unfolding run_from
  run_from-holds zero n w q = run n w q
  run_from-holds (suc left) n w q =
      let out = process_inspection n (visits n) k b w in
      elim (Bool-cases (is_retry out.0)) [
        | inl e ↦ rw e (run_from-holds left (n + 1) out.1 (back_to out.0 out.1 e (run n w q)))
        | inr e ↦ rw e (run n w q)
      ]
