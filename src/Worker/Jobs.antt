-- ===== src/Worker/Jobs.antt =====
-- The rows of jobs after a change, and the queue for failures.
use wms_secret_backend.Prelude.{
  ℕ, drop, zero, suc, ◌-◌, ◌≤◌, ◌≡◌, refl, ap, ◌∙◌, inl, inr, Bool, true, none, some, Option, List,
  [], ◌∷◌, ◌++◌, arith, ◌==◌, Bool-cases, any, length, length-append,
}
use wms_secret_backend.Returns.{JobStatus, ReturnJob}
use wms_secret_backend.Worker.{DlqEntry, World, find_job, set_job, dlq_max, push_to_dlq}

abbrev pub status_in : Option ReturnJob → Option JobStatus
status_in none = none
status_in (some j) = some j.status

abbrev pub status_of : ℕ → World → Option JobStatus
status_of k w = status_in (find_job k w.jobs)

abbrev pub changed : (ReturnJob → ReturnJob) → Option ReturnJob → Option ReturnJob
changed f none = none
changed f (some j) = some (f j)

pub find-set_job :
    (f : ReturnJob → ReturnJob)
    → ((j : ReturnJob) → (f j).id ≡ j.id)
    → (k : ℕ) (js : List ReturnJob) → find_job k (set_job k f js) ≡ changed f (find_job k js)
find-set_job f same k [] = refl
find-set_job f same k (i ∷ is) = ground (arith, same i, find-set_job f same k is)

pub find-changed :
    (f : ReturnJob → ReturnJob)
    → ((j : ReturnJob) → (f j).id ≡ j.id)
    → (k : ℕ) (js : List ReturnJob) (o : Option ReturnJob) → find_job k js ≡ o
    → find_job k (set_job k f js) ≡ changed f o
find-changed f same k js o e = find-set_job f same k js ∙ ap (changed f) e

any-drop :
    (p : DlqEntry → Bool) (n : ℕ) (es : List DlqEntry) (e : DlqEntry)
    → p e ≡ true
    → n ≤ length es
    → any p (drop n (es ++ e ∷ [])) ≡ true
any-drop p zero [] e h l = rw h refl
any-drop p zero (x ∷ es) e h l = elim (Bool-cases (p x)) [
  | inl q ↦ rw q refl
  | inr q ↦ rw q (any-drop p zero es e h (omega arith))
]
any-drop p (suc n) [] e h l = absurd (omega (arith, l))
any-drop p (suc n) (x ∷ es) e h l = any-drop p n es e h (omega (arith, l))

-- A failure of the job is in the queue.
abbrev pub is_queued : ℕ → List DlqEntry → Bool
is_queued k es = any (λ e. e.return_job_id == k) es

pub push_to_dlq-is_queued :
    (e : DlqEntry) (es : List DlqEntry) → is_queued e.return_job_id (push_to_dlq true e es) ≡ true
push_to_dlq-is_queued e es =
    any-drop (λ d. d.return_job_id == e.return_job_id) (length (es ++ e ∷ []) - dlq_max) es e
      (ground arith) (let one = length-append es (e ∷ []) in omega (arith, one))
