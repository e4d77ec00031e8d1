-- ===== src/Override/Rows.antt =====
-- The row of a job through the changes that a decision makes.
use wms_secret_backend.Prelude.{
  ℕ, ◌≡◌, refl, ap, ◌∙◌, sym, inl, inr, true, some, List, [], ◌∷◌, ◌==◌, ==_iff, Bool-cases,
}
use mathlib.Core.Option.{some-injective}
use wms_secret_backend.Returns.{ReturnJob}
use wms_secret_backend.Worker.{find_job, set_job}
use wms_secret_backend.Worker.Jobs.{find-changed}
use wms_secret_backend.Override.{BboxEdits}
use wms_secret_backend.Override.Score.{rescored}
use wms_secret_backend.Override.Session.{HitlOverrideRequest}
use wms_secret_backend.Override.Submit.{commented, edited, has_bbox_ui_edits}

pub found_id : (k : ℕ) (js : List ReturnJob) (j : ReturnJob) → find_job k js ≡ some j → j.id ≡ k
found_id k [] j e = absurd (cc)
found_id k (i ∷ is) j e = elim (Bool-cases (i.id == k)) [
  | inl q ↦
      let same : i ≡ j = some-injective _ _ (rw q at e) in
      sym (ap (λ j. j.id) same) ∙ (==_iff i.id k).0 q
  | inr q ↦ found_id k is j (rw q at e)
]

pub find-put :
    (k : ℕ) (js : List ReturnJob) (j j' : ReturnJob)
    → find_job k js ≡ some j
    → j'.id ≡ k
    → find_job k (set_job k (λ _. j') js) ≡ some j'
find-put k [] j j' e same = absurd (cc)
find-put k (i ∷ is) j j' e same = elim (Bool-cases (i.id == k)) [
  | inl q ↦ let own : (j'.id == k) ≡ true = (==_iff j'.id k).1 same in rw (q, own) refl
  | inr q ↦ rw (q, q) (find-put k is j j' (rw q at e) same)
]

pub edited_id : (e : BboxEdits) (j : ReturnJob) → (edited e j).id ≡ j.id
unfolding rescored
edited_id e j = elim (Bool-cases (has_bbox_ui_edits e)) [ inl q ↦ rw q refl | inr q ↦ rw q refl ]

pub edited_label :
    (e : BboxEdits) (j : ReturnJob) → (edited e j).agent_logs.lpn_barcode ≡ j.agent_logs.lpn_barcode
unfolding rescored
edited_label e j = elim (Bool-cases (has_bbox_ui_edits e)) [ inl q ↦ rw q refl | inr q ↦ rw q refl ]

pub edited_book : (e : BboxEdits) (j : ReturnJob) → (edited e j).book_id ≡ j.book_id
unfolding rescored
edited_book e j = elim (Bool-cases (has_bbox_ui_edits e)) [ inl q ↦ rw q refl | inr q ↦ rw q refl ]

-- The row after a decision and its comment, where the row had the key.
pub find-decided :
    (k : ℕ) (js : List ReturnJob) (r : HitlOverrideRequest) (j j' : ReturnJob)
    → find_job k js ≡ some j
    → j'.id ≡ k
    → find_job k (set_job k (commented r) (set_job k (λ _. j') js)) ≡ some (commented r j')
find-decided k js r j j' e same =
    find-changed (commented r) (λ i. refl) k (set_job k (λ _. j') js) (some j')
      (find-put k js j j' e same)
