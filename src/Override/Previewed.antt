-- ===== src/Override/Previewed.antt =====
-- The score that an admin is shown before a decision, and the score that the decision stores.
use mathlib.Core.Path.{subst}
use wms_secret_backend.Prelude.{
  map, ℕ, ◌-◌, ◌≤◌, ◌≡◌, refl, ap, ◌∙◌, sym, inl, inr, Bool, true, some, List, map, arith, leb,
  Bool-cases, Option-cases, if◌then◌else◌,
}
use wms_secret_backend.Policy.Verdict.{stage_a_score, points_off, has_fatal}
use wms_secret_backend.Stock.Assign.{present}
use wms_secret_backend.Stock.Rows.{IsTagged}
use wms_secret_backend.Returns.{approved, LoggedDefect, ReturnJob}
use wms_secret_backend.Worker.{find_job}
use wms_secret_backend.Override.{BboxEdits, grade_at, clamp_ubci_score_to_grade}
use wms_secret_backend.Override.Edits.{apply_bbox_edits}
use wms_secret_backend.Override.Score.{
  judged, scored, Preview, preview, rescored, shown, preview_score_with_edits,
}
use wms_secret_backend.Override.Session.{HitlOverrideRequest, Session, Desk, placed, goes}
use wms_secret_backend.Override.Submit.{
  has_bbox_ui_edits, edited, or_suggested, approves, verdict_of, on_item,
}
use wms_secret_backend.Override.Bands.{clamp_ubci_score_to_grade_self}
use wms_secret_backend.Override.Shelved.{on_item-IsShelved}

capped : (fatal : Bool) (points : ℕ) → (if fatal then 0 else 100 - points) ≤ 100
capped fatal points = ground arith

judged-few : (ds : List LoggedDefect) → (judged ds).ubci_score ≤ 100
judged-few ds =
    let seen = map (λ d. d.seen) (scored ds) in
    let (_, e) = stage_a_score "" "" seen in
    subst (λ n. n ≤ 100) (sym e) (capped (has_fatal "" "" seen) (points_off "" "" seen))

present-grade_at : (n : ℕ) → present (some (grade_at n)) ≡ some (grade_at n)
present-grade_at n = elim (Bool-cases (leb 95 n)) [
  | inl e ↦ rw e refl
  | inr e ↦ elim (Bool-cases (leb 85 n)) [
    | inl e' ↦ rw (e, e') refl
    | inr e' ↦ elim (Bool-cases (leb 65 n)) [
      | inl e'' ↦ rw (e, e', e'') refl
      | inr e'' ↦ rw (e, e', e'') refl
    ]
  ]
]

edited_score :
    (e : BboxEdits) (j : ReturnJob)
    → has_bbox_ui_edits e ≡ true
    → (edited e j).ubci_score ≡ some (preview e j).ubci_score
unfolding rescored preview
edited_score e j h = rw h refl

shown_found :
    (k : ℕ) (e : BboxEdits) (s : Session) (v : Preview)
    → preview_score_with_edits (some k) e s.live.world ≡ shown v
    → (j : ReturnJob) × (find_job k s.live.world.jobs ≡ some j) × (v ≡ preview e j)
unfolding preview_score_with_edits
shown_found k e s v h = elim (Option-cases (find_job k s.live.world.jobs)) [
  | inl q ↦ absurd (let h' = rw q at h in cc)
  | inr (j, q) ↦ (j, q, let h' = rw q at h in cc)
]

preview-few : (e : BboxEdits) (j : ReturnJob) → (preview e j).ubci_score ≤ 100
unfolding preview
preview-few e j = judged-few (apply_bbox_edits j.agent_logs.defects j.agent_logs.yolo_candidates e)

graded_at :
    (e : BboxEdits) (j : ReturnJob) (v : Preview)
    → v ≡ preview e j
    → v.grade ≡ some (grade_at v.ubci_score)
unfolding preview
graded_at e j v h = subst (λ v. v.grade ≡ some (grade_at v.ubci_score)) (sym h) refl

-- If an admin approves a book with the same edits, which change a box, and with the grade that the
-- preview of the score has shown, and the database takes the place, then the job is approved with exactly the score that
-- was shown.
pub preview_score_with_edits-approved :
    (d : Desk) (k : ℕ) (r : HitlOverrideRequest) (v : Preview) (s : Session)
    → preview_score_with_edits (some k) r.edits s.live.world ≡ shown v
    → r.ticket_id ≡ some k
    → r.target_grade ≡ v.grade
    → verdict_of r.decision ≡ approves
    → has_bbox_ui_edits r.edits ≡ true
    → IsTagged s.live.world.store.locations
    → (s' : Session) × (j : ReturnJob) × (on_item d (r, placed) s ≡ goes s')
      × (find_job k s'.live.world.jobs ≡ some j)
      × (j.status ≡ approved)
      × (j.ubci_score ≡ some v.ubci_score)
preview_score_with_edits-approved d k r v s h ticket target verdict has tags =
    let (j, found, shown_as) = shown_found k r.edits s v h in
    let n = v.ubci_score in
    let own : n ≡ (preview r.edits j).ubci_score = ap (λ p. p.ubci_score) shown_as in
    let graded : r.target_grade ≡ some (grade_at n) = target ∙ graded_at r.edits j v shown_as in
    let wanted =
      ap (λ o. or_suggested o (edited r.edits j).agent_logs.suggested_grade)
        (ap present graded ∙ present-grade_at n) in
    let (s', run, shelved) =
      on_item-IsShelved d k r j s ticket found tags (grade_at n) verdict wanted in
    let few : n ≤ 100 = subst (λ m. m ≤ 100) (sym own) (preview-few r.edits j) in
    let score =
      ap (λ o. clamp_ubci_score_to_grade o (some (grade_at n)))
        (edited_score r.edits j has ∙ ap some (sym own))
      ∙ clamp_ubci_score_to_grade_self n few in
    (s', _, run, shelved.job, refl, score)
