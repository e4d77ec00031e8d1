-- ===== src/Policy/Verdict.antt =====
-- The score, the grade and the decision of Stage A.
use wms_secret_backend.Prelude.{
  ℕ, ◌+◌, ◌-◌, ◌≤◌, ◌≡◌, refl, sym, ◌∙◌, inl, inr, Bool, true, false, List, String, arith,
  if◌then◌else◌, any, sum_of, Bool-cases,
}
use wms_secret_backend.Ubci.{workbook_doodle_cap, grade_for, decision_for}
use wms_secret_backend.Policy.{Defect}
use wms_secret_backend.Policy.Scan.{Context, Ledger, blank, scan}
use wms_secret_backend.Policy.StageA.{Judgement, context, conclude, stage_a}
use wms_secret_backend.Policy.Total.{
  is_fatal, is_worn, is_scribbled, own_points, scan-Adds, scan_fatal,
}

-- The points off: those of each defect by itself, the worn corners once, and the scribbles of a
-- workbook once.
abbrev pub points_in : Context → List Defect → ℕ
points_in ctx ds =
    sum_of (own_points ctx) ds
    + (if any (is_worn ctx) ds then ctx.wear_ded else 0)
    + (if any (is_scribbled ctx) ds then workbook_doodle_cap else 0)

module _ (title category : String) (ds : List Defect) where
  abbrev pub points_off : ℕ
  points_off = points_in (context title category ds) ds

  abbrev pub has_fatal : Bool
  has_fatal = any (is_fatal (context title category ds)) ds

  abbrev end : Ledger
  end = (scan (context title category ds) blank ds).0

  end_fatal : end.fatal ≡ has_fatal
  end_fatal = elim (Bool-cases has_fatal) [
    | inl e ↦ scan_fatal (context title category ds) ds blank e ∙ sym e
    | inr e ↦ (scan-Adds (context title category ds) ds blank e).1 ∙ sym e
  ]

  end_total : has_fatal ≡ false → end.total ≡ points_off
  end_total e = (scan-Adds (context title category ds) ds blank e).0 ∙ omega arith

  end_score :
      (if end.fatal then 0 else 100 - end.total) ≡ (if has_fatal then 0 else 100 - points_off)
  end_score = elim (Bool-cases has_fatal) [
    | inl e ↦ rw (end_fatal ∙ e, e) refl
    | inr e ↦ rw (end_fatal ∙ e, e, end_total e) refl
  ]

conclude_score :
    (ds marked : List Defect) (st : Ledger)
    → ((conclude ds st marked).ledger.fatal ≡ st.fatal)
      × ((conclude ds st marked).ubci_score ≡ (if st.fatal then 0 else 100 - st.total))
unfolding conclude
conclude_score ds marked st = ground arith

-- The book is rejected outright exactly when a defect that is not suspect is fatal; else the score
-- is 100 less the points off, and not below 0. The points are a plain sum: no defect changes what
-- another one costs, except that worn corners and the scribbles of a workbook are charged once.
pub stage_a_score :
    (title category : String) (ds : List Defect)
    → ((stage_a title category ds).ledger.fatal ≡ has_fatal title category ds)
      × ((stage_a title category ds).ubci_score
          ≡ (if has_fatal title category ds then 0 else 100 - points_off title category ds))
unfolding stage_a
stage_a_score title category ds =
    let c = conclude_score ds _ (end title category ds) in
    (c.0 ∙ end_fatal title category ds, c.1 ∙ end_score title category ds)

-- What the Judgement shows agrees with itself.
pub record IsCoherent (j : Judgement) : Type 0 where
  score : j.ubci_score ≤ 100
  fatal :
      j.ledger.fatal ≡ true
      → (j.ubci_score ≡ 0) × (j.decision ≡ "REJECT") × (j.score_unverified ≡ false)
  held : j.score_unverified ≡ true → (j.decision ≡ "HITL") × (j.ubci_score ≡ 100)
  shown :
      j.ledger.fatal ≡ false
      → j.score_unverified ≡ false
      → (j.grade ≡ grade_for j.ubci_score) × (j.decision ≡ decision_for j.ubci_score)

conclude-IsCoherent : (ds marked : List Defect) (st : Ledger) → IsCoherent (conclude ds st marked)
unfolding conclude
conclude-IsCoherent ds marked st = record {
  score = ground arith;
  fatal = λ f. (ground arith, ground arith, ground arith);
  held = λ u. (ground arith, ground arith);
  shown = λ f u. (ground arith, ground arith);
}

-- Whatever is found, the score is at most 100; a fatal defect gives score 0 and REJECT; a score that
-- no evidence supports is 100 and goes to a person (HITL); in every other case grade and decision
-- are those of the score.
stage_a-IsCoherent :
    (title category : String) (ds : List Defect) → IsCoherent (stage_a title category ds)
unfolding stage_a
stage_a-IsCoherent title category ds = conclude-IsCoherent ds _ (end title category ds)
