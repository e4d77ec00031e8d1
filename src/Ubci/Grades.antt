-- ===== src/Ubci/Grades.antt =====
-- The grades and the decision, over the whole range of scores, and the area tiers.
use text.Mathlib.TextEquality.{eq_iff}
use wms_secret_backend.Prelude.{
  ℕ, ◌≤◌, ◌≡◌, ◌≢◌, ◌↔◌, sym, inl, inr, true, false, String, arith, leb, Bool-cases, none,
}
use wms_secret_backend.Ubci.{
  DeductionRule, or_zero, tier_for, grade_for, decision_for, reject_grade,
}

approve_ne_reject : ◌≢◌ {A = String} "APPROVE" "REJECT"
approve_ne_reject = ground (arith, eq_iff "APPROVE" "REJECT")

graded_of_approved : (score : ℕ) → leb 65 score ≡ true → grade_for score ≢ reject_grade
unfolding grade_for
graded_of_approved score e g = ground (
  arith,
  eq_iff "S급 (MINT)" reject_grade,
  eq_iff "A급 (GOOD)" reject_grade,
  eq_iff "B급 (NORMAL)" reject_grade,
)

rejected_of_low : (score : ℕ) → leb 65 score ≡ false → grade_for score ≡ reject_grade
unfolding grade_for
rejected_of_low score e = ground arith

-- A score is approved exactly when its grade is not the reject grade: the decision and the table of
-- grades agree on every score.
decision_for-grade_for :
    (score : ℕ) → (decision_for score ≡ "APPROVE") ↔ (grade_for score ≢ reject_grade)
unfolding decision_for
decision_for-grade_for score = elim (Bool-cases (leb 65 score)) [
  | inl e ↦ (λ _. graded_of_approved score e, λ _. rw e)
  | inr e ↦ (
    λ d. absurd (approve_ne_reject (sym (rw (e, decision_for) at d))),
    λ n. absurd (n (rejected_of_low score e)),
  )
]

-- Where the tiers of a rule rise, a larger damaged area never takes off fewer points.
pub tier_for_mono :
    (rule : DeductionRule) (a b : ℕ)
    → rule.flat ≡ none
    → or_zero rule.minor ≤ or_zero rule.moderate
    → or_zero rule.moderate ≤ or_zero rule.severe
    → a ≤ b
    → tier_for rule a ≤ tier_for rule b
unfolding tier_for
tier_for_mono rule a b flat low high h = rw flat (ground arith)
