-- ===== src/Fraud/Found.antt =====
-- Whom the rules find.
use text.Mathlib.Text.{◌==◌ as str_eq, starts_with}
use text.Mathlib.TextEquality.{eq_iff}
use wms_secret_backend.Prelude.{
  ℕ, ◌+◌, ◌*◌, ◌≡◌, refl, ap, ◌∙◌, inl, inr, Bool, false, ◌&&◌, Option, none, some, List, [], ◌∷◌,
  String, arith, ltb, leb, ◌==◌, ==_iff, if◌then◌else◌, any, length, Bool-cases,
}
use wms_secret_backend.Fraud.{
  Grade, reject, normal, good, mint, AdminAuditLog, ReturnJob, Order, admin, customer, Detection,
  Tables, since, count_if, duration_rows, is_blind, override_rows, steps_up, job_grade, is_repeated,
  return_rows, is_abuse, detect, blind_report, override_report, abuse_report, rule_blind_approval,
  rule_grade_override, rule_return_abuse,
}
use wms_secret_backend.Fraud.Groups.{group_from, values_of, passes, passes-values_of}

-- The review times of an admin within seven days.
abbrev pub reviews : ℕ → ℕ → List AdminAuditLog → List ℕ
reviews now k [] = []
reviews now k (l ∷ ls) =
    let rest = reviews now k ls in
    elim (l.review_duration_ms) [
      | none ↦ rest
      | some d ↦ if (l.admin_id == k) && since now (7 * 24) l.created_at then d ∷ rest else rest
    ]

-- The raises by two steps or more, from REJECT to GOOD and from REJECT or NORMAL to MINT.
abbrev pub raised_by : Option Grade → Option Grade → Option ℕ
raised_by (some good) (some reject) = some 2
raised_by (some mint) (some normal) = some 2
raised_by (some mint) (some reject) = some 3
raised_by _ _ = none

steps_up-raised_by : (t s : Option Grade) → steps_up t s ≡ raised_by t s
steps_up-raised_by none none = refl
steps_up-raised_by none (some s) = refl
steps_up-raised_by (some reject) none = refl
steps_up-raised_by (some normal) none = refl
steps_up-raised_by (some good) none = refl
steps_up-raised_by (some mint) none = refl
steps_up-raised_by (some reject) (some reject) = refl
steps_up-raised_by (some reject) (some normal) = refl
steps_up-raised_by (some reject) (some good) = refl
steps_up-raised_by (some reject) (some mint) = refl
steps_up-raised_by (some normal) (some reject) = refl
steps_up-raised_by (some normal) (some normal) = refl
steps_up-raised_by (some normal) (some good) = refl
steps_up-raised_by (some normal) (some mint) = refl
steps_up-raised_by (some good) (some reject) = refl
steps_up-raised_by (some good) (some normal) = refl
steps_up-raised_by (some good) (some good) = refl
steps_up-raised_by (some good) (some mint) = refl
steps_up-raised_by (some mint) (some reject) = refl
steps_up-raised_by (some mint) (some normal) = refl
steps_up-raised_by (some mint) (some good) = refl
steps_up-raised_by (some mint) (some mint) = refl

abbrev pub with_raise : Option ℕ → Bool → List ℕ → List ℕ
with_raise none counts rest = rest
with_raise (some n) counts rest = if counts then n ∷ rest else rest

-- The steps by which an admin has raised grades by two or more, within thirty days.
abbrev pub raises : ℕ → List ReturnJob → ℕ → List AdminAuditLog → List ℕ
raises now jobs k [] = []
raises now jobs k (l ∷ ls) =
    with_raise (raised_by l.target_grade (job_grade jobs l.target_id))
      ((l.admin_id == k) && (starts_with l.action "APPROVE" && since now (30 * 24) l.created_at))
      (raises now jobs k ls)

-- How many returns a customer has asked for within thirty days.
abbrev pub returns : ℕ → String → List Order → ℕ
returns now n [] = 0
returns now n (o ∷ os) =
    let rest = returns now n os in
    elim (o.customer_name) [
      | none ↦ rest
      | some m ↦
          if str_eq m n && (o.return_requested && since now (30 * 24) o.created_at)
          then rest + 1
          else rest
    ]

abbrev pub finds_admin : ℕ → List Detection → Bool
finds_admin k ds =
    any (λ d. elim (d.target) as (λ _. Bool) [ admin j ↦ j == k | customer _ ↦ false ]) ds

abbrev pub finds_customer : String → List Detection → Bool
finds_customer n ds =
    any (λ d. elim (d.target) as (λ _. Bool) [ admin _ ↦ false | customer m ↦ str_eq m n ]) ds

module _ {A : Type 0} (same : A → A → Bool) (test : List ℕ → Bool) (report : A → List ℕ → Detection)
    (names : Detection → Bool) (k : A)
    (named_so : (j : A) (vs : List ℕ) → names (report j vs) ≡ same j k) where
  detect-passes : (m : List (A × List ℕ)) → any names (detect test report m) ≡ passes same test k m
  detect-passes [] = refl
  detect-passes ((j, vs) ∷ m) = elim (Bool-cases (test vs)) [
    | inl e ↦ rw (e, named_so j vs, detect-passes m) (ground arith)
    | inr e ↦ rw (e, detect-passes m) (ground arith)
  ]

reviews-values_of :
    (now k : ℕ) (ls : List AdminAuditLog)
    → values_of ◌==◌ k (duration_rows now ls) ≡ reviews now k ls
reviews-values_of now k [] = refl
reviews-values_of now k (l ∷ ls) = ground (arith, reviews-values_of now k ls)

raises-values_of :
    (now : ℕ) (jobs : List ReturnJob) (k : ℕ) (ls : List AdminAuditLog)
    → values_of ◌==◌ k (override_rows now jobs ls) ≡ raises now jobs k ls
raises-values_of now jobs k [] = refl
raises-values_of now jobs k (l ∷ ls) =
    let counts = starts_with l.action "APPROVE" && since now (30 * 24) l.created_at in
    by (steps_up l.target_grade (job_grade jobs l.target_id)) counts (override_rows now jobs ls)
    ∙ ap (with_raise _ ((l.admin_id == k) && counts)) (raises-values_of now jobs k ls)
    ∙ ap (λ o. with_raise o ((l.admin_id == k) && counts) (raises now jobs k ls))
        (steps_up-raised_by l.target_grade (job_grade jobs l.target_id))
  where
    by :
        (o : Option ℕ) (counts : Bool) (rows : List (ℕ × ℕ))
        → values_of ◌==◌ k (elim o as (λ _. List (ℕ × ℕ)) [
          | none ↦ rows
          | some n ↦ if counts then (l.admin_id, n) ∷ rows else rows
        ])
          ≡ with_raise o ((l.admin_id == k) && counts) (values_of ◌==◌ k rows)
    by none counts rows = refl
    by (some n) counts rows = ground arith

returns-values_of :
    (now : ℕ) (n : String) (os : List Order)
    → length (values_of str_eq n (return_rows now os)) ≡ returns now n os
returns-values_of now n [] = refl
returns-values_of now n (o ∷ os) = ground (arith, returns-values_of now n os)

module _ (percent_over : ℕ → ℕ → ℕ) (now : ℕ) (t : Tables) where
  blind_iff :
      (k : ℕ)
      → finds_admin k (rule_blind_approval percent_over now t)
        ≡ is_blind (reviews now k t.audit_logs)
  unfolding rule_blind_approval
  blind_iff k =
      detect-passes ◌==◌ is_blind (blind_report percent_over)
        (λ d. elim (d.target) as (λ _. Bool) [ admin j ↦ j == k | customer _ ↦ false ]) k
        (λ j vs. refl) (group_from ◌==◌ [] (duration_rows now t.audit_logs))
      ∙ passes-values_of ◌==◌ ==_iff is_blind refl k (duration_rows now t.audit_logs)
      ∙ ap is_blind (reviews-values_of now k t.audit_logs)

  override_iff :
      (k : ℕ)
      → finds_admin k (rule_grade_override now t) ≡ is_repeated (raises now t.jobs k t.audit_logs)
  unfolding rule_grade_override
  override_iff k =
      detect-passes ◌==◌ is_repeated override_report
        (λ d. elim (d.target) as (λ _. Bool) [ admin j ↦ j == k | customer _ ↦ false ]) k
        (λ j vs. refl) (group_from ◌==◌ [] (override_rows now t.jobs t.audit_logs))
      ∙ passes-values_of ◌==◌ ==_iff is_repeated refl k (override_rows now t.jobs t.audit_logs)
      ∙ ap is_repeated (raises-values_of now t.jobs k t.audit_logs)

  abuse_iff :
      (n : String) → finds_customer n (rule_return_abuse now t) ≡ leb 3 (returns now n t.orders)
  unfolding rule_return_abuse
  abuse_iff n =
      detect-passes str_eq is_abuse abuse_report
        (λ d. elim (d.target) as (λ _. Bool) [ admin _ ↦ false | customer m ↦ str_eq m n ]) n
        (λ j vs. refl) (group_from str_eq [] (return_rows now t.orders))
      ∙ passes-values_of str_eq eq_iff is_abuse refl n (return_rows now t.orders)
      ∙ ap (λ c. leb 3 c) (returns-values_of now n t.orders)

  -- An admin is found by R1 exactly when there are at least five review times of the last seven days and
  -- at least 60% of them are below a second, and by R2 exactly when at least two approvals of the last
  -- thirty days raised the grade by two steps or more; a customer is found by R4 exactly when there are
  -- at least three returns of the last thirty days.
  pub rules_iff :
      ((k : ℕ)
        → finds_admin k (rule_blind_approval percent_over now t) ≡ (
            leb 5 (length (reviews now k t.audit_logs))
            && leb
                (6 * length (reviews now k t.audit_logs))
                (10 * count_if (λ d. ltb d 1000) (reviews now k t.audit_logs))))
      × ((k : ℕ)
          → finds_admin k (rule_grade_override now t)
            ≡ leb 2 (length (raises now t.jobs k t.audit_logs)))
      × ((n : String) → finds_customer n (rule_return_abuse now t) ≡ leb 3 (returns now n t.orders))
  rules_iff = (blind_iff, override_iff, abuse_iff)
