-- ===== src/Fraud.antt =====
-- The rules that look for fraud, and the scan: app/domains/fds/service.py. A time is a number of hours;
-- the evidence, the wording of an alert and the language model that words it are left out.
pub mod Groups
pub mod Scan
pub mod Once
pub mod Found
mod Tests
use text.Mathlib.Text.{◌==◌ as str_eq, starts_with}
use wms_secret_backend.Prelude.{
  ℕ, zero, ◌+◌, ◌-◌, ◌*◌, ◌/◌, min, max, ◌≡◌, refl, Bool, true, false, not, ◌&&◌, ◌||◌, Option,
  none, some, List, [], ◌∷◌, ◌++◌, map, String, arith, ltb, leb, ◌==◌, if◌then◌else◌, length,
  sum_of, filter_by, any,
}
use wms_secret_backend.Fraud.Groups.{group_from}

pub data Grade : Type 0 where
  reject normal good mint : Grade

abbrev pub grade_rank : Grade → ℕ
grade_rank reject = 0
grade_rank normal = 1
grade_rank good = 2
grade_rank mint = 3

-- A grade is `none` where the text is no grade.
pub record AdminAuditLog : Type 0 where
  pub admin_id : ℕ
  pub action : String
  pub review_duration_ms : Option ℕ
  pub target_grade : Option Grade
  pub target_id : Option ℕ
  pub created_at : ℕ

pub record ReturnJob : Type 0 where
  pub id : ℕ
  pub suggested_grade : Option Grade

pub record Order : Type 0 where
  pub id : ℕ
  pub customer_name : Option String
  pub is_auto_po : Bool
  pub return_requested : Bool
  pub total_price : ℕ
  pub created_at : ℕ
  pub hour : ℕ

pub data RuleCode : Type 0 where
  r1_blind_approval r2_grade_override r3_night_bulk r4_return_abuse : RuleCode

-- Whom a rule has found.
pub data Target : Type 0 where
  admin : ℕ → Target
  customer : String → Target

pub record Detection : Type 0 where
  pub rule_code : RuleCode
  pub target : Target
  pub fraud_score : ℕ

pub record Tables : Type 0 where
  pub audit_logs : List AdminAuditLog
  pub jobs : List ReturnJob
  pub orders : List Order

-- Not longer ago than so many hours.
abbrev pub since : ℕ → ℕ → ℕ → Bool
since now window at = leb now (at + window)

abbrev pub count_if : (ℕ → Bool) → List ℕ → ℕ
count_if p xs = length (filter_by p xs)

abbrev pub max_of : List ℕ → ℕ
max_of [] = 0
max_of (x ∷ xs) = max x (max_of xs)

-- R1.
abbrev pub duration_rows : ℕ → List AdminAuditLog → List (ℕ × ℕ)
duration_rows now [] = []
duration_rows now (l ∷ ls) =
    let rest = duration_rows now ls in
    elim (l.review_duration_ms) [
      | none ↦ rest
      | some d ↦ if since now (7 * 24) l.created_at then (l.admin_id, d) ∷ rest else rest
    ]

abbrev pub is_fast : ℕ → Bool
is_fast d = ltb d 1000

-- At least five reviews, and at least 60% of them below the threshold.
abbrev pub is_blind : List ℕ → Bool
is_blind ds = leb 5 (length ds) && leb (6 * length ds) (10 * count_if is_fast ds)

-- R2.
abbrev pub job_grade : List ReturnJob → Option ℕ → Option Grade
job_grade jobs none = none
job_grade [] (some k) = none
job_grade (j ∷ js) (some k) = if j.id == k then j.suggested_grade else job_grade js (some k)

abbrev pub steps_up : Option Grade → Option Grade → Option ℕ
steps_up none s = none
steps_up (some t) none = none
steps_up (some t) (some s) =
    if leb (grade_rank s + 2) (grade_rank t) then some (grade_rank t - grade_rank s) else none

abbrev pub override_rows : ℕ → List ReturnJob → List AdminAuditLog → List (ℕ × ℕ)
override_rows now jobs [] = []
override_rows now jobs (l ∷ ls) =
    let rest = override_rows now jobs ls in
    elim (steps_up l.target_grade (job_grade jobs l.target_id)) [
      | none ↦ rest
      | some n ↦
          if starts_with l.action "APPROVE" && since now (30 * 24) l.created_at
          then (l.admin_id, n) ∷ rest
          else rest
    ]

abbrev pub is_repeated : List ℕ → Bool
is_repeated ups = leb 2 (length ups)

-- R3.
abbrev pub same_name : Option String → Option String → Bool
same_name none none = true
same_name (some a) (some b) = str_eq a b
same_name _ _ = false

abbrev pub is_history : ℕ → Order → Order → Bool
is_history now o p =
    same_name p.customer_name o.customer_name
    && since now (90 * 24) p.created_at
    && not (p.id == o.id)
    && not p.is_auto_po

abbrev pub history : ℕ → List Order → Order → List Order
history now orders o = filter_by (is_history now o) orders

abbrev pub is_night : ℕ → Bool
is_night hour = leb 22 hour || ltb hour 6

-- Below three times the customer's average, where there is one above 0: the total of the others is
-- compared with the price as often as there are others.
abbrev pub is_usual : ℕ → List Order → Bool
is_usual price others =
    let total = sum_of (λ p. p.total_price) others in
    ltb 0 total && ltb (price * length others) (3 * total)

abbrev pub is_night_bulk : ℕ → List Order → Order → Bool
is_night_bulk now orders o =
    since now (7 * 24) o.created_at
    && not o.is_auto_po
    && is_night o.hour
    && leb 2_000_000 o.total_price
    && not (is_usual o.total_price (history now orders o))

abbrev pub named : Option String → String
named none = "미상 고객"
named (some n) = if str_eq n "" then "미상 고객" else n

-- R4.
abbrev pub return_rows : ℕ → List Order → List (String × ℕ)
return_rows now [] = []
return_rows now (o ∷ os) =
    let rest = return_rows now os in
    elim (o.customer_name) [
      | none ↦ rest
      | some n ↦
          if o.return_requested && since now (30 * 24) o.created_at then (n, 1) ∷ rest else rest
    ]

abbrev pub is_abuse : List ℕ → Bool
is_abuse ones = leb 3 (length ones)

-- The entries of a dictionary that pass, as detections.
abbrev pub detect {ℓ} :
    {A : Type ℓ} → (List ℕ → Bool) → (A → List ℕ → Detection) → List (A × List ℕ) → List Detection
detect test report [] = []
detect test report ((k, vs) ∷ m) =
    if test vs then report k vs ∷ detect test report m else detect test report m

-- `percent_over f t` is `int((f / t - 0.6) * 100)` in floating-point numbers.
module _ (percent_over : ℕ → ℕ → ℕ) where
  abbrev pub blind_report : ℕ → List ℕ → Detection
  blind_report k ds = record {
    rule_code = r1_blind_approval;
    target = admin k;
    fraud_score = min 95 (60 + percent_over (count_if is_fast ds) (length ds));
  }

  unfoldable pub rule_blind_approval : ℕ → Tables → List Detection
  rule_blind_approval now t =
      detect is_blind blind_report (group_from ◌==◌ [] (duration_rows now t.audit_logs))

abbrev pub override_report : ℕ → List ℕ → Detection
override_report k ups = record {
  rule_code = r2_grade_override;
  target = admin k;
  fraud_score = min 95 (55 + length ups * 10 + max_of ups * 5);
}

unfoldable pub rule_grade_override : ℕ → Tables → List Detection
rule_grade_override now t =
    detect is_repeated override_report (group_from ◌==◌ [] (override_rows now t.jobs t.audit_logs))

abbrev pub night_report : Order → Detection
night_report o = record {
  rule_code = r3_night_bulk;
  target = customer (named o.customer_name);
  fraud_score = min 90 (50 + (o.total_price - 2_000_000) / 500_000 * 5);
}

unfoldable pub rule_night_bulk : ℕ → Tables → List Detection
rule_night_bulk now t = map night_report (filter_by (is_night_bulk now t.orders) t.orders)

abbrev pub abuse_report : String → List ℕ → Detection
abuse_report n ones = record {
  rule_code = r4_return_abuse;
  target = customer n;
  fraud_score = min 90 (45 + length ones * 10);
}

-- Groups come in the order of their first rows.
unfoldable pub rule_return_abuse : ℕ → Tables → List Detection
rule_return_abuse now t =
    detect is_abuse abuse_report (group_from str_eq [] (return_rows now t.orders))
