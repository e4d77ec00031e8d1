-- ===== src/Fraud/Scan.antt =====
-- `run_scan` of app/domains/fds/service.py: what the rules find is reported, unless it was reported
-- within a day.
use text.Mathlib.Text.{◌==◌ as str_eq}
use wms_secret_backend.Prelude.{
  ℕ, ◌+◌, Bool, false, ◌&&◌, Option, none, some, List, [], ◌∷◌, ◌++◌, String, ◌==◌, if◌then◌else◌,
  any,
}
use wms_secret_backend.Fraud.{
  RuleCode, r1_blind_approval, r2_grade_override, r3_night_bulk, r4_return_abuse, Target, admin,
  customer, Detection, Tables, since, rule_blind_approval, rule_grade_override, rule_night_bulk,
  rule_return_abuse,
}

-- `none` is a code of another origin.
pub record FdsReport : Type 0 where
  pub customer_name : String
  pub fraud_score : ℕ
  pub rule_code : Option RuleCode
  pub detected_at : ℕ

abbrev pub rule_number : RuleCode → ℕ
rule_number r1_blind_approval = 1
rule_number r2_grade_override = 2
rule_number r3_night_bulk = 3
rule_number r4_return_abuse = 4

abbrev pub has_rule : RuleCode → Option RuleCode → Bool
has_rule r none = false
has_rule r (some q) = rule_number q == rule_number r

-- The label of an admin is the text of `format_worker_label`, or of the key if there is no user.
abbrev pub target_name : (ℕ → String) → Target → String
target_name label (admin k) = label k
target_name label (customer n) = n

-- The reports, those that are new, whose alerts are sent, and the number of those that were known.
pub record Scan : Type 0 where
  pub reports : List FdsReport
  pub new_reports : List FdsReport
  pub deduplicated : ℕ

module _ (label : ℕ → String) (now : ℕ) where
  abbrev pub is_reported : RuleCode → String → List FdsReport → Bool
  is_reported rule name reports =
      any
        (λ r.
          has_rule rule r.rule_code && str_eq r.customer_name name && since now 24 r.detected_at)
        reports

  abbrev pub report_of : Detection → FdsReport
  report_of d = record {
    customer_name = target_name label d.target;
    fraud_score = d.fraud_score;
    rule_code = some d.rule_code;
    detected_at = now;
  }

  abbrev pub is_known : Detection → List FdsReport → Bool
  is_known d reports = is_reported d.rule_code (target_name label d.target) reports

  unfoldable pub scan_step : Detection → Scan → Scan
  scan_step d s =
      if is_known d s.reports then record s { deduplicated = s.deduplicated + 1 } else record s {
        reports = s.reports ++ report_of d ∷ [];
        new_reports = s.new_reports ++ report_of d ∷ [];
      }

  -- A report that is added is seen by the next query.
  unfoldable pub scan_all : List Detection → Scan → Scan
  unfolding scan_step
  scan_all [] s = s
  scan_all (d ∷ ds) s = scan_all ds (scan_step d s)

-- A rule that raises an exception gives nothing.
abbrev pub unless {ℓ} : {A : Type ℓ} → Bool → List A → List A
unless t xs = if t then [] else xs

abbrev pub all_detections : (ℕ → ℕ → ℕ) → (RuleCode → Bool) → ℕ → Tables → List Detection
all_detections percent_over fails now t =
    unless (fails r1_blind_approval) (rule_blind_approval percent_over now t)
    ++ unless (fails r2_grade_override) (rule_grade_override now t)
    ++ unless (fails r3_night_bulk) (rule_night_bulk now t)
    ++ unless (fails r4_return_abuse) (rule_return_abuse now t)

unfoldable pub run_scan :
    (ℕ → String) → (ℕ → ℕ → ℕ) → (RuleCode → Bool) → ℕ → Tables → List FdsReport → Scan
unfolding scan_all
run_scan label percent_over fails now t reports =
    scan_all label now (all_detections percent_over fails now t)
      (record { reports = reports; new_reports = []; deduplicated = 0 })
