-- ===== src/Fraud/Tests.antt =====
-- Reviews and returns of a week, and the theorems applied to them.
use wms_secret_backend.Prelude.{
  ℕ, ◌*◌, ◌/◌, ◌≡◌, refl, Bool, true, false, ◌&&◌, none, some, [], ◌∷◌, String, ltb, leb, length,
}
use wms_secret_backend.Fraud.{
  AdminAuditLog, Order, Tables, RuleCode, customer, r3_night_bulk, count_if, rule_blind_approval,
  rule_grade_override, rule_night_bulk, rule_return_abuse,
}
use wms_secret_backend.Fraud.Scan.{run_scan, scan_all, scan_step, all_detections}
use wms_secret_backend.Fraud.Once.{IsScanned, start, run_scan-IsScanned}
use wms_secret_backend.Fraud.Found.{
  finds_admin, finds_customer, reviews, raises, returns, rules_iff,
}

abbrev review : ℕ → AdminAuditLog
review d = record {
  admin_id = 3;
  action = "APPROVE";
  review_duration_ms = some d;
  target_grade = none;
  target_id = none;
  created_at = 990;
}

abbrev order : ℕ → ℕ → Order
order k price = record {
  id = k;
  customer_name = some "shop";
  is_auto_po = false;
  return_requested = true;
  total_price = price;
  created_at = 995;
  hour = 23;
}

abbrev week : Tables
week = record {
  audit_logs = review 400 ∷ review 500 ∷ review 90_000 ∷ review 600 ∷ review 700 ∷ [];
  jobs = [];
  orders = order 1 3_000_000 ∷ order 2 400_000 ∷ order 3 400_000 ∷ [];
}

abbrev label : ℕ → String
label k = "WM"

abbrev over : ℕ → ℕ → ℕ
over f t = f * 100 / t

abbrev no_failure : RuleCode → Bool
no_failure r = false

night :
    rule_night_bulk 1000 week
    ≡ record { rule_code = r3_night_bulk; target = customer "shop"; fraud_score = 60 } ∷ []
unfolding rule_night_bulk
night = refl

three_found : length (run_scan label over no_failure 1000 week []).new_reports ≡ 3
unfolding run_scan scan_all scan_step rule_blind_approval rule_grade_override rule_night_bulk
    rule_return_abuse
three_found = refl

run_scan-IsScanned_example :
    IsScanned label 1000
      (all_detections over no_failure 1000 week)
      (start [])
      (run_scan label over no_failure 1000 week [])
run_scan-IsScanned_example = run_scan-IsScanned label over no_failure 1000 week []

rules_iff_example :
    ((k : ℕ)
      → finds_admin k (rule_blind_approval over 1000 week) ≡ (
          leb 5 (length (reviews 1000 k week.audit_logs))
          && leb
              (6 * length (reviews 1000 k week.audit_logs))
              (10 * count_if (λ d. ltb d 1000) (reviews 1000 k week.audit_logs))))
    × ((k : ℕ)
        → finds_admin k (rule_grade_override 1000 week)
          ≡ leb 2 (length (raises 1000 week.jobs k week.audit_logs)))
    × ((n : String)
        → finds_customer n (rule_return_abuse 1000 week) ≡ leb 3 (returns 1000 n week.orders))
rules_iff_example = rules_iff over 1000 week
