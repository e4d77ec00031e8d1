-- ===== src/Ubci.antt =====
-- app/core/ubci_matrix.py: the deduction rules and the grades.
pub mod Grades
use wms_secret_backend.Prelude.{
  ℕ, ◌*◌, ◌/◌, Bool, true, false, Option, none, some, List, [], ◌∷◌, String, ltb, leb,
  if◌then◌else◌,
}

-- The ratios are whole percents, as the caller passes them.
abbrev pub minor_max_ratio : ℕ
minor_max_ratio = 5

abbrev pub moderate_max_ratio : ℕ
moderate_max_ratio = 15

-- Points times TEXT_OVERLAP_MULTIPLIER = 1.5, cut to an integer.
abbrev pub text_overlap_weight : ℕ → ℕ
text_overlap_weight points = points * 3 / 2

-- The label and the clause of a rule are texts for display.
pub record DeductionRule : Type 0 where
  pub minor : Option ℕ
  pub moderate : Option ℕ
  pub severe : Option ℕ
  pub flat : Option ℕ
  pub text_overlap_weighted : Bool

-- `value or 0`
abbrev pub or_zero : Option ℕ → ℕ
or_zero none = 0
or_zero (some n) = n

unfoldable pub tier_for : DeductionRule → ℕ → ℕ
tier_for rule ratio = elim (rule.flat) [
  | some points ↦ points
  | none ↦
      if ltb ratio minor_max_ratio
      then or_zero rule.minor
      else if ltb ratio moderate_max_ratio
      then or_zero rule.moderate
      else or_zero rule.severe
]

abbrev tiers : ℕ → ℕ → ℕ → DeductionRule
tiers a b c = record {
  minor = some a;
  moderate = some b;
  severe = some c;
  flat = none;
  text_overlap_weighted = true;
}

abbrev fixed : ℕ → DeductionRule
fixed points = record {
  minor = none;
  moderate = none;
  severe = none;
  flat = some points;
  text_overlap_weighted = true;
}

abbrev pub scratch : DeductionRule
scratch = tiers 2 5 10

abbrev pub tear : DeductionRule
tear = tiers 5 10 15

abbrev pub crush : DeductionRule
crush = tiers 3 5 10

abbrev plain_stain : DeductionRule
plain_stain = tiers 5 10 20

abbrev pub stain : DeductionRule
stain = record plain_stain { text_overlap_weighted = false }

-- DISCOLOR_BY_LEVEL, at the levels 1 to 3.
abbrev pub discolor_by_level : ℕ → ℕ
discolor_by_level level = if leb level 1 then 2 else if leb level 2 then 5 else 10

abbrev pub sticker : DeductionRule
sticker = tiers 2 3 5

abbrev pub spine_crack : DeductionRule
spine_crack = tiers 5 5 10

abbrev pub stamp : DeductionRule
stamp = fixed 15

abbrev pub signature : DeductionRule
signature = fixed 10

abbrev pub default_rule : DeductionRule
default_rule = tiers 2 5 8

abbrev pub binding_loose : DeductionRule
binding_loose = fixed 10

abbrev pub edge_wear : DeductionRule
edge_wear = tiers 3 5 10

abbrev pub edge_wear_spread_step : ℕ
edge_wear_spread_step = 2

abbrev pub edge_wear_cap : ℕ
edge_wear_cap = 15

abbrev pub doodle_page_threshold : ℕ
doodle_page_threshold = 5

abbrev pub doodle : DeductionRule
doodle = tiers 10 10 15

abbrev pub workbook_doodle_cap : ℕ
workbook_doodle_cap = 15

abbrev pub binding_fatal_ratio : ℕ
binding_fatal_ratio = 15

abbrev pub base_score : ℕ
base_score = 100

abbrev pub grade_thresholds : List (ℕ × String)
grade_thresholds = (95, "S급 (MINT)") ∷ (85, "A급 (GOOD)") ∷ (65, "B급 (NORMAL)") ∷ []

abbrev pub reject_grade : String
reject_grade = "REJECT C급 (폐기)"

abbrev pub approve_min_score : ℕ
approve_min_score = 65

first_threshold : ℕ → List (ℕ × String) → String
first_threshold score [] = reject_grade
first_threshold score ((threshold, name) ∷ rest) =
    if leb threshold score then name else first_threshold score rest

unfoldable pub grade_for : ℕ → String
unfolding first_threshold
grade_for score = first_threshold score grade_thresholds

unfoldable pub decision_for : ℕ → String
decision_for score = if leb approve_min_score score then "APPROVE" else "REJECT"
