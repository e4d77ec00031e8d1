-- ===== src/Policy/Scan.antt =====
-- Stage A of `policy_agent` of app/ai/agents/policy.py: the loop that takes the points off.
use wms_secret_backend.Prelude.{
  ℕ, ◌+◌, max, min, Bool, true, false, ◌&&◌, ◌||◌, Option, none, some, List, [], ◌∷◌, ◌++◌, String,
  ltb, leb, if◌then◌else◌,
}
use wms_secret_backend.Ubci.{
  DeductionRule, or_zero, doodle, tier_for, text_overlap_weight, scratch, tear, crush, stain,
  discolor_by_level, sticker, spine_crack, stamp, signature, default_rule, binding_loose,
  doodle_page_threshold, workbook_doodle_cap, binding_fatal_ratio,
}
use wms_secret_backend.Policy.{
  Defect, single, group, excluded, edge_wear_group, workbook_doodle_group, dtype, effective_ratio,
  page_cnt, overlaps_text, Kind, wet, wear, doodled, stained, discolored, scratched, torn,
  stickered, crushed, cracked, loose, signed, stamped, has_any, classify, label_for,
}

abbrev title_keywords : List String
title_keywords =
    "수험서" ∷ "문제집" ∷ "기출" ∷ "자격검정" ∷ "실전문제" ∷ "학습" ∷ "교재" ∷ "AIVLE" ∷ "SQL" ∷ "입문" ∷ "실습" ∷ "자습서"
    ∷ "코딩" ∷ "프로그래밍" ∷ "알고리즘" ∷ "예제" ∷ "테스트" ∷ "인터뷰" ∷ "워크북" ∷ "연습" ∷ "풀이" ∷ "Do it" ∷ "혼자 공부하는"
    ∷ "풀어쓴" ∷ "with 클로드" ∷ "with 코드" ∷ []

abbrev category_keywords : List String
category_keywords = "컴퓨터" ∷ "IT" ∷ "프로그래밍" ∷ "자격증" ∷ "수험서" ∷ []

unfoldable pub is_workbook : String → String → Bool
is_workbook title category = has_any title_keywords title || has_any category_keywords category

-- What the loop knows before it starts: the kind of book, and the points for worn corners.
pub record Context : Type 0 where
  pub workbook : Bool
  pub wear_ded : ℕ

-- The variables of the loop. An item is its label and its points; the text of an item, for display
-- only, is left out. `fatal` is `is_fatal_reject`.
pub record Ledger : Type 0 where
  pub items : List (String × ℕ)
  pub total : ℕ
  pub suspects : List String
  pub fatal : Bool
  pub wear_added : Bool
  pub doodle_added : Bool

abbrev pub blank : Ledger
blank = record {
  items = [];
  total = 0;
  suspects = [];
  fatal = false;
  wear_added = false;
  doodle_added = false;
}

abbrev pub charge : String → ℕ → Ledger → Ledger
charge label points st = record st {
  items = st.items ++ (label, points) ∷ [];
  total = st.total + points;
}

abbrev pub mark_single : ℕ → Defect → Defect
mark_single points d = record d { applied_deduction = some points; deduction_scope = some single }

-- The rule of the last branch. The kinds of the branches before it do not come here.
unfoldable pub rule_for : Kind → DeductionRule
rule_for scratched = scratch
rule_for torn = tear
rule_for stickered = sticker
rule_for crushed = crush
rule_for cracked = spine_crack
rule_for loose = binding_loose
rule_for signed = signature
rule_for stamped = stamp
rule_for _ = default_rule

abbrev pub weighted : Bool → ℕ → ℕ
weighted w points = if w then text_overlap_weight points else points

abbrev pub doodle_points : Defect → ℕ
doodle_points d =
    weighted (overlaps_text d) (
      if ltb doodle_page_threshold (page_cnt d)
      then or_zero doodle.severe
      else or_zero doodle.minor)

abbrev pub level_or_one : Option ℕ → ℕ
level_or_one none = 1
level_or_one (some n) = n

abbrev pub discolor_points : Defect → ℕ
discolor_points d = discolor_by_level (min 3 (max 1 (level_or_one d.level)))

abbrev pub rule_points : DeductionRule → Defect → ℕ
rule_points rule d =
    weighted (overlaps_text d && rule.text_overlap_weighted) (tier_for rule (effective_ratio 5 d))

-- The points of a defect that is charged on its own.
unfoldable pub single_points : Kind → Defect → ℕ
unfolding tier_for effective_ratio rule_for
single_points doodled d = doodle_points d
single_points stained d = tier_for stain (effective_ratio 5 d)
single_points discolored d = discolor_points d
single_points k d = rule_points (rule_for k) d

-- Whether the loop goes on after a defect, or stops by `break`.
pub data Step : Type 0 where
  halt : Ledger → Defect → Step
  next : Ledger → Defect → Step

abbrev pub charge_single : Kind → String → Ledger → Defect → Step
charge_single k label st d =
    let points = single_points k d in next (charge label points st) (mark_single points d)

abbrev pub charge_wear : ℕ → String → Ledger → Defect → Step
charge_wear points label st d =
    let d' = record d { deduction_scope = some group; deduction_group = some edge_wear_group } in
    if st.wear_added
    then next st d'
    else (let st' = charge label points st in next (record st' { wear_added = true }) d')

-- Later scribbles of a workbook are marked, and charged no more.
abbrev pub charge_workbook : String → Ledger → Defect → Step
charge_workbook label st d =
    let d' = record d {
      deduction_scope = some group;
      deduction_group = some workbook_doodle_group;
      applied_deduction = some workbook_doodle_cap;
    } in
    if st.doodle_added
    then next st d'
    else (let st' = charge label workbook_doodle_cap st in
        next (record st' { doodle_added = true }) d')

abbrev pub charge_doodle : Bool → String → Ledger → Defect → Step
charge_doodle workbook label st d =
    if workbook then charge_workbook label st d else charge_single doodled label st d

unfoldable pub judge : Context → Kind → String → Ledger → Defect → Step
unfolding single_points
judge ctx wet label st d =
    halt (record st { fatal = true; items = st.items ++ (label, 100) ∷ [] }) d
judge ctx wear label st d = charge_wear ctx.wear_ded label st d
judge ctx doodled label st d = charge_doodle ctx.workbook label st d
judge ctx loose label st d =
    if leb binding_fatal_ratio (effective_ratio 5 d)
    then halt (record st { fatal = true }) d
    else charge_single loose label st d
judge ctx k label st d = charge_single k label st d

abbrev pub exclude : String → Ledger → Defect → Step
exclude label st d =
    next (record st { suspects = st.suspects ++ label ∷ [] })
      (record d { applied_deduction = some 0; deduction_scope = some excluded })

-- The body of the loop.
unfoldable pub examine : Context → Ledger → Defect → Step
unfolding judge classify label_for
examine ctx st d =
    let label = label_for (dtype d) in
    if d.evidence_suspect then exclude label st d else judge ctx (classify (dtype d)) label st d

unfoldable pub scan : Context → Ledger → List Defect → Ledger × List Defect
unfolding examine
scan ctx st [] = (st, [])
scan ctx st (d ∷ ds) = elim (examine ctx st d) [
  | halt st' d' ↦ (st', d' ∷ ds)
  | next st' d' ↦ let (end, ds') = scan ctx st' ds in (end, d' ∷ ds')
]
