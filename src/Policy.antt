-- ===== src/Policy.antt =====
-- app/ai/agents/policy.py: the defects that the Policy Agent judges, and what it makes of one.
pub mod Wear
pub mod Total
pub mod Verdict
pub mod Ignored
pub mod Order
pub mod Mono
pub mod Scan
pub mod StageA
pub mod StageB
mod Tests
use text.Mathlib.Text.{◌==◌ as str_eq}
use wms_secret_backend.Prelude.{
  ℕ, ◌-◌, ◌*◌, max, Bool, true, false, ◌||◌, Option, none, some, List, [], ◌∷◌, String, ltb, leb,
  ◌==◌, if◌then◌else◌, is_in,
}
use wms_secret_backend.Prelude.Round.{round_half_even}

-- Corners of the box in thousandths of the picture.
pub record Bbox : Type 0 where
  pub xmin : ℕ
  pub ymin : ℕ
  pub xmax : ℕ
  pub ymax : ℕ

pub data Scope : Type 0 where
  single group excluded : Scope

pub data Group : Type 0 where
  edge_wear_group workbook_doodle_group : Group

-- The keys of a defect that the agent reads, then those that it writes. A key that is absent, or
-- that `int` cannot read, is `none`; an absent text is the empty text.
pub record Defect : Type 0 where
  pub type : String
  pub label : String
  pub description : String
  pub ratio : Option ℕ
  pub bbox : Option Bbox
  pub image_index : Option ℕ
  pub page_count : Option ℕ
  pub pages : Option ℕ
  pub level : Option ℕ
  pub text_overlap : Bool
  pub evidence_suspect : Bool
  pub applied_deduction : Option ℕ
  pub deduction_scope : Option Scope
  pub deduction_group : Option Group

-- `str(d.get("type", "") or d.get("label", ""))`
abbrev pub dtype : Defect → String
dtype d = if str_eq d.type "" then d.label else d.type

-- `max(1, round(w * h * 100))` for the two sides in thousandths.
abbrev pub bbox_ratio : ℕ → Option Bbox → ℕ
unfolding round_half_even
bbox_ratio default none = default
bbox_ratio default (some b) =
    if leb b.xmax b.xmin || leb b.ymax b.ymin
    then default
    else max 1 (round_half_even ((b.xmax - b.xmin) * (b.ymax - b.ymin)) 10_000)

abbrev pub positive_or : ℕ → Option ℕ → ℕ
positive_or other none = other
positive_or other (some n) = if ltb 0 n then n else other

unfoldable pub effective_ratio : ℕ → Defect → ℕ
unfolding round_half_even
effective_ratio default d = positive_or (bbox_ratio default d.bbox) d.ratio

-- `d.get("page_count") or d.get("pages") or 1`
abbrev pub page_cnt : Defect → ℕ
page_cnt d = positive_or (positive_or 1 d.pages) d.page_count

abbrev pub overlaps_text : Defect → Bool
overlaps_text d = d.text_overlap || is_in "본문" d.description

-- The branches of the loop of `policy_agent`, in the order of its tests.
pub data Kind : Type 0 where
  wet wear doodled stained discolored scratched torn stickered crushed cracked loose signed stamped
        other :
      Kind

abbrev pub has_any : List String → String → Bool
has_any [] text = false
has_any (word ∷ words) text = is_in word text || has_any words text

unfoldable pub classify : String → Kind
classify t =
    if has_any ("WET" ∷ "WATER" ∷ "WARPING" ∷ "침수" ∷ "휨" ∷ []) t
    then wet
    else if has_any ("WEAR" ∷ "마모" ∷ []) t
    then wear
    else if has_any ("DOODLE" ∷ "필기" ∷ "낙서" ∷ []) t
    then doodled
    else if has_any ("STAIN" ∷ "오염" ∷ "얼룩" ∷ []) t
    then stained
    else if has_any ("DISCOLOR" ∷ "변색" ∷ "황변" ∷ []) t
    then discolored
    else if has_any ("SCRATCH" ∷ "긁힘" ∷ "스크래치" ∷ []) t
    then scratched
    else if has_any ("TEAR" ∷ "찢어짐" ∷ "찢김" ∷ []) t
    then torn
    else if has_any ("STICKER" ∷ "스티커" ∷ []) t
    then stickered
    else if has_any ("CRUSH" ∷ "찍힘" ∷ "구겨짐" ∷ "찌그러짐" ∷ []) t
    then crushed
    else if has_any ("SPINE" ∷ "갈라짐" ∷ []) t
    then cracked
    else if has_any ("BINDING" ∷ "제본" ∷ []) t
    then loose
    else if has_any ("SIGNATURE" ∷ "서명" ∷ "이름" ∷ []) t
    then signed
    else if has_any ("STAMP" ∷ "도장" ∷ []) t
    then stamped
    else other

-- The first branch of `_edge_wear_profile`, which does not look for the fatal kinds first.
abbrev pub is_wear : String → Bool
is_wear t = has_any ("WEAR" ∷ "마모" ∷ []) t

-- DEFECT_TRANSLATION_MAP of app/ai/agents/common.py.
abbrev translation_map : List (String × String)
translation_map =
    ("DMG_INT_DOODLE", "내부 손글씨/낙서")
    ∷ ("DMG_INT_STAIN", "내지 오염/이물질")
    ∷ ("DMG_EXT_CRUSH", "표지 모서리 찍힘/구겨짐")
    ∷ ("DMG_EXT_WET", "액체 오염/습기/휨 (WATER_DAMAGE)")
    ∷ ("DMG_EXT_TEAR", "커버 찢어짐 (Tear)")
    ∷ ("DMG_INT_DISCOLOR", "내지 황변/빛바램")
    ∷ ("DMG_EXT_SCRATCH", "표지 긁힘/스크래치")
    ∷ ("DMG_EXT_STICKER", "스티커/바코드 자국")
    ∷ ("DMG_EDGE_WEAR", "모서리 마모")
    ∷ ("DMG_SPINE_CRACK", "책등 갈라짐")
    ∷ ("DMG_BINDING_LOOSE", "제본 벌어짐")
    ∷ ("DMG_SIGNATURE", "측면 서명/이름")
    ∷ ("DMG_STAMP", "도서관/장서인 도장")
    ∷ []

lookup_label : String → List (String × String) → Option String
lookup_label t [] = none
lookup_label t ((code, name) ∷ rest) = if str_eq t code then some name else lookup_label t rest

abbrev nonempty_or : String → String → String
nonempty_or fallback text = if str_eq text "" then fallback else text

unfoldable pub label_for : String → String
unfolding lookup_label
label_for t = elim (lookup_label t translation_map) [
  | none ↦ nonempty_or "상태 결함" t
  | some name ↦ name
]
