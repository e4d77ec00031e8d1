-- ===== src/Picking/Slots.antt =====
-- Where a book lies: `_location_of` of app/domains/orders/picking.py, and the rule
-- `recommend_optimal_warehouse_zone` of app/domains/inventory/service.py.
use wms_secret_backend.Prelude.{
  ℕ, Bool, Option, none, some, List, [], ◌∷◌, String, if◌then◌else◌, is_in, any,
}
use wms_secret_backend.Prelude.Texts.{lstrip, strip, erase, is_zero, nonempty_or}
use text.Mathlib.Text.{◌==◌ as str_eq}
use wms_secret_backend.Picking.{Book, Location, get_by}

pub record Slot : Type 0 where
  pub zone : String
  pub rack : String
  pub shelf : String

abbrev one_of : List String → String → Bool
one_of names s = any (λ n. str_eq s n) names

abbrev mentions : List String → String → Bool
mentions words s = any (λ w. is_in w s) words

unfoldable pub zone_for : String → String
zone_for grade =
    if one_of ("NEW" ∷ "NEW_FASTTRACK" ∷ []) grade
    then "A"
    else if one_of ("MINT" ∷ "S" ∷ []) grade
    then "B"
    else if one_of ("GOOD" ∷ "A" ∷ []) grade
    then "C"
    else if one_of ("NORMAL" ∷ "B" ∷ []) grade
    then "D"
    else if one_of ("POOR" ∷ "REJECT" ∷ []) grade
    then "E"
    else "D"

unfoldable pub rack_for : String → String
rack_for c =
    if mentions ("컴퓨터" ∷ "IT" ∷ []) c
    then "1"
    else if mentions ("소설" ∷ "에세이" ∷ "문학" ∷ "시" ∷ []) c
    then "2"
    else if mentions ("경제" ∷ "경영" ∷ "자기계발" ∷ []) c
    then "3"
    else if mentions ("과학" ∷ "수학" ∷ "외국어" ∷ "수험" ∷ []) c
    then "4"
    else "5"

unfoldable pub shelf_for : String → String
shelf_for ss =
    if mentions ("대형" ∷ "국배판" ∷ "A4" ∷ "4x6배판" ∷ []) ss
    then "1"
    else if mentions ("신국판" ∷ "국판" ∷ "4륙판" ∷ []) ss
    then "2"
    else if is_in "문고" ss
    then "3"
    else "4"

-- The price, an argument of the code, is not read there.
unfoldable pub recommend_optimal_warehouse_zone : (grade category standard_size : String) → Slot
unfolding zone_for rack_for shelf_for
recommend_optimal_warehouse_zone grade category standard_size = record {
  zone = zone_for grade;
  rack = rack_for category;
  shelf = shelf_for standard_size;
}

unfoldable pub unpad : String → String → String
unfolding strip lstrip
unpad value default =
    let s = strip value in if str_eq s "" then default else nonempty_or default (lstrip is_zero s)

abbrev pub fallback_location_for_book : Book → String → Slot
unfolding recommend_optimal_warehouse_zone
fallback_location_for_book book grade =
    recommend_optimal_warehouse_zone grade (nonempty_or "IT/컴퓨터" book.category_type)
      book.standard_size

abbrev pub slot_at : Location → Slot
unfolding unpad erase strip
slot_at loc = record {
  zone = nonempty_or "A" (strip (erase "zone" (erase "Zone" (nonempty_or "A" loc.zone))));
  rack = unpad loc.rack "1";
  shelf = unpad loc.shelf "1";
}

unfoldable pub location_of : List Location → Option ℕ → Book → String → Slot
unfolding slot_at fallback_location_for_book
location_of locations none book grade = fallback_location_for_book book grade
location_of locations (some k) book grade = elim (get_by (λ l. l.id) k locations) [
  | some loc ↦ slot_at loc
  | none ↦ fallback_location_for_book book grade
]
