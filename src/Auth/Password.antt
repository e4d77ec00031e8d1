-- ===== src/Auth/Password.antt =====
-- app/core/password_policy.py. A text is the list of its code points; `lower` knows the letters of
-- ASCII, as the names and the staff numbers are Hangul, digits and such letters.
use wms_secret_backend.Prelude.Pieces.{is_inside}
use wms_secret_backend.Prelude.{
  ℕ, suc, ◌+◌, max, Bool, true, false, not, ◌&&◌, ◌||◌, Option, none, some, List, [], ◌∷◌, ◌++◌,
  map, ltb, leb, ◌==◌, if◌then◌else◌, length, any,
}

abbrev pub min_length_two_classes : ℕ
min_length_two_classes = 10

abbrev pub min_length_three_classes : ℕ
min_length_three_classes = 8

abbrev pub max_length : ℕ
max_length = 64

abbrev pub max_sequential_run : ℕ
max_sequential_run = 4

abbrev pub Text : Type 0
Text = List ℕ

abbrev between : ℕ → ℕ → ℕ → Bool
between a b c = leb a c && leb c b

abbrev pub is_letter : ℕ → Bool
is_letter c = between 97 122 c || between 65 90 c

abbrev pub is_digit : ℕ → Bool
is_digit c = between 48 57 c

abbrev pub is_special : ℕ → Bool
is_special c = not (is_letter c || is_digit c)

abbrev one_if : Bool → ℕ
one_if t = if t then 1 else 0

unfoldable pub count_character_classes : Text → ℕ
count_character_classes pw =
    one_if (any is_letter pw) + one_if (any is_digit pw) + one_if (any is_special pw)

abbrev pub same : ℕ → ℕ → Bool
same prev cur = cur == prev

abbrev pub up : ℕ → ℕ → Bool
up prev cur = cur == suc prev

abbrev pub down : ℕ → ℕ → Bool
down prev cur = prev == suc cur

abbrev pub run_after : ℕ → Bool → ℕ
run_after run goes_on = if goes_on then run + 1 else 1

-- The loop over the pairs of neighbours, with the three counters.
unfoldable pub scan_runs : (run_same run_up run_down prev : ℕ) → Text → Bool
scan_runs a b c prev [] = false
scan_runs a b c prev (cur ∷ rest) =
    let a' = run_after a (same prev cur) in
    let b' = run_after b (up prev cur) in
    let c' = run_after c (down prev cur) in
    let found = scan_runs a' b' c' cur rest in
    if leb max_sequential_run (max (max a' b') c') then true else found

unfoldable pub scan_all : Text → Bool
unfolding scan_runs
scan_all [] = false
scan_all (p ∷ rest) = scan_runs 1 1 1 p rest

unfoldable pub has_sequential_run : Text → Bool
unfolding scan_all
has_sequential_run pw = if ltb (length pw) max_sequential_run then false else scan_all pw

abbrev pub lower : Text → Text
lower t = map (λ c. if between 65 90 c then c + 32 else c) t

pub data Reason : Type 0 where
  missing too_long few_classes short_of_two short_of_three sequential has_employee_id has_name :
      Reason

abbrev pub reason_if : Reason → Bool → List Reason
reason_if r t = if t then r ∷ [] else []

abbrev pub class_reasons : ℕ → ℕ → List Reason
class_reasons classes len =
    if leb classes 1
    then few_classes ∷ []
    else if (classes == 2) && ltb len min_length_two_classes
    then short_of_two ∷ []
    else if leb 3 classes && ltb len min_length_three_classes
    then short_of_three ∷ []
    else []

-- Whether a text of at least `n` characters that is given stands in the password.
abbrev pub contains_own : ℕ → Option Text → Text → Bool
contains_own n none pw = false
contains_own n (some t) pw = leb n (length t) && is_inside (lower t) (lower pw)

unfoldable pub validate_password : Text → Option Text → Option Text → List Reason
unfolding count_character_classes has_sequential_run is_inside
validate_password [] employee_id name = missing ∷ []
validate_password (p ∷ ps) employee_id name =
    let pw = p ∷ ps in
    reason_if too_long (ltb max_length (length pw))
    ++ class_reasons (count_character_classes pw) (length pw)
    ++ reason_if sequential (has_sequential_run pw)
    ++ reason_if has_employee_id (contains_own 1 employee_id pw)
    ++ reason_if has_name (contains_own 2 name pw)
