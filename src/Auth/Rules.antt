-- ===== src/Auth/Rules.antt =====
-- Which passwords pass.
use wms_secret_backend.Prelude.{
  ℕ, ◌≡◌, refl, ◌∙◌, Bool, true, false, not, ◌&&◌, ◌||◌, Option, List, [], ◌∷◌, ◌++◌, arith, ltb,
  leb, ◌==◌, length,
}
use wms_secret_backend.Auth.Password.{
  Text, same, up, down, count_character_classes, has_sequential_run, Reason, too_long, sequential,
  has_employee_id, has_name, reason_if, class_reasons, contains_own, validate_password,
}
use wms_secret_backend.Auth.Runs.{has_four, has_sequential_run-four}

abbrev pub is_nil {ℓ} : {A : Type ℓ} → List A → Bool
is_nil [] = true
is_nil (_ ∷ _) = false

-- At most 64 characters; of two classes at least 10, of three at least 8; no four characters in a
-- row that are the same or go up or down by one; neither the staff number nor a name of at least two
-- characters in it.
abbrev pub accepted : Text → Option Text → Option Text → Bool
accepted pw employee_id name =
    leb (length pw) 64
    && ((count_character_classes pw == 2) && leb 10 (length pw)
        || leb 3 (count_character_classes pw) && leb 8 (length pw))
    && not (has_four same pw || has_four up pw || has_four down pw)
    && not (contains_own 1 employee_id pw)
    && not (contains_own 2 name pw)

all_nil :
    (a : Bool) (xs : List Reason) (b c d : Bool)
    → is_nil (
        reason_if too_long a
        ++ xs
        ++ reason_if sequential b
        ++ reason_if has_employee_id c
        ++ reason_if has_name d)
      ≡ (not a && is_nil xs && not b && not c && not d)
all_nil true xs b c d = refl
all_nil false (x ∷ xs) b c d = refl
all_nil false [] true c d = refl
all_nil false [] false true d = refl
all_nil false [] false false true = refl
all_nil false [] false false false = refl

nil-class_reasons :
    (c n : ℕ) → is_nil (class_reasons c n) ≡ ((c == 2) && leb 10 n || leb 3 c && leb 8 n)
nil-class_reasons c n = ground arith

not-ltb : (n : ℕ) → not (ltb 64 n) ≡ leb n 64
not-ltb n = ground arith

together :
    (c d : Bool) {n n' x x' b b' : Bool}
    → n ≡ n'
    → x ≡ x'
    → b ≡ b'
    → (n && x && not b && not c && not d) ≡ (n' && x' && not b' && not c && not d)
together c d p q r = λ i. p i && q i && not (r i) && not c && not d

-- A password, not empty, has no reason against it exactly when it keeps all the rules.
validate_password-accepted :
    (p : ℕ) (ps : Text) (employee_id name : Option Text)
    → is_nil (validate_password (p ∷ ps) employee_id name) ≡ accepted (p ∷ ps) employee_id name
unfolding validate_password
validate_password-accepted p ps employee_id name =
    let pw = p ∷ ps in
    all_nil (ltb 64 (length pw)) (class_reasons (count_character_classes pw) (length pw))
      (has_sequential_run pw) (contains_own 1 employee_id pw) (contains_own 2 name pw)
    ∙ together (contains_own 1 employee_id pw) (contains_own 2 name pw) (not-ltb (length pw))
        (nil-class_reasons (count_character_classes pw) (length pw)) (has_sequential_run-four pw)
