-- ===== src/Prelude/Texts.antt =====
-- Python's `lstrip`, `strip` and `replace(word, "")` on texts, and lists of texts in order.
use Prim.Native.Nat.{ℕ, zero, suc, ◌-◌}
use Prim.Native.Char.{Char, code}
use Prim.Native.String.{String, count}
use Prim.Native.String
use text.Mathlib.Text.{◌==◌ as str_eq, starts_with, is_lt}
use mathlib.Core.Bool.{Bool, true, false, ◌&&◌, ◌||◌}
use mathlib.Core.List.{List, [], ◌∷◌}
use wms_secret_backend.Prelude.Tests.{leb, ◌==◌, if◌then◌else◌}

-- White space of ASCII.
abbrev pub is_space : Char → Bool
is_space c = (code c == 32) || leb 9 (code c) && leb (code c) 13

abbrev pub is_zero : Char → Bool
is_zero c = code c == 48

unfoldable pub lstrip : (Char → Bool) → String → String
lstrip p String.[] = ""
lstrip p (String.◌∷◌ c s) = elim (p c) [ true ↦ lstrip p s | false ↦ String.◌∷◌ c (s) ]

unfoldable pub rstrip : (Char → Bool) → String → String
rstrip p String.[] = ""
rstrip p (String.◌∷◌ c s) =
    let r = rstrip p s in if str_eq r "" && p c then "" else String.◌∷◌ c (r)

unfoldable pub strip : String → String
unfolding lstrip rstrip
strip s = rstrip is_space (lstrip is_space s)

-- The second argument is how much of a word found is still to be passed over.
erase_from : String → ℕ → String → String
erase_from word k String.[] = ""
erase_from word (suc k) (String.◌∷◌ c s) = erase_from word k s
erase_from word zero (String.◌∷◌ c s) =
    if starts_with (String.◌∷◌ c s) word
    then erase_from word (count word - 1) s
    else String.◌∷◌ c (erase_from word zero s)

unfoldable pub erase : String → String → String
unfolding erase_from
erase word s = erase_from word 0 s

abbrev pub nonempty_or : String → String → String
nonempty_or other s = if str_eq s "" then other else s

-- Tuples of texts from the left, as Python compares them.
abbrev pub texts_le : List String → List String → Bool
texts_le [] _ = true
texts_le (a ∷ as') [] = false
texts_le (a ∷ as') (b ∷ bs) = is_lt (String.compare a b) || str_eq a b && texts_le as' bs
