-- ===== src/Uploads/Names.antt =====
-- The name of a file: `normalize_filename` of app/core/file_security.py.
use wms_secret_backend.Prelude.{
  ℕ, Bool, ◌&&◌, ◌||◌, List, [], ◌∷◌, String, leb, ◌==◌, if◌then◌else◌, any,
}
use wms_secret_backend.Prelude.Pieces.{is_inside}
use wms_secret_backend.Uploads.{
  Text, Code, empty_filename, filename_bidi, filename_control, filename_zero_width,
  filename_double_ext, Libraries, codes, lower,
}

abbrev pub between : ℕ → ℕ → ℕ → Bool
between a b c = leb a c && leb c b

abbrev pub is_bidi : ℕ → Bool
is_bidi c = between 8234 8238 c || between 8294 8297 c || c == 8206 || c == 8207

abbrev pub is_control : ℕ → Bool
is_control c = leb c 31 || c == 127

abbrev pub is_zero_width : ℕ → Bool
is_zero_width c = between 8203 8207 c || c == 8288 || c == 65279

-- Python's white space.
abbrev pub is_space : ℕ → Bool
is_space c =
    between 9 13 c
    || between 28 32 c
    || c == 133
    || c == 160
    || c == 5760
    || between 8192 8202 c
    || c == 8232
    || c == 8233
    || c == 8239
    || c == 8287
    || c == 12288

abbrev is_dot_or_blank : ℕ → Bool
is_dot_or_blank c = c == 46 || c == 32

unfoldable pub rstrip : (ℕ → Bool) → Text → Text
rstrip p [] = []
rstrip p (c ∷ cs) = elim (rstrip p cs) [ [] ↦ if p c then [] else c ∷ [] | d ∷ ds ↦ c ∷ d ∷ ds ]

unfoldable pub lstrip : (ℕ → Bool) → Text → Text
lstrip p [] = []
lstrip p (c ∷ cs) = let rest = lstrip p cs in if p c then rest else c ∷ cs

abbrev pub double_exts : List String
double_exts = ".exe." ∷ ".bat." ∷ ".cmd." ∷ ".sh." ∷ ".js." ∷ ".jar." ∷ ".ps1." ∷ []

abbrev pub has_double_ext : Text → Bool
has_double_ext name = any (λ danger. is_inside (codes danger) (lower name)) double_exts

pub data Name : Type 0 where
  accepted_name : Text → Name
  refused_name : Code → Name

abbrev pub trimmed : Text → Name
trimmed [] = refused_name empty_filename
trimmed (c ∷ cs) =
    if has_double_ext (c ∷ cs)
    then refused_name filename_double_ext
    else accepted_name (rstrip is_space (lstrip is_space (c ∷ cs)))

abbrev pub checked : Text → Name
checked name =
    if any is_bidi name
    then refused_name filename_bidi
    else if any is_control name
    then refused_name filename_control
    else if any is_zero_width name
    then refused_name filename_zero_width
    else trimmed (rstrip is_dot_or_blank name)

unfoldable pub normalize_filename : Libraries → Text → Name
normalize_filename lib [] = refused_name empty_filename
normalize_filename lib (c ∷ cs) = checked (lib.nfc (c ∷ cs))
