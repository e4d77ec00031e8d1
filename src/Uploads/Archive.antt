-- ===== src/Uploads/Archive.antt =====
-- Archives: `verify_no_macro`, `verify_zip_bomb` and `_inspect_archive` of app/core/file_security.py.
use wms_secret_backend.Prelude.{
  ℕ, ◌*◌, Bool, false, ◌&&◌, ◌||◌, Option, none, some, List, [], ◌∷◌, String, ltb, ◌==◌,
  if◌then◌else◌, any, length, sum_of, map,
}
use wms_secret_backend.Prelude.Pieces.{begins, is_inside}
use wms_secret_backend.Uploads.{
  Bytes, Text, ooxml_broken, macro_detected, zip_bomb_size, zip_bomb_ratio, zip_path_traversal,
  zip_executable_entry, Check, passed, refused, broke, then_check, Content, content, bad_entry,
  other_error, Entry, Libraries, codes, text_eq, ends, lower, is_one_of,
}

abbrev pub is_ooxml : Text → Bool
is_ooxml ext = is_one_of (".docx" ∷ ".xlsx" ∷ ".pptx" ∷ []) ext

abbrev pub macro_markers : List String
macro_markers = "vbaproject.bin" ∷ "vbadata.xml" ∷ "macros/" ∷ []

abbrev pub has_macro : Entry → Bool
has_macro e = any (λ m. is_inside (codes m) (lower e.filename)) macro_markers

abbrev pub check_names : Option (List Entry) → Check
check_names none = refused ooxml_broken
check_names (some es) = if any has_macro es then refused macro_detected else passed

unfoldable pub verify_no_macro : Libraries → Bytes → Text → Check
verify_no_macro lib file ext = if is_ooxml ext then check_names (lib.zip_file file) else passed

abbrev pub archive_forbidden_exts : List String
archive_forbidden_exts =
    ".exe" ∷ ".dll" ∷ ".scr" ∷ ".com" ∷ ".pif" ∷ ".bat" ∷ ".cmd" ∷ ".msi" ∷ ".ps1" ∷ ".vbs" ∷ ".vbe"
    ∷ ".js" ∷ ".jse" ∷ ".wsf" ∷ ".hta" ∷ ".jar" ∷ ".sh" ∷ ".lnk" ∷ []

abbrev pub nested_archive_exts : List String
nested_archive_exts = ".zip" ∷ ".docx" ∷ ".xlsx" ∷ ".pptx" ∷ ".jar" ∷ []

abbrev pub max_ratio : ℕ
max_ratio = 100

abbrev pub max_total : ℕ
max_total = 209_715_200

abbrev pub ends_with_any : List String → Text → Bool
ends_with_any exts t = any (λ e. ends (codes e) t) exts

-- `name.replace("\\", "/")`
abbrev slashed : Text → Text
slashed t = map (λ c. if c == 92 then 47 else c) t

-- The part before the first slash, and whether a later part is "..".
unfoldable pub split_dots : Text → Text × Bool
split_dots [] = ([], false)
split_dots (c ∷ cs) =
    let (part, later) = split_dots cs in
    if c == 47 then ([], later || text_eq part (codes "..")) else (c ∷ part, later)

-- `".." in name.split("/")`
abbrev has_dots : Text → Bool
has_dots t = text_eq (split_dots t).0 (codes "..") || (split_dots t).1

abbrev pub is_traversal : Text → Bool
is_traversal name = begins (47 ∷ []) (slashed name) || has_dots (slashed name)

abbrev pub is_nested : Entry → Bool
is_nested e = ends_with_any nested_archive_exts (lower e.filename)

abbrev pub is_forbidden : Entry → Bool
is_forbidden e = ends_with_any archive_forbidden_exts (lower e.filename)

abbrev pub Inner : Type 0
Inner = Option (Bytes → Check)

-- The content of an entry and the entries behind it. With a damaged entry the exception ends the whole
-- loop without a refusal.
abbrev pub after_read : (Bytes → Check) → Content → Check → Check
after_read inner (content file) rest = then_check (inner file) rest
after_read inner bad_entry rest = passed
after_read inner other_error rest = broke

-- A nested archive; `none` for the check says that the greatest depth is reached.
abbrev pub check_nested : Inner → Entry → Check → Check
check_nested none e rest = rest
check_nested (some inner) e rest =
    if is_nested e
    then if ltb max_total e.file_size then refused zip_bomb_size else after_read inner e.read rest
    else rest

unfoldable pub check_entries : Inner → List Entry → Check
check_entries inner [] = passed
check_entries inner (e ∷ es) =
    let rest = check_entries inner es in
    if is_traversal e.filename
    then refused zip_path_traversal
    else if is_forbidden e
    then refused zip_executable_entry
    else check_nested inner e rest

abbrev pub total_size : List Entry → ℕ
total_size es = sum_of (λ e. e.file_size) es

abbrev pub check_archive : Inner → Bytes → Option (List Entry) → Check
check_archive inner file none = passed
check_archive inner file (some es) =
    if ltb max_total (total_size es)
    then refused zip_bomb_size
    else if ltb 0 (length file) && ltb (max_ratio * length file) (total_size es)
    then refused zip_bomb_ratio
    else check_entries inner es

-- At the greatest depth, 2, and at depth 1.
unfoldable pub inspect_nested : Libraries → Bytes → Check
inspect_nested lib file = check_archive none file (lib.zip_file file)

unfoldable pub inspect_archive : Libraries → Bytes → Check
inspect_archive lib file = check_archive (some (inspect_nested lib)) file (lib.zip_file file)

unfoldable pub verify_zip_bomb : Libraries → Bytes → Text → Check
verify_zip_bomb lib file ext = if is_ooxml ext then inspect_archive lib file else passed
