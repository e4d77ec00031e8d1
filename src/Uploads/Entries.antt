-- ===== src/Uploads/Entries.antt =====
-- What an archive holds that is accepted.
use mathlib.Core.Path.{subst}
use wms_secret_backend.Prelude.{
  ◌*◌, ◌≤◌, ◌≡◌, refl, ◌∙◌, sym, inl, inr, Bool, true, false, ◌&&◌, none, some, List, [], ◌∷◌,
  arith, ltb, ltb→le, Bool-cases, if◌then◌else◌, any, length, All-mono, All,
}
use wms_secret_backend.Uploads.{
  Bytes, Text, Check, passed, refused, broke, then_check, Code, Content, content, bad_entry,
  other_error, Entry, Libraries,
}
use wms_secret_backend.Uploads.Archive.{
  max_ratio, max_total, is_traversal, is_nested, is_forbidden, Inner, after_read, check_nested,
  check_entries, total_size, check_archive, inspect_nested, inspect_archive, is_ooxml,
  verify_zip_bomb,
}

abbrev pub IsSafe : Entry → Type 0
IsSafe e = (is_traversal e.filename ≡ false) × (is_forbidden e ≡ false)

abbrev is_bad_entry : Content → Bool
is_bad_entry bad_entry = true
is_bad_entry _ = false

-- A nested archive that cannot be read.
abbrev pub is_damaged : Entry → Bool
is_damaged e = is_nested e && is_bad_entry e.read

-- The whole of an archive is within the bounds, and its entries are safe.
pub record IsHarmless (file : Bytes) (es : List Entry) : Type 0 where
  pub small : total_size es ≤ max_total
  pub dense : (ltb 0 (length file) && ltb (max_ratio * length file) (total_size es)) ≡ false
  pub safe : All IsSafe es

abbrev Passes : Inner → Entry → Type 0
Passes none e = Unit
Passes (some inner) e =
    is_nested e ≡ true → (file : Bytes) → e.read ≡ content file → inner file ≡ passed

pub then_check-passed : (c c' : Check) → then_check c c' ≡ passed → (c ≡ passed) × (c' ≡ passed)
then_check-passed passed c' h = (refl, h)
then_check-passed (refused x) c' h = absurd (cc)
then_check-passed broke c' h = absurd (cc)

pub if_refused :
    (b : Bool) (x : Code) (c : Check)
    → (if b then refused x else c) ≡ passed
    → (b ≡ false) × (c ≡ passed)
if_refused true x c h = absurd (cc)
if_refused false x c h = (refl, h)

content-injective : (a b : Bytes) → content a ≡ content b → a ≡ b
content-injective a b h = cc

after_read-passed :
    (inner : Bytes → Check) (c : Content) (rest : Check)
    → is_bad_entry c ≡ false
    → after_read inner c rest ≡ passed
    → (rest ≡ passed) × ((file : Bytes) → c ≡ content file → inner file ≡ passed)
after_read-passed inner bad_entry rest b h = absurd (cc)
after_read-passed inner other_error rest b h = absurd (cc)
after_read-passed inner (content file) rest b h =
    let (here, there) = then_check-passed (inner file) rest h in
    (there, λ file' e. subst (λ f. inner f ≡ passed) (content-injective file file' e) here)

check_nested-passed :
    (inner : Inner) (e : Entry) (rest : Check)
    → is_damaged e ≡ false
    → check_nested inner e rest ≡ passed
    → (rest ≡ passed) × Passes inner e
check_nested-passed none e rest d h = (h, tt)
check_nested-passed (some inner) e rest d h = elim (Bool-cases (is_nested e)) [
  | inl n ↦
      let (small, h') = if_refused (ltb max_total e.file_size) _ _ (rw n at h) in
      let (done, inside) = after_read-passed inner e.read rest (rw n at d) h' in (done, λ q. inside)
  | inr n ↦ (rw n at h, λ q. let bad : true ≡ false = sym q ∙ n in absurd (cc))
]

module _ (inner : Inner) where
  check_entries-passed :
      (es : List Entry)
      → any is_damaged es ≡ false
      → check_entries inner es ≡ passed
      → All (λ e. IsSafe e × Passes inner e) es
  unfolding check_entries
  check_entries-passed [] d h = tt
  check_entries-passed (e ∷ es) d h =
      let (safe, h') = if_refused (is_traversal e.filename) _ _ h in
      let (allowed, h'') = if_refused (is_forbidden e) _ _ h' in
      let (rest, passes) =
        check_nested-passed inner e (check_entries inner es) (ground (arith, d)) h'' in
      (((safe, allowed), passes), check_entries-passed es (ground (arith, d)) rest)

  check_archive-passed :
      (file : Bytes) (es : List Entry)
      → any is_damaged es ≡ false
      → check_archive inner file (some es) ≡ passed
      → IsHarmless file es × All (Passes inner) es
  check_archive-passed file es d h =
      let (small, h') = if_refused _ _ _ h in
      let (dense, h'') = if_refused _ _ _ h' in
      let entries = check_entries-passed es d h'' in
      (
        record {
          small = ltb→le max_total (total_size es) small;
          dense = dense;
          safe = All-mono _ IsSafe (λ e x. x.0) es entries;
        },
        All-mono _ (Passes inner) (λ e x. x.1) es entries,
      )

-- The archive and, as far as they are opened, those in it.
pub record IsOpened (lib : Libraries) (file : Bytes) (es : List Entry) : Type 0 where
  pub outer : IsHarmless file es
  pub inner : All (λ e. Passes (some (inspect_nested lib)) e) es

pub inspect_archive-IsOpened :
    (lib : Libraries) (file : Bytes) (es : List Entry)
    → lib.zip_file file ≡ some es
    → any is_damaged es ≡ false
    → inspect_archive lib file ≡ passed
    → IsOpened lib file es
unfolding inspect_archive
inspect_archive-IsOpened lib file es z d h =
    let (outer, inner) = check_archive-passed (some (inspect_nested lib)) file es d (rw z at h) in
    record { outer = outer; inner = inner }

-- At the greatest depth no entry is read, so none can be damaged.
check_flat-passed : (es : List Entry) → check_entries none es ≡ passed → All IsSafe es
unfolding check_entries
check_flat-passed [] h = tt
check_flat-passed (e ∷ es) h =
    let (safe, h') = if_refused (is_traversal e.filename) _ _ h in
    let (allowed, h'') = if_refused (is_forbidden e) _ _ h' in
    ((safe, allowed), check_flat-passed es h'')

inspect_nested-IsHarmless :
    (lib : Libraries) (file : Bytes) (es : List Entry)
    → lib.zip_file file ≡ some es
    → inspect_nested lib file ≡ passed
    → IsHarmless file es
unfolding inspect_nested
inspect_nested-IsHarmless lib file es z h =
    let (small, h') = if_refused (ltb max_total (total_size es)) _ _ (rw z at h) in
    let (dense, h'') =
      if_refused (ltb 0 (length file) && ltb (max_ratio * length file) (total_size es)) _ _ h' in
    record {
      small = ltb→le max_total (total_size es) small;
      dense = dense;
      safe = check_flat-passed es h'';
    }

-- A nested archive that can be opened is harmless.
abbrev pub Nested : Libraries → Entry → Type 0
Nested lib e =
    is_nested e ≡ true
    → (file : Bytes) (es : List Entry) → e.read ≡ content file
    → lib.zip_file file ≡ some es
    → IsHarmless file es

-- If an office document passes the check of its archive, and no archive in it is damaged, then it and
-- each archive directly in it that can be opened are small, and not packed too densely, and none of
-- their entries has a path that leads out or an extension of a program.
pub verify_zip_bomb-IsHarmless :
    (lib : Libraries) (file : Bytes) (ext : Text) (es : List Entry)
    → is_ooxml ext ≡ true
    → lib.zip_file file ≡ some es
    → any is_damaged es ≡ false
    → verify_zip_bomb lib file ext ≡ passed
    → IsHarmless file es × All (Nested lib) es
unfolding verify_zip_bomb
verify_zip_bomb-IsHarmless lib file ext es o z d h =
    let opened = inspect_archive-IsOpened lib file es z d (rw o at h) in
    (
      opened.outer,
      All-mono _ (Nested lib)
          (λ e inside n file' es' r z'.
            inspect_nested-IsHarmless lib file' es' z' (inside n file' r))
          es opened.inner,
    )
