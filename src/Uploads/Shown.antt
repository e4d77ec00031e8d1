-- ===== src/Uploads/Shown.antt =====
-- The characters of a name that is accepted.
use mathlib.Core.Path.{subst}
use wms_secret_backend.Prelude.{
  ℕ, ◌≡◌, inl, inr, Bool, false, [], ◌∷◌, List-cases, arith, Bool-cases, any, All,
}
use wms_secret_backend.Uploads.{Text, Libraries}
use wms_secret_backend.Uploads.Names.{
  is_bidi, is_control, is_zero_width, is_space, rstrip, lstrip, has_double_ext, Name, accepted_name,
  refused_name, trimmed, checked, normalize_filename,
}

-- A character that is shown as it is: none that turns the direction of the text, controls it, or has
-- no width.
abbrev pub IsShown : ℕ → Type 0
IsShown c = (is_bidi c ≡ false) × (is_control c ≡ false) × (is_zero_width c ≡ false)

rstrip-All : (P : ℕ → Type 0) (p : ℕ → Bool) (t : Text) → All P t → All P (rstrip p t)
unfolding rstrip
rstrip-All P p [] h = tt
rstrip-All P p (c ∷ cs) h = elim (List-cases (rstrip p cs)) [
  | inl e ↦ elim (Bool-cases (p c)) [ inl q ↦ rw (e, q) tt | inr q ↦ rw (e, q) (h.0, tt) ]
  | inr (d, ds, e) ↦ rw e (h.0, subst (All P) e (rstrip-All P p cs h.1))
]

lstrip-All : (P : ℕ → Type 0) (p : ℕ → Bool) (t : Text) → All P t → All P (lstrip p t)
unfolding lstrip
lstrip-All P p [] h = tt
lstrip-All P p (c ∷ cs) h = elim (Bool-cases (p c)) [
  | inl q ↦ rw q (lstrip-All P p cs h.1)
  | inr q ↦ rw q h
]

-- The characters of the name, if there is one.
abbrev OnName : (Text → Type 0) → Name → Type 0
OnName P (accepted_name t) = P t
OnName P (refused_name c) = Unit

trimmed-All : (P : ℕ → Type 0) (t : Text) → All P t → OnName (All P) (trimmed t)
trimmed-All P [] h = tt
trimmed-All P (c ∷ cs) h = elim (Bool-cases (has_double_ext (c ∷ cs))) [
  | inl q ↦ rw q tt
  | inr q ↦ rw q (rstrip-All P is_space _ (lstrip-All P is_space (c ∷ cs) h))
]

zip_all :
    (t : Text)
    → any is_bidi t ≡ false
    → any is_control t ≡ false
    → any is_zero_width t ≡ false
    → All IsShown t
zip_all [] a b c = tt
zip_all (x ∷ xs) a b c = (
  (ground (arith, a), ground (arith, b), ground (arith, c)),
  zip_all xs (ground (arith, a)) (ground (arith, b)) (ground (arith, c)),
)

checked-IsShown : (t : Text) → OnName (All IsShown) (checked t)
checked-IsShown t = elim (Bool-cases (any is_bidi t)) [
  | inl a ↦ rw a tt
  | inr a ↦ elim (Bool-cases (any is_control t)) [
    | inl b ↦ rw (a, b) tt
    | inr b ↦ elim (Bool-cases (any is_zero_width t)) [
      | inl c ↦ rw (a, b, c) tt
      | inr c ↦ rw (a, b, c) (trimmed-All IsShown _ (rstrip-All IsShown _ t (zip_all t a b c)))
    ]
  ]
]

normalize-OnName : (lib : Libraries) (t : Text) → OnName (All IsShown) (normalize_filename lib t)
unfolding normalize_filename
normalize-OnName lib [] = tt
normalize-OnName lib (c ∷ cs) = checked-IsShown (lib.nfc (c ∷ cs))

-- Whatever the normal form of Unicode gives, a name that is accepted has no character that turns the
-- direction of the text, no control character and none without a width.
pub normalize_filename-IsShown :
    (lib : Libraries) (given name : Text)
    → normalize_filename lib given ≡ accepted_name name
    → All IsShown name
normalize_filename-IsShown lib given name e =
    subst (OnName (All IsShown)) e (normalize-OnName lib given)
