-- ===== src/Override/Bands.antt =====
-- The bands of the grades and the grade of a score: app/models/wms.py.
use mathlib.Core.Path.{subst}
use wms_secret_backend.Prelude.{
  ℕ, ◌≤◌, ◌≡◌, refl, ap, ◌∙◌, inl, inr, Bool, true, false, Option, none, some, [], ◌∷◌, String,
  arith, leb, max, min, Bool-cases, if◌then◌else◌,
}
use wms_secret_backend.Override.{
  grade_at, ubci_grade_from_score, spells, band_of, in_band, clamp_ubci_score_to_grade,
}

mint : band_of "MINT" ≡ some (95, 100)
unfolding band_of spells
mint = refl

good : band_of "GOOD" ≡ some (85, 94)
unfolding band_of spells
good = refl

normal : band_of "NORMAL" ≡ some (65, 84)
unfolding band_of spells
normal = refl

low : band_of "REJECT" ≡ some (0, 64)
unfolding band_of spells
low = refl

-- The four bands.
abbrev band_at : ℕ → ℕ × ℕ
band_at n =
    if leb 95 n
    then (95, 100)
    else if leb 85 n
    then (85, 94)
    else if leb 65 n
    then (65, 84)
    else (0, 64)

band_of-grade_at : (n : ℕ) → band_of (grade_at n) ≡ some (band_at n)
band_of-grade_at n = elim (Bool-cases (leb 95 n)) [
  | inl e ↦ rw e mint
  | inr e ↦ elim (Bool-cases (leb 85 n)) [
    | inl e' ↦ rw (e, e') good
    | inr e' ↦ elim (Bool-cases (leb 65 n)) [
      | inl e'' ↦ rw (e, e', e'') normal
      | inr e'' ↦ rw (e, e', e'') low
    ]
  ]
]

band_at-ordered : (n : ℕ) → (band_at n).0 ≤ (band_at n).1
band_at-ordered n = ground arith

in_band_self : (n : ℕ) → n ≤ 100 → in_band (some n) (some (band_at n)) ≡ some n
in_band_self n h = ground arith

-- A score keeps its value when the grade that it has is confirmed.
pub clamp_ubci_score_to_grade_self :
    (n : ℕ) → n ≤ 100 → clamp_ubci_score_to_grade (some n) (some (grade_at n)) ≡ some n
unfolding clamp_ubci_score_to_grade
clamp_ubci_score_to_grade_self n h = ap (in_band (some n)) (band_of-grade_at n) ∙ in_band_self n h

-- What a band is.
abbrev IsBand : Option (ℕ × ℕ) → Type 0
IsBand none = Unit
IsBand (some b) =
    (band_at b.0 ≡ b) × (band_at b.1 ≡ b) × ((n : ℕ) → band_at (max b.0 (min b.1 n)) ≡ b)

band_of-IsBand : (g : String) → IsBand (band_of g)
unfolding band_of
band_of-IsBand g =
    decide (spells (77 ∷ 73 ∷ 78 ∷ 84 ∷ []) g) (spells (71 ∷ 79 ∷ 79 ∷ 68 ∷ []) g)
      (spells (78 ∷ 79 ∷ 82 ∷ 77 ∷ 65 ∷ 76 ∷ []) g) (spells (82 ∷ 69 ∷ 74 ∷ 69 ∷ 67 ∷ 84 ∷ []) g)
  where
    decide :
        (a b c d : Bool)
        → IsBand (
            if a
            then some (95, 100)
            else if b
            then some (85, 94)
            else if c
            then some (65, 84)
            else if d
            then some (0, 64)
            else none)
    decide true b c d = (refl, refl, λ n. ground arith)
    decide false true c d = (refl, refl, λ n. ground arith)
    decide false false true d = (refl, refl, λ n. ground arith)
    decide false false false true = (refl, refl, λ n. ground arith)
    decide false false false false = tt

in_band-IsBand :
    (score : Option ℕ) (o : Option (ℕ × ℕ)) (b : ℕ × ℕ)
    → o ≡ some b
    → IsBand o
    → band_of (ubci_grade_from_score (in_band score o)) ≡ some b
unfolding ubci_grade_from_score
in_band-IsBand score none b e h = absurd (cc)
in_band-IsBand none (some c) b e h = band_of-grade_at c.1 ∙ ap some (h.1) ∙ e
in_band-IsBand (some n) (some c) b e h =
    band_of-grade_at (max c.0 (min c.1 n)) ∙ ap some (h.2 n) ∙ e

-- A score that is brought into a band and stays what it was if it lies there; without a band the score
-- stays, and without a score it is the upper end.
abbrev pub Fits : Option (ℕ × ℕ) → Option ℕ → Option ℕ → Type 0
Fits none before after = after ≡ before
Fits (some b) none after = after ≡ some b.1
Fits (some b) (some n) after =
    (m : ℕ) × (after ≡ some m) × (b.0 ≤ m) × (m ≤ b.1) × (b.0 ≤ n → n ≤ b.1 → m ≡ n)

in_band-Fits : (score : Option ℕ) (o : Option (ℕ × ℕ)) → IsBand o → Fits o score (in_band score o)
in_band-Fits score none h = refl
in_band-Fits none (some b) h = refl
in_band-Fits (some n) (some b) h =
    let l : b.0 ≤ b.1 = subst (λ c. c.0 ≤ c.1) (h.0) (band_at-ordered b.0) in
    (max b.0 (min b.1 n), refl, omega (arith), omega (arith, l), λ p q. omega (arith, p, q))

pub clamp_ubci_score_to_grade-Fits :
    (score : Option ℕ) (g : String)
    → Fits (band_of g) score (clamp_ubci_score_to_grade score (some g))
unfolding clamp_ubci_score_to_grade
clamp_ubci_score_to_grade-Fits score g = in_band-Fits score (band_of g) (band_of-IsBand g)

-- If a person confirms one of the four grades, in letters of either case, then the score that the book
-- gets, with or without a score before, has exactly that grade.
pub ubci_grade_from_score-clamp :
    (score : Option ℕ) (g : String) (b : ℕ × ℕ)
    → band_of g ≡ some b
    → band_of (ubci_grade_from_score (clamp_ubci_score_to_grade score (some g))) ≡ some b
unfolding clamp_ubci_score_to_grade
ubci_grade_from_score-clamp score g b e = in_band-IsBand score (band_of g) b e (band_of-IsBand g)
