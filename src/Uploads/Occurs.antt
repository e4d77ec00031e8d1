-- ===== src/Uploads/Occurs.antt =====
-- Pieces of a list: what `begins`, `is_inside` and the last place of a piece say.
use wms_secret_backend.Prelude.{
  ◌≡◌, ◌≢◌, refl, ap, ◌∙◌, sym, inl, inr, Bool, true, false, Option, none, some, List, [], ◌∷◌,
  ◌++◌, arith, Bool-cases, Option-cases, All, any,
}
use mathlib.Core.Path.{subst}
use mathlib.Core.Option.{some-injective}
use wms_secret_backend.Prelude.Pieces.{begins, is_inside}
use wms_secret_backend.Uploads.{Bytes}
use wms_secret_backend.Uploads.Images.{from_last}

begins-append : (piece rest : Bytes) → begins piece (piece ++ rest) ≡ true
unfolding begins
begins-append [] rest = refl
begins-append (c ∷ cs) rest = ground (arith, begins-append cs rest)

pub is_inside-append :
    (piece before after : Bytes) → is_inside piece (before ++ piece ++ after) ≡ true
unfolding is_inside
is_inside-append piece (c ∷ cs) after = ground (arith, is_inside-append piece cs after)
is_inside-append [] [] [] = refl
is_inside-append [] [] (c ∷ cs) = refl
is_inside-append (c ∷ cs) [] after = rw (begins-append (c ∷ cs) after) refl

-- The piece is nowhere in the list.
abbrev pub Lacks : Bytes → Bytes → Type 0
Lacks piece xs = (before after : Bytes) → xs ≢ before ++ piece ++ after

pub is_inside-Lacks : (piece xs : Bytes) → is_inside piece xs ≡ false → Lacks piece xs
is_inside-Lacks piece xs h before after e =
    let there : is_inside piece xs ≡ true =
      ap (is_inside piece) e ∙ is_inside-append piece before after in
    let bad : true ≡ false = sym there ∙ h in absurd (cc)

pub begins-Starts : (piece xs rest : Bytes) → begins piece xs ≡ false → xs ≢ piece ++ rest
begins-Starts piece xs rest h e =
    let there : begins piece xs ≡ true = ap (begins piece) e ∙ begins-append piece rest in
    let bad : true ≡ false = sym there ∙ h in absurd (cc)

-- A list of pieces of which none passes a test.
pub none_of {ℓ} :
    {A : Type ℓ} (p : A → Bool) (P : A → Type 0)
    → ((x : A) → p x ≡ false → P x)
    → (xs : List A) → any p xs ≡ false
    → All P xs
none_of p P f [] h = tt
none_of p P f (x ∷ xs) h = elim (Bool-cases (p x)) [
  | inl e ↦ let bad : true ≡ false = rw e at h in absurd (cc)
  | inr e ↦ (f x e, none_of p P f xs (rw e at h))
]

-- The last place of a piece cuts the list in two, and the second part begins with the piece.
pub from_last-cuts :
    (piece xs rest : Bytes)
    → from_last piece xs ≡ some rest
    → (before : Bytes) × (xs ≡ before ++ rest) × (begins piece rest ≡ true)
unfolding from_last
from_last-cuts piece [] rest h = absurd (cc)
from_last-cuts piece (x ∷ xs) rest h = elim (Option-cases (from_last piece xs)) [
  | inr (r, e) ↦
      let same : r ≡ rest = some-injective _ _ (rw e at h) in
      let (before, cut, starts) = from_last-cuts piece xs rest (e ∙ ap some same) in
      (x ∷ before, ap (λ ys. x ∷ ys) cut, starts)
  | inl e ↦ elim (Bool-cases (begins piece (x ∷ xs))) [
    | inl q ↦
        let same : x ∷ xs ≡ rest = some-injective _ _ (rw (e, q) at h) in
        ([], same, subst (λ ys. begins piece ys ≡ true) same q)
    | inr q ↦ let bad : ◌≡◌ {A = Option Bytes} none (some rest) = rw (e, q) at h in absurd (cc)
  ]
]
