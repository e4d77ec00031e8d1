-- ===== src/Prelude/Lists.antt =====
-- Lists over the native numbers, predicates by recursion, and folds that the components share.
use Prim.Native.Nat.{ℕ, zero, suc, ◌+◌, ◌≤◌, ◌<◌}
use mathlib.Core.Path.{◌≡◌, refl, ap, ◌∙◌, subst, subst₂}
use mathlib.Core.List.Perm
use mathlib.Core.Bool.{Bool, true, false, ◌||◌}
use mathlib.Core.Logic.{∥∥₁_elim, inl, inr}
use mathlib.Core.Logic.Or
use mathlib.Core.List.{List, [], ◌∷◌, ◌++◌, map, Mem, mem-cons, not-mem-nil, Perm, Permᴰ}
use native.Mathlib.Bridge.{le_prop}
use native.Mathlib.Omega.{arith}
use wms_secret_backend.Prelude.Tests.{if◌then◌else◌, Bool-cases}

module _ {ℓ} {A : Type ℓ} where
  abbrev pub length : List A → ℕ
  length [] = 0
  length (x ∷ xs) = suc (length xs)

  -- A sum of a measure, from the left end.
  abbrev pub sum_of : (A → ℕ) → List A → ℕ
  sum_of f [] = 0
  sum_of f (x ∷ xs) = f x + sum_of f xs

  abbrev pub filter_by : (A → Bool) → List A → List A
  filter_by p [] = []
  filter_by p (x ∷ xs) = if p x then x ∷ filter_by p xs else filter_by p xs

  abbrev pub any : (A → Bool) → List A → Bool
  any p [] = false
  any p (x ∷ xs) = p x || any p xs

  abbrev pub drop : ℕ → List A → List A
  drop zero xs = xs
  drop (suc n) [] = []
  drop (suc n) (x ∷ xs) = drop n xs

  abbrev pub take : ℕ → List A → List A
  take zero xs = []
  take (suc n) [] = []
  take (suc n) (x ∷ xs) = x ∷ take n xs

  abbrev pub All {κ} : (A → Type κ) → List A → Type κ
  All P [] = Unit
  All P (x ∷ xs) = P x × All P xs

module _ {ℓ} {A : Type ℓ} where
  pub length-append : (xs ys : List A) → length (xs ++ ys) ≡ length xs + length ys
  length-append [] ys = omega arith
  length-append (x ∷ xs) ys = omega (arith, length-append xs ys)

  pub sum_of-append : (f : A → ℕ) (xs ys : List A) → sum_of f (xs ++ ys) ≡ sum_of f xs + sum_of f ys
  sum_of-append f [] ys = omega arith
  sum_of-append f (x ∷ xs) ys = omega (arith, sum_of-append f xs ys)

  pub any-append : (p : A → Bool) (xs ys : List A) → any p (xs ++ ys) ≡ (any p xs || any p ys)
  any-append p [] ys = refl
  any-append p (x ∷ xs) ys = ground (arith, any-append p xs ys)

  pub length-filter_by : (p : A → Bool) (xs : List A) → length (filter_by p xs) ≤ length xs
  length-filter_by p [] = omega arith
  length-filter_by p (x ∷ xs) = ground (arith, length-filter_by p xs)

  pub All-append {κ} : (P : A → Type κ) (xs ys : List A) → All P xs → All P ys → All P (xs ++ ys)
  All-append P [] ys hx hy = hy
  All-append P (x ∷ xs) ys hx hy = (hx.0, All-append P xs ys hx.1 hy)

  pub All-mono {κ μ} :
      (P : A → Type κ) (Q : A → Type μ)
      → ((x : A) → P x → Q x)
      → (xs : List A) → All P xs
      → All Q xs
  All-mono P Q f [] h = tt
  All-mono P Q f (x ∷ xs) h = (f x h.0, All-mono P Q f xs h.1)

module _ {ℓ} {A : Type ℓ} (p : A → Bool) where
  pub filter_by-append :
      (xs ys : List A) → filter_by p (xs ++ ys) ≡ filter_by p xs ++ filter_by p ys
  filter_by-append [] ys = refl
  filter_by-append (x ∷ xs) ys = ground (arith, filter_by-append xs ys)

  pub filter_by-nil : (xs : List A) → All (λ x. p x ≡ false) xs → filter_by p xs ≡ []
  filter_by-nil [] h = refl
  filter_by-nil (x ∷ xs) h = rw (h.0) (filter_by-nil xs h.1)

  pub filter_by_self : (xs : List A) → All (λ x. p x ≡ true) xs → filter_by p xs ≡ xs
  filter_by_self [] h = refl
  filter_by_self (x ∷ xs) h = rw (h.0) (ap (λ ys. x ∷ ys) (filter_by_self xs h.1))

  pub length-filter_by-lt :
      (x : A) (xs : List A) → Mem x xs → p x ≡ false → length (filter_by p xs) < length xs
  length-filter_by-lt x [] m h = absurd (not-mem-nil m)
  length-filter_by-lt x (y ∷ ys) m h =
      Or.elim le_prop (mem-cons.0 m)
        (λ e. let h' : p y ≡ false = rw (← e) h in rw h' (omega (arith, length-filter_by p ys)))
        (λ m'. let rest = length-filter_by-lt x ys m' h in ground arith)

  filter_by-cons :
      (x : A) (xs ys : List A)
      → Perm (filter_by p xs) (filter_by p ys)
      → Perm (filter_by p (x ∷ xs)) (filter_by p (x ∷ ys))
  filter_by-cons x xs ys h = elim (Bool-cases (p x)) [
    | inl e ↦ rw e (Perm.cons x h)
    | inr e ↦ rw e h
  ]

  filter_by-swap :
      (x y : A) (xs : List A) → Perm (filter_by p (x ∷ y ∷ xs)) (filter_by p (y ∷ x ∷ xs))
  filter_by-swap x y xs = elim (Bool-cases (p x)) [
    | inl e ↦ elim (Bool-cases (p y)) [
      | inl e' ↦ rw (e, e') (Perm.swap y x (filter_by p xs))
      | inr e' ↦ rw (e, e') Perm.rfl
    ]
    | inr e ↦ rw e Perm.rfl
  ]

  filter_by-permᴰ : {xs ys : List A} → Permᴰ xs ys → Perm (filter_by p xs) (filter_by p ys)
  filter_by-permᴰ Permᴰ.nil = Perm.nil
  filter_by-permᴰ (Permᴰ.cons {a} {b} {l₁ = xs} {l₂ = ys} e d) =
      subst (λ c. Perm (filter_by p (a ∷ xs)) (filter_by p (c ∷ ys))) e
        (filter_by-cons a xs ys (filter_by-permᴰ d))
  filter_by-permᴰ (Permᴰ.swap {a} {b} {l} e e') =
      subst₂ (λ c c'. Perm (filter_by p (a ∷ b ∷ l)) (filter_by p (c' ∷ c ∷ l))) e e'
        (filter_by-swap a b l)
  filter_by-permᴰ (Permᴰ.trans d d') = Perm.trans (filter_by-permᴰ d) (filter_by-permᴰ d')

  pub filter_by-perm : {xs ys : List A} → Perm xs ys → Perm (filter_by p xs) (filter_by p ys)
  filter_by-perm h = ∥∥₁_elim h (hlevel) filter_by-permᴰ

  pub filter_by-All {κ} : (P : A → Type κ) (xs : List A) → All P xs → All P (filter_by p xs)
  filter_by-All P [] h = tt
  filter_by-All P (x ∷ xs) h = elim (Bool-cases (p x)) [
    | inl e ↦ rw e (h.0, filter_by-All P xs h.1)
    | inr e ↦ rw e (filter_by-All P xs h.1)
  ]

pub length-map {ℓ κ} :
    {A : Type ℓ} {B : Type κ} (f : A → B) (xs : List A) → length (map f xs) ≡ length xs
length-map f [] = refl
length-map f (x ∷ xs) = ap suc (length-map f xs)

-- A function of lists that ignores the order of the first two items, and whose value at `x ∷ xs`
-- depends on `xs` only through its value at `xs`, ignores the order of all items.
module _ {ℓ κ} {A : Type ℓ} {B : Type κ} (g : List A → B) (is_set : IsSet B)
    (cons : (x : A) (xs ys : List A) → g xs ≡ g ys → g (x ∷ xs) ≡ g (x ∷ ys))
    (swap : (x y : A) (xs : List A) → g (x ∷ y ∷ xs) ≡ g (y ∷ x ∷ xs)) where
  order_freeᴰ : {xs ys : List A} → Permᴰ xs ys → g xs ≡ g ys
  order_freeᴰ Permᴰ.nil = refl
  order_freeᴰ (Permᴰ.cons {a} {b} {l₁ = xs} {l₂ = ys} e d) =
      subst (λ c. g (a ∷ xs) ≡ g (c ∷ ys)) e (cons a xs ys (order_freeᴰ d))
  order_freeᴰ (Permᴰ.swap {a} {b} {l} e e') =
      subst₂ (λ c c'. g (a ∷ b ∷ l) ≡ g (c' ∷ c ∷ l)) e e' (swap a b l)
  order_freeᴰ (Permᴰ.trans d d') = order_freeᴰ d ∙ order_freeᴰ d'

  pub order_free : {xs ys : List A} → Perm xs ys → g xs ≡ g ys
  order_free h = ∥∥₁_elim h (is_set _ _) order_freeᴰ

module _ {ℓ} {A : Type ℓ} where
  pub sum_of-perm : (f : A → ℕ) {xs ys : List A} → Perm xs ys → sum_of f xs ≡ sum_of f ys
  sum_of-perm f =
      order_free (sum_of f) (hlevel) (λ x xs ys e. ap (λ n. f x + n) e) (λ x y xs. omega arith)

  pub any-perm : (p : A → Bool) {xs ys : List A} → Perm xs ys → any p xs ≡ any p ys
  any-perm p =
      order_free (any p) (hlevel) (λ x xs ys e. ap (λ b. p x || b) e) (λ x y xs. ground arith)
