-- ===== src/Stock/Rows.antt =====
-- The first row of a query, and the places that `get_or_create_location` gives.
use mathlib.Core.Path.{subst}
use text.Mathlib.TextEquality.{eq_iff}
use text.Mathlib.TextPositions.{eq_refl}
use wms_secret_backend.Prelude.{
  ℕ, ◌≡◌, refl, sym, ◌∙◌, inl, inr, Bool, true, ◌&&◌, none, some, List, [], ◌∷◌, ◌++◌, arith, ◌==◌,
  any, All, All-append, Bool-cases, Option-cases,
}
use wms_secret_backend.Picking.Slots.{Slot}
use wms_secret_backend.Stock.{
  Location, Store, slot_eq, first_by, new_location, or_new_location, get_or_create_location,
}

module _ {ℓ} {A : Type ℓ} (p : A → Bool) where
  pub first_by-holds : (xs : List A) (x : A) → first_by p xs ≡ some x → p x ≡ true
  first_by-holds [] x e = cc
  first_by-holds (y ∷ ys) x e = ground (arith, first_by-holds ys x)

  pub first_by-any :
      (q : A → Bool) (xs : List A) (x : A) → first_by p xs ≡ some x → q x ≡ true → any q xs ≡ true
  first_by-any q [] x e h = cc
  first_by-any q (y ∷ ys) x e h = ground (arith, first_by-any q ys x)

  pub first_by-All {κ} :
      (P : A → Type κ) (xs : List A) (x : A) → first_by p xs ≡ some x → All P xs → P x
  first_by-All P [] x e h = absurd (cc)
  first_by-All P (y ∷ ys) x e h = elim (Bool-cases (p y)) [
    | inl t ↦ let q : y ≡ x = ground arith in subst P q h.0
    | inr f ↦ first_by-All P ys x (rw f at e) h.1
  ]

  pub first_by-append :
      (xs : List A) (x : A) → first_by p xs ≡ none → p x ≡ true → first_by p (xs ++ x ∷ []) ≡ some x
  first_by-append [] x e h = rw h refl
  first_by-append (y ∷ ys) x e h = ground (arith, first_by-append ys x)

pub any-last {ℓ} :
    {A : Type ℓ} (q : A → Bool) (xs : List A) (x : A) → q x ≡ true → any q (xs ++ x ∷ []) ≡ true
any-last q [] x h = ground arith
any-last q (y ∷ ys) x h = ground (arith, any-last q ys x h)

pub slot_eq_self : (p : Slot) → slot_eq p p ≡ true
slot_eq_self p = rw (eq_refl p.zone, eq_refl p.rack, eq_refl p.shelf) refl

pub slot_eq→eq : (p q : Slot) → slot_eq p q ≡ true → p ≡ q
slot_eq→eq p q e =
    ground (arith, eq_iff p.zone q.zone, eq_iff p.rack q.rack, eq_iff p.shelf q.shelf)

-- The label of a place tells its parts.
abbrev pub IsTagged : List Location → Type 0
IsTagged ls = All (λ l. l.barcode ≡ l.slot) ls

-- The place with the key k has these parts.
abbrev pub has_at : ℕ → Slot → List Location → Bool
has_at k p ls = any (λ l. l.id == k && slot_eq l.slot p) ls

at_own_key : (k : ℕ) (q p : Slot) → q ≡ p → ((k == k) && slot_eq q p) ≡ true
at_own_key k q p e = rw (e, slot_eq_self p) (ground arith)

pub get_or_create_location-IsTagged :
    (p : Slot) (s : Store)
    → IsTagged s.locations
    → (has_at (get_or_create_location p s).0.id p (get_or_create_location p s).1.locations ≡ true)
      × ((get_or_create_location p s).0.slot ≡ p)
      × IsTagged (get_or_create_location p s).1.locations
unfolding get_or_create_location
get_or_create_location-IsTagged p s h =
    elim (Option-cases (first_by (λ l. slot_eq l.barcode p) s.locations)) [
      | inl e ↦
          rw (e, or_new_location)
            (
              any-last (λ l. l.id == s.next_id && slot_eq l.slot p) s.locations
                  (new_location s.next_id p) (at_own_key s.next_id p p refl),
              refl,
              All-append (λ l. l.barcode ≡ l.slot) s.locations (new_location s.next_id p ∷ []) h
                  (refl, tt),
            )
      | inr (l, e) ↦
          let q : l.slot ≡ p =
            sym
              (first_by-All (λ m. slot_eq m.barcode p) (λ m. m.barcode ≡ m.slot) s.locations l e h)
            ∙ slot_eq→eq l.barcode p (first_by-holds (λ m. slot_eq m.barcode p) s.locations l e) in
          rw (e, or_new_location)
            (
              first_by-any (λ m. slot_eq m.barcode p) (λ m. m.id == l.id && slot_eq m.slot p)
                  s.locations l e (at_own_key l.id l.slot p q),
              q,
              h,
            )
    ]
