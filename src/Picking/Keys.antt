-- ===== src/Picking/Keys.antt =====
-- Keys of used books are unique, as the primary key of the table makes them.
use wms_secret_backend.Prelude.{
  ==_refl, ℕ, ◌+◌, ◌≤◌, ◌≡◌, Bool, true, ◌∷◌, List, [], arith, ◌==◌, if◌then◌else◌, sum_of, All,
  All-mono,
}
use wms_secret_backend.Picking.{is_in_stock, InventoryUsedItem}
use wms_secret_backend.Picking.Locks.{Free, Keyed}

abbrev pub one_if : Bool → ℕ
one_if t = if t then 1 else 0

-- How many used books have the key `k`.
abbrev pub with_key : ℕ → List InventoryUsedItem → ℕ
with_key k us = sum_of (λ u. one_if (u.id == k)) us

abbrev pub HasKeys : List InventoryUsedItem → Type 0
HasKeys us = (k : ℕ) → with_key k us ≤ 1

Free-of_none : (k : ℕ) (us : List InventoryUsedItem) → with_key k us ≤ 0 → Free us k
Free-of_none k [] h = tt
Free-of_none k (u ∷ us) h =
    (λ e. absurd (zero_ne (rw e at h)), Free-of_none k us (omega (arith, h)))
  where
    zero_ne : one_if true + with_key k us ≤ 0 → ⊥
    zero_ne h = omega (arith, h)

counted : (us : List InventoryUsedItem) → All (λ u. 1 ≤ with_key u.id us) us
counted [] = tt
counted (v ∷ us) = (
  rw (==_refl v.id) (omega arith),
  All-mono (λ u. 1 ≤ with_key u.id us) (λ u. 1 ≤ with_key u.id (v ∷ us)) (λ u h. omega (arith, h))
      us (counted us),
)

pub HasKeys-Keyed : (us : List InventoryUsedItem) → HasKeys us → Keyed us
HasKeys-Keyed [] h = tt
HasKeys-Keyed (v ∷ us) h = (
  λ e. (λ _. e, Free-of_none v.id us (let q = h v.id in omega (arith, (rw (==_refl v.id) at q)))),
  deeper us (counted us) (HasKeys-Keyed us (λ k. let q = h k in omega (arith, q))),
)
  where
    clash : (u : InventoryUsedItem) → 1 ≤ with_key u.id us → (v.id == u.id) ≡ true → ⊥
    clash u c e = let q = h u.id in let q' = (rw e at q) in omega (arith, c, q')

    deeper :
        (xs : List InventoryUsedItem)
        → All (λ u. 1 ≤ with_key u.id us) xs
        → All (λ u. is_in_stock u.item_status ≡ true → Free us u.id) xs
        → All (λ u. is_in_stock u.item_status ≡ true → Free (v ∷ us) u.id) xs
    deeper [] c k = tt
    deeper (x ∷ xs) c k = (λ e. (λ q. absurd (clash x c.0 q), k.0 e), deeper xs c.1 k.1)
