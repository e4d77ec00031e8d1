-- ===== src/Stock/Fresh.antt =====
-- The numbers that `generate_lpn` gives.
use wms_secret_backend.Prelude.{
  ℕ, zero, suc, ◌+◌, ◌/◌, ◌%◌, ◌<◌, ◌≤◌, ◌≡◌, inl, inr, refl, ◌∙◌, ap, true, false, Option, none,
  some, List, [], ◌∷◌, ◌++◌, String, arith, ltb, ltb→lt, ltb→le, any, All, All-mono, Bool-cases,
}
use wms_secret_backend.Stock.{InventoryUsedItem}
use wms_secret_backend.Stock.Labels.{
  has_prefix, last_label, later, next_seq, digits_lt, last3, decimal, pad3, next_label, digits_eq,
  is_taken_by,
}

-- Three decimal digits.
abbrev pub IsNumbered : List ℕ → Type 0
IsNumbered (a ∷ b ∷ c ∷ []) = (a < 10) × (b < 10) × (c < 10)
IsNumbered _ = ⊥

-- The labels of a day and a zone have numbers of three digits.
abbrev pub Numbered : ℕ → String → List InventoryUsedItem → Type 0
Numbered day zone us = All (λ u. has_prefix day zone u ≡ true → IsNumbered u.lpn_barcode.digits) us

abbrev AtMost : ℕ → ℕ → String → InventoryUsedItem → Type 0
AtMost n day zone u =
    has_prefix day zone u ≡ true
    → IsNumbered u.lpn_barcode.digits × (last3 u.lpn_barcode.digits ≤ n)

abbrev IsLast : Option (List ℕ) → ℕ → String → List InventoryUsedItem → Type 0
IsLast none day zone us = All (λ u. has_prefix day zone u ≡ false) us
IsLast (some ds) day zone us = IsNumbered ds × All (AtMost (last3 ds) day zone) us

digits_lt-last3 :
    (xs ys : List ℕ)
    → IsNumbered xs
    → IsNumbered ys
    → (digits_lt xs ys ≡ true → last3 xs ≤ last3 ys)
      × (digits_lt xs ys ≡ false → last3 ys ≤ last3 xs)
digits_lt-last3 (a ∷ b ∷ c ∷ []) (d ∷ e ∷ f ∷ []) h k = ground arith
digits_lt-last3 [] ys h k = absurd h
digits_lt-last3 (a ∷ []) ys h k = absurd h
digits_lt-last3 (a ∷ b ∷ []) ys h k = absurd h
digits_lt-last3 (a ∷ b ∷ c ∷ x ∷ xs) ys h k = absurd h
digits_lt-last3 xs [] h k = absurd k
digits_lt-last3 xs (d ∷ []) h k = absurd k
digits_lt-last3 xs (d ∷ e ∷ []) h k = absurd k
digits_lt-last3 xs (d ∷ e ∷ f ∷ y ∷ ys) h k = absurd k

digits_eq-last3 : (xs ys : List ℕ) → digits_eq xs ys ≡ true → xs ≡ ys
digits_eq-last3 [] [] e = refl
digits_eq-last3 [] (y ∷ ys) e = cc
digits_eq-last3 (x ∷ xs) [] e = cc
digits_eq-last3 (x ∷ xs) (y ∷ ys) e = ground (arith, digits_eq-last3 xs ys)

decimal-zero : (fuel : ℕ) → decimal fuel 0 ≡ []
unfolding decimal
decimal-zero zero = refl
decimal-zero (suc fuel) = refl

pad3-small : (m : ℕ) → m < 1000 → pad3 m ≡ (m / 100 % 10) ∷ (m / 10 % 10) ∷ (m % 10) ∷ []
unfolding pad3
pad3-small m h =
    let e : m / 1000 ≡ 0 = omega arith in
    ap (λ ds. ds ++ (m / 100 % 10) ∷ (m / 10 % 10) ∷ (m % 10) ∷ [])
      (ap (decimal m) e ∙ decimal-zero m)

digits_eq-number :
    (ds : List ℕ) (m : ℕ)
    → IsNumbered ds
    → digits_eq ds ((m / 100 % 10) ∷ (m / 10 % 10) ∷ (m % 10) ∷ []) ≡ true
    → m < 1000
    → last3 ds ≡ m
digits_eq-number (a ∷ b ∷ c ∷ []) m k e h = ground arith
digits_eq-number [] m k e h = absurd k
digits_eq-number (a ∷ []) m k e h = absurd k
digits_eq-number (a ∷ b ∷ []) m k e h = absurd k
digits_eq-number (a ∷ b ∷ c ∷ d ∷ ds) m k e h = absurd k

thousand : (ds : List ℕ) → IsNumbered ds → digits_eq ds (pad3 1000) ≡ false
unfolding pad3 decimal
thousand (a ∷ b ∷ c ∷ []) k = ground arith
thousand [] k = absurd k
thousand (a ∷ []) k = absurd k
thousand (a ∷ b ∷ []) k = absurd k
thousand (a ∷ b ∷ c ∷ d ∷ ds) k = absurd k

-- A number that is greater than one of three digits.
above :
    (n : ℕ) (ds : List ℕ)
    → n < 1000
    → IsNumbered ds
    → last3 ds ≤ n
    → digits_eq ds (pad3 (n + 1)) ≡ false
above n ds h k le = elim (Bool-cases (ltb (n + 1) 1000)) [
  | inl small ↦
      let lt : n + 1 < 1000 = ltb→lt _ _ small in
      elim (Bool-cases (digits_eq ds (pad3 (n + 1)))) [
        | inl e ↦
            absurd
              (omega (arith, digits_eq-number ds (n + 1) k (rw (pad3-small (n + 1) lt) at e) lt))
        | inr e ↦ e
      ]
  | inr large ↦
      let e : n + 1 ≡ 1000 = omega (arith, ltb→le _ _ large) in
      ap (λ m. digits_eq ds (pad3 m)) e ∙ thousand ds k
]

last3-lt : (ds : List ℕ) → IsNumbered ds → last3 ds < 1000
last3-lt (a ∷ b ∷ c ∷ []) k = omega arith
last3-lt [] k = absurd k
last3-lt (a ∷ []) k = absurd k
last3-lt (a ∷ b ∷ []) k = absurd k
last3-lt (a ∷ b ∷ c ∷ d ∷ ds) k = absurd k

module _ (day : ℕ) (zone : String) where
  AtMost-mono :
      (m n : ℕ)
      → m ≤ n
      → (us : List InventoryUsedItem) → All (AtMost m day zone) us
      → All (AtMost n day zone) us
  AtMost-mono m n le =
      All-mono (AtMost m day zone) (AtMost n day zone) (λ u h e. ((h e).0, omega (arith, (h e).1)))

  none-AtMost :
      (n : ℕ) (us : List InventoryUsedItem)
      → All (λ u. has_prefix day zone u ≡ false) us
      → All (AtMost n day zone) us
  none-AtMost n = All-mono (λ u. has_prefix day zone u ≡ false) (AtMost n day zone) (λ u f e. cc)

  later-IsLast :
      (u : InventoryUsedItem) (o : Option (List ℕ)) (us : List InventoryUsedItem)
      → has_prefix day zone u ≡ true
      → IsNumbered u.lpn_barcode.digits
      → IsLast o day zone us
      → IsLast (later u.lpn_barcode.digits o) day zone (u ∷ us)
  later-IsLast u none us e k h =
      (k, ((λ _. (k, omega arith)), none-AtMost (last3 u.lpn_barcode.digits) us h))
  later-IsLast u (some es) us e k h =
      let le = digits_lt-last3 u.lpn_barcode.digits es k h.0 in
      elim (Bool-cases (digits_lt u.lpn_barcode.digits es)) [
        | inl t ↦ rw t (h.0, ((λ _. (k, le.0 t)), h.1))
        | inr f ↦ rw f (
          k,
          (
            (λ _. (k, omega arith)),
            AtMost-mono (last3 es) (last3 u.lpn_barcode.digits) (le.1 f) us h.1,
          ),
        )
      ]

  skip-IsLast :
      (u : InventoryUsedItem) (o : Option (List ℕ)) (us : List InventoryUsedItem)
      → has_prefix day zone u ≡ false
      → IsLast o day zone us
      → IsLast o day zone (u ∷ us)
  skip-IsLast u none us e h = (e, h)
  skip-IsLast u (some ds) us e h = (h.0, ((λ t. cc), h.1))

  last_label-IsLast :
      (us : List InventoryUsedItem)
      → Numbered day zone us
      → IsLast (last_label day zone us) day zone us
  unfolding last_label
  last_label-IsLast [] h = tt
  last_label-IsLast (u ∷ us) h = elim (Bool-cases (has_prefix day zone u)) [
    | inl e ↦ rw e (later-IsLast u (last_label day zone us) us e (h.0 e) (last_label-IsLast us h.1))
    | inr e ↦ rw e (skip-IsLast u (last_label day zone us) us e (last_label-IsLast us h.1))
  ]

  not_taken :
      (n : ℕ) (us : List InventoryUsedItem)
      → n < 1000
      → All (AtMost n day zone) us
      → any (is_taken_by (record { day = day; zone = zone; digits = pad3 (n + 1) })) us ≡ false
  not_taken n [] h a = refl
  not_taken n (u ∷ us) h a = elim (Bool-cases (has_prefix day zone u)) [
    | inl e ↦
        let free = above n u.lpn_barcode.digits h (a.0 e).0 (a.0 e).1 in
        let rest = not_taken n us h a.1 in ground arith
    | inr e ↦ let rest = not_taken n us h a.1 in ground arith
  ]

  free_after :
      (o : Option (List ℕ)) (us : List InventoryUsedItem)
      → IsLast o day zone us
      → any (is_taken_by (record { day = day; zone = zone; digits = pad3 (next_seq o) })) us ≡ false
  free_after none us h = not_taken 0 us (omega arith) (none-AtMost 0 us h)
  free_after (some ds) us h = not_taken (last3 ds) us (last3-lt ds h.0) h.1

  pub next_label-fresh :
      (us : List InventoryUsedItem)
      → Numbered day zone us
      → any (is_taken_by (next_label day zone us)) us ≡ false
  unfolding next_label
  next_label-fresh us h = free_after (last_label day zone us) us (last_label-IsLast us h)
