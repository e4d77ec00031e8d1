-- ===== src/Stock/Spent.antt =====
-- The numbers of a day and a zone after the thousandth label.
use wms_secret_backend.Prelude.{
  ℕ, zero, suc, ◌<◌, ◌≡◌, inl, inr, refl, ◌∙◌, ap, Bool, true, false, Option, none, some, List, [],
  ◌∷◌, ◌++◌, String, arith, any, any-append, All, All-append, Bool-cases,
}
use wms_secret_backend.Picking.{Book}
use wms_secret_backend.Stock.{Label, InventoryUsedItem, Store}
use wms_secret_backend.Stock.Labels.{
  has_prefix, last_label, later, digits_lt, decimal, pad3, next_label, next_seq, digits_eq,
  is_taken_by, failed, numbers_contended, attempts, max_retry, generate_lpn, find_book, zone_code,
  with_rivals,
}
use wms_secret_backend.Stock.Issue.{generate_lpn_lem}

-- The digits of a number up to 1000, as they are written on a label.
abbrev pub UpToThousand : List ℕ → Type 0
UpToThousand (a ∷ b ∷ c ∷ []) = (a < 10) × (b < 10) × (c < 10)
UpToThousand (a ∷ b ∷ c ∷ d ∷ []) = (a ≡ 1) × (b ≡ 0) × (c ≡ 0) × (d ≡ 0)
UpToThousand _ = ⊥

abbrev pub label_of : ℕ → String → List ℕ → Label
label_of day zone digits = record { day = day; zone = zone; digits = digits }

abbrev pub last_of_three : List ℕ
last_of_three = 9 ∷ 9 ∷ 9 ∷ []

abbrev pub thousandth : List ℕ
thousandth = 1 ∷ 0 ∷ 0 ∷ 0 ∷ []

abbrev pub Small : ℕ → String → List InventoryUsedItem → Type 0
Small day zone us = All (λ u. has_prefix day zone u ≡ true → UpToThousand u.lpn_barcode.digits) us

top :
    (ds : List ℕ)
    → UpToThousand ds
    → (digits_lt last_of_three ds ≡ false)
      × (digits_lt ds last_of_three ≡ false → ds ≡ last_of_three)
top (a ∷ b ∷ c ∷ []) h = (ground arith, ground arith)
top (a ∷ b ∷ c ∷ d ∷ []) h = (ground arith, ground arith)
top [] h = absurd h
top (a ∷ []) h = absurd h
top (a ∷ b ∷ []) h = absurd h
top (a ∷ b ∷ c ∷ d ∷ e ∷ ds) h = absurd h

is_top : (ds : List ℕ) → digits_eq ds last_of_three ≡ true → ds ≡ last_of_three
is_top (a ∷ b ∷ c ∷ []) e = ground arith
is_top [] e = cc
is_top (a ∷ []) e = ground arith
is_top (a ∷ b ∷ []) e = ground arith
is_top (a ∷ b ∷ c ∷ d ∷ ds) e = ground arith

abbrev SmallLast : Option (List ℕ) → Type 0
SmallLast none = Unit
SmallLast (some ds) = UpToThousand ds

module _ (day : ℕ) (zone : String) where
  later-Small :
      (ds : List ℕ) (o : Option (List ℕ)) → UpToThousand ds → SmallLast o → SmallLast (later ds o)
  later-Small ds none h k = h
  later-Small ds (some es) h k = elim (Bool-cases (digits_lt ds es)) [
    | inl e ↦ rw e k
    | inr e ↦ rw e h
  ]

  last_label-Small :
      (us : List InventoryUsedItem) → Small day zone us → SmallLast (last_label day zone us)
  unfolding last_label
  last_label-Small [] h = tt
  last_label-Small (u ∷ us) h = elim (Bool-cases (has_prefix day zone u)) [
    | inl e ↦ rw e (
        later-Small u.lpn_barcode.digits (last_label day zone us) (h.0 e) (last_label-Small us h.1))
    | inr e ↦ rw e (last_label-Small us h.1)
  ]

  later-top : (o : Option (List ℕ)) → SmallLast o → later last_of_three o ≡ some last_of_three
  later-top none h = refl
  later-top (some es) h = rw ((top es h).0) refl

  later_keeps : (ds : List ℕ) → UpToThousand ds → later ds (some last_of_three) ≡ some last_of_three
  later_keeps ds h = elim (Bool-cases (digits_lt ds last_of_three)) [
    | inl e ↦ rw e refl
    | inr e ↦ rw e (ap some ((top ds h).1 e))
  ]

  taken_parts :
      (u : InventoryUsedItem) (ds : List ℕ)
      → is_taken_by (label_of day zone ds) u ≡ true
      → (has_prefix day zone u ≡ true) × (digits_eq u.lpn_barcode.digits ds ≡ true)
  taken_parts u ds e = (ground arith, ground arith)

  last_label-top :
      (us : List InventoryUsedItem)
      → Small day zone us
      → any (is_taken_by (label_of day zone last_of_three)) us ≡ true
      → last_label day zone us ≡ some last_of_three
  unfolding last_label
  last_label-top [] h t = cc
  last_label-top (u ∷ us) h t =
      elim (Bool-cases (is_taken_by (label_of day zone last_of_three) u)) [
        | inl e ↦
            let (p, d) = taken_parts u last_of_three e in
            rw (p, is_top u.lpn_barcode.digits d)
              (later-top (last_label day zone us) (last_label-Small us h.1))
        | inr e ↦
            let r = last_label-top us h.1 (rw e at t) in
            elim (Bool-cases (has_prefix day zone u)) [
              | inl p ↦ rw (p, r) (later_keeps u.lpn_barcode.digits (h.0 p))
              | inr p ↦ rw p r
            ]
      ]

  next_label-top :
      (us : List InventoryUsedItem)
      → Small day zone us
      → any (is_taken_by (label_of day zone last_of_three)) us ≡ true
      → next_label day zone us ≡ label_of day zone thousandth
  unfolding next_label pad3 decimal
  next_label-top us h t = ap (λ o. label_of day zone (pad3 (next_seq o))) (last_label-top us h t)

-- The numbers 999 and 1000 are given, and none above.
pub record IsSpent (day : ℕ) (zone : String) (us : List InventoryUsedItem) : Type 0 where
  pub small : Small day zone us
  pub has_last : any (is_taken_by (label_of day zone last_of_three)) us ≡ true
  pub has_thousandth : any (is_taken_by (label_of day zone thousandth)) us ≡ true

any-more {ℓ} :
    {A : Type ℓ} (p : A → Bool) (xs ys : List A) → any p xs ≡ true → any p (xs ++ ys) ≡ true
any-more p xs ys e = any-append p xs ys ∙ rw e refl

IsSpent-append :
    (day : ℕ) (zone : String) (us rs : List InventoryUsedItem)
    → IsSpent day zone us
    → Small day zone rs
    → IsSpent day zone (us ++ rs)
IsSpent-append day zone us rs h k = record {
  small =
      All-append (λ u. has_prefix day zone u ≡ true → UpToThousand u.lpn_barcode.digits) us rs
        h.small k;
  has_last = any-more (is_taken_by (label_of day zone last_of_three)) us rs h.has_last;
  has_thousandth = any-more (is_taken_by (label_of day zone thousandth)) us rs h.has_thousandth;
}

module _ (rivals : ℕ → List InventoryUsedItem) (worker : Option String) (day : ℕ) (zone : String)
    (r : (k : ℕ) → Small day zone (rivals k)) where
  attempts-IsSpent :
      (book : Book) (location left n : ℕ) (s : Store)
      → IsSpent day zone s.used_items
      → (attempts rivals book location worker day zone left n s).0 ≡ failed numbers_contended
  unfolding attempts
  attempts-IsSpent book location zero n s h = refl
  attempts-IsSpent book location (suc left) n s h =
      let e = next_label-top day zone s.used_items h.small h.has_last in
      let taken : any (is_taken_by (next_label day zone s.used_items)) (s.used_items ++ rivals n)
          ≡ true =
        rw e (
          any-more (is_taken_by (label_of day zone thousandth)) s.used_items (rivals n)
            h.has_thousandth) in
      rw taken (
        attempts-IsSpent book location left (suc n) (with_rivals rivals n s)
          (IsSpent-append day zone s.used_items (rivals n) h (r n)))

  -- Once the numbers 999 and 1000 of a day and a zone are given, no label of them is issued any more:
  -- each request fails as contended, also where no other request comes between, since the label that
  -- is last in the order of texts stays the one with 999.
  pub generate_lpn-IsSpent :
      (book_id : Option ℕ) (isbn wanted : Option String) (s : Store) (book : Book)
      → find_book book_id isbn s.books ≡ some (some book)
      → zone_code wanted ≡ some zone
      → IsSpent day zone s.used_items
      → (generate_lpn rivals book_id isbn wanted worker day s).0 ≡ failed numbers_contended
  generate_lpn-IsSpent book_id isbn wanted s book found known h =
      generate_lpn_lem rivals book_id isbn wanted worker day s book zone found known
        (λ o. o ≡ failed numbers_contended)
        (λ k s' e. attempts-IsSpent book k max_retry 0 s' (rw e h))
