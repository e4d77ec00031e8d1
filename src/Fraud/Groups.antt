-- ===== src/Fraud/Groups.antt =====
-- Python's `per_admin.setdefault(key, []).append(value)`: a dictionary of lists, which keeps the order
-- in which its keys came, and what a test of its lists says of a key.
use wms_secret_backend.Prelude.{
  ℕ, ◌≡◌, ◌↔◌, refl, sym, ap, ◌∙◌, inl, inr, Bool, true, false, ◌&&◌, ◌||◌, List, [], ◌∷◌, ◌++◌,
  append_assoc, append-nil, arith, if◌then◌else◌, any, Bool-cases,
}

module _ {A : Type 0} (same : A → A → Bool) where
  abbrev pub bucket : A → ℕ → List (A × List ℕ) → List (A × List ℕ)
  bucket k v [] = (k, v ∷ []) ∷ []
  bucket k v ((j, vs) ∷ m) = if same j k then (j, vs ++ v ∷ []) ∷ m else (j, vs) ∷ bucket k v m

  abbrev pub group_from : List (A × List ℕ) → List (A × ℕ) → List (A × List ℕ)
  group_from m [] = m
  group_from m ((k, v) ∷ rows) = group_from (bucket k v m) rows

  -- The values of the rows with a key, in their order.
  abbrev pub values_of : A → List (A × ℕ) → List ℕ
  values_of k [] = []
  values_of k ((j, v) ∷ rows) = if same j k then v ∷ values_of k rows else values_of k rows

  abbrev at_key : A → List (A × List ℕ) → List ℕ
  at_key k [] = []
  at_key k ((j, vs) ∷ m) = if same j k then vs else at_key k m

  abbrev has_key : A → List (A × List ℕ) → Bool
  has_key k m = any (λ e. same e.0 k) m

  abbrev HasKeys : List (A × List ℕ) → Type 0
  HasKeys [] = Unit
  HasKeys ((j, vs) ∷ m) = (has_key j m ≡ false) × HasKeys m

  -- Whether the list of a key passes the test.
  abbrev pub passes : (List ℕ → Bool) → A → List (A × List ℕ) → Bool
  passes test k m = any (λ e. same e.0 k && test e.1) m

module _ {A : Type 0} (same : A → A → Bool)
    (same_iff : (a b : A) → (same a b ≡ true) ↔ (a ≡ b)) where
  at_key-bucket :
      (k j : A) (v : ℕ) (m : List (A × List ℕ))
      → at_key same k (bucket same j v m)
        ≡ (if same j k then at_key same k m ++ v ∷ [] else at_key same k m)
  at_key-bucket k j v [] = ground arith
  at_key-bucket k j v ((i, vs) ∷ m) =
      ground (arith, same_iff i j, same_iff j k, same_iff i k, at_key-bucket k j v m)

  has_key-bucket :
      (k j : A) (v : ℕ) (m : List (A × List ℕ))
      → has_key same k (bucket same j v m) ≡ (same j k || has_key same k m)
  has_key-bucket k j v [] = ground arith
  has_key-bucket k j v ((i, vs) ∷ m) =
      ground (arith, same_iff i j, same_iff j k, same_iff i k, has_key-bucket k j v m)

  differs :
      (i j : A) (v : ℕ) (m : List (A × List ℕ))
      → same i j ≡ false
      → has_key same i m ≡ false
      → has_key same i (bucket same j v m) ≡ false
  differs i j v m e h = has_key-bucket i j v m ∙ ground (arith, same_iff i j, same_iff j i)

  HasKeys-bucket :
      (j : A) (v : ℕ) (m : List (A × List ℕ)) → HasKeys same m → HasKeys same (bucket same j v m)
  HasKeys-bucket j v [] h = (refl, tt)
  HasKeys-bucket j v ((i, vs) ∷ m) h = elim (Bool-cases (same i j)) [
    | inl e ↦ rw e h
    | inr e ↦ rw e (differs i j v m e h.0, HasKeys-bucket j v m h.1)
  ]

  group_from-HasKeys :
      (rows : List (A × ℕ)) (m : List (A × List ℕ))
      → HasKeys same m
      → HasKeys same (group_from same m rows)
  group_from-HasKeys [] m h = h
  group_from-HasKeys ((k, v) ∷ rows) m h =
      group_from-HasKeys rows (bucket same k v m) (HasKeys-bucket k v m h)

  at_key-group :
      (k : A) (rows : List (A × ℕ)) (m : List (A × List ℕ))
      → at_key same k (group_from same m rows) ≡ at_key same k m ++ values_of same k rows
  at_key-group k [] m = rw append-nil refl
  at_key-group k ((j, v) ∷ rows) m =
      at_key-group k rows (bucket same j v m) ∙ elim (Bool-cases (same j k)) [
        | inl e ↦ rw (at_key-bucket k j v m, e, append_assoc) refl
        | inr e ↦ rw (at_key-bucket k j v m, e) refl
      ]

  module _ (test : List ℕ → Bool) (none_passes : test [] ≡ false) where
    or_false : (b : Bool) → (b || false) ≡ b
    or_false b = ground arith

    passes_none :
        (k : A) (m : List (A × List ℕ)) → has_key same k m ≡ false → passes same test k m ≡ false
    passes_none k [] h = refl
    passes_none k ((j, vs) ∷ m) h = ground (arith, passes_none k m)

    passes-at_key :
        (k : A) (m : List (A × List ℕ))
        → HasKeys same m
        → passes same test k m ≡ test (at_key same k m)
    passes-at_key k [] h = sym none_passes
    passes-at_key k ((j, vs) ∷ m) h = elim (Bool-cases (same j k)) [
      | inl e ↦
          let q : has_key same k m ≡ false =
            ap (λ i. has_key same i m) (sym ((same_iff j k).0 e)) ∙ h.0 in
          rw (e, passes_none k m q) (or_false (test vs))
      | inr e ↦ rw e (passes-at_key k m h.1)
    ]

    -- A key is flagged exactly when the values of all its rows pass.
    pub passes-values_of :
        (k : A) (rows : List (A × ℕ))
        → passes same test k (group_from same [] rows) ≡ test (values_of same k rows)
    passes-values_of k rows =
        passes-at_key k (group_from same [] rows) (group_from-HasKeys rows [] tt)
        ∙ ap test (at_key-group k rows [])
