-- ===== src/Auth/Runs.antt =====
-- Runs of characters: the loop with counters finds what a search of every place finds.
use wms_secret_backend.Prelude.{
  ℕ, zero, suc, max, ◌≡◌, refl, sym, ◌∙◌, inl, inr, Bool, true, false, ◌&&◌, ◌||◌, [], ◌∷◌, arith,
  ltb, leb, ltb→lt, ◌<◌, if◌then◌else◌, length, Bool-cases,
}
use wms_secret_backend.Auth.Password.{
  Text, same, up, down, run_after, scan_runs, scan_all, has_sequential_run,
}

-- The next `n` pairs of neighbours from `p` on are all related.
unfoldable pub starts : (ℕ → ℕ → Bool) → ℕ → ℕ → Text → Bool
starts r zero p t = true
starts r (suc n) p [] = false
starts r (suc n) p (c ∷ cs) = r p c && starts r n c cs

-- Somewhere four characters follow each other, each related to the next.
unfoldable pub has_four : (ℕ → ℕ → Bool) → Text → Bool
unfolding starts
has_four r [] = false
has_four r (p ∷ t) = starts r 3 p t || has_four r t

-- The loop with one counter.
run : (ℕ → ℕ → Bool) → ℕ → ℕ → Text → Bool
run r k p [] = false
run r k p (c ∷ cs) =
    let k' = run_after k (r p c) in let found = run r k' c cs in if leb 4 k' then true else found

scan_runs-run :
    (a b c p : ℕ) (t : Text)
    → scan_runs a b c p t ≡ (run same a p t || run up b p t || run down c p t)
unfolding scan_runs run
scan_runs-run a b c p [] = refl
scan_runs-run a b c p (q ∷ t) =
    by (run_after a (same p q)) (run_after b (up p q)) (run_after c (down p q)) _ _ _ _
      (scan_runs-run (run_after a (same p q)) (run_after b (up p q)) (run_after c (down p q)) q t)
  where
    by :
        (x y z : ℕ) (f g h i : Bool)
        → f ≡ (g || h || i)
        → (if leb 4 (max (max x y) z) then true else f) ≡ (
            (if leb 4 x then true else g)
            || (if leb 4 y then true else h)
            || (if leb 4 z then true else i))
    by x y z f g h i e = ground arith

module _ (r : ℕ → ℕ → Bool) where
  starts_less : (n p : ℕ) (t : Text) → starts r (suc n) p t ≡ true → starts r n p t ≡ true
  unfolding starts
  starts_less zero p t h = refl
  starts_less (suc n) p [] h = h
  starts_less (suc n) p (c ∷ cs) h = elim (Bool-cases (r p c)) [
    | inl e ↦ rw e (starts_less n c cs (rw e at h))
    | inr e ↦ absurd (false_ne (rw e at h))
  ]
    where
      false_ne : false ≡ true → ⊥
      false_ne e = ground arith

  -- With `k` characters of a run seen, `n` more complete it.
  abbrev Finds : ℕ → ℕ → ℕ → Text → Type 0
  Finds k n p t = run r k p t ≡ (starts r n p t || has_four r (p ∷ t))

  absorb2 : (a b w : Bool) → (b ≡ true → a ≡ true) → (a || w) ≡ (a || (b || w))
  absorb2 a b w h = ground arith

  absorb3 : (a w : Bool) → (a || w) ≡ (a || (a || w))
  absorb3 a w = ground arith

  run-Finds : (p : ℕ) (t : Text) → Finds 3 1 p t × Finds 2 2 p t × Finds 1 3 p t
  unfolding run starts has_four
  run-Finds p [] = (refl, refl, refl)
  run-Finds p (c ∷ cs) =
      let ih = run-Finds c cs in
      elim (Bool-cases (r p c)) [
        | inl e ↦ rw e (
          refl,
          ih.0
              ∙ absorb2 (starts r 1 c cs) (starts r 2 c cs) (has_four r (c ∷ cs))
                  (starts_less 1 c cs),
          ih.1 ∙ absorb3 (starts r 2 c cs) (has_four r (c ∷ cs)),
        )
        | inr e ↦ rw e (
          ih.2 ∙ sym (absorb3 (starts r 3 c cs) (has_four r cs)),
          ih.2 ∙ sym (absorb3 (starts r 3 c cs) (has_four r cs)),
          ih.2 ∙ sym (absorb3 (starts r 3 c cs) (has_four r cs)),
        )
      ]

  run-has_four : (p : ℕ) (t : Text) → run r 1 p t ≡ has_four r (p ∷ t)
  unfolding has_four
  run-has_four p t = (run-Finds p t).2 ∙ sym (absorb3 (starts r 3 p t) (has_four r t))

  short_starts : (n p : ℕ) (t : Text) → length t < n → starts r n p t ≡ false
  unfolding starts
  short_starts zero p t h = absurd (omega (arith, h))
  short_starts (suc n) p [] h = refl
  short_starts (suc n) p (c ∷ cs) h = rw (short_starts n c cs (omega (arith, h))) (ground arith)

  short : (t : Text) → length t < 4 → has_four r t ≡ false
  unfolding has_four
  short [] h = refl
  short (p ∷ t) h = rw (short_starts 3 p t (omega (arith, h)), short t (omega (arith, h))) refl

-- The loop over the neighbours finds a run exactly when somewhere in the password four characters
-- follow each other that are all the same, or that go up by one each, or that go down by one each.
pub has_sequential_run-four :
    (pw : Text) → has_sequential_run pw ≡ (has_four same pw || has_four up pw || has_four down pw)
unfolding has_sequential_run scan_all
has_sequential_run-four [] =
    rw (short same [] (omega arith), short up [] (omega arith), short down [] (omega arith)) refl
has_sequential_run-four (p ∷ t) = elim (Bool-cases (ltb (length (p ∷ t)) 4)) [
  | inl e ↦
      let l = ltb→lt (length (p ∷ t)) 4 e in
      rw (e, short same (p ∷ t) l, short up (p ∷ t) l, short down (p ∷ t) l) refl
  | inr e ↦ rw e (
      scan_runs-run 1 1 1 p t
      ∙ rw (run-has_four same p t, run-has_four up p t, run-has_four down p t) refl)
]
