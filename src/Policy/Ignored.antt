-- ===== src/Policy/Ignored.antt =====
-- Defects whose evidence is suspect take no part in the score of Stage A.
use wms_secret_backend.Prelude.{
  ℕ, ◌≡◌, refl, sym, ap, ◌∙◌, inl, inr, Bool, false, not, ◌&&◌, List, [], ◌∷◌, String, arith,
  if◌then◌else◌, sum_of, any, filter_by, Bool-cases,
}
use wms_secret_backend.Policy.{Defect, dtype, is_wear}
use wms_secret_backend.Policy.Wear.{
  Profile, fresh, observe, counts, count_places, worn_places, profile_from, wear_points,
  edge_wear_profile,
}
use wms_secret_backend.Policy.Scan.{Context, is_workbook}
use wms_secret_backend.Policy.StageA.{context, stage_a}
use wms_secret_backend.Policy.Total.{is_fatal, is_worn, is_scribbled, own_points}
use wms_secret_backend.Policy.Verdict.{stage_a_score, points_in, points_off, has_fatal}

-- The defects whose evidence holds.
abbrev pub trusted : List Defect → List Defect
trusted ds = filter_by (λ d. not d.evidence_suspect) ds

-- What a filter that drops only defects without effect keeps.
module _ (keep : Defect → Bool) where
  profile_from-filter :
      ((d : Defect) → keep d ≡ false → counts d ≡ false)
      → (p : Profile) (ds : List Defect) → profile_from p (filter_by keep ds) ≡ profile_from p ds
  unfolding profile_from
  profile_from-filter h p [] = refl
  profile_from-filter h p (d ∷ ds) = elim (Bool-cases (keep d)) [
    | inl e ↦ rw e (profile_from-filter h (if counts d then observe p d else p) ds)
    | inr e ↦ rw (e, h d e) (profile_from-filter h p ds)
  ]

  any-filter :
      (p : Defect → Bool)
      → ((d : Defect) → keep d ≡ false → p d ≡ false)
      → (ds : List Defect) → any p (filter_by keep ds) ≡ any p ds
  any-filter p h [] = refl
  any-filter p h (d ∷ ds) = elim (Bool-cases (keep d)) [
    | inl e ↦ rw (e, any-filter p h ds) refl
    | inr e ↦ rw (e, h d e) (any-filter p h ds)
  ]

  sum_of-filter :
      (f : Defect → ℕ)
      → ((d : Defect) → keep d ≡ false → f d ≡ 0)
      → (ds : List Defect) → sum_of f (filter_by keep ds) ≡ sum_of f ds
  sum_of-filter f h [] = refl
  sum_of-filter f h (d ∷ ds) = elim (Bool-cases (keep d)) [
    | inl e ↦ rw (e, sum_of-filter f h ds) refl
    | inr e ↦ rw (e, h d e) (omega (arith, sum_of-filter f h ds))
  ]

counts_lem : (d : Defect) → not d.evidence_suspect ≡ false → counts d ≡ false
counts_lem d h = by (is_wear (dtype d)) d.evidence_suspect h
  where
    by : (w suspect : Bool) → not suspect ≡ false → w && not suspect ≡ false
    by w suspect h = ground arith

and_false : (a b : Bool) → a ≡ false → a && b ≡ false
and_false a b h = ground arith

module _ (ctx : Context) (d : Defect) (h : not d.evidence_suspect ≡ false) where
  is_fatal_lem : is_fatal ctx d ≡ false
  unfolding is_fatal
  is_fatal_lem = and_false (not d.evidence_suspect) _ h

  is_worn_lem : is_worn ctx d ≡ false
  unfolding is_worn
  is_worn_lem = and_false (not d.evidence_suspect) _ h

  is_scribbled_lem : is_scribbled ctx d ≡ false
  unfolding is_scribbled
  is_scribbled_lem = and_false (not d.evidence_suspect) _ h

  own_points_lem : own_points ctx d ≡ 0
  unfolding own_points
  own_points_lem = by d.evidence_suspect _ h
    where
      by : (suspect : Bool) (n : ℕ) → not suspect ≡ false → (if suspect then 0 else n) ≡ 0
      by suspect n h = ground arith

context-trusted :
    (title category : String) (ds : List Defect)
    → context title category (trusted ds) ≡ context title category ds
unfolding edge_wear_profile
context-trusted title category ds = λ i. record {
  workbook = is_workbook title category;
  wear_ded = wear_points (
      let p = profile_from-filter (λ d. not d.evidence_suspect) counts_lem fresh ds i in
      (count_places (worn_places p), p.max_ratio));
}

points_in-trusted :
    (ctx : Context) (ds : List Defect) → points_in ctx (trusted ds) ≡ points_in ctx ds
points_in-trusted ctx ds =
    let keep = λ (d : Defect). not d.evidence_suspect in
    rw
      (
        sum_of-filter keep (own_points ctx) (own_points_lem ctx) ds,
        any-filter keep (is_worn ctx) (is_worn_lem ctx) ds,
        any-filter keep (is_scribbled ctx) (is_scribbled_lem ctx) ds,
      )
      refl

points_off-trusted :
    (title category : String) (ds : List Defect)
    → points_off title category (trusted ds) ≡ points_off title category ds
points_off-trusted title category ds =
    let ctx = context title category ds in
    ap (λ c. points_in c (trusted ds)) (context-trusted title category ds)
    ∙ points_in-trusted ctx ds

has_fatal-trusted :
    (title category : String) (ds : List Defect)
    → has_fatal title category (trusted ds) ≡ has_fatal title category ds
has_fatal-trusted title category ds =
    let ctx = context title category ds in
    let keep = λ (d : Defect). not d.evidence_suspect in
    rw (context-trusted title category ds) (any-filter keep (is_fatal ctx) (is_fatal_lem ctx) ds)

-- A defect whose evidence is suspect takes nothing off the score and rejects no book: the score is
-- that of the list without it, where it also leaves the count of worn corners.
stage_a-trusted :
    (title category : String) (ds : List Defect)
    → ((stage_a title category ds).ubci_score ≡ (stage_a title category (trusted ds)).ubci_score)
      × ((stage_a title category ds).ledger.fatal
          ≡ (stage_a title category (trusted ds)).ledger.fatal)
stage_a-trusted title category ds =
    let a = stage_a_score title category ds in
    let b = stage_a_score title category (trusted ds) in
    let f = has_fatal-trusted title category ds in
    let q = points_off-trusted title category ds in
    (a.1 ∙ sym (b.1 ∙ rw (f, q) refl), a.0 ∙ sym (b.0 ∙ f))
