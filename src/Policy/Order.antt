-- ===== src/Policy/Order.antt =====
-- Stage A does not depend on the order in which the defects are listed.
use mathlib.Core.List.{Perm}
use wms_secret_backend.Prelude.{
  ℕ, max, ◌≡◌, refl, sym, ap, ◌∙◌, inl, inr, Bool, ◌||◌, List, String, arith, if◌then◌else◌, any,
  order_free, sum_of-perm, any-perm, Bool-cases,
}
use wms_secret_backend.Policy.{Defect, effective_ratio}
use wms_secret_backend.Policy.Wear.{
  Profile, fresh, observe, counts, at_corner, at_wildcard, spot_of, profile_from, worn_places,
  count_places, wear_points, edge_wear_profile,
}
use wms_secret_backend.Policy.Scan.{Context, is_workbook}
use wms_secret_backend.Policy.StageA.{context, stage_a}
use wms_secret_backend.Policy.Total.{is_fatal, is_worn, is_scribbled, own_points}
use wms_secret_backend.Policy.Verdict.{stage_a_score, points_in, points_off, has_fatal}

abbrev add : Profile → Defect → Profile
add p d = if counts d then observe p d else p

or_swap : (a b c : Bool) → (a || b || c) ≡ (a || c || b)
or_swap a b c = ground arith

observe_comm : (p : Profile) (x y : Defect) → observe (observe p x) y ≡ observe (observe p y) x
observe_comm p x y = λ i. record {
  corners =
      λ r c. or_swap (p.corners r c) (at_corner r c (spot_of x)) (at_corner r c (spot_of y)) i;
  wildcard_rows =
      λ r. or_swap (p.wildcard_rows r) (at_wildcard r (spot_of x)) (at_wildcard r (spot_of y)) i;
  max_ratio = max_swap p.max_ratio (effective_ratio 0 x) (effective_ratio 0 y) i;
}
  where
    max_swap : (a b c : ℕ) → max (max a b) c ≡ max (max a c) b
    max_swap a b c = omega arith

add_comm : (p : Profile) (x y : Defect) → add (add p x) y ≡ add (add p y) x
add_comm p x y = elim (Bool-cases (counts x)) [
  | inl e ↦ elim (Bool-cases (counts y)) [
    | inl e' ↦ rw (e, e') (observe_comm p x y)
    | inr e' ↦ rw (e, e') refl
  ]
  | inr e ↦ rw e refl
]

measure_from : List Defect → Profile → ℕ × ℕ
unfolding profile_from
measure_from ds p = let q = profile_from p ds in (count_places (worn_places q), q.max_ratio)

measure_from-perm : {xs ys : List Defect} → Perm xs ys → measure_from xs ≡ measure_from ys
unfolding measure_from profile_from
measure_from-perm =
    order_free measure_from (hlevel) (λ x xs ys e. λ i p. e i (add p x))
      (λ x y xs. λ i p. measure_from xs (add_comm p x y i))

edge_wear_profile-perm :
    {xs ys : List Defect} → Perm xs ys → edge_wear_profile xs ≡ edge_wear_profile ys
unfolding edge_wear_profile measure_from
edge_wear_profile-perm h = ap (λ f. f fresh) (measure_from-perm h)

context-perm :
    (title category : String) {xs ys : List Defect}
    → Perm xs ys
    → context title category xs ≡ context title category ys
context-perm title category h = λ i. record {
  workbook = is_workbook title category;
  wear_ded = wear_points (edge_wear_profile-perm h i);
}

points_in-perm :
    (ctx : Context) {xs ys : List Defect} → Perm xs ys → points_in ctx xs ≡ points_in ctx ys
points_in-perm ctx h =
    rw (sum_of-perm (own_points ctx) h, any-perm (is_worn ctx) h, any-perm (is_scribbled ctx) h)
      refl

points_off-perm :
    (title category : String) {xs ys : List Defect}
    → Perm xs ys
    → points_off title category xs ≡ points_off title category ys
points_off-perm title category {xs} {ys} h =
    ap (λ ctx. points_in ctx xs) (context-perm title category h)
    ∙ points_in-perm (context title category ys) h

has_fatal-perm :
    (title category : String) {xs ys : List Defect}
    → Perm xs ys
    → has_fatal title category xs ≡ has_fatal title category ys
has_fatal-perm title category {xs} {ys} h =
    ap (λ ctx. any (is_fatal ctx) xs) (context-perm title category h)
    ∙ any-perm (is_fatal (context title category ys)) h

-- Two lists of the same defects in another order get the same score, and are rejected outright
-- alike.
pub stage_a-perm :
    (title category : String) (xs ys : List Defect)
    → Perm xs ys
    → ((stage_a title category xs).ubci_score ≡ (stage_a title category ys).ubci_score)
      × ((stage_a title category xs).ledger.fatal ≡ (stage_a title category ys).ledger.fatal)
stage_a-perm title category xs ys h =
    let a = stage_a_score title category xs in
    let b = stage_a_score title category ys in
    let f = has_fatal-perm title category h in
    (a.1 ∙ rw (f, points_off-perm title category h) refl ∙ sym b.1, a.0 ∙ f ∙ sym b.0)
