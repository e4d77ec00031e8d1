-- ===== src/Policy/Mono.antt =====
-- One more defect never raises the score of Stage A.
use wms_secret_backend.Prelude.{
  ℕ, ◌+◌, ◌-◌, ◌≤◌, ◌≡◌, refl, inl, inr, Bool, true, false, not, ◌&&◌, ◌||◌, List, [], ◌∷◌, String,
  arith, if◌then◌else◌, any, sum_of, Bool-cases,
}
use wms_secret_backend.Ubci.{edge_wear}
use wms_secret_backend.Ubci.Grades.{tier_for_mono}
use wms_secret_backend.Policy.{Defect}
use wms_secret_backend.Policy.Wear.{
  Row, Col, top, mid, bottom, left, right, side, Profile, fresh, observe, counts, at_corner,
  at_wildcard, spot_of, profile_from, worn_places, one_if, in_row, count_places, edge_wear_profile,
  wear_points,
}
use wms_secret_backend.Policy.Scan.{Context, is_workbook}
use wms_secret_backend.Policy.StageA.{stage_a}
use wms_secret_backend.Policy.Total.{is_fatal, is_worn, is_scribbled, own_points}
use wms_secret_backend.Policy.Verdict.{stage_a_score, points_in, points_off, has_fatal}

-- The profile `q` sees at least what `p` sees.
record Within (p q : Profile) : Type 0 where
  corners : (r : Row) (c : Col) → p.corners r c ≡ true → q.corners r c ≡ true
  rows : (r : Row) → p.wildcard_rows r ≡ true → q.wildcard_rows r ≡ true
  ratio : p.max_ratio ≤ q.max_ratio

or_mono : (a b c : Bool) → (a ≡ true → b ≡ true) → a || c ≡ true → b || c ≡ true
or_mono a b c h e = ground arith

observe-Within : (p q : Profile) (d : Defect) → Within p q → Within (observe p d) (observe q d)
observe-Within p q d h = record {
  corners =
      λ r c. or_mono (p.corners r c) (q.corners r c) (at_corner r c (spot_of d)) (h.corners r c);
  rows =
      λ r. or_mono (p.wildcard_rows r) (q.wildcard_rows r) (at_wildcard r (spot_of d)) (h.rows r);
  ratio = omega (arith, h.ratio);
}

profile_from-Within :
    (ds : List Defect) (p q : Profile) → Within p q → Within (profile_from p ds) (profile_from q ds)
unfolding profile_from
profile_from-Within [] p q h = h
profile_from-Within (d ∷ ds) p q h = elim (Bool-cases (counts d)) [
  | inl e ↦ rw e (profile_from-Within ds (observe p d) (observe q d) (observe-Within p q d h))
  | inr e ↦ rw e (profile_from-Within ds p q h)
]

-- A worn cover in a row takes the place that a wildcard of that row had.
row_mono :
    (l r s w l' r' s' w' : Bool)
    → (l ≡ true → l' ≡ true)
    → (r ≡ true → r' ≡ true)
    → (s ≡ true → s' ≡ true)
    → (w ≡ true → w' ≡ true)
    → one_if l + one_if r + one_if (s || w && not (l || r || s))
      ≤ one_if l' + one_if r' + one_if (s' || w' && not (l' || r' || s'))
row_mono l r s w l' r' s' w' a b c d = ground arith

in_row_mono :
    (p q : Profile) → Within p q → (r : Row) → in_row (worn_places p) r ≤ in_row (worn_places q) r
unfolding worn_places
in_row_mono p q h r =
    row_mono (p.corners r left) (p.corners r right) (p.corners r side) (p.wildcard_rows r)
      (q.corners r left) (q.corners r right) (q.corners r side) (q.wildcard_rows r)
      (h.corners r left) (h.corners r right) (h.corners r side) (h.rows r)

wear_points_mono :
    (p q : Profile)
    → Within p q
    → wear_points (count_places (worn_places p), p.max_ratio)
      ≤ wear_points (count_places (worn_places q), q.max_ratio)
unfolding wear_points count_places
wear_points_mono p q h = omega (
  arith,
  in_row_mono p q h top,
  in_row_mono p q h mid,
  in_row_mono p q h bottom,
  tier_for_mono edge_wear p.max_ratio q.max_ratio refl (omega arith) (omega arith) h.ratio,
)

ded : List Defect → ℕ
unfolding edge_wear_profile
ded ds = wear_points (edge_wear_profile ds)

ded_mono : (d : Defect) (ds : List Defect) → ded ds ≤ ded (d ∷ ds)
unfolding ded edge_wear_profile profile_from
ded_mono d ds =
    wear_points_mono (profile_from fresh ds)
      (profile_from (if counts d then observe fresh d else fresh) ds)
      (profile_from-Within ds fresh (if counts d then observe fresh d else fresh)
        (start (counts d)))
  where
    start : (b : Bool) → Within fresh (if b then observe fresh d else fresh)
    start true = record {
      corners = λ r c e. absurd (ground arith);
      rows = λ r e. absurd (ground arith);
      ratio = omega arith;
    }
    start false = record { corners = λ r c e. e; rows = λ r e. e; ratio = omega arith }

-- Contexts of the same book.
abbrev book : Bool → ℕ → Context
book w n = record { workbook = w; wear_ded = n }

points_in_mono :
    (w : Bool) (a b : ℕ) (d : Defect) (ds : List Defect)
    → a ≤ b
    → points_in (book w a) ds ≤ points_in (book w b) (d ∷ ds)
unfolding own_points is_worn is_scribbled
points_in_mono w a b d ds h =
    by (own_points (book w b) d) (sum_of (own_points (book w b)) ds) (is_worn (book w b) d)
      (any (is_worn (book w b)) ds) (is_scribbled (book w b) d) (any (is_scribbled (book w b)) ds)
  where
    by :
        (n s : ℕ) (u u' v v' : Bool)
        → s + (if u' then a else 0) + (if v' then 15 else 0)
          ≤ n + s + (if u || u' then b else 0) + (if v || v' then 15 else 0)
    by n s u u' v v' = ground arith

fatal_mono :
    (w : Bool) (a b : ℕ) (d : Defect) (ds : List Defect)
    → any (is_fatal (book w a)) ds ≡ true
    → any (is_fatal (book w b)) (d ∷ ds) ≡ true
unfolding is_fatal
fatal_mono w a b d ds h = by (is_fatal (book w b) d) (any (is_fatal (book w b)) ds) h
  where
    by : (x y : Bool) → y ≡ true → x || y ≡ true
    by x y h = ground arith

lower :
    (f f' : Bool) (n n' : ℕ)
    → (f ≡ true → f' ≡ true)
    → n ≤ n'
    → (if f' then 0 else 100 - n') ≤ (if f then 0 else 100 - n)
lower f f' n n' h le = ground arith

-- One more defect, whatever it is, never raises the score.
pub stage_a_mono :
    (title category : String) (d : Defect) (ds : List Defect)
    → (stage_a title category (d ∷ ds)).ubci_score ≤ (stage_a title category ds).ubci_score
unfolding ded
stage_a_mono title category d ds =
    let w = is_workbook title category in
    let a = stage_a_score title category ds in
    let b = stage_a_score title category (d ∷ ds) in
    rw (a.1, b.1)
      (lower (has_fatal title category ds) (has_fatal title category (d ∷ ds))
        (points_off title category ds) (points_off title category (d ∷ ds))
        (fatal_mono w (ded ds) (ded (d ∷ ds)) d ds)
        (points_in_mono w (ded ds) (ded (d ∷ ds)) d ds (ded_mono d ds)))
