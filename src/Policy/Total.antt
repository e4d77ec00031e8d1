-- ===== src/Policy/Total.antt =====
-- What the loop of `policy_agent` adds up, as a sum that does not follow the loop.
use wms_secret_backend.Prelude.{
  ℕ, ◌+◌, ◌≡◌, refl, ◌∙◌, inl, inr, Bool, true, false, not, ◌&&◌, ◌||◌, List, [], ◌∷◌, String,
  arith, leb, if◌then◌else◌, any, sum_of, Bool-cases,
}
use wms_secret_backend.Ubci.{binding_fatal_ratio, workbook_doodle_cap}
use wms_secret_backend.Policy.{
  Defect, Kind, wet, wear, doodled, loose, classify, dtype, effective_ratio, label_for,
}
use wms_secret_backend.Policy.Scan.{
  Context, Ledger, Step, halt, next, exclude, single_points, judge, examine, scan,
}

abbrev kind_of : Defect → Kind
kind_of d = classify (dtype d)

module _ (ctx : Context) where
  -- Kinds that end the inspection.
  abbrev fatal_kind : Kind → Defect → Bool
  fatal_kind wet d = true
  fatal_kind loose d = leb binding_fatal_ratio (effective_ratio 5 d)
  fatal_kind _ d = false

  abbrev worn_kind : Kind → Bool
  worn_kind wear = true
  worn_kind _ = false

  abbrev scribbled_kind : Kind → Bool
  scribbled_kind doodled = ctx.workbook
  scribbled_kind _ = false

  -- The points of a defect by itself, which the two groups do not have.
  abbrev own_of : Kind → Defect → ℕ
  own_of wet d = 0
  own_of wear d = 0
  own_of doodled d = if ctx.workbook then 0 else single_points doodled d
  own_of k d = single_points k d

  unfoldable pub is_fatal : Defect → Bool
  is_fatal d = not d.evidence_suspect && fatal_kind (kind_of d) d

  unfoldable pub is_worn : Defect → Bool
  is_worn d = not d.evidence_suspect && worn_kind (kind_of d)

  unfoldable pub is_scribbled : Defect → Bool
  is_scribbled d = not d.evidence_suspect && scribbled_kind (kind_of d)

  unfoldable pub own_points : Defect → ℕ
  own_points d = if d.evidence_suspect then 0 else own_of (kind_of d) d

  abbrev once : Bool → Bool → ℕ → ℕ
  once already now points = if already then 0 else if now then points else 0

  -- The ledger after a step that goes on.
  record Effect (worn scribbled : Bool) (points : ℕ) (st st' : Ledger) : Type 0 where
    total :
        st'.total
        ≡ st.total
          + points
          + once st.wear_added worn ctx.wear_ded
          + once st.doodle_added scribbled workbook_doodle_cap
    wear : st'.wear_added ≡ (st.wear_added || worn)
    doodle : st'.doodle_added ≡ (st.doodle_added || scribbled)
    fatal : st'.fatal ≡ st.fatal

  Goes : Step → (Ledger → Type 0) → Type 0
  Goes (halt st d) P = ⊥
  Goes (next st d) P = P st

  judge-Effect :
      (k : Kind) (label : String) (st : Ledger) (d : Defect)
      → fatal_kind k d ≡ false
      → Goes (judge ctx k label st d) (Effect (worn_kind k) (scribbled_kind k) (own_of k d) st)
  unfolding judge Goes
  judge-Effect wet label st d h = cc
  judge-Effect wear label st d h = ground arith
  judge-Effect doodled label st d h = ground arith
  judge-Effect loose label st d h = ground arith
  judge-Effect k label st d h = ground arith

  Effect-by :
      (suspect : Bool) (k : Kind) (label : String) (st : Ledger) (d : Defect)
      → not suspect && fatal_kind k d ≡ false
      → Goes (if suspect then exclude label st d else judge ctx k label st d) (
          Effect
            (not suspect && worn_kind k)
            (not suspect && scribbled_kind k)
            (if suspect then 0 else own_of k d)
            st)
  unfolding Goes
  Effect-by true k label st d h = ground arith
  Effect-by false k label st d h = judge-Effect k label st d h

  examine-Effect :
      (st : Ledger) (d : Defect)
      → is_fatal d ≡ false
      → Goes (examine ctx st d) (Effect (is_worn d) (is_scribbled d) (own_points d) st)
  unfolding examine is_fatal is_worn is_scribbled own_points
  examine-Effect st d h = Effect-by d.evidence_suspect (kind_of d) (label_for (dtype d)) st d h

  Halts : Step → Type 0
  Halts (halt st d) = st.fatal ≡ true
  Halts (next st d) = ⊥

  Halts-by :
      (suspect : Bool) (k : Kind) (label : String) (st : Ledger) (d : Defect)
      → not suspect && fatal_kind k d ≡ true
      → Halts (if suspect then exclude label st d else judge ctx k label st d)
  unfolding judge Halts
  Halts-by true k label st d h = cc
  Halts-by false wet label st d h = refl
  Halts-by false loose label st d h = ground arith
  Halts-by false k label st d h = cc

  examine-Halts : (st : Ledger) (d : Defect) → is_fatal d ≡ true → Halts (examine ctx st d)
  unfolding examine is_fatal
  examine-Halts st d h = Halts-by d.evidence_suspect (kind_of d) (label_for (dtype d)) st d h

  -- The sum of the single points, and each group at most once.
  abbrev expected : Ledger → List Defect → ℕ
  expected st ds =
      st.total
      + sum_of own_points ds
      + once st.wear_added (any is_worn ds) ctx.wear_ded
      + once st.doodle_added (any is_scribbled ds) workbook_doodle_cap

  Effect-expected :
      (st st' : Ledger) (d : Defect) (ds : List Defect)
      → Effect (is_worn d) (is_scribbled d) (own_points d) st st'
      → expected st' ds ≡ expected st (d ∷ ds)
  Effect-expected st st' d ds e = ground (arith, e.total, e.wear, e.doodle)

  -- How the loop ends from a step.
  ends : Step → List Defect → Ledger
  unfolding scan
  ends (halt st d) ds = st
  ends (next st d) ds = (scan ctx st ds).0

  scan-ends :
      (st : Ledger) (d : Defect) (ds : List Defect)
      → (scan ctx st (d ∷ ds)).0 ≡ ends (examine ctx st d) ds
  unfolding scan ends
  scan-ends st d ds = by (examine ctx st d)
    where
      by :
          (s : Step)
          → (elim s as (λ _. Ledger × List Defect) [
            | halt st' d' ↦ (st', d' ∷ ds)
            | next st' d' ↦ let (end, ds') = scan ctx st' ds in (end, d' ∷ ds')
          ]).0
            ≡ ends s ds
      by (halt st' d') = refl
      by (next st' d') = refl

  -- What the rest of the loop adds to the ledger `st`.
  abbrev Adds : Ledger → Ledger → List Defect → Type 0
  Adds end st ds = (end.total ≡ expected st ds) × (end.fatal ≡ st.fatal)

  Adds-step :
      (s : Step) (st : Ledger) (d : Defect) (ds : List Defect)
      → Goes s (Effect (is_worn d) (is_scribbled d) (own_points d) st)
      → ((st' : Ledger) → Adds (scan ctx st' ds).0 st' ds)
      → Adds (ends s ds) st (d ∷ ds)
  unfolding Goes ends
  Adds-step (halt st' d') st d ds e rest = absurd e
  Adds-step (next st' d') st d ds e rest =
      ((rest st').0 ∙ Effect-expected st st' d ds e, (rest st').1 ∙ e.fatal)

  pub scan-Adds :
      (ds : List Defect) (st : Ledger) → any is_fatal ds ≡ false → Adds (scan ctx st ds).0 st ds
  unfolding scan
  scan-Adds [] st h = (ground arith, refl)
  scan-Adds (d ∷ ds) st h = rw (scan-ends st d ds) (
      Adds-step (examine ctx st d) st d ds (examine-Effect st d (ground arith))
        (λ st'. scan-Adds ds st' (ground arith)))

  stops : (s : Step) (ds : List Defect) → Halts s → (ends s ds).fatal ≡ true
  unfolding Halts ends
  stops (halt st' d') ds e = e
  stops (next st' d') ds e = absurd e

  goes_on :
      (s : Step) (st : Ledger) (d : Defect) (ds : List Defect)
      → Goes s (Effect (is_worn d) (is_scribbled d) (own_points d) st)
      → ((st' : Ledger) → (scan ctx st' ds).0.fatal ≡ true)
      → (ends s ds).fatal ≡ true
  unfolding Goes ends
  goes_on (halt st' d') st d ds e rest = absurd e
  goes_on (next st' d') st d ds e rest = rest st'

  pub scan_fatal :
      (ds : List Defect) (st : Ledger) → any is_fatal ds ≡ true → (scan ctx st ds).0.fatal ≡ true
  scan_fatal [] st h = cc
  scan_fatal (d ∷ ds) st h = elim (Bool-cases (is_fatal d)) [
    | inl e ↦ rw (scan-ends st d ds) (stops (examine ctx st d) ds (examine-Halts st d e))
    | inr e ↦ rw (scan-ends st d ds) (
        goes_on (examine ctx st d) st d ds (examine-Effect st d e)
          (λ st'. scan_fatal ds st' (ground arith)))
  ]
