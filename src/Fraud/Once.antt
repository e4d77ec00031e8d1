-- ===== src/Fraud/Once.antt =====
-- What the scan reports: each thing found, once a day.
use text.Mathlib.TextPositions.{eq_refl}
use wms_secret_backend.Prelude.{
  ℕ, ◌+◌, ◌≡◌, refl, ◌∙◌, inl, inr, Bool, true, false, some, List, [], ◌∷◌, ◌++◌, append-nil,
  append_assoc, map, String, arith, leb, any-append, length, All, Bool-cases,
}
use wms_secret_backend.Fraud.{RuleCode, Detection, Tables}
use wms_secret_backend.Fraud.Scan.{
  FdsReport, Scan, has_rule, target_name, report_of, is_known, scan_step, scan_all, all_detections,
  run_scan,
}

module _ (label : ℕ → String) (now : ℕ) where
  -- None of the reports repeats one from before it.
  abbrev pub Fresh : List FdsReport → List Detection → Type 0
  Fresh reports [] = Unit
  Fresh reports (d ∷ ds) =
      (is_known label now d reports ≡ false) × Fresh (reports ++ report_of label now d ∷ []) ds

  since_now : leb now (now + 24) ≡ true
  since_now = ground arith

  rule_self : (r : RuleCode) → has_rule r (some r) ≡ true
  rule_self r = ground arith

  known_last :
      (d : Detection) (reports : List FdsReport)
      → is_known label now d (reports ++ report_of label now d ∷ []) ≡ true
  known_last d reports =
      any-append _ reports (report_of label now d ∷ [])
      ∙ rw (rule_self d.rule_code, eq_refl (target_name label d.target), since_now) (ground arith)

  known_more :
      (d : Detection) (xs ys : List FdsReport)
      → is_known label now d xs ≡ true
      → is_known label now d (xs ++ ys) ≡ true
  known_more d xs ys h = any-append _ xs ys ∙ rw h refl

  -- What one detection does to the scan.
  data Stepped (d : Detection) (s : Scan) : Scan → Type 0 where
    was_known :
        is_known label now d s.reports ≡ true
        → Stepped d s (record s { deduplicated = s.deduplicated + 1 })
    added :
        is_known label now d s.reports ≡ false
        → Stepped d s (record s {
          reports = s.reports ++ report_of label now d ∷ [];
          new_reports = s.new_reports ++ report_of label now d ∷ [];
        })

  scan_step-Stepped : (d : Detection) (s : Scan) → Stepped d s (scan_step label now d s)
  unfolding scan_step
  scan_step-Stepped d s = elim (Bool-cases (is_known label now d s.reports)) [
    | inl e ↦ rw e (was_known e)
    | inr e ↦ rw e (added e)
  ]

  -- Some of the detections, in their order.
  pub data Part : List Detection → List Detection → Type 0 where
    part_end : Part [] []
    taken : {ns ds : List Detection} (d : Detection) → Part ns ds → Part (d ∷ ns) (d ∷ ds)
    left : {ns ds : List Detection} (d : Detection) → Part ns ds → Part ns (d ∷ ds)

  -- From one state of the scan to a later one, over the detections between them.
  pub record IsScanned (ds : List Detection) (s s' : Scan) : Type 0 where
    pub news : List Detection
    pub part : Part news ds
    pub fresh : Fresh s.reports news
    pub kept : s'.reports ≡ s.reports ++ map (report_of label now) news
    pub sent : s'.new_reports ≡ s.new_reports ++ map (report_of label now) news
    pub counted : length news + s'.deduplicated ≡ length ds + s.deduplicated
    pub known : All (λ d. is_known label now d s'.reports ≡ true) ds

  IsScanned-step :
      (d : Detection) (ds : List Detection) (s s' s'' : Scan)
      → Stepped d s s'
      → IsScanned ds s' s''
      → IsScanned (d ∷ ds) s s''
  IsScanned-step d ds s s' s'' (was_known e) h = record {
    news = h.news;
    part = left d h.part;
    fresh = h.fresh;
    kept = h.kept;
    sent = h.sent;
    counted = let c = h.counted in omega (arith, c);
    known = (rw (h.kept) (known_more d s.reports _ e), h.known);
  }
  IsScanned-step d ds s s' s'' (added e) h = record {
    news = d ∷ h.news;
    part = taken d h.part;
    fresh = (e, h.fresh);
    kept =
        h.kept
        ∙ append_assoc s.reports (report_of label now d ∷ []) (map (report_of label now) h.news);
    sent =
        h.sent
        ∙ append_assoc s.new_reports (report_of label now d ∷ [])
            (map (report_of label now) h.news);
    counted = let c = h.counted in omega (arith, c);
    known = (
      rw (h.kept)
          (known_more d (s.reports ++ report_of label now d ∷ []) _ (known_last d s.reports)),
      h.known,
    );
  }

  scan_all-IsScanned : (ds : List Detection) (s : Scan) → IsScanned ds s (scan_all label now ds s)
  unfolding scan_all
  scan_all-IsScanned [] s = record {
    news = [];
    part = part_end;
    fresh = tt;
    kept = rw append-nil refl;
    sent = rw append-nil refl;
    counted = refl;
    known = tt;
  }
  scan_all-IsScanned (d ∷ ds) s =
      IsScanned-step d ds s (scan_step label now d s)
        (scan_all label now ds (scan_step label now d s)) (scan_step-Stepped d s)
        (scan_all-IsScanned ds (scan_step label now d s))

abbrev pub start : List FdsReport → Scan
start reports = record { reports = reports; new_reports = []; deduplicated = 0 }

module _ (label : ℕ → String) (percent_over : ℕ → ℕ → ℕ) (fails : RuleCode → Bool) (now : ℕ)
    (t : Tables) (reports : List FdsReport) where
  -- Of what the rules find, the scan adds a report for each thing that no report of the last day, old or
  -- just added, names with the same rule and target, in the order in which it is found, and nothing else;
  -- the old reports stay, an alert goes out for each new one, all that is found is reported in the end,
  -- and what was found is as much as what is new and what was known.
  pub run_scan-IsScanned :
      IsScanned label now
        (all_detections percent_over fails now t)
        (start reports)
        (run_scan label percent_over fails now t reports)
  unfolding run_scan
  run_scan-IsScanned =
      scan_all-IsScanned label now (all_detections percent_over fails now t) (start reports)

known_scan :
    (label : ℕ → String) (now : ℕ) (ds : List Detection) (s : Scan)
    → All (λ d. is_known label now d s.reports ≡ true) ds
    → scan_all label now ds s ≡ record s { deduplicated = s.deduplicated + length ds }
unfolding scan_all
known_scan label now [] s h = ground arith
known_scan label now (d ∷ ds) s h =
    rw (scan_step, h.0)
      (known_scan label now ds (record s { deduplicated = s.deduplicated + 1 }) h.1 ∙ ground arith)

-- A scan that follows at once reports nothing and sends no alert: it counts all that it finds as known.
run_scan-again :
    (label : ℕ → String) (percent_over : ℕ → ℕ → ℕ) (fails : RuleCode → Bool) (now : ℕ) (t : Tables)
    (reports : List FdsReport)
    → let reports' = (run_scan label percent_over fails now t reports).reports in
      run_scan label percent_over fails now t reports' ≡ record {
        reports = reports';
        new_reports = [];
        deduplicated = length (all_detections percent_over fails now t);
      }
unfolding run_scan
run_scan-again label percent_over fails now t reports =
    known_scan label now (all_detections percent_over fails now t)
      (start (run_scan label percent_over fails now t reports).reports)
      (run_scan-IsScanned label percent_over fails now t reports).known
    ∙ ground arith
