-- ===== src/Workflow/Ends.antt =====
-- How an inspection ends.
use wms_secret_backend.Prelude.{
  ℕ, zero, suc, ◌+◌, ◌≡◌, ◌⊎◌, refl, sym, ap, ◌∙◌, inl, inr, Bool, true, not, ◌&&◌, ◌||◌, Option,
  some, arith, ltb, leb, if◌then◌else◌,
}
use wms_secret_backend.Workflow.{
  Inspection, is_nil, critic_stage_a_integrity_check, ReasonCode, max_retries_ambiguous,
  boundary_ambiguous, human_required, rejected, all_ok, on_boundary, has_score, llm_rejects,
  critic_agent, Decision, retry_vision, escalate_human, issue_report, nothing_seen, supervisor_node,
  Outcome, escalated, reported, run_graph, route_from_supervisor,
}

-- A round that may end in a report that nobody checks.
abbrev pub is_clear : ℕ → Inspection → Option Bool → Bool
is_clear count i verdict =
    has_score i.ubci_score
    && not (on_boundary i.ubci_score)
    && is_nil (critic_stage_a_integrity_check i.defects count i.ubci_score)
    && not (llm_rejects i.defects verdict)
    && not (nothing_seen count i.invalid_images)

-- A round whose pictures are taken again, as long as there are rounds left.
abbrev pub asks_again : ℕ → Inspection → Option Bool → Bool
asks_again count i verdict =
    not (nothing_seen count i.invalid_images)
    && not (on_boundary i.ubci_score)
    && (not (has_score i.ubci_score)
        || (is_nil (critic_stage_a_integrity_check i.defects count i.ubci_score)
            && llm_rejects i.defects verdict))

-- The decision of a round, with the tests of the critic as Booleans.
decide_by :
    (revision invalid count : ℕ) (scored boundary sound refused : Bool)
    → let report : ReasonCode × ℕ =
        (if leb 2 revision
          then (max_retries_ambiguous, revision)
          else if boundary
          then (boundary_ambiguous, revision)
          else if not scored && ltb revision 2
          then (rejected, revision + 1)
          else if not sound
          then (human_required, revision)
          else if refused
          then (if ltb revision 2
              then (rejected, revision + 1)
              else (max_retries_ambiguous, revision))
          else (all_ok, revision)) in
      let d = supervisor_node count invalid report in
      let clear : Bool =
        scored && not boundary && sound && not refused && not (nothing_seen count invalid) in
      let again : Bool =
        not (nothing_seen count invalid) && not boundary && (not scored || (sound && refused)) in
      (d ≡ issue_report → (leb revision 1 && clear) ≡ true)
      × (revision ≡ 1 → d ≡ (if clear then issue_report else escalate_human))
      × (revision ≡ 0
          → d ≡ (if clear then issue_report else if again then retry_vision else escalate_human))
      × (revision ≡ 0 → d ≡ retry_vision → report.1 ≡ 1)
unfolding supervisor_node
decide_by revision invalid count scored boundary sound refused =
    (ground arith, ground arith, ground arith, ground arith)

second_of : (a b : Bool) → (a && b) ≡ true → b ≡ true
second_of a b = ground arith

route_from_supervisor-reported :
    (d : Decision) (n m : ℕ) (rest : Option Outcome)
    → route_from_supervisor d n rest ≡ some (reported m)
    → ((d ≡ issue_report) × (n ≡ m)) ⊎ (rest ≡ some (reported m))
unfolding route_from_supervisor
route_from_supervisor-reported retry_vision n m rest = λ e. inr e
route_from_supervisor-reported escalate_human n m rest = λ e. ground arith
route_from_supervisor-reported issue_report n m rest = λ e. inl (refl, ground arith)

route_from_supervisor-twice :
    (d d' : Decision) (c a c' : Bool) (rest : Option Outcome)
    → d ≡ (if c then issue_report else if a then retry_vision else escalate_human)
    → (d ≡ retry_vision → d' ≡ (if c' then issue_report else escalate_human))
    → route_from_supervisor d 0 (route_from_supervisor d' 1 rest)
      ≡ some (
          if c
          then reported 0
          else if a
          then (if c' then reported 1 else escalated 1)
          else escalated 0)
unfolding route_from_supervisor
route_from_supervisor-twice d d' c a c' rest e e' = ground arith

module _ (count : ℕ) (inspect : ℕ → Inspection) (verdict : ℕ → Option Bool) where
  abbrev clear : ℕ → Bool
  clear n = is_clear count (inspect n) (verdict n)

  abbrev report_of : ℕ → ℕ → ReasonCode × ℕ
  report_of n revision = critic_agent count revision (inspect n) (verdict n)

  abbrev decision : ℕ → ℕ → Decision
  decision n revision = supervisor_node count (inspect n).invalid_images (report_of n revision)

  decision_lem :
      (n revision : ℕ)
      → (decision n revision ≡ issue_report → (leb revision 1 && clear n) ≡ true)
        × (revision ≡ 1 → decision n revision ≡ (if clear n then issue_report else escalate_human))
        × (revision ≡ 0
            → decision n revision ≡ (
                if clear n
                then issue_report
                else if asks_again count (inspect n) (verdict n)
                then retry_vision
                else escalate_human))
        × (revision ≡ 0 → decision n revision ≡ retry_vision → (report_of n revision).1 ≡ 1)
  unfolding critic_agent
  decision_lem n revision =
      decide_by revision (inspect n).invalid_images count (has_score (inspect n).ubci_score)
        (on_boundary (inspect n).ubci_score)
        (is_nil (critic_stage_a_integrity_check (inspect n).defects count (inspect n).ubci_score))
        (llm_rejects (inspect n).defects (verdict n))

  pub run_graph-clear :
      (fuel n revision m : ℕ)
      → run_graph count inspect verdict fuel n revision ≡ some (reported m)
      → is_clear count (inspect m) (verdict m) ≡ true
  unfolding run_graph
  run_graph-clear zero n revision m e = ground arith
  run_graph-clear (suc fuel) n revision m e =
      elim (route_from_supervisor-reported (decision n revision) n m
        (run_graph count inspect verdict fuel (suc n) (report_of n revision).1) e) [
          | inl (d, k) ↦
              ap clear (sym k)
              ∙ second_of (leb revision 1) (clear n) ((decision_lem n revision).0 d)
          | inr r ↦ run_graph-clear fuel (suc n) (report_of n revision).1 m r
        ]

  -- A run of the graph from its first round ends within two rounds, whatever the agents find: at the report
  -- of round 0 if that round is clear; at the human node of round 0 if the round does not ask for new
  -- readings either; and else at the report or the human node of round 1, as that round is clear or not.
  pub run_graph-outcome :
      (fuel : ℕ)
      → run_graph count inspect verdict (suc (suc fuel)) 0 0
        ≡ some (
            if clear 0
            then reported 0
            else if asks_again count (inspect 0) (verdict 0)
            then (if clear 1 then reported 1 else escalated 1)
            else escalated 0)
  unfolding run_graph
  run_graph-outcome fuel =
      route_from_supervisor-twice (decision 0 0) (decision 1 (report_of 0 0).1) (clear 0)
        (asks_again count (inspect 0) (verdict 0)) (clear 1)
        (run_graph count inspect verdict fuel 2 (report_of 1 (report_of 0 0).1).1)
        ((decision_lem 0 0).2 refl)
        (λ r. (decision_lem 1 (report_of 0 0).1).1 ((decision_lem 0 0).3 refl r))
