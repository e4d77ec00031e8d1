-- ===== src/Workflow.antt =====
-- The graph of agents that inspects a book: app/ai/agents/critic.py and app/ai/supervisor.py. What the
-- vision and policy agents find in a round, and what the language model of the critic says of it, are
-- parameters. Texts for display are left out.
pub mod Ends
pub mod Integrity
pub mod Reported
mod Tests
use wms_secret_backend.Prelude.{
  ℕ, zero, suc, ◌+◌, ◌-◌, max, Bool, true, false, not, ◌&&◌, ◌||◌, Option, none, some, List, [],
  ◌∷◌, ◌++◌, ltb, leb, ◌==◌, if◌then◌else◌, any,
}

-- `image_index` of a defect.
pub data ImageIndex : Type 0 where
  absent negative : ImageIndex
  at_image : ℕ → ImageIndex

-- What the critic reads of a defect.
pub record Finding : Type 0 where
  pub is_dict : Bool
  pub has_bbox : Bool
  pub image_index : ImageIndex
  pub conf_copied_from_candidate : Bool
  pub bbox_ungrounded : Bool

-- What the agents before the critic report in a round.
pub record Inspection : Type 0 where
  pub defects : List Finding
  pub invalid_images : ℕ
  pub ubci_score : Option ℕ

pub data Issue : Type 0 where
  malformed no_bbox index_out_of_range no_deduction deduction_without_defect copied ungrounded :
      Issue

abbrev pub issue_if : Issue → Bool → List Issue
issue_if i t = if t then i ∷ [] else []

abbrev pub out_of_range : ℕ → ImageIndex → Bool
out_of_range count absent = false
out_of_range count negative = ltb 0 count
out_of_range count (at_image i) = ltb 0 count && leb count i

abbrev pub finding_issues : ℕ → Finding → List Issue
finding_issues count d =
    if d.is_dict
    then issue_if no_bbox (not d.has_bbox)
      ++ issue_if index_out_of_range (out_of_range count d.image_index)
    else malformed ∷ []

unfoldable pub all_issues : ℕ → List Finding → List Issue
all_issues count [] = []
all_issues count (d ∷ ds) = finding_issues count d ++ all_issues count ds

abbrev pub is_nil {ℓ} : {A : Type ℓ} → List A → Bool
is_nil [] = true
is_nil (_ ∷ _) = false

abbrev pub is_full : Option ℕ → Bool
is_full none = false
is_full (some n) = n == 100

abbrev pub is_less : Option ℕ → Bool
is_less none = false
is_less (some n) = ltb n 100

unfoldable pub critic_stage_a_integrity_check : List Finding → ℕ → Option ℕ → List Issue
unfolding all_issues
critic_stage_a_integrity_check ds count score =
    all_issues count ds
    ++ issue_if no_deduction (not (is_nil ds) && is_full score)
    ++ issue_if deduction_without_defect (is_nil ds && is_less score)
    ++ issue_if copied (any (λ d. d.is_dict && d.conf_copied_from_candidate) ds)
    ++ issue_if ungrounded (any (λ d. d.is_dict && d.bbox_ungrounded) ds)

pub data ReasonCode : Type 0 where
  max_retries_ambiguous boundary_ambiguous human_required rejected all_ok : ReasonCode

abbrev pub on_boundary : Option ℕ → Bool
on_boundary none = false
on_boundary (some n) = leb 58 n && leb n 66

abbrev pub has_score : Option ℕ → Bool
has_score none = false
has_score (some n) = true

-- The language model is asked only about defects; `some true` is its REJECTED, and `none` that it is
-- not there or fails.
abbrev pub llm_rejects : List Finding → Option Bool → Bool
llm_rejects ds none = false
llm_rejects ds (some r) = not (is_nil ds) && r

-- The reason code and the new `revision_count`.
unfoldable pub critic_agent : ℕ → ℕ → Inspection → Option Bool → ReasonCode × ℕ
unfolding critic_stage_a_integrity_check
critic_agent count revision i verdict =
    if leb 2 revision
    then (max_retries_ambiguous, revision)
    else if on_boundary i.ubci_score
    then (boundary_ambiguous, revision)
    else if not (has_score i.ubci_score) && ltb revision 2
    then (rejected, revision + 1)
    else if not (is_nil (critic_stage_a_integrity_check i.defects count i.ubci_score))
    then (human_required, revision)
    else if llm_rejects i.defects verdict
    then (if ltb revision 2 then (rejected, revision + 1) else (max_retries_ambiguous, revision))
    else (all_ok, revision)

pub data Decision : Type 0 where
  retry_vision escalate_human issue_report : Decision

abbrev pub asks_human : ReasonCode → Bool
asks_human max_retries_ambiguous = true
asks_human boundary_ambiguous = true
asks_human human_required = true
asks_human rejected = false
asks_human all_ok = false

abbrev pub is_rejected : ReasonCode → Bool
is_rejected rejected = true
is_rejected _ = false

-- Whether there are pictures and none of them shows a book.
abbrev pub nothing_seen : ℕ → ℕ → Bool
nothing_seen count invalid = ltb 0 count && (max 0 (count - invalid) == 0)

unfoldable pub supervisor_node : ℕ → ℕ → ReasonCode × ℕ → Decision
supervisor_node count invalid (reason, revision) =
    if nothing_seen count invalid
    then escalate_human
    else if asks_human reason || leb 2 revision
    then escalate_human
    else if is_rejected reason
    then retry_vision
    else issue_report

-- The round in which the graph ends, at the human node or at the report.
pub data Outcome : Type 0 where
  escalated reported : ℕ → Outcome

-- The edges behind the supervisor: to the vision agent and so to `rest`, to the human node or to the report.
unfoldable pub route_from_supervisor : Decision → ℕ → Option Outcome → Option Outcome
route_from_supervisor retry_vision n rest = rest
route_from_supervisor escalate_human n rest = some (escalated n)
route_from_supervisor issue_report n rest = some (reported n)

-- The graph from the vision agent on; `none` means that the fuel ran out.
unfoldable pub run_graph : ℕ → (ℕ → Inspection) → (ℕ → Option Bool) → ℕ → ℕ → ℕ → Option Outcome
run_graph count inspect verdict zero n revision = none
run_graph count inspect verdict (suc fuel) n revision =
    let report = critic_agent count revision (inspect n) (verdict n) in
    let rest = run_graph count inspect verdict fuel (suc n) report.1 in
    route_from_supervisor (supervisor_node count (inspect n).invalid_images report) n rest
