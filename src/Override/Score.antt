-- ===== src/Override/Score.antt =====
-- The score after an edit: `preview_score_with_edits` and the recomputation in `submit_hitl_override`
-- of app/domains/admin/service.py. The title of the book is read under a key of `agent_logs` that is
-- never written, so it is empty; a category is not given.
use wms_secret_backend.Prelude.{
  ℕ, ◌-◌, Bool, true, false, not, Option, none, some, List, [], ◌∷◌, String, map, length, filter_by,
  leb, if◌then◌else◌,
}
use wms_secret_backend.Policy.{Defect, Bbox}
use wms_secret_backend.Policy.StageA.{Judgement, stage_a}
use wms_secret_backend.Workflow.{
  ImageIndex, absent, at_image, Finding, Issue, critic_stage_a_integrity_check,
}
use wms_secret_backend.Returns.{LoggedDefect, ReturnJob}
use wms_secret_backend.Worker.{World, find_job}
use wms_secret_backend.Override.{BboxEdits, grade_from_score}
use wms_secret_backend.Override.Edits.{apply_bbox_edits}

-- `[d for d in defects if not d.get("hitl_excluded")]`
abbrev pub scored : List LoggedDefect → List LoggedDefect
scored ds = filter_by (λ d. not d.hitl_excluded) ds

abbrev pub judged : List LoggedDefect → Judgement
judged ds = stage_a "" "" (map (λ d. d.seen) (scored ds))

abbrev has_box : Option Bbox → Bool
has_box none = false
has_box (some b) = true

abbrev shown_on : Option ℕ → ImageIndex
shown_on none = absent
shown_on (some i) = at_image i

-- What the critic reads of a defect.
abbrev pub finding : LoggedDefect → Finding
finding d = record {
  is_dict = true;
  has_bbox = has_box d.seen.bbox;
  image_index = shown_on d.seen.image_index;
  conf_copied_from_candidate = d.conf_copied_from_candidate;
  bbox_ungrounded = d.bbox_ungrounded;
}

abbrev pub issues_of : ℕ → List LoggedDefect → Option ℕ → List Issue
issues_of images ds score = critic_stage_a_integrity_check (map finding (scored ds)) images score

-- The difference to the score of the job.
pub data Delta : Type 0 where
  rise fall : ℕ → Delta

abbrev pub difference : ℕ → Option ℕ → Option Delta
difference new none = none
difference new (some old) = some (if leb old new then rise (new - old) else fall (old - new))

-- The answer, without the texts.
pub record Preview : Type 0 where
  pub ubci_score : ℕ
  pub grade : Option String
  pub score_unverified : Bool
  pub defect_count : ℕ
  pub excluded_count : ℕ
  pub integrity_issues : List Issue
  pub current_score : Option ℕ
  pub delta : Option Delta

unfoldable pub preview : BboxEdits → ReturnJob → Preview
preview e j =
    let ds = apply_bbox_edits j.agent_logs.defects j.agent_logs.yolo_candidates e in
    let score = (judged ds).ubci_score in
    record {
      ubci_score = score;
      grade = grade_from_score (some score);
      score_unverified = (judged ds).score_unverified;
      defect_count = length (scored ds);
      excluded_count = length ds - length (scored ds);
      integrity_issues = issues_of j.images ds (some score);
      current_score = j.ubci_score;
      delta = difference score j.ubci_score;
    }

-- The Policy Agent writes its marks into the entries that it is given, and these are the entries of
-- the list: the marked ones go back to their places.
unfoldable pub put_marks : List LoggedDefect → List Defect → List LoggedDefect
put_marks [] ms = []
put_marks (d ∷ ds) ms =
    if d.hitl_excluded
    then d ∷ put_marks ds ms
    else elim ms [ [] ↦ d ∷ put_marks ds [] | m ∷ rest ↦ record d { seen = m } ∷ put_marks ds rest ]

-- The job after the edits of a decision.
unfoldable pub rescored : BboxEdits → ReturnJob → ReturnJob
rescored e j =
    let ds = apply_bbox_edits j.agent_logs.defects j.agent_logs.yolo_candidates e in
    let score = (judged ds).ubci_score in
    record j {
      ubci_score = some score;
      agent_logs = record j.agent_logs {
        defects = put_marks ds (judged ds).defects;
        hitl_revalidation = some (record {
          policy_score = score;
          critic_stage_a_issues = issues_of j.images ds (some score);
        });
      };
    }

pub data PreviewReply : Type 0 where
  bad_request not_found : PreviewReply
  shown : Preview → PreviewReply

abbrev shown_or_missing : BboxEdits → Option ReturnJob → PreviewReply
shown_or_missing e none = not_found
shown_or_missing e (some j) = shown (preview e j)

-- The key is none where it is no key.
unfoldable pub preview_score_with_edits : Option ℕ → BboxEdits → World → PreviewReply
preview_score_with_edits none e w = bad_request
preview_score_with_edits (some k) e w = shown_or_missing e (find_job k w.jobs)
