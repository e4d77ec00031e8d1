-- ===== src/Workflow/Integrity.antt =====
-- The cross-check of the critic: `critic_stage_a_integrity_check` in app/ai/agents/critic.py.
use wms_secret_backend.Prelude.{
  ℕ, ◌≡◌, ◌∙◌, refl, ap, Bool, true, false, not, ◌&&◌, ◌||◌, Option, none, some, List, [], ◌∷◌,
  ◌++◌, arith, ltb, leb, ◌==◌, any, if◌then◌else◌,
}
use wms_secret_backend.Workflow.{
  ImageIndex, absent, negative, at_image, Finding, Issue, malformed, no_bbox, index_out_of_range,
  no_deduction, deduction_without_defect, copied, ungrounded, is_nil, issue_if, out_of_range,
  finding_issues, all_issues, is_full, is_less, critic_stage_a_integrity_check,
}

-- A picture that there is. Without pictures nothing is asked of the index.
abbrev pub is_known : ℕ → ImageIndex → Bool
is_known count absent = true
is_known count negative = count == 0
is_known count (at_image i) = (count == 0) || ltb i count

-- A defect that can be shown and that the vision agent itself has located and judged.
abbrev pub is_sound : ℕ → Finding → Bool
is_sound count d =
    d.is_dict
    && d.has_bbox
    && is_known count d.image_index
    && not d.conf_copied_from_candidate
    && not d.bbox_ungrounded

unfoldable pub all_sound : ℕ → List Finding → Bool
all_sound count [] = true
all_sound count (d ∷ ds) = is_sound count d && all_sound count ds

-- Points are taken off when there are defects, and only then.
abbrev pub is_coherent : List Finding → Option ℕ → Bool
is_coherent ds none = true
is_coherent [] (some n) = leb 100 n
is_coherent (d ∷ ds) (some n) = not (n == 100)

is_nil-++ : (xs ys : List Issue) → is_nil (xs ++ ys) ≡ (is_nil xs && is_nil ys)
is_nil-++ [] ys = refl
is_nil-++ (x ∷ xs) ys = refl

in_range : (count : ℕ) (i : ImageIndex) → not (out_of_range count i) ≡ is_known count i
in_range count absent = refl
in_range count negative = ground arith
in_range count (at_image i) = ground arith

flat :
    (dict box out known : Bool)
    → not out ≡ known
    → is_nil (
        if dict
        then issue_if no_bbox (not box) ++ issue_if index_out_of_range out
        else malformed ∷ [])
      ≡ (dict && box && known)
flat false box out known e = refl
flat true true true known e = e
flat true true false known e = e
flat true false out known e = refl

regroup :
    {here : Bool} (dict box known taken made_up : Bool) {rest : Bool}
    (issues taken' made_up' : Bool)
    → here ≡ ((dict && box && known) && issues)
    → (issues && not taken' && not made_up') ≡ rest
    → (here && not ((dict && taken) || taken') && not ((dict && made_up) || made_up'))
      ≡ ((dict && box && known && not taken && not made_up) && rest)
regroup dict box known taken made_up issues taken' made_up' e f = ground arith

join :
    (xs : List Issue) (full less is_copied made_up : Bool)
    → is_nil (
        xs
        ++ issue_if no_deduction full
        ++ issue_if deduction_without_defect less
        ++ issue_if copied is_copied
        ++ issue_if ungrounded made_up)
      ≡ ((is_nil xs && not is_copied && not made_up) && (not full && not less))
join [] full less is_copied made_up = ground arith
join (x ∷ xs) full less is_copied made_up = refl

meet : {a a' b b' : Bool} → a ≡ a' → b ≡ b' → (a && b) ≡ (a' && b')
meet e f = ground arith

is_nil-finding_issues :
    (count : ℕ) (d : Finding)
    → is_nil (finding_issues count d) ≡ (d.is_dict && d.has_bbox && is_known count d.image_index)
is_nil-finding_issues count d =
    flat d.is_dict d.has_bbox (out_of_range count d.image_index) (is_known count d.image_index)
      (in_range count d.image_index)

is_nil-all_issues :
    (count : ℕ) (ds : List Finding)
    → (is_nil (all_issues count ds)
        && not (any (λ d. d.is_dict && d.conf_copied_from_candidate) ds)
        && not (any (λ d. d.is_dict && d.bbox_ungrounded) ds))
      ≡ all_sound count ds
unfolding all_issues all_sound
is_nil-all_issues count [] = refl
is_nil-all_issues count (d ∷ ds) =
    regroup d.is_dict d.has_bbox (is_known count d.image_index) d.conf_copied_from_candidate
      d.bbox_ungrounded (is_nil (all_issues count ds))
      (any (λ d. d.is_dict && d.conf_copied_from_candidate) ds)
      (any (λ d. d.is_dict && d.bbox_ungrounded) ds)
      (is_nil-++ (finding_issues count d) (all_issues count ds)
        ∙ ap (λ b. b && is_nil (all_issues count ds)) (is_nil-finding_issues count d))
      (is_nil-all_issues count ds)

is_coherent_lem :
    (ds : List Finding) (score : Option ℕ)
    → (not (not (is_nil ds) && is_full score) && not (is_nil ds && is_less score))
      ≡ is_coherent ds score
is_coherent_lem [] none = refl
is_coherent_lem (d ∷ ds) none = refl
is_coherent_lem [] (some n) = ground arith
is_coherent_lem (d ∷ ds) (some n) = ground arith

-- The critic reports no issue exactly when every defect is sound (a record with a box, a picture that there
-- is, not copied from the detector and not made up) and the score takes points off when there are defects
-- and only then.
pub critic_stage_a_integrity_check-all_sound :
    (ds : List Finding) (count : ℕ) (score : Option ℕ)
    → is_nil (critic_stage_a_integrity_check ds count score)
      ≡ (all_sound count ds && is_coherent ds score)
unfolding critic_stage_a_integrity_check
critic_stage_a_integrity_check-all_sound ds count score =
    join (all_issues count ds) (not (is_nil ds) && is_full score) (is_nil ds && is_less score)
      (any (λ d. d.is_dict && d.conf_copied_from_candidate) ds)
      (any (λ d. d.is_dict && d.bbox_ungrounded) ds)
    ∙ meet (is_nil-all_issues count ds) (is_coherent_lem ds score)
