-- ===== src/Wrapper/Held.antt =====
-- What the worker does with a run of the graph that asks for a person or finds too few points.
use wms_secret_backend.Prelude.{
  ℕ, ◌≡◌, ◌≢◌, refl, sym, ◌∙◌, Bool, true, false, not, ◌&&◌, ◌||◌, Option, none, some,
  if◌then◌else◌,
}
use mathlib.Core.Path.{subst}
use wms_secret_backend.Returns.{
  JobStatus, pending, processing, approved, rejected, hitl_required, failed,
}
use wms_secret_backend.Worker.{
  World, AiDecision, approve, reject, hitl, unknown, AiResult, status_for,
}
use wms_secret_backend.Worker.Process.{answered, Visit, hitl_locked, deliver}
use wms_secret_backend.Worker.Jobs.{status_of}
use wms_secret_backend.Worker.Locked.{is_approved, not_approved, deliver-IsHeld_by}
use wms_secret_backend.Wrapper.{
  FinalState, is_text, is_true, at_least, asks_person, convert_state_to_decision,
  convert_final_state_to_worker_result,
}

-- A person is asked for, or the book is not as new and has less than 70 points.
abbrev pub is_doubtful : FinalState → Bool
is_doubtful s = asks_person s || (not (is_true s.is_mint) && not (at_least 70 s.ubci_score))

by_tests :
    (person mint ok points : Bool)
    → (person || (not mint && not points)) ≡ true
    → is_approved (
        some (
          status_for (
            if person
            then hitl
            else if mint
            then approve
            else if ok && points
            then approve
            else reject)))
      ≡ false
by_tests true mint ok points h = refl
by_tests false true ok points h = absurd (cc)
by_tests false false true true h = absurd (cc)
by_tests false false true false h = refl
by_tests false false false points h = refl

locked_held :
    (d : AiDecision) (b : Bool) (a : AiResult)
    → a.decision ≡ d
    → is_approved (some (status_for d)) ≡ false
    → is_approved (some (status_for (hitl_locked b a).decision)) ≡ false
locked_held approve b a e h = absurd (cc)
locked_held reject b a e h = rw e refl
locked_held hitl b a e h = rw e refl
locked_held unknown b a e h = rw e refl

doubtful_held :
    (b : Bool) (s : FinalState)
    → is_doubtful s ≡ true
    → is_approved
        (some (status_for (hitl_locked b (convert_final_state_to_worker_result s)).decision))
      ≡ false
unfolding convert_final_state_to_worker_result convert_state_to_decision
doubtful_held b s h =
    locked_held (convert_state_to_decision s) b (convert_final_state_to_worker_result s) refl (
      by_tests (asks_person s) (is_true s.is_mint) (is_text "OK" s.reason_code)
        (at_least 70 s.ubci_score) h)

answered_injective : (a a' : AiResult) → answered a ≡ answered a' → a ≡ a'
answered_injective a a' e = cc

-- If in each run of a task the graph of agents ends in doubt, that is, a person is asked for, or the
-- book is not as new and has less than 70 points or none, then a job that was not approved before is not
-- approved after, whether it belonged to a person or not, and whatever the lock and the database do.
pub convert_final_state_to_worker_result-unapproved :
    (visits : ℕ → Visit) (states : ℕ → FinalState) (k : ℕ) (b : Bool) (w : World)
    → ((n : ℕ) → (visits n).answer ≡ answered (convert_final_state_to_worker_result (states n)))
    → ((n : ℕ) → is_doubtful (states n) ≡ true)
    → status_of k w ≢ some approved
    → status_of k (deliver visits k b w).1 ≢ some approved
convert_final_state_to_worker_result-unapproved visits states k b w given doubt before =
    not_approved _ (
      deliver-IsHeld_by visits k b
        (λ n a e.
          subst (λ a. is_approved (some (status_for (hitl_locked b a).decision)) ≡ false)
            (answered_injective _ a (sym (given n) ∙ e)) (doubtful_held b (states n) (doubt n)))
        w (held_before (status_of k w) before))
  where
    held_before : (o : Option JobStatus) → o ≢ some approved → is_approved o ≡ false
    held_before none h = refl
    held_before (some pending) h = refl
    held_before (some processing) h = refl
    held_before (some rejected) h = refl
    held_before (some hitl_required) h = refl
    held_before (some failed) h = refl
    held_before (some approved) h = absurd (h refl)
