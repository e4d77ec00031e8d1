-- ===== src/Policy/StageB/Agent.antt =====
-- The whole of `policy_agent` of app/ai/agents/policy.py: Stage A, then Stage B.
use wms_secret_backend.Prelude.{
  ℕ, ◌≡◌, refl, Bool, true, false, Option, none, some, List, [], String, if◌then◌else◌,
}
use wms_secret_backend.Policy.{Defect}
use wms_secret_backend.Policy.StageA.{Judgement, stage_a}
use wms_secret_backend.Policy.StageB.{
  Clause, Reference, Answer, ReturnPolicy, exception, hold, is_nil, evaluate_return_policy,
}
use wms_secret_backend.Policy.StageB.Grounds.{
  IsGuarded, hold-IsGuarded, evaluate_return_policy-IsGuarded,
}

-- The keys of the state of the workflow that the agent reads.
pub record Request : Type 0 where
  pub vision_failed : Bool
  pub defects : List Defect
  pub book_title : String
  pub book_category : String
  pub platform : String

-- The keys that it writes. A key that it leaves alone is `none`.
pub record Report : Type 0 where
  pub ubci_score : Option ℕ
  pub defects : Option (List Defect)
  pub score_unverified : Option Bool
  pub return_policy : Option ReturnPolicy

-- The pictures could not be read: no score is given.
abbrev pub unread : Report
unread = record { ubci_score = none; defects = none; score_unverified = none; return_policy = none }

abbrev pub read_report : Judgement → Option ReturnPolicy → Report
read_report j r = record {
  ubci_score = some j.ubci_score;
  defects = some j.defects;
  score_unverified = some j.score_unverified;
  return_policy = r;
}

-- `crashed` says whether the call of Stage B raises an exception, as a search that fails would.
module _ (search : Option String → List Clause) (model : List Clause → List Reference → Answer)
    (crashed : Bool) where
  abbrev pub stage_b : Request → Option ReturnPolicy
  stage_b q =
      if is_nil q.defects
      then none
      else some
          (if crashed then hold [] [] exception else evaluate_return_policy search model q.platform)

  unfoldable pub policy_agent : Request → Report
  unfolding evaluate_return_policy stage_a
  policy_agent q =
      if q.vision_failed
      then unread
      else read_report (stage_a q.book_title q.book_category q.defects) (stage_b q)

abbrev pub Guarded : Option ReturnPolicy → Type 0
Guarded none = Unit
Guarded (some r) = IsGuarded r

-- The part of a report that Stage A decides.
abbrev pub scored : Report → Option ℕ × Option (List Defect) × Option Bool
scored r = (r.ubci_score, r.defects, r.score_unverified)

abbrev pub expected : Request → Option ℕ × Option (List Defect) × Option Bool
expected q =
    let j = stage_a q.book_title q.book_category q.defects in
    if q.vision_failed
    then (none, none, none)
    else (some j.ubci_score, some j.defects, some j.score_unverified)

module _ (search : Option String → List Clause) (model : List Clause → List Reference → Answer)
    (crashed : Bool) where
  stage_b-Guarded : (q : Request) → Guarded (stage_b search model crashed q)
  stage_b-Guarded q = by (is_nil q.defects) crashed
    where
      by :
          (none_found crash : Bool)
          → Guarded (
              if none_found
              then none
              else some (
                  if crash
                  then hold [] [] exception
                  else evaluate_return_policy search model q.platform))
      by true crash = tt
      by false true = hold-IsGuarded [] [] exception refl
      by false false = (evaluate_return_policy-IsGuarded search model q.platform).0

  -- The score, the marked defects and the flag of an unverified score are those of Stage A, and
  -- absent where the pictures could not be read, whatever the search and the model of Stage B do
  -- and also where it crashes; and the disposal, where there is one, is guarded.
  pub policy_agent-Guarded :
      (q : Request)
      → (scored (policy_agent search model crashed q) ≡ expected q)
        × Guarded (policy_agent search model crashed q).return_policy
  unfolding policy_agent
  policy_agent-Guarded q =
      by q.vision_failed (stage_a q.book_title q.book_category q.defects)
        (stage_b search model crashed q) (stage_b-Guarded q)
    where
      by :
          (blind : Bool) (j : Judgement) (r : Option ReturnPolicy)
          → Guarded r
          → let report = (if blind then unread else read_report j r) in
            (scored report ≡ (
              if blind
              then (none, none, none)
              else (some j.ubci_score, some j.defects, some j.score_unverified)))
            × Guarded report.return_policy
      by true j r h = (refl, tt)
      by false j r h = (refl, h)
