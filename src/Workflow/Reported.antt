-- ===== src/Workflow/Reported.antt =====
-- What a report that nobody checks rests on.
use wms_secret_backend.Prelude.{
  ℕ, ◌≡◌, ◌≢◌, ◌⊎◌, ◌<◌, ◌∙◌, refl, sym, Bool, true, false, not, ◌&&◌, Option, none, some, List, [],
  ◌∷◌, arith, leb, All,
}
use wms_secret_backend.Workflow.{
  Finding, Inspection, is_nil, critic_stage_a_integrity_check, on_boundary, has_score, llm_rejects,
  nothing_seen, reported, run_graph,
}
use wms_secret_backend.Workflow.Ends.{is_clear, run_graph-clear}
use wms_secret_backend.Workflow.Integrity.{
  is_known, all_sound, is_sound, is_coherent, critic_stage_a_integrity_check-all_sound,
}

-- A defect that can be shown, on a picture that there is, and that the vision agent itself has located
-- and judged.
pub record IsSound (count : ℕ) (d : Finding) : Type 0 where
  pub is_dict : d.is_dict ≡ true
  pub has_bbox : d.has_bbox ≡ true
  pub image : is_known count d.image_index ≡ true
  pub own : d.conf_copied_from_candidate ≡ false
  pub grounded : d.bbox_ungrounded ≡ false

-- The findings of a round and the verdict of the language model on them.
pub record IsTrusted (count : ℕ) (i : Inspection) (verdict : Option Bool) : Type 0 where
  pub score : ℕ
  pub scored : i.ubci_score ≡ some score
  pub decided : (score < 58) ⊎ (66 < score)
  pub sound : All (IsSound count) i.defects
  pub coherent : (i.defects ≡ [] → leb 100 score ≡ true) × (i.defects ≢ [] → score ≢ 100)
  pub unopposed : i.defects ≢ [] → verdict ≢ some true
  pub seen : 0 < count → i.invalid_images < count

is_sound-IsSound : (count : ℕ) (d : Finding) → is_sound count d ≡ true → IsSound count d
is_sound-IsSound count d e =
    by d.is_dict d.has_bbox (is_known count d.image_index) d.conf_copied_from_candidate
      d.bbox_ungrounded refl refl refl refl refl e
  where
    by :
        (dict box known copied made_up : Bool)
        → d.is_dict ≡ dict
        → d.has_bbox ≡ box
        → is_known count d.image_index ≡ known
        → d.conf_copied_from_candidate ≡ copied
        → d.bbox_ungrounded ≡ made_up
        → (dict && box && known && not copied && not made_up) ≡ true
        → IsSound count d
    by true true true false false a b c f g e = record {
      is_dict = a;
      has_bbox = b;
      image = c;
      own = f;
      grounded = g;
    }
    by true true true false true a b c f g e = absurd (cc)
    by true true true true x a b c f g e = absurd (cc)
    by true true false x y a b c f g e = absurd (cc)
    by true false x y z a b c f g e = absurd (cc)
    by false x y z u a b c f g e = absurd (cc)

both : (a b : Bool) → (a && b) ≡ true → (a ≡ true) × (b ≡ true)
both true b e = (refl, e)
both false b e = absurd (cc)

all_sound-IsSound :
    (count : ℕ) (ds : List Finding) → all_sound count ds ≡ true → All (IsSound count) ds
unfolding all_sound
all_sound-IsSound count [] e = tt
all_sound-IsSound count (d ∷ ds) e =
    let (first, rest) = both (is_sound count d) (all_sound count ds) e in
    (is_sound-IsSound count d first, all_sound-IsSound count ds rest)

coherent_lem :
    (ds : List Finding) (n : ℕ)
    → is_coherent ds (some n) ≡ true
    → (ds ≡ [] → leb 100 n ≡ true) × (ds ≢ [] → n ≢ 100)
coherent_lem [] n e = (λ q. e, λ q. absurd (q refl))
coherent_lem (d ∷ ds) n e = (λ q. absurd (cc), λ q p. ground arith)

unopposed_lem :
    (ds : List Finding) (o : Option Bool) → llm_rejects ds o ≡ false → ds ≢ [] → o ≢ some true
unopposed_lem ds none e q p = cc
unopposed_lem [] (some r) e q p = q refl
unopposed_lem (d ∷ ds) (some true) e q p = cc
unopposed_lem (d ∷ ds) (some false) e q p = cc

-- The tests of a clear round.
tests :
    (scored boundary sound refused nothing : Bool)
    → (scored && not boundary && sound && not refused && not nothing) ≡ true
    → (boundary ≡ false) × (sound ≡ true) × (refused ≡ false) × (nothing ≡ false)
tests scored boundary sound refused nothing e =
    (ground arith, ground arith, ground arith, ground arith)

seen_lem : (count invalid : ℕ) → nothing_seen count invalid ≡ false → 0 < count → invalid < count
seen_lem count invalid e l = ground arith

decided_lem : (n : ℕ) → on_boundary (some n) ≡ false → (n < 58) ⊎ (66 < n)
decided_lem n e = ground arith

is_clear-IsTrusted :
    (count : ℕ) (i : Inspection) (verdict : Option Bool)
    → is_clear count i verdict ≡ true
    → IsTrusted count i verdict
is_clear-IsTrusted count i verdict e = by i.ubci_score refl
  where
    by : (o : Option ℕ) → i.ubci_score ≡ o → IsTrusted count i verdict
    by none q = let e' = rw q at e in absurd (cc)
    by (some n) q =
        let (boundary, issues, model, images) =
          tests (has_score i.ubci_score) (on_boundary i.ubci_score)
            (is_nil (critic_stage_a_integrity_check i.defects count i.ubci_score))
            (llm_rejects i.defects verdict) (nothing_seen count i.invalid_images) e in
        let (sound, whole) =
          both (all_sound count i.defects) (is_coherent i.defects i.ubci_score) (
            sym (critic_stage_a_integrity_check-all_sound i.defects count i.ubci_score) ∙ issues) in
        record {
          score = n;
          scored = q;
          decided = decided_lem n (rw q at boundary);
          sound = all_sound-IsSound count i.defects sound;
          coherent = coherent_lem i.defects n (rw q at whole);
          unopposed = unopposed_lem i.defects verdict model;
          seen = seen_lem count i.invalid_images images;
        }

-- Whatever the agents find, if the graph ends at the report of round m, then that round has a score below
-- 58 or above 66, and points are taken off exactly when there are defects; each defect has a box, on a
-- picture that there is where there are pictures, and is neither copied from the detector nor made up;
-- the language model does not reject the defects; and when there are pictures, at least one shows a
-- book.
pub run_graph-IsTrusted :
    (count : ℕ) (inspect : ℕ → Inspection) (verdict : ℕ → Option Bool) (fuel n revision m : ℕ)
    → run_graph count inspect verdict fuel n revision ≡ some (reported m)
    → IsTrusted count (inspect m) (verdict m)
run_graph-IsTrusted count inspect verdict fuel n revision m e =
    is_clear-IsTrusted count (inspect m) (verdict m)
      (run_graph-clear count inspect verdict fuel n revision m e)
