-- ===== src/Override/Reconsidered.antt =====
-- A book that a person has taken back, or sends to a new inspection: the machine does not approve it.
use mathlib.Core.Path.{subst}
use mathlib.Core.Option.{some-injective}
use wms_secret_backend.Prelude.{
  ℕ, ◌≡◌, ◌≢◌, refl, ap, ◌∙◌, sym, inl, inr, Bool, true, Option, none, some, List, [], ◌∷◌, ◌++◌,
  String, ltb, Bool-cases,
}
use wms_secret_backend.Picking.{get_by}
use wms_secret_backend.Stock.{InventoryUsedItem}
use wms_secret_backend.Returns.{JobStatus, pending, approved, hitl_required, ReturnJob}
use wms_secret_backend.Worker.{World, find_job, set_job}
use wms_secret_backend.Worker.Process.{
  Visit, deliver, is_human_owned, asked_job, job_of_item, reinspect_job, trigger_ai_reinspection,
}
use wms_secret_backend.Worker.Jobs.{status_in, status_of, find-changed}
use wms_secret_backend.Worker.Locked.{
  is_approved, deliver-IsHeld, not_approved, reinspect_job-IsHeld,
}
use wms_secret_backend.Override.Session.{HitlOverrideRequest, Tables, Session, Desk, Placing, goes}
use wms_secret_backend.Override.Submit.{
  edited, back_to_pending, recheck, rechecks, verdict_of, decide, record_decision, on_item,
}
use wms_secret_backend.Override.Recall.{
  meant, with_item, with_job, source_of, meant_by, to_person, Recalled, recalled, no_images,
  recall_job, recall_meant, recall_inventory_to_hitl,
}
use wms_secret_backend.Override.Rows.{found_id, edited_id, find-put}
use wms_secret_backend.Override.Shelved.{turned}

-- The row of a job that is found under its own key.
abbrev IsRow : List ReturnJob → ReturnJob → Type 0
IsRow js j = find_job j.id js ≡ some j

row_of : (k : ℕ) (js : List ReturnJob) (j : ReturnJob) → find_job k js ≡ some j → IsRow js j
row_of k js j e = subst (λ i. find_job i js ≡ some j) (sym (found_id k js j e)) e

module _ (js : List ReturnJob) where
  source_of-IsRow :
      (u : InventoryUsedItem) (o : Option ℕ) (j : ReturnJob)
      → u.source_job_id ≡ o
      → source_of js u ≡ some j
      → IsRow js j
  source_of-IsRow u none j q e = absurd (let h = rw q at e in cc)
  source_of-IsRow u (some k) j q e = row_of k js j (rw q at e)

  job_of_item-IsRow :
      (o : Option InventoryUsedItem) (j : ReturnJob) → job_of_item js o ≡ some j → IsRow js j
  job_of_item-IsRow none j e = absurd (cc)
  job_of_item-IsRow (some u) j e = source_of-IsRow u u.source_job_id j refl e

asked_job-IsRow : (key : ℕ) (w : World) (j : ReturnJob) → asked_job key w ≡ some j → IsRow w.jobs j
asked_job-IsRow key w j e = by_key (find_job key w.jobs) refl e
  where
    by_key :
        (o : Option ReturnJob)
        → find_job key w.jobs ≡ o
        → elim o [
          | some j ↦ some j
          | none ↦ job_of_item w.jobs (get_by (λ u. u.id) key w.store.used_items)
        ]
          ≡ some j
        → IsRow w.jobs j
    by_key none q h = job_of_item-IsRow w.jobs (get_by (λ u. u.id) key w.store.used_items) j h
    by_key (some i) q h = row_of key w.jobs j (q ∙ h)

-- Whom the job belongs to, which the request of an admin hands on.
reinspect_job-owner :
    (w w' : World) (k : ℕ) (b : Bool) (o : Option ReturnJob)
    → ((j : ReturnJob) → o ≡ some j → IsRow w.jobs j)
    → reinspect_job w o ≡ some (k, b, w')
    → status_of k w ≡ some hitl_required
    → b ≡ true
reinspect_job-owner w w' k b none row e h = absurd (cc)
reinspect_job-owner w w' k b (some j) row e h = elim (Bool-cases (ltb 0 j.images)) [
  | inl q ↦
      let given = some-injective _ _ (rw q at e) in
      let key : j.id ≡ k = ap (λ x. x.0) given in
      let own : status_of k w ≡ some j.status =
        ap (λ i. status_of i w) (sym key) ∙ ap status_in (row j refl) in
      let status : j.status ≡ hitl_required = some-injective _ _ (sym own ∙ h) in
      sym (ap (λ x. x.1) given) ∙ ap is_human_owned status
  | inr q ↦
      let bad : ◌≡◌ {A = Option (ℕ × Bool × World)} none (some (k, b, w')) = rw q at e in
      absurd (cc)
]

-- The status of the job that a recall has taken back.
abbrev status_after : Recalled → Option JobStatus
status_after (recalled k t) = status_of k t.world
status_after _ = none

module _ (reason : Option String) (t : Tables) where
  recall_job-status :
      (j : ReturnJob) (u : Option InventoryUsedItem)
      → IsRow t.world.jobs j
      → (ltb 0 j.images ≡ true)
      → status_after (recall_job reason j u t) ≡ some hitl_required
  recall_job-status j u row e =
      rw e (
        ap status_in (find-changed (to_person reason u) (λ i. refl) j.id t.world.jobs (some j) row))

  recall_job-held :
      (j : ReturnJob) (u : Option InventoryUsedItem) (k : ℕ) (t' : Tables)
      → IsRow t.world.jobs j
      → recall_job reason j u t ≡ recalled k t'
      → status_of k t'.world ≡ some hitl_required
  recall_job-held j u k t' row e = elim (Bool-cases (ltb 0 j.images)) [
    | inl q ↦ ap status_after (sym e) ∙ recall_job-status j u row q
    | inr q ↦ let bad : no_images ≡ recalled k t' = rw q at e in absurd (cc)
  ]

  held_item :
      (us : List InventoryUsedItem) (o : Option ReturnJob) (k : ℕ) (t' : Tables)
      → ((j : ReturnJob) → o ≡ some j → IsRow t.world.jobs j)
      → recall_meant reason (with_item us o) t ≡ recalled k t'
      → status_of k t'.world ≡ some hitl_required
  held_item us none k t' row e = absurd (cc)
  held_item us (some j) k t' row e = recall_job-held j _ k t' (row j refl) e

  held_job :
      (u : Option InventoryUsedItem) (o : Option ReturnJob) (k : ℕ) (t' : Tables)
      → ((j : ReturnJob) → o ≡ some j → IsRow t.world.jobs j)
      → recall_meant reason (with_job u o) t ≡ recalled k t'
      → status_of k t'.world ≡ some hitl_required
  held_job u none k t' row e = absurd (cc)
  held_job u (some j) k t' row e = recall_job-held j u k t' (row j refl) e

  held_meant :
      (key : ℕ) (o : Option InventoryUsedItem) (k : ℕ) (t' : Tables)
      → recall_meant reason (meant_by key t.world o) t ≡ recalled k t'
      → status_of k t'.world ≡ some hitl_required
  held_meant key none k t' e =
      held_item t.world.store.used_items (find_job key t.world.jobs) k t' (row_of key t.world.jobs)
        e
  held_meant key (some u) k t' e =
      held_job (some u) (source_of t.world.jobs u) k t'
        (λ j q. source_of-IsRow t.world.jobs u u.source_job_id j refl q) e

recall-held :
    (key : ℕ) (reason : Option String) (t : Tables) (k : ℕ) (t' : Tables)
    → recall_inventory_to_hitl key reason t ≡ recalled k t'
    → status_of k t'.world ≡ some hitl_required
unfolding recall_inventory_to_hitl meant
recall-held key reason t k t' e =
    held_meant reason t key (get_by (λ u. u.id) key t.world.store.used_items) k t' e

-- If an admin takes a book back, by its key or that of its job, and then a new inspection of its job
-- is asked for, by any key, then the task is told that the job belongs to a person, and whatever it meets in up to four
-- runs, it does not approve the job.
pub recall_inventory_to_hitl-unapproved :
    (visits : ℕ → Visit) (key key' : ℕ) (reason : Option String) (t t' : Tables) (k : ℕ) (b : Bool)
    (w : World)
    → recall_inventory_to_hitl key reason t ≡ recalled k t'
    → trigger_ai_reinspection key' t'.world ≡ some (k, b, w)
    → (b ≡ true) × (status_of k (deliver visits k b w).1 ≢ some approved)
unfolding trigger_ai_reinspection
recall_inventory_to_hitl-unapproved visits key key' reason t t' k b w e e' =
    let owner =
      reinspect_job-owner t'.world w k b (asked_job key' t'.world) (asked_job-IsRow key' t'.world)
        e' (recall-held key reason t k t' e) in
    let held = reinspect_job-IsHeld t'.world w k b (asked_job key' t'.world) e' in
    (
      owner,
      subst (λ c. status_of k (deliver visits k c w).1 ≢ some approved) (sym owner)
          (not_approved (status_of k (deliver visits k true w).1) (deliver-IsHeld visits k w held)),
    )

-- If an admin sends a job that belongs to a person to a new inspection, then the job waits, in the
-- tables that are committed; the task is put into the queue with the flag of a person, and whatever it
-- meets in up to four runs, it does not approve the job.
pub on_item-unapproved :
    (visits : ℕ → Visit) (d : Desk) (p : Placing) (k : ℕ) (r : HitlOverrideRequest) (j : ReturnJob)
    (s : Session)
    → r.ticket_id ≡ some k
    → find_job k s.live.world.jobs ≡ some j
    → verdict_of r.decision ≡ rechecks
    → is_human_owned j.status ≡ true
    → (s' : Session) × (on_item d (r, p) s ≡ goes s')
      × (s'.sent ≡ s.sent ++ (k, true) ∷ [])
      × (status_of k s'.disk.world ≡ some pending)
      × (status_of k (deliver visits k true s'.disk.world).1 ≢ some approved)
unfolding decide recheck record_decision
on_item-unapproved visits d p k r j s ticket found v owned =
    let e = edited r.edits j in
    let key : e.id ≡ k = edited_id r.edits j ∙ found_id k s.live.world.jobs j found in
    let waits : find_job k (set_job e.id (λ _. back_to_pending e) s.live.world.jobs)
        ≡ some (back_to_pending e) =
      subst
        (λ i.
          find_job k (set_job i (λ _. back_to_pending e) s.live.world.jobs)
          ≡ some (back_to_pending e))
        (sym key) (find-put k s.live.world.jobs j (back_to_pending e) found key) in
    (
      _,
      turned d k r j s ticket found p rechecks v,
      ap (λ x. s.sent ++ x ∷ [])
          (ap (λ i. (i, is_human_owned j.status)) key ∙ ap (λ c. (k, c)) owned),
      ap status_in waits,
      not_approved _ (deliver-IsHeld visits k _ (ap (λ o. is_approved (status_in o)) waits)),
    )
