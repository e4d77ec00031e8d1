-- ===== src/Override/Shelved.antt =====
-- A book after the decision of a person on it.
use mathlib.Core.Path.{subst}
use wms_secret_backend.Prelude.{ℕ, ◌≡◌, refl, ap, ◌∙◌, sym, some, List, [], ◌∷◌, ◌++◌, String}
use wms_secret_backend.Stock.{Label, InventoryUsedItem}
use wms_secret_backend.Stock.Rows.{IsTagged}
use wms_secret_backend.Stock.Assign.{Assignment, find_item, assign_rack_location_after_inspection}
use wms_secret_backend.Stock.Placed.{
  promised, IsPlaced, assign_rack_location_after_inspection-IsPlaced,
}
use wms_secret_backend.Returns.{approved, rejected, ReturnJob}
use wms_secret_backend.Worker.{find_job, set_job}
use wms_secret_backend.Override.Session.{
  HitlOverrideRequest, Session, Desk, Placing, placed, goes, commit, write, put_store, place,
}
use wms_secret_backend.Override.Submit.{
  edited, or_new_label, target_of, decided, approval, rejection, approve, reject, Verdict, approves,
  rejects, verdict_of, decide, commented, audit_row, record_decision, on_job, on_ticket, on_item,
}
use wms_secret_backend.Override.Rows.{found_id, edited_id, find-decided}

-- The job `j`, decided as `j'`, in the session before and after: its row with the comment, the book on
-- the promised place in the stock that is committed, and a row for the audit.
pub record IsShelved (k : ℕ) (r : HitlOverrideRequest) (j j' : ReturnJob) (a : Assignment)
    (s s' : Session) : Type 0 where
  pub job : find_job k s'.live.world.jobs ≡ some (commented r j')
  pub item : InventoryUsedItem
  pub shelf :
      IsPlaced a
        (promised a
          (find_item a.lpn_barcode s.live.world.store.used_items)
          s.live.world.store.books)
        item
        s'.disk.world.store
  pub seen : s'.live.world.store ≡ s'.disk.world.store
  pub noted : s'.live.audits ≡ s.live.audits ++ audit_row r j.status (edited r.edits j) ∷ []

module _ (k : ℕ) (r : HitlOverrideRequest) (j : ReturnJob) (a : Assignment) (s : Session)
    (found : find_job k s.live.world.jobs ≡ some j)
    (tags : IsTagged s.live.world.store.locations) where
  record_decision-IsShelved :
      (j' : ReturnJob) (ns ms : List ℕ)
      → j'.id ≡ k
      → let e = edited r.edits j in
        let s1 = record (write e.id (λ _. j') s) { approved_ids = ns; rejected_ids = ms } in
        let s2 =
          commit (put_store (assign_rack_location_after_inspection a s1.live.world.store).1 s1) in
        (s' : Session) × (record_decision r j.status e (goes s2) ≡ goes s')
        × IsShelved k r j j' a s s'
  unfolding record_decision
  record_decision-IsShelved j' ns ms same = (
    _,
    refl,
    record {
      job =
          subst
            (λ i.
              find_job k (set_job i (commented r) (set_job i (λ _. j') s.live.world.jobs))
              ≡ some (commented r j'))
            (sym (edited_id r.edits j ∙ found_id k s.live.world.jobs j found))
            (find-decided k s.live.world.jobs r j j' found same);
      item = (assign_rack_location_after_inspection a s.live.world.store).0;
      shelf = assign_rack_location_after_inspection-IsPlaced a s.live.world.store tags;
      seen = refl;
      noted = refl;
    },
  )

module _ (d : Desk) (k : ℕ) (r : HitlOverrideRequest) (j : ReturnJob) (s : Session)
    (ticket : r.ticket_id ≡ some k) (found : find_job k s.live.world.jobs ≡ some j) where
  -- The item as a decision on the edited job.
  pub turned :
      (p : Placing) (v : Verdict)
      → verdict_of r.decision ≡ v
      → on_item d (r, p) s
        ≡ record_decision r j.status
            (edited r.edits j)
            (decide d p r j.status v (edited r.edits j) s)
  unfolding on_item
  turned p v e =
      ap (λ o. on_ticket d p r o s) ticket
      ∙ ap (λ o. on_job d p r o s) found
      ∙ ap
          (λ v.
            record_decision r j.status (edited r.edits j)
              (decide d p r j.status v (edited r.edits j) s))
          e

module _ (d : Desk) (k : ℕ) (r : HitlOverrideRequest) (j : ReturnJob) (s : Session)
    (ticket : r.ticket_id ≡ some k) (found : find_job k s.live.world.jobs ≡ some j)
    (tags : IsTagged s.live.world.store.locations) where
  abbrev label : Label
  label = or_new_label d s.live.world.store (edited r.edits j).agent_logs.lpn_barcode

  pub edited_key : (edited r.edits j).id ≡ k
  edited_key = edited_id r.edits j ∙ found_id k s.live.world.jobs j found

  -- If the job of a ticket is there, an approval with a grade, of the request or else the suggested
  -- one, goes through when the database takes the place: the job is approved with the score brought
  -- into the band of the grade, the book lies in the committed stock where its grade, category and
  -- size put it, under the label of the job or a new one, and a row for the audit is added.
  pub on_item-IsShelved :
      (g : String)
      → verdict_of r.decision ≡ approves
      → target_of r (edited r.edits j) ≡ some g
      → let j' = decided approved (some g) label (edited r.edits j) in
        (s' : Session) × (on_item d (r, placed) s ≡ goes s')
        × IsShelved k r j j' (approval d j' label g) s s'
  unfolding decide approve place
  on_item-IsShelved g v t =
      let e = edited r.edits j in
      let given =
        ap
          (λ o. record_decision r j.status e (
            place placed o (approval d (decided approved o label e) label)
              (record (write e.id (λ _. decided approved o label e) s) {
                approved_ids = s.approved_ids ++ e.id ∷ [];
              })))
          t in
      let (s', q, h) =
        record_decision-IsShelved k r j (approval d (decided approved (some g) label e) label g) s
          found tags (decided approved (some g) label e) (s.approved_ids ++ e.id ∷ [])
          s.rejected_ids edited_key in
      (s', turned d k r j s ticket found placed approves v ∙ given ∙ q, h)

  -- If the job of a ticket is there, a rejection goes through when the database takes the place: the
  -- job is rejected with a score of at most 64, the book lies in the committed stock at E-1-1, if its
  -- label was known there, and a row for the audit is added.
  pub on_item-rejected :
      verdict_of r.decision ≡ rejects
      → let j' = decided rejected (some "REJECT") label (edited r.edits j) in
        (s' : Session) × (on_item d (r, placed) s ≡ goes s')
        × IsShelved k r j j' (rejection d j' label "REJECT") s s'
  unfolding decide reject place
  on_item-rejected v =
      let e = edited r.edits j in
      let (s', q, h) =
        record_decision-IsShelved k r j
          (rejection d (decided rejected (some "REJECT") label e) label "REJECT") s found tags
          (decided rejected (some "REJECT") label e) s.approved_ids (s.rejected_ids ++ e.id ∷ [])
          edited_key in
      (s', turned d k r j s ticket found placed rejects v ∙ q, h)
