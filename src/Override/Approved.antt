-- ===== src/Override/Approved.antt =====
-- What an approval by a person leaves behind.
use wms_secret_backend.Prelude.{ℕ, ◌≡◌, true, Option, none, some, [], ◌∷◌, ◌++◌, String}
use wms_secret_backend.Stock.{Label, InventoryUsedItem, Store}
use wms_secret_backend.Stock.Labels.{generate_next_lpn_barcode}
use wms_secret_backend.Stock.Rows.{has_at}
use wms_secret_backend.Stock.Assign.{rack_slot, item_book, find_item}
use wms_secret_backend.Returns.{approved, ReturnJob, build_defect_coordinates}
use wms_secret_backend.Worker.{find_job}
use wms_secret_backend.Override.{band_of}
use wms_secret_backend.Override.Bands.{Fits}
use wms_secret_backend.Override.Session.{HitlOverrideRequest, AdminAuditLog, Session, Desk}
use wms_secret_backend.Override.Submit.{edited, new_state}

-- The label that a book has, or the next one of zone B.
abbrev pub IsLabelled : Desk → Store → Option Label → Label → Type 0
IsLabelled d st none l = l ≡ generate_next_lpn_barcode d.day (some "B") st.used_items
IsLabelled d st (some m) l = l ≡ m

-- The row for the audit of an approval.
abbrev pub approval_row : ℕ → HitlOverrideRequest → ReturnJob → AdminAuditLog
approval_row k r j = record {
  target_id = k;
  action = r.decision;
  previous_state = j.status;
  new_state = approved;
  target_grade = r.target_grade;
  primary_reason_code = r.primary_reason_code;
  defect_coordinates = build_defect_coordinates (edited r.edits j).agent_logs.defects;
  review_duration_ms = r.review_duration_ms;
}

-- The session after the approval of the job `j` with the grade `g`.
pub record IsApproved (d : Desk) (k : ℕ) (r : HitlOverrideRequest) (g : String) (j : ReturnJob)
    (s s' : Session) : Type 0 where
  pub label : Label
  pub labelled : IsLabelled d s.live.world.store j.agent_logs.lpn_barcode label
  pub job : ReturnJob
  pub found : find_job k s'.live.world.jobs ≡ some job
  pub status : job.status ≡ approved
  pub own_label : job.agent_logs.lpn_barcode ≡ some label
  pub score : Fits (band_of g) (edited r.edits j).ubci_score job.ubci_score
  pub comment :
      (job.agent_logs.admin_decision ≡ some r.decision)
      × (job.agent_logs.admin_comment ≡ r.reason_comment)
      × (job.agent_logs.primary_reason_code ≡ some r.primary_reason_code)
  pub item : InventoryUsedItem
  pub stored : find_item label s'.disk.world.store.used_items ≡ some item
  pub place :
      has_at item.location_id
        (rack_slot g (
          item_book
            (find_item label s.live.world.store.used_items)
            (some j.book_id)
            s.live.world.store.books))
        s'.disk.world.store.locations
      ≡ true
  pub grade : item.condition_grade ≡ g
  pub item_status : item.item_status ≡ "IN_STOCK"
  pub item_score : item.ubci_score ≡ job.ubci_score
  pub source : item.inspection_source ≡ some "HITL"
  pub seen : s'.live.world.store ≡ s'.disk.world.store
  pub noted : s'.live.audits ≡ s.live.audits ++ approval_row k r j ∷ []
