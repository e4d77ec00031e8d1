-- ===== src/Override/Recall.antt =====
-- `recall_inventory_to_hitl` of app/domains/admin/service.py: a book that is in stock goes back to a
-- person.
use wms_secret_backend.Prelude.{
  ℕ, Bool, false, Option, none, some, List, [], ◌∷◌, ◌++◌, String, ◌==◌, if◌then◌else◌, ltb,
}
use wms_secret_backend.Picking.{get_by, set_by}
use wms_secret_backend.Stock.{InventoryUsedItem, first_by}
use wms_secret_backend.Stock.Assign.{present}
use wms_secret_backend.Returns.{hitl_required, ReturnJob}
use wms_secret_backend.Worker.{World, find_job, set_job}
use wms_secret_backend.Override.Session.{AdminAuditLog, Tables}

-- The job and the used book that are meant.
abbrev pub source_of : List ReturnJob → InventoryUsedItem → Option ReturnJob
source_of js u = elim u.source_job_id [ none ↦ none | some k ↦ find_job k js ]

abbrev pub is_from : ℕ → InventoryUsedItem → Bool
is_from k u = elim u.source_job_id [ none ↦ false | some k' ↦ k' == k ]

abbrev pub with_item :
    List InventoryUsedItem → Option ReturnJob → Option (ReturnJob × Option InventoryUsedItem)
with_item us none = none
with_item us (some j) = some (j, first_by (is_from j.id) us)

abbrev pub with_job :
    Option InventoryUsedItem → Option ReturnJob → Option (ReturnJob × Option InventoryUsedItem)
with_job u none = none
with_job u (some j) = some (j, u)

abbrev pub meant_by :
    ℕ → World → Option InventoryUsedItem → Option (ReturnJob × Option InventoryUsedItem)
meant_by key w none = with_item w.store.used_items (find_job key w.jobs)
meant_by key w (some u) = with_job (some u) (source_of w.jobs u)

unfoldable pub meant : ℕ → World → Option (ReturnJob × Option InventoryUsedItem)
meant key w = meant_by key w (get_by (λ u. u.id) key w.store.used_items)

abbrev grade_of : Option InventoryUsedItem → Option String
grade_of none = none
grade_of (some u) = some u.condition_grade

abbrev reason_or_default : Option String → String
reason_or_default none = "관리자 임의 회수"
reason_or_default (some t) = t

abbrev pub to_person : Option String → Option InventoryUsedItem → ReturnJob → ReturnJob
to_person reason u j = record j {
  status = hitl_required;
  agent_logs = record j.agent_logs {
    recall_history =
        j.agent_logs.recall_history
        ++ record {
          reason = reason_or_default (present reason);
          previous_status = j.status;
          previous_score = j.ubci_score;
          previous_grade = grade_of u;
        }
          ∷ [];
  };
}

abbrev pub held_back : InventoryUsedItem → InventoryUsedItem
held_back u = record u { item_status = "HITL_PENDING"; inspection_source = some "PENDING_HITL" }

abbrev pub hold_back : Option InventoryUsedItem → List InventoryUsedItem → List InventoryUsedItem
hold_back none us = us
hold_back (some u) us = set_by (λ v. v.id) u.id held_back us

abbrev pub recall_row : ReturnJob → Option InventoryUsedItem → AdminAuditLog
recall_row j u = record {
  target_id = j.id;
  action = "RECALL_TO_HITL";
  previous_state = j.status;
  new_state = hitl_required;
  target_grade = grade_of u;
  primary_reason_code = "ADMIN_RECALL";
  defect_coordinates = [];
  review_duration_ms = none;
}

pub data Recalled : Type 0 where
  not_found no_images : Recalled
  recalled : ℕ → Tables → Recalled

abbrev pub recall_job : Option String → ReturnJob → Option InventoryUsedItem → Tables → Recalled
recall_job reason j u t =
    if ltb 0 j.images
    then recalled j.id (record {
      world = record t.world {
        jobs = set_job j.id (to_person reason u) t.world.jobs;
        store = record t.world.store { used_items = hold_back u t.world.store.used_items };
      };
      audits = t.audits ++ recall_row j u ∷ [];
    })
    else no_images

abbrev pub recall_meant :
    Option String → Option (ReturnJob × Option InventoryUsedItem) → Tables → Recalled
recall_meant reason none t = not_found
recall_meant reason (some (j, u)) t = recall_job reason j u t

unfoldable pub recall_inventory_to_hitl : ℕ → Option String → Tables → Recalled
recall_inventory_to_hitl key reason t = recall_meant reason (meant key t.world) t
