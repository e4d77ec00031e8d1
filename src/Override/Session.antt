-- ===== src/Override/Session.antt =====
-- The session of the database in which an admin decides several books (`submit_hitl_override` of
-- app/domains/admin/service.py), and the assignment of a place in it. The session sees its own changes
-- at once (`live`), and a commit keeps them (`disk`).

use wms_secret_backend.Prelude.{ℕ, Bool, Option, none, some, List, String, ◌==◌, if◌then◌else◌}
use wms_secret_backend.Stock.{Store, get_or_create_location}
use wms_secret_backend.Stock.Assign.{
  Assignment, item_book, rack_slot, find_item, assign_rack_location_after_inspection,
}
use wms_secret_backend.Returns.{JobStatus, Coordinates, ReturnJob}
use wms_secret_backend.Worker.{World, set_job}
use wms_secret_backend.Override.{BboxEdits, or_empty}

-- `ticket_id` is none where it is no key.
pub record HitlOverrideRequest : Type 0 where
  pub ticket_id : Option ℕ
  pub decision : String
  pub target_grade : Option String
  pub primary_reason_code : String
  pub reason_comment : Option String
  pub review_duration_ms : Option ℕ
  pub edits : BboxEdits

-- A row of `admin_audit_logs`, without its key, its admin and its time.
pub record AdminAuditLog : Type 0 where
  pub target_id : ℕ
  pub action : String
  pub previous_state : JobStatus
  pub new_state : JobStatus
  pub target_grade : Option String
  pub primary_reason_code : String
  pub defect_coordinates : List Coordinates
  pub review_duration_ms : Option ℕ

pub record Tables : Type 0 where
  pub world : World
  pub audits : List AdminAuditLog

-- `sent` are the inspections put into the queue, each with the flag of a person.
pub record Session : Type 0 where
  pub live : Tables
  pub disk : Tables
  pub sent : List (ℕ × Bool)
  pub approved_ids : List ℕ
  pub rejected_ids : List ℕ
  pub processed : ℕ

-- What is given to all items: the name of the inspector, the day, and the first six characters of a
-- key as a text in upper case.
pub record Desk : Type 0 where
  pub hitl_inspector : String
  pub day : ℕ
  pub cert_code : ℕ → String

-- What the assignment of a place meets: the database takes it; an error before anything is written,
-- which is only logged; or an error of the database at the row of the book, after which the session
-- takes no more statements.
pub data Placing : Type 0 where
  placed refused broken : Placing

pub data Failure : Type 0 where
  bad_request session_lost : Failure

pub data Step : Type 0 where
  goes : Session → Step
  fails : Failure → Session → Step

abbrev pub commit : Session → Session
commit s = record s { disk = s.live }

-- A change of the row of a job, seen by the session.
abbrev pub write : ℕ → (ReturnJob → ReturnJob) → Session → Session
write k f s = record s {
  live = record s.live { world = record s.live.world { jobs = set_job k f s.live.world.jobs } };
}

abbrev pub put_store : Store → Session → Session
put_store st s = record s { live = record s.live { world = record s.live.world { store = st } } }

-- A new place is committed on its own.
abbrev lost : String → Assignment → Session → Step
lost grade a s =
    let st = s.live.world.store in
    let item = find_item a.lpn_barcode st.used_items in
    let st' = (get_or_create_location (rack_slot grade (item_book item a.book_id st.books)) st).1 in
    fails session_lost (if st'.next_id == st.next_id then s else commit (put_store st' s))

-- With no grade the row of the book cannot be written.
unfoldable pub place : Placing → Option String → (String → Assignment) → Session → Step
place refused grade a s = goes s
place broken grade a s = lost (or_empty grade) (a (or_empty grade)) s
place placed none a s = lost "" (a "") s
place placed (some g) a s =
    goes (commit (put_store (assign_rack_location_after_inspection (a g) s.live.world.store).1 s))
