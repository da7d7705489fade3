-- ===== src/Database.antt =====
-- prisma/schema.prisma: the rows of the tables that the services write, and the database as the
-- lists of its rows. Identifiers (UUIDs, never empty) and times are numbers; a double is its bit
-- pattern. The rows of the logs stand newest first.
pub mod Client
pub mod Memory
pub mod Keyed
pub mod Cascade
use seat_service.Common.{ℕ, Option, Bool, List, String}
use seat_service.Meta.{Json}

pub data SeatStatus : Type 0 where
  available reserved assigned blocked : SeatStatus

pub data SeatType : Type 0 where
  standard vip staff standing child reserved : SeatType

pub data SeatShape : Type 0 where
  circle square rectangle : SeatShape

pub data TableShape : Type 0 where
  round rectangle oval row : TableShape

pub data SectionShape : Type 0 where
  rectangle circle polygon : SectionShape

pub data SeatAssignmentAction : Type 0 where
  assigned unassigned moved : SeatAssignmentAction

pub data LayoutChangeType : Type 0 where
  section_create section_update section_delete section_moved section_rename : LayoutChangeType
  section_cloned : LayoutChangeType
  table_create table_update table_delete table_moved table_rename : LayoutChangeType
  table_duplicated : LayoutChangeType
  seat_create seat_update seat_delete seat_assigned seat_unassigned : LayoutChangeType
  seat_moved seat_assign auto_generate_geometry_v4 layout_version_saved : LayoutChangeType

abbrev pub Double : Type 0
Double = ℕ

pub record Section : Type 0 where
  pub id : ℕ
  pub event_id : ℕ
  pub name : String
  pub order : ℕ
  pub capacity : Option ℕ
  pub shape : SectionShape
  pub x : Double
  pub y : Double
  pub width : Option Double
  pub height : Option Double
  pub rotation : Option Double
  pub meta : Json

pub record Table : Type 0 where
  pub id : ℕ
  pub event_id : ℕ
  pub section_id : ℕ
  pub name : String
  pub order : ℕ
  pub capacity : Option ℕ
  pub shape : TableShape
  pub x : Double
  pub y : Double
  pub width : Option Double
  pub height : Option Double
  pub rotation : Option Double
  pub meta : Json

pub record Seat : Type 0 where
  pub id : ℕ
  pub status : SeatStatus
  pub event_id : ℕ
  pub section_id : ℕ
  pub table_id : Option ℕ
  pub number : Option ℕ
  pub label : Option String
  pub note : Option String
  pub seat_type : Option SeatType
  pub shape : SeatShape
  pub x : Option Double
  pub y : Option Double
  pub width : Option Double
  pub height : Option Double
  pub rotation : Option Double
  pub guest_id : Option ℕ
  pub invitation_id : Option ℕ
  pub meta : Json
  pub created_at : ℕ

-- `data.reason` and `data.reservation` of an assignment log.
pub data LogReason : Type 0 where
  plain reassigned guest_confirmation : LogReason

pub record SeatAssignmentLog : Type 0 where
  pub event_id : ℕ
  pub seat_id : ℕ
  pub guest_id : Option ℕ
  pub invitation_id : Option ℕ
  pub action : SeatAssignmentAction
  pub reason : LogReason

pub record LayoutChangeLog : Type 0 where
  pub event_id : ℕ
  pub actor_id : ℕ
  pub type : LayoutChangeType

pub data Topic : Type 0 where
  seat_assigned_v1 seat_unassigned_v1 : Topic

-- A row of the analytics outbox: the columns that are set when a fact is recorded.
pub record Fact : Type 0 where
  pub topic : Topic
  pub aggregate_id : ℕ
  pub subject_id : ℕ
  pub event_id : ℕ
  -- the `reason` property, if there is one
  pub reassigned : Bool
  pub has_invitation : Option Bool

pub record OutboxRow : Type 0 where
  pub tenant_id : ℕ
  pub correlation_id : Option ℕ
  pub actor_id : Option ℕ
  pub fact : Fact

pub record Db : Type 0 where
  pub sections : List Section
  pub tables : List Table
  pub seats : List Seat
  pub assignment_logs : List SeatAssignmentLog
  pub change_logs : List LayoutChangeLog
  pub outbox : List OutboxRow
