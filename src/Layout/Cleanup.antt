-- ===== src/Layout/Cleanup.antt =====
-- `deleteSeats` of src/layout/services/layout-write.service.ts: everything of some events goes, in
-- one transaction, with what the foreign keys of tables and seats take along. Of a layout version only
-- its event is of interest.
pub mod Laws
mod Tests
use seat_service.Common.{ℕ, Bool, List, [], ◌∷◌, any, ◌==◌}
use seat_service.Action.{Action, ◌>>=◌, ◌>>◌, pure, modify, transaction}
use seat_service.Database.{Db, Section, Table, Seat, SeatAssignmentLog, LayoutChangeLog}
use seat_service.Database.Client.{Delegate}
use seat_service.Database.Cascade.{cascade_of_tables, cascade_of_sections}

pub record LayoutVersion : Type 0 where
  pub event_id : ℕ
  pub version : ℕ

pub record Store : Type 0 where
  pub db : Db
  pub versions : List LayoutVersion

pub record Delegates : Type 0 where
  pub logs : Delegate SeatAssignmentLog
  pub seats : Delegate Seat
  pub tables : Delegate Table
  pub sections : Delegate Section
  pub changes : Delegate LayoutChangeLog
  pub versions : Delegate LayoutVersion

-- `eventId: { in: eventIds }`
abbrev pub is_in : List ℕ → ℕ → Bool
is_in event_ids id = any (λ i. i == id) event_ids

module _ (c : Delegates) where
  abbrev pub delete_logs : List ℕ → Action Store Unit
  delete_logs ids = modify λ s. record s {
    db = record s.db {
      assignment_logs = c.logs.delete_many (λ r. is_in ids r.event_id) s.db.assignment_logs;
    };
  }

  abbrev pub delete_seat_rows : List ℕ → Action Store Unit
  delete_seat_rows ids = modify λ s. record s {
    db = record s.db { seats = c.seats.delete_many (λ r. is_in ids r.event_id) s.db.seats };
  }

  abbrev pub delete_tables : List ℕ → Action Store Unit
  delete_tables ids = modify λ s. record s {
    db = record (cascade_of_tables (λ r. is_in ids r.event_id) s.db) {
      tables = c.tables.delete_many (λ r. is_in ids r.event_id) s.db.tables;
    };
  }

  abbrev pub delete_sections : List ℕ → Action Store Unit
  delete_sections ids = modify λ s. record s {
    db = record (cascade_of_sections (λ r. is_in ids r.event_id) s.db) {
      sections = c.sections.delete_many (λ r. is_in ids r.event_id) s.db.sections;
    };
  }

  abbrev pub delete_changes : List ℕ → Action Store Unit
  delete_changes ids = modify λ s. record s {
    db = record s.db {
      change_logs = c.changes.delete_many (λ r. is_in ids r.event_id) s.db.change_logs;
    };
  }

  abbrev pub delete_versions : List ℕ → Action Store Unit
  delete_versions ids =
      modify
        λ s. record s { versions = c.versions.delete_many (λ r. is_in ids r.event_id) s.versions }

  -- The body of the transaction.
  unfoldable pub delete_all : List ℕ → Action Store Unit
  delete_all event_ids = do
    delete_logs event_ids
    delete_seat_rows event_ids
    delete_tables event_ids
    delete_sections event_ids
    delete_changes event_ids
    delete_versions event_ids

  unfoldable pub delete_seats : List ℕ → Action Store Unit
  delete_seats [] = pure tt
  delete_seats (id ∷ ids) = transaction (delete_all (id ∷ ids))
