-- ===== src/Database/Cascade.antt =====
-- The foreign keys of prisma/schema.prisma: where the rows of a table are deleted, the database deletes
-- the rows that name them (`onDelete: Cascade`).
use seat_service.Common.{ℕ, Bool, ◌&&◌, ◌||◌, not, some, List, any, filter, opt_eq, ◌==◌}
use seat_service.Database.{Db, Section, Table, Seat}

-- An id of one of the sections that pass a test, and a seat at one of the tables that do.
abbrev pub in_section : (Section → Bool) → List Section → ℕ → Bool
in_section p sections id = any (λ s. p s && s.id == id) sections

abbrev pub at_table : (Table → Bool) → List Table → Seat → Bool
at_table p tables r = any (λ u. p u && opt_eq r.table_id (some u.id)) tables

-- What goes with the tables that pass a test, and with the sections.
abbrev pub cascade_of_tables : (Table → Bool) → Db → Db
cascade_of_tables p db = record db { seats = filter (λ r. not (at_table p db.tables r)) db.seats }

abbrev pub cascade_of_sections : (Section → Bool) → Db → Db
cascade_of_sections p db = record db {
  tables = filter (λ u. not (in_section p db.sections u.section_id)) db.tables;
  seats =
      filter
        (λ r. not (
          in_section p db.sections r.section_id
          || at_table (λ u. in_section p db.sections u.section_id) db.tables r))
        db.seats;
}
