-- ===== src/Layout/Geometry.antt =====
-- `applyGeometry`, `undo` and `redo` of src/layout/services/layout-write.service.ts: seats, tables and
-- sections are placed, and the places before and after are kept.
pub mod Entries
pub mod Placed
pub mod Effect
pub mod Before
pub mod History
pub mod Applied
pub mod Replay
pub mod Undo
mod Tests
use seat_service.Common.{
  ℕ, zero, suc, Bool, true, false, not, ◌||◌, ◌&&◌, Option, none, some, List, [], ◌∷◌, ◌++◌, map,
  any, all, count, length, ◌==◌, is_some, if◌then◌else◌,
}
use seat_service.Errors.{
  Error, Entity, duplicate_geometry_id, invalid_geometry, entity_not_found, write_refused,
}
use seat_service.Action.{
  Action, ok, ◌>>=◌, ◌>>◌, pure, throw, gets, modify, require, guard, each, transaction,
}
use seat_service.Database.{Db, Section, Table, Seat}
use seat_service.Database.Client.{Delegate}
use seat_service.Layout.Geometry.Entries.{
  LayoutGeometryKind, seat, table, section, Entry, GeometryChange, ApplyLayoutGeometryInput,
  LayoutGeometryHistory, Store, Delegates, is_valid, has_duplicates, seat_entry, table_entry,
  section_entry, change_entry, put_seat, put_table, put_section, next_position, map_get, is_of_kind,
}

-- A write of rows, which is refused, or names no row, or is made.
unfoldable pub write_rows :
    {Row : Type 0} → (List Row → Store → Store) → Option (List Row × ℕ) → Action Store Unit
write_rows set none = throw write_refused
write_rows set (some (rows, zero)) = throw write_refused
write_rows set (some (rows, suc n)) = λ s. (ok tt, set rows s)

abbrev pub set_seats : List Seat → Store → Store
set_seats rows s = record s { db = record s.db { seats = rows } }

abbrev pub set_tables : List Table → Store → Store
set_tables rows s = record s { db = record s.db { tables = rows } }

abbrev pub set_sections : List Section → Store → Store
set_sections rows s = record s { db = record s.db { sections = rows } }

abbrev pub set_history : List LayoutGeometryHistory → Store → Store
set_history rows s = record s { history = rows }

-- A column that is not nullable refuses `null`.
abbrev pub has_place : Entry → Bool
has_place e = is_some e.x && is_some e.y

-- `records.size !== ids.length` for ids of which no two are equal, or a record of another kind.
abbrev pub is_unmatched : List Entry → List GeometryChange → Bool
is_unmatched records changes =
    not (count (λ ch. is_some (map_get records ch.id)) changes == length changes)
    || any (λ ch. not (is_of_kind ch.kind (map_get records ch.id))) changes

-- `before`; `none` is the throw for a missing record.
abbrev pub entries_before : List Entry → List GeometryChange → Option (List Entry)
entries_before records [] = some []
entries_before records (ch ∷ chs) = add (map_get records ch.id) (entries_before records chs)
  where
    add : Option Entry → Option (List Entry) → Option (List Entry)
    add none es = none
    add (some e) none = none
    add (some e) (some es) = some (record e { id = ch.id; kind = ch.kind } ∷ es)

-- `where: { id: { in: ids }, eventId }`
abbrev pub is_loaded : ℕ → List ℕ → ℕ → ℕ → Bool
is_loaded event_id ids row_id row_event_id = any (λ i. i == row_id) ids && row_event_id == event_id

-- `where` of the histories that an undo finds, and a redo.
abbrev pub can_undo : ℕ → LayoutGeometryHistory → Bool
can_undo event_id h = h.event_id == event_id && h.applied

abbrev pub can_redo : ℕ → LayoutGeometryHistory → Bool
can_redo event_id h = h.event_id == event_id && not h.applied

module _ (c : Delegates) where
  -- `update`, by the kind of the entry.
  unfoldable pub update_kind : LayoutGeometryKind → Entry → Action Store Unit
  unfolding write_rows
  update_kind seat e =
      λ s. write_rows set_seats (c.seats.update_many (λ r. r.id == e.id) (put_seat e) s.db.seats) s
  update_kind table e = do
    guard (has_place e) write_refused
    λ s.
        write_rows set_tables (c.tables.update_many (λ r. r.id == e.id) (put_table e) s.db.tables) s
  update_kind section e = do
    guard (has_place e) write_refused
    λ s.
        write_rows set_sections
          (c.sections.update_many (λ r. r.id == e.id) (put_section e) s.db.sections) s

  unfoldable pub apply_history_geometry : List Entry → Action Store Unit
  apply_history_geometry entries = each (λ e. update_kind e.kind e) entries

  -- The rows of the event with the ids of the changes, as entries of a map by their ids.
  unfoldable pub load_records : ℕ → List ℕ → Action Store (List Entry)
  load_records event_id ids = gets λ s.
      map seat_entry (c.seats.find_many (λ r. is_loaded event_id ids r.id r.event_id) s.db.seats)
      ++ (map table_entry
            (c.tables.find_many (λ r. is_loaded event_id ids r.id r.event_id) s.db.tables)
          ++ map section_entry
              (c.sections.find_many (λ r. is_loaded event_id ids r.id r.event_id) s.db.sections))

  put_history : Option (List LayoutGeometryHistory) → Action Store Unit
  put_history none = throw write_refused
  put_history (some rows) = λ s. (ok tt, set_history rows s)

  -- The new history, after the last of the event; its id is the database's.
  unfoldable pub create_history : ℕ → ℕ → ℕ → List Entry → List Entry → Action Store Unit
  unfolding put_history
  create_history id event_id actor_id before after = do
    last ← gets (λ s. c.history.max_by (λ h. h.position) (λ h. h.event_id == event_id) s.history)
    λ s.
        put_history
          (c.history.create
            (record {
              id = id;
              event_id = event_id;
              actor_id = actor_id;
              position = next_position last;
              before = before;
              after = after;
              applied = true;
            })
            s.history)
          s

  -- The histories that could be redone go.
  abbrev pub delete_undone : ℕ → Action Store Unit
  delete_undone event_id =
      modify λ s. set_history (c.history.delete_many (can_redo event_id) s.history) s

  -- The changes, and the history of what was before.
  unfoldable pub apply_kept : ℕ → ApplyLayoutGeometryInput → ℕ → List Entry → Action Store Unit
  apply_kept id input actor_id before = do
    delete_undone input.event_id
    apply_history_geometry (map change_entry input.changes)
    create_history id input.event_id actor_id before (map change_entry input.changes)

  unfoldable pub apply_loaded : ℕ → ApplyLayoutGeometryInput → ℕ → List Entry → Action Store Unit
  apply_loaded id input actor_id records = do
    guard (not (is_unmatched records input.changes))
        (entity_not_found Entity.section (some input.event_id))
    before ←
        require (entries_before records input.changes)
          (entity_not_found Entity.section (some input.event_id))
    apply_kept id input actor_id before

  -- The body of the transaction.
  unfoldable pub apply_changes : ℕ → ApplyLayoutGeometryInput → ℕ → Action Store Unit
  apply_changes id input actor_id =
      load_records input.event_id (map (λ ch. ch.id) input.changes)
      >>= apply_loaded id input actor_id

  unfoldable pub apply_valid : ℕ → ApplyLayoutGeometryInput → ℕ → Action Store Bool
  apply_valid id input actor_id = transaction (apply_changes id input actor_id) >> pure true

  -- The checks of the input, and the transaction.
  unfoldable pub apply_some : ℕ → ApplyLayoutGeometryInput → ℕ → Action Store Bool
  apply_some id input actor_id = do
    guard (not (has_duplicates (map (λ ch. ch.id) input.changes))) duplicate_geometry_id
    guard (all is_valid input.changes) invalid_geometry
    apply_valid id input actor_id

  unfoldable pub apply_geometry : ℕ → ApplyLayoutGeometryInput → ℕ → Action Store Bool
  apply_geometry id input actor_id =
      if length input.changes == 0 then pure false else apply_some id input actor_id

  -- `update` of a history row.
  unfoldable pub mark_history : ℕ → Bool → Action Store Unit
  unfolding write_rows
  mark_history id applied = λ s.
      write_rows set_history
        (c.history.update_many (λ h. h.id == id) (λ h. record h { applied = applied }) s.history) s

  -- The transaction of an undo (the entries before, not applied) and a redo (those after, applied).
  unfoldable pub replay : List Entry → ℕ → Bool → Action Store Bool
  replay entries id applied = do
    transaction (apply_history_geometry entries >> mark_history id applied)
    pure true

  -- What `undo` and `redo` do where there is no geometry: by the layout versions.
  module _ (by_version : ℕ → Action Store Bool) where
    undo_found : ℕ → Option LayoutGeometryHistory → Action Store Bool
    undo_found event_id none = by_version event_id
    undo_found event_id (some geometry) = replay geometry.before geometry.id false

    unfoldable pub undo : ℕ → Action Store Bool
    unfolding undo_found
    undo event_id = do
      geometry ← gets (λ s. c.history.find_last_by (λ h. h.position) (can_undo event_id) s.history)
      undo_found event_id geometry

    redo_found : ℕ → Option LayoutGeometryHistory → Action Store Bool
    redo_found event_id none = by_version event_id
    redo_found event_id (some geometry) = replay geometry.after geometry.id true

    unfoldable pub redo : ℕ → Action Store Bool
    unfolding redo_found
    redo event_id = do
      geometry ← gets (λ s. c.history.find_first_by (λ h. h.position) (can_redo event_id) s.history)
      redo_found event_id geometry
