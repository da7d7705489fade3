-- ===== src/Layout/Geometry/Tests.antt =====
-- A seat with no place, a table and a section of event 7 are placed, taken back and placed again.
use seat_service.Common.{◌≡◌, refl, ℕ, Bool, true, false, none, some, List, [], ◌∷◌}
use seat_service.Meta.{null}
use seat_service.Action.{Action, ok, pure, and_then, commit, each}
use seat_service.Database.{Section, Table, SectionShape, TableShape}
use seat_service.Database.Memory.{
  in_memory, in_memory-IsDelegate, oldest, newest, greatest, accept, accept_count,
}
use seat_service.Seat.Fixtures.{free_row, guest_row, with_seats}
use seat_service.Layout.Geometry.Entries.{
  ApplyLayoutGeometryInput, Store, Delegates, seat, table, section,
}
use seat_service.Layout.Geometry.{
  write_rows, update_kind, apply_history_geometry, load_records, create_history, apply_kept,
  apply_loaded, apply_changes, apply_valid, apply_some, apply_geometry, mark_history, replay, undo,
  redo,
}
use seat_service.Layout.Geometry.Undo.{redo-undo-apply_geometry}

abbrev anything : {Row : Type 0} → List Row → Bool
anything rows = true

abbrev client : Delegates
client = record {
  seats = in_memory anything;
  tables = in_memory anything;
  sections = in_memory anything;
  history = in_memory anything;
}

abbrev section_row : Section
section_row = record {
  id = 70;
  event_id = 7;
  name = "Hall";
  order = 1;
  capacity = none;
  shape = SectionShape.rectangle;
  x = 1;
  y = 2;
  width = none;
  height = some 3;
  rotation = none;
  meta = null;
}

abbrev table_row : Table
table_row = record {
  id = 71;
  event_id = 7;
  section_id = 70;
  name = "T1";
  order = 1;
  capacity = none;
  shape = TableShape.round;
  x = 4;
  y = 5;
  width = none;
  height = none;
  rotation = none;
  meta = null;
}

abbrev store : Store
store = record {
  db = record (with_seats (free_row ∷ guest_row ∷ [])) {
    sections = section_row ∷ [];
    tables = table_row ∷ [];
  };
  history = [];
}

abbrev no_version : ℕ → Action Store Bool
no_version event_id = pure false

abbrev input : ApplyLayoutGeometryInput
input = record {
  event_id = 7;
  changes =
      (record { id = 1; kind = seat; x = 10; y = 11; width = 12; height = 13; rotation = 0 })
      ∷ (record { id = 70; kind = section; x = 20; y = 21; width = 22; height = 23; rotation = 0 })
      ∷ (record { id = 71; kind = table; x = 30; y = 31; width = 32; height = 33; rotation = 0 })
      ∷ [];
}

abbrev applied : Store
applied = (apply_geometry client 100 input 50 store).1

abbrev undone : Store
undone = (undo client no_version 7 applied).1

abbrev redone : Store
redone = (redo client no_version 7 undone).1

apply_geometry_ok : apply_geometry client 100 input 50 store ≡ (ok true, applied)
unfolding in_memory greatest newest accept accept_count write_rows update_kind
    apply_history_geometry load_records create_history apply_kept apply_loaded apply_changes
    apply_valid apply_some apply_geometry and_then commit each
apply_geometry_ok = refl

undo_ok : undo client no_version 7 applied ≡ (ok true, undone)
unfolding in_memory greatest newest accept accept_count write_rows update_kind
    apply_history_geometry load_records create_history apply_kept apply_loaded apply_changes
    apply_valid apply_some apply_geometry and_then commit each mark_history replay undo
undo_ok = refl

redo_ok : redo client no_version 7 undone ≡ (ok true, redone)
unfolding in_memory oldest greatest newest accept accept_count write_rows update_kind
    apply_history_geometry load_records create_history apply_kept apply_loaded apply_changes
    apply_valid apply_some apply_geometry and_then commit each mark_history replay undo redo
redo_ok = refl

redo-undo-apply_geometry_example : (undone.db ≡ store.db) × (redone.db ≡ applied.db)
redo-undo-apply_geometry_example =
    redo-undo-apply_geometry client anything (in_memory-IsDelegate anything) anything
      (in_memory-IsDelegate anything) anything (in_memory-IsDelegate anything) anything
      (in_memory-IsDelegate anything) no_version 100 input 50 store applied undone redone
      (refl, refl, refl) refl apply_geometry_ok undo_ok redo_ok
