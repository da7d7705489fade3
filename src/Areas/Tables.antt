-- ===== src/Areas/Tables.antt =====
-- TableWriteService of src/table/services/table-write.service.ts.
pub mod Bulk
use seat_service.Common.{
  ℕ, suc, ◌+◌, Bool, true, false, not, ◌&&◌, Option, none, some, List, [], ◌∷◌, ◌++◌, String,
  str_eq, any, is_some, ◌==◌, get_or, or_else, length, opt_eq, ◌||◌, if◌then◌else◌,
}
use seat_service.Errors.{Entity, entity_not_found, seating_conflict, write_refused}
use seat_service.Action.{Action, ok, and_then, ◌>>=◌, ◌>>◌, pure, gets, modify, guard, require}
use seat_service.Meta.{Json, Indexing, prepare_meta, is_falsy}
use seat_service.Database.{
  Db, Table, Seat, TableShape, Double, table_create, table_update, table_delete, table_rename,
}
use seat_service.Database.Client.{Delegate}
use seat_service.Database.Cascade.{cascade_of_tables}
use seat_service.Seat.Store.{log_change}
use seat_service.Areas.Sections.{RenamePayload}
use seat_service.Areas.{trim, next_order, conflict_message, find_row, create_row, update_row}

pub record CreateTableInput : Type 0 where
  pub event_id : ℕ
  pub section_id : ℕ
  pub name : String
  pub order : Option ℕ
  pub capacity : Option ℕ
  pub shape : Option TableShape
  pub meta : Json
  pub x : Option Double
  pub y : Option Double
  pub width : Option Double
  pub height : Option Double
  pub rotation : Option Double

pub record UpdateTableInput : Type 0 where
  pub id : ℕ
  pub name : Option String
  pub order : Option ℕ
  pub capacity : Option ℕ
  pub shape : Option TableShape
  pub x : Option Double
  pub y : Option Double
  pub width : Option Double
  pub height : Option Double
  pub rotation : Option Double
  pub meta : Json

pub record RenameTableInput : Type 0 where
  pub table_id : ℕ
  pub new_name : String

pub record TableConflict : Type 0 where
  pub id : ℕ
  pub name : String

pub record RenamedTables : Type 0 where
  pub affected_tables : ℕ
  pub affected_seats : ℕ
  pub conflicts : List TableConflict

pub record TableClient : Type 0 where
  pub tables : Delegate Table
  pub seats : Delegate Seat

abbrev pub tables_of : Db → List Table
tables_of db = db.tables

abbrev pub set_tables : List Table → Db → Db
set_tables rows db = record db { tables = rows }

abbrev pub table_id_of : Table → ℕ
table_id_of r = r.id

-- `data: { name: newName }`
abbrev pub rename_table_row : String → Table → Table
rename_table_row name r = record r { name = name }

-- `where` of the tables of an event with a name, and of the others of a section with a name.
abbrev pub has_table_name : ℕ → String → Table → Bool
has_table_name event_id name r = r.event_id == event_id && str_eq r.name name

abbrev pub is_other_table : Table → String → Table → Bool
is_other_table table name r =
    r.section_id == table.section_id && str_eq r.name name && not (r.id == table.id)

module _ (ix : Indexing) (c : TableClient) where
  abbrev find_table : ℕ → Action Db (Option Table)
  find_table id = find_row tables_of set_tables table_id_of c.tables id

  abbrev update_table_row : ℕ → (Table → Table) → Action Db Table
  update_table_row id change = update_row tables_of set_tables table_id_of c.tables id change

  -- The row of `create`, with the defaults of the schema; the id is the database's.
  abbrev pub new_table : ℕ → CreateTableInput → ℕ → Table
  new_table id input auto_order = record {
    id = id;
    event_id = input.event_id;
    section_id = input.section_id;
    name = input.name;
    order = get_or input.order auto_order;
    capacity = input.capacity;
    shape = get_or input.shape TableShape.round;
    x = get_or input.x 0;
    y = get_or input.y 0;
    width = input.width;
    height = input.height;
    rotation = some (get_or input.rotation 0);
    meta = prepare_meta ix input.meta;
  }

  unfoldable pub create_table : ℕ → CreateTableInput → ℕ → Action Db Table
  create_table id input actor_id = do
    max ←
        gets
          (λ db. c.tables.max_by (λ r. r.order) (λ r. r.section_id == input.section_id) db.tables)
    create_row tables_of set_tables table_id_of c.tables (new_table id input (next_order max))
    log_change input.event_id actor_id table_create
    pure (new_table id input (next_order max))

  -- `data` of `update`: what the input leaves out stays.
  abbrev pub edit_table : UpdateTableInput → Table → Table
  edit_table input r = record r {
    name = get_or input.name r.name;
    order = get_or input.order r.order;
    capacity = or_else input.capacity r.capacity;
    shape = get_or input.shape r.shape;
    x = get_or input.x r.x;
    y = get_or input.y r.y;
    width = or_else input.width r.width;
    height = or_else input.height r.height;
    rotation = or_else input.rotation r.rotation;
    meta = if is_falsy input.meta then r.meta else prepare_meta ix input.meta;
  }

  unfoldable pub update_table : UpdateTableInput → ℕ → Action Db Table
  update_table input actor_id = do
    found ← find_table input.id
    exists ← require found (entity_not_found Entity.table (some input.id))
    updated ← update_table_row input.id (edit_table input)
    log_change exists.event_id actor_id table_update
    pure updated

  -- `delete`, with what the foreign keys take along.
  unfoldable pub delete_table_row : ℕ → Action Db Unit
  delete_table_row id = modify λ db. record (cascade_of_tables (λ r. r.id == id) db) {
    tables = c.tables.delete_many (λ r. r.id == id) db.tables;
  }

  unfoldable pub delete_table : ℕ → ℕ → Action Db Bool
  delete_table table_id actor_id = do
    found ← find_table table_id
    exists ← require found (entity_not_found Entity.table (some table_id))
    delete_table_row table_id
    log_change exists.event_id actor_id table_delete
    pure true

  unfoldable pub rename_found_table : Table → String → ℕ → Action Db RenamePayload
  rename_found_table exists new_name actor_id = do
    updated ← update_table_row exists.id (rename_table_row new_name)
    affected_seats ← gets (λ db.
        c.seats.count_rows
          (λ r. r.event_id == exists.event_id && opt_eq r.table_id (some updated.id)) db.seats)
    log_change exists.event_id actor_id table_rename
    pure (record { success = true; affected_seats = affected_seats })

  unfoldable pub rename_table : RenameTableInput → ℕ → Action Db RenamePayload
  rename_table input actor_id = do
    found ← find_table input.table_id
    exists ← require found (entity_not_found Entity.table (some input.table_id))
    conflict ←
        gets (λ db. c.tables.find_first (has_table_name exists.event_id input.new_name) db.tables)
    guard (not (is_some conflict))
        (seating_conflict Entity.table (conflict_message "Table" input.new_name))
    if str_eq (trim exists.name) (trim input.new_name)
        then pure (record { success = true; affected_seats = 0 })
        else rename_found_table exists input.new_name actor_id

  -- The seats that are included in the table were read with it.
  unfoldable pub rename_free_table :
      Table → ℕ → String → ℕ → RenamedTables → Action Db RenamedTables
  rename_free_table table seats new_name actor_id acc = do
    updated ← update_table_row table.id (rename_table_row new_name)
    log_change table.event_id actor_id table_rename
    pure (record acc {
      affected_tables = acc.affected_tables + 1;
      affected_seats = acc.affected_seats + seats;
    })

  rename_table_unless :
      Option Table → Table → ℕ → String → ℕ → RenamedTables → Action Db RenamedTables
  unfolding rename_free_table
  rename_table_unless none table seats new_name actor_id acc =
      rename_free_table table seats new_name actor_id acc
  rename_table_unless (some other) table seats new_name actor_id acc =
      pure (record acc {
        conflicts = acc.conflicts ++ (record { id = table.id; name = new_name } ∷ []);
      })

  unfoldable pub rename_known_table :
      Table → ℕ → String → ℕ → RenamedTables → Action Db RenamedTables
  unfolding rename_table_unless
  rename_known_table table seats new_name actor_id acc =
      if str_eq (trim table.name) (trim new_name) then pure acc else (do
        name_exists ← gets (λ db. c.tables.find_first (is_other_table table new_name) db.tables)
        rename_table_unless name_exists table seats new_name actor_id acc)

  rename_included_table : Option Table → String → ℕ → RenamedTables → Action Db RenamedTables
  unfolding rename_known_table
  rename_included_table none new_name actor_id acc = pure acc
  rename_included_table (some table) new_name actor_id acc = do
    seats ←
        gets (λ db. length (c.seats.find_many (λ r. opt_eq r.table_id (some table.id)) db.seats))
    rename_known_table table seats new_name actor_id acc

  -- One round of the loop.
  unfoldable pub rename_one_table : RenameTableInput → ℕ → RenamedTables → Action Db RenamedTables
  unfolding rename_included_table
  rename_one_table input actor_id acc = do
    found ← find_table input.table_id
    rename_included_table found input.new_name actor_id acc

  unfoldable pub rename_each_table :
      List RenameTableInput → ℕ → RenamedTables → Action Db RenamedTables
  rename_each_table [] actor_id acc = pure acc
  rename_each_table (input ∷ inputs) actor_id acc = λ db.
      and_then (rename_one_table input actor_id acc db)
        (λ acc. rename_each_table inputs actor_id acc)

  unfoldable pub bulk_rename_tables : List RenameTableInput → ℕ → Action Db RenamedTables
  bulk_rename_tables inputs actor_id =
      rename_each_table inputs actor_id
        (record { affected_tables = 0; affected_seats = 0; conflicts = [] })
