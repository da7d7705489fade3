-- ===== src/Areas/Sections.antt =====
-- SectionWriteService of src/section/services/section-write.service.ts.
pub mod Bulk
pub mod Laws
pub mod Create
use seat_service.Common.{
  ℕ, suc, ◌+◌, Bool, true, false, not, ◌&&◌, Option, none, some, List, [], ◌∷◌, ◌++◌, String,
  str_eq, any, is_some, ◌==◌, get_or, or_else, length, opt_eq, ◌||◌, if◌then◌else◌,
}
use seat_service.Errors.{Entity, entity_not_found, seating_conflict, write_refused}
use seat_service.Action.{Action, ok, and_then, ◌>>=◌, ◌>>◌, pure, gets, modify, guard, require}
use seat_service.Meta.{Json, Indexing, prepare_meta, is_falsy}
use seat_service.Database.{
  Db, Section, Table, Seat, SectionShape, Double, section_create, section_update, section_delete,
  section_rename,
}
use seat_service.Database.Client.{Delegate}
use seat_service.Database.Cascade.{cascade_of_sections}
use seat_service.Seat.Store.{log_change}
use seat_service.Areas.{trim, next_order, conflict_message, find_row, create_row, update_row}

pub record CreateSectionInput : Type 0 where
  pub event_id : ℕ
  pub name : String
  pub order : Option ℕ
  pub capacity : Option ℕ
  pub meta : Json
  pub x : Option Double
  pub y : Option Double
  pub width : Option Double
  pub height : Option Double

pub record UpdateSectionInput : Type 0 where
  pub id : ℕ
  pub name : Option String
  pub order : Option ℕ
  pub capacity : Option ℕ
  pub shape : Option SectionShape
  pub x : Option Double
  pub y : Option Double
  pub width : Option Double
  pub height : Option Double
  pub rotation : Option Double
  pub meta : Json

pub record RenameSectionInput : Type 0 where
  pub section_id : ℕ
  pub new_name : String

-- `success` is always true.
pub record RenamePayload : Type 0 where
  pub success : Bool
  pub affected_seats : ℕ

pub record SectionConflict : Type 0 where
  pub id : ℕ
  pub name : String

pub record RenamedSections : Type 0 where
  pub affected_sections : ℕ
  pub affected_seats : ℕ
  pub conflicts : List SectionConflict

pub record SectionClient : Type 0 where
  pub sections : Delegate Section
  pub seats : Delegate Seat

abbrev pub sections_of : Db → List Section
sections_of db = db.sections

abbrev pub set_sections : List Section → Db → Db
set_sections rows db = record db { sections = rows }

abbrev pub section_id_of : Section → ℕ
section_id_of r = r.id

-- `data: { name: newName }`
abbrev pub rename_row : String → Section → Section
rename_row name r = record r { name = name }

-- `where` of the sections of an event with a name, and of those but one.
abbrev pub has_name : ℕ → String → Section → Bool
has_name event_id name r = r.event_id == event_id && str_eq r.name name

abbrev pub is_other : Section → String → Section → Bool
is_other section name r = has_name section.event_id name r && not (r.id == section.id)

module _ (ix : Indexing) (c : SectionClient) where
  abbrev find_section : ℕ → Action Db (Option Section)
  find_section id = find_row sections_of set_sections section_id_of c.sections id

  abbrev update_section_row : ℕ → (Section → Section) → Action Db Section
  update_section_row id change =
      update_row sections_of set_sections section_id_of c.sections id change

  -- The row of `create`, with the defaults of the schema; the id is the database's.
  abbrev pub new_section : ℕ → CreateSectionInput → ℕ → Section
  new_section id input auto_order = record {
    id = id;
    event_id = input.event_id;
    name = input.name;
    order = get_or input.order auto_order;
    capacity = input.capacity;
    shape = SectionShape.rectangle;
    x = get_or input.x 0;
    y = get_or input.y 0;
    width = input.width;
    height = input.height;
    rotation = some 0;
    meta = prepare_meta ix input.meta;
  }

  unfoldable pub create_section : ℕ → CreateSectionInput → ℕ → Action Db Section
  create_section id input actor_id = do
    max ←
        gets
          (λ db. c.sections.max_by (λ r. r.order) (λ r. r.event_id == input.event_id) db.sections)
    create_row sections_of set_sections section_id_of c.sections
        (new_section id input (next_order max))
    log_change input.event_id actor_id section_create
    pure (new_section id input (next_order max))

  -- `data` of `update`: what the input leaves out stays.
  abbrev pub edit_section : UpdateSectionInput → Section → Section
  edit_section input r = record r {
    name = get_or input.name r.name;
    order = get_or input.order r.order;
    capacity = or_else input.capacity r.capacity;
    shape = get_or input.shape r.shape;
    x = get_or input.x r.x;
    y = get_or input.y r.y;
    width = or_else input.width r.width;
    height = or_else input.height r.height;
    rotation = or_else input.rotation r.rotation;
    meta = if is_falsy input.meta then r.meta else prepare_meta ix input.meta;
  }

  unfoldable pub update_section : UpdateSectionInput → ℕ → Action Db Section
  update_section input actor_id = do
    found ← find_section input.id
    exists ← require found (entity_not_found Entity.section (some input.id))
    updated ← update_section_row input.id (edit_section input)
    log_change exists.event_id actor_id section_update
    pure updated

  -- `delete`, with what the foreign keys take along.
  unfoldable pub delete_section_row : ℕ → Action Db Unit
  delete_section_row id = modify λ db. record (cascade_of_sections (λ r. r.id == id) db) {
    sections = c.sections.delete_many (λ r. r.id == id) db.sections;
  }

  unfoldable pub delete_section : ℕ → ℕ → Action Db Bool
  delete_section section_id actor_id = do
    found ← find_section section_id
    exists ← require found (entity_not_found Entity.section (some section_id))
    delete_section_row section_id
    log_change exists.event_id actor_id section_delete
    pure true

  unfoldable pub rename_found_section : Section → String → ℕ → Action Db RenamePayload
  rename_found_section exists new_name actor_id = do
    updated ← update_section_row exists.id (rename_row new_name)
    affected_seats ← gets (λ db.
        c.seats.count_rows (λ r. r.event_id == exists.event_id && r.section_id == updated.id)
          db.seats)
    log_change exists.event_id actor_id section_rename
    pure (record { success = true; affected_seats = affected_seats })

  unfoldable pub rename_section : RenameSectionInput → ℕ → Action Db RenamePayload
  rename_section input actor_id = do
    found ← find_section input.section_id
    exists ← require found (entity_not_found Entity.section (some input.section_id))
    conflict ←
        gets (λ db. c.sections.find_first (has_name exists.event_id input.new_name) db.sections)
    guard (not (is_some conflict))
        (seating_conflict Entity.section (conflict_message "Section" input.new_name))
    if str_eq (trim exists.name) (trim input.new_name)
        then pure (record { success = true; affected_seats = 0 })
        else rename_found_section exists input.new_name actor_id

  -- The seats that are included in the section were read with it.
  unfoldable pub rename_free :
      Section → ℕ → String → ℕ → RenamedSections → Action Db RenamedSections
  rename_free section seats new_name actor_id acc = do
    updated ← update_section_row section.id (rename_row new_name)
    log_change section.event_id actor_id section_rename
    pure (record acc {
      affected_sections = acc.affected_sections + 1;
      affected_seats = acc.affected_seats + seats;
    })

  rename_unless :
      Option Section → Section → ℕ → String → ℕ → RenamedSections → Action Db RenamedSections
  unfolding rename_free
  rename_unless none section seats new_name actor_id acc =
      rename_free section seats new_name actor_id acc
  rename_unless (some other) section seats new_name actor_id acc = pure (record acc {
    conflicts = acc.conflicts ++ (record { id = section.id; name = new_name } ∷ []);
  })

  unfoldable pub rename_known :
      Section → ℕ → String → ℕ → RenamedSections → Action Db RenamedSections
  unfolding rename_unless
  rename_known section seats new_name actor_id acc =
      if str_eq (trim section.name) (trim new_name) then pure acc else (do
        name_exists ← gets (λ db. c.sections.find_first (is_other section new_name) db.sections)
        rename_unless name_exists section seats new_name actor_id acc)

  rename_included : Option Section → String → ℕ → RenamedSections → Action Db RenamedSections
  unfolding rename_known
  rename_included none new_name actor_id acc = pure acc
  rename_included (some section) new_name actor_id acc = do
    seats ← gets (λ db. length (c.seats.find_many (λ r. r.section_id == section.id) db.seats))
    rename_known section seats new_name actor_id acc

  -- One round of the loop.
  unfoldable pub rename_one : RenameSectionInput → ℕ → RenamedSections → Action Db RenamedSections
  unfolding rename_included
  rename_one input actor_id acc = do
    found ← find_section input.section_id
    rename_included found input.new_name actor_id acc

  unfoldable pub rename_each :
      List RenameSectionInput → ℕ → RenamedSections → Action Db RenamedSections
  rename_each [] actor_id acc = pure acc
  rename_each (input ∷ inputs) actor_id acc =
      λ db. and_then (rename_one input actor_id acc db) (λ acc. rename_each inputs actor_id acc)

  unfoldable pub bulk_rename_sections : List RenameSectionInput → ℕ → Action Db RenamedSections
  bulk_rename_sections inputs actor_id =
      rename_each inputs actor_id
        (record { affected_sections = 0; affected_seats = 0; conflicts = [] })
