-- ===== src/Areas/Tests.antt =====
-- Two sections of event 7 and two tables of one of them are renamed, and a section is created.
use seat_service.Common.{
  ◌≡◌, refl, sym, ap, ◌∙◌, inl, inr, ℕ, Bool, true, false, none, some, List, [], ◌∷◌, String,
  str_eq, eq_iff, arith,
}
use seat_service.Errors.{Entity, seating_conflict}
use seat_service.Action.{ok, err, and_then}
use seat_service.Meta.{Indexing, null}
use seat_service.Database.{Db, Section, Table, SectionShape, TableShape}
use seat_service.Database.Memory.{in_memory, in_memory-IsDelegate}
use seat_service.Seat.Store.{log_change}
use seat_service.Seat.Fixtures.{free_row, with_seats}
use seat_service.Areas.{conflict_message, create_row}
use seat_service.Areas.Names.{NamesUnique}
use seat_service.Areas.Sections.{
  SectionClient, rename_section, bulk_rename_sections, CreateSectionInput, create_section,
  new_section,
}
use seat_service.Areas.Sections.Bulk.{IsNamed, bulk_rename_sections-IsNamed}
use seat_service.Areas.Sections.Laws.{rename_section_self}
use seat_service.Areas.Sections.Create.{IsNext, create_section-IsNext}
use seat_service.Areas.Tables.{TableClient, bulk_rename_tables}
use seat_service.Areas.Tables.Bulk as TablesBulk

abbrev anything : {Row : Type 0} → List Row → Bool
anything rows = true

abbrev indexing : Indexing
indexing = record { index_name = λ n. "0"; code_units = λ s. s ∷ [] }

abbrev client : SectionClient
client = record { sections = in_memory anything; seats = in_memory anything }

abbrev table_client : TableClient
table_client = record { tables = in_memory anything; seats = in_memory anything }

abbrev section_row : ℕ → String → Section
section_row id name = record {
  id = id;
  event_id = 7;
  name = name;
  order = 1;
  capacity = none;
  shape = SectionShape.rectangle;
  x = 0;
  y = 0;
  width = none;
  height = none;
  rotation = some 0;
  meta = null;
}

abbrev table_row : ℕ → String → Table
table_row id name = record {
  id = id;
  event_id = 7;
  section_id = 70;
  name = name;
  order = 1;
  capacity = none;
  shape = TableShape.round;
  x = 0;
  y = 0;
  width = none;
  height = none;
  rotation = some 0;
  meta = null;
}

abbrev hall : Section
hall = section_row 70 "Hall"

abbrev bar : Section
bar = section_row 75 "Bar"

abbrev table_one : Table
table_one = table_row 71 "One"

abbrev table_two : Table
table_two = table_row 72 "Two"

abbrev db : Db
db = record (with_seats (record free_row { table_id = some 71 } ∷ [])) {
  sections = hall ∷ bar ∷ [];
  tables = table_one ∷ table_two ∷ [];
}

module _ {Row : Type 0} (key scope : Row → ℕ) (name : Row → String) where
  NamesUnique-two :
      (a b : Row) → (str_eq (name a) (name b) ≡ false) → NamesUnique key scope name (a ∷ b ∷ [])
  NamesUnique-two a b differs x y (inl p) (inl q) s e = ap key (p ∙ sym q)
  NamesUnique-two a b differs x y (inl p) (inr (inl q)) s e =
      absurd (apart (sym (ap name p) ∙ e ∙ ap name q))
    where
      apart : name a ≡ name b → ⊥
      apart e = absurd (ground (arith, eq_iff (name a) (name b), differs, e))
  NamesUnique-two a b differs x y (inr (inl p)) (inl q) s e =
      absurd (apart (sym (ap name q) ∙ sym e ∙ ap name p))
    where
      apart : name a ≡ name b → ⊥
      apart e = absurd (ground (arith, eq_iff (name a) (name b), differs, e))
  NamesUnique-two a b differs x y (inr (inl p)) (inr (inl q)) s e = ap key (p ∙ sym q)
  NamesUnique-two a b differs x y (inr (inr m)) n s e = absurd m
  NamesUnique-two a b differs x y m (inr (inr n)) s e = absurd n

bulk_rename_sections-IsNamed_example :
    IsNamed
      (bulk_rename_sections indexing client
        ((record { section_id = 70; new_name = "Bar" })
          ∷ (record { section_id = 75; new_name = "Garden" })
          ∷ (record { section_id = 70; new_name = "Bar" })
          ∷ [])
        50
        db).1.sections
bulk_rename_sections-IsNamed_example =
    bulk_rename_sections-IsNamed indexing client anything (in_memory-IsDelegate anything)
      ((record { section_id = 70; new_name = "Bar" })
        ∷ (record { section_id = 75; new_name = "Garden" })
        ∷ (record { section_id = 70; new_name = "Bar" })
        ∷ [])
      50 db (refl, NamesUnique-two (λ r. r.id) (λ r. r.event_id) (λ r. r.name) hall bar refl)

bulk_rename_tables-IsNamed_example :
    TablesBulk.IsNamed
      (bulk_rename_tables indexing table_client
        ((record { table_id = 71; new_name = "Two" })
          ∷ (record { table_id = 72; new_name = "Three" })
          ∷ [])
        50
        db).1.tables
bulk_rename_tables-IsNamed_example =
    TablesBulk.bulk_rename_tables-IsNamed indexing table_client anything
      (in_memory-IsDelegate anything)
      ((record { table_id = 71; new_name = "Two" })
        ∷ (record { table_id = 72; new_name = "Three" })
        ∷ [])
      50 db
      (refl, NamesUnique-two (λ r. r.id) (λ r. r.section_id) (λ r. r.name) table_one table_two refl)

rename_section_self_example :
    rename_section indexing client (record { section_id = 70; new_name = "Hall" }) 50 db
    ≡ (err (seating_conflict Entity.section (conflict_message "Section" "Hall")), db)
rename_section_self_example =
    rename_section_self indexing client anything (in_memory-IsDelegate anything) hall 50 db refl
      (inl refl)

abbrev bare_input : CreateSectionInput
bare_input = record {
  event_id = 7;
  name = "Garden";
  order = none;
  capacity = none;
  meta = null;
  x = none;
  y = none;
  width = none;
  height = none;
}

abbrev garden : Section
garden = new_section indexing client 80 bare_input 2

abbrev created_db : Db
created_db = (create_section indexing client 80 bare_input 50 db).1

creates : create_section indexing client 80 bare_input 50 db ≡ (ok garden, created_db)
unfolding create_section create_row in_memory log_change and_then
creates = refl

create_section-IsNext_example :
    (created_db.sections ≡ garden ∷ db.sections)
    × (garden.event_id ≡ 7)
    × ((n : ℕ) → bare_input.order ≡ some n → garden.order ≡ n)
    × (bare_input.order ≡ none → IsNext 7 db.sections 2)
create_section-IsNext_example =
    create_section-IsNext indexing client anything (in_memory-IsDelegate anything) 80 bare_input 50
      db created_db garden creates
