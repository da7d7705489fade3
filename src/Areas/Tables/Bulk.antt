-- ===== src/Areas/Tables/Bulk.antt =====
-- The renaming of several tables.
use seat_service.Common.{
  ℕ, ◌≡◌, refl, sym, subst, ap, ◌∙◌, Bool, true, false, inl, inr, Option, none, some, List, [], ◌∷◌,
  String, str_eq, eq_iff, All-Has, map_where, ◌==◌, ==→eq, Has, arith, Bool-cases, length, opt_eq,
}
use seat_service.Action.{and_then-view, and_then}
use seat_service.Meta.{Indexing}
use seat_service.Database.{Db, Table}
use seat_service.Database.Client.{IsDelegate}
use seat_service.Database.Keyed.{is_unique, is_unique-map_where}
use seat_service.Seat.Store.{log_change}
use seat_service.Areas.{trim, find_row}
use seat_service.Areas.Names.{NamesUnique, IsFreeName, NamesUnique-rename}
use seat_service.Areas.Names.Update.{and_then-keeps, update_row-state}
use seat_service.Areas.Tables.{
  RenameTableInput, RenamedTables, TableClient, tables_of, set_tables, table_id_of,
  rename_table_row, is_other_table, update_table_row, rename_free_table, rename_table_unless,
  rename_known_table, rename_included_table, rename_one_table, rename_each_table,
  bulk_rename_tables,
}

-- The ids are unique, and the names in each section.
abbrev pub IsNamed : List Table → Type 0
IsNamed rows =
    (is_unique table_id_of rows ≡ true)
    × NamesUnique table_id_of (λ r. r.section_id) (λ r. r.name) rows

module _ (ix : Indexing) (c : TableClient) (accepts : List Table → Bool)
    (law : IsDelegate accepts c.tables) where
  rename_IsNamed :
      (table : Table) (name : String) (rows : List Table)
      → IsNamed rows
      → Has table rows
      → IsFreeName table_id_of (λ r. r.section_id) (λ r. r.name) table name rows
      → IsNamed (map_where (λ r. table_id_of r == table.id) (rename_table_row name) rows)
  rename_IsNamed table name rows (u, distinct) m free = (
    is_unique-map_where table_id_of (λ r. table_id_of r == table.id) (rename_table_row name) rows
          (λ r. refl)
        ∙ u,
    NamesUnique-rename table_id_of (λ r. r.section_id) (λ r. r.name) (rename_table_row name) name
        (λ r. refl) (λ r. refl) (λ r. refl) table rows u m free distinct,
  )

  rename_free_table-IsNamed :
      (table : Table) (seats : ℕ) (name : String) (actor_id : ℕ) (acc : RenamedTables) (db : Db)
      → IsNamed db.tables
      → Has table db.tables
      → IsFreeName table_id_of (λ r. r.section_id) (λ r. r.name) table name db.tables
      → IsNamed (rename_free_table ix c table seats name actor_id acc db).1.tables
  unfolding rename_free_table log_change and_then
  rename_free_table-IsNamed table seats name actor_id acc db named m free =
      let same =
        and_then-view (λ (db : Db). db.tables)
          (update_table_row ix c table.id (rename_table_row name) db) _ (λ a db. refl) in
      elim (update_row-state tables_of set_tables table_id_of c.tables accepts law table.id
        (rename_table_row name) db) [
          | inl idle ↦ subst IsNamed (sym (same ∙ ap (λ (db : Db). db.tables) idle)) named
          | inr moved ↦
              subst IsNamed (sym (same ∙ ap (λ (db : Db). db.tables) moved))
                (rename_IsNamed table name db.tables named m free)
        ]

  is_other_table-free :
      (table : Table) (name : String) (rows : List Table)
      → ((r : Table) → Has r rows → is_other_table table name r ≡ false)
      → IsFreeName table_id_of (λ r. r.section_id) (λ r. r.name) table name rows
  is_other_table-free table name rows none_other r m s n = elim (Bool-cases (r.id == table.id)) [
    | inl same ↦ ==→eq r.id table.id same
    | inr differs ↦ absurd (ground (arith, none_other r m, differs, eq_iff r.name name, s, n))
  ]

  rename_table_unless-IsNamed :
      (o : Option Table) (table : Table) (seats : ℕ) (name : String) (actor_id : ℕ)
      (acc : RenamedTables) (db : Db)
      → IsNamed db.tables
      → Has table db.tables
      → (o ≡ none → IsFreeName table_id_of (λ r. r.section_id) (λ r. r.name) table name db.tables)
      → IsNamed (rename_table_unless ix c o table seats name actor_id acc db).1.tables
  unfolding rename_table_unless
  rename_table_unless-IsNamed none table seats name actor_id acc db named m free =
      rename_free_table-IsNamed table seats name actor_id acc db named m (free refl)
  rename_table_unless-IsNamed (some r) table seats name actor_id acc db named m free = named

  rename_known_table-IsNamed :
      (table : Table) (seats : ℕ) (name : String) (actor_id : ℕ) (acc : RenamedTables) (db : Db)
      → IsNamed db.tables
      → Has table db.tables
      → IsNamed (rename_known_table ix c table seats name actor_id acc db).1.tables
  unfolding rename_known_table and_then
  rename_known_table-IsNamed table seats name actor_id acc db named m =
      elim (Bool-cases (str_eq (trim table.name) (trim name))) [
        | inl same ↦ rw same named
        | inr differs ↦ rw differs (
            rename_table_unless-IsNamed (c.tables.find_first (is_other_table table name) db.tables)
              table seats name actor_id acc db named m
              (λ missed. is_other_table-free table name db.tables (λ r n.
                All-Has (λ r. is_other_table table name r ≡ false) db.tables r
                  (law.find_first_none (is_other_table table name) db.tables missed) n)))
      ]

  rename_included_table-IsNamed :
      (o : Option Table) (name : String) (actor_id : ℕ) (acc : RenamedTables) (db : Db)
      → IsNamed db.tables
      → ((table : Table) → o ≡ some table → Has table db.tables)
      → IsNamed (rename_included_table ix c o name actor_id acc db).1.tables
  unfolding rename_included_table and_then
  rename_included_table-IsNamed none name actor_id acc db named there = named
  rename_included_table-IsNamed (some table) name actor_id acc db named there =
      rename_known_table-IsNamed table
        (length (c.seats.find_many (λ r. opt_eq r.table_id (some table.id)) db.seats)) name actor_id
        acc db named (there table refl)

  rename_one_table-IsNamed :
      (input : RenameTableInput) (actor_id : ℕ) (acc : RenamedTables) (db : Db)
      → IsNamed db.tables
      → IsNamed (rename_one_table ix c input actor_id acc db).1.tables
  unfolding rename_one_table find_row and_then
  rename_one_table-IsNamed input actor_id acc db named =
      rename_included_table-IsNamed (c.tables.find_first (λ r. r.id == input.table_id) db.tables)
        input.new_name actor_id acc db named
        (λ table found. (law.find_first_some (λ r. r.id == input.table_id) db.tables table found).0)

  rename_each_table-IsNamed :
      (inputs : List RenameTableInput) (actor_id : ℕ) (acc : RenamedTables) (db : Db)
      → IsNamed db.tables
      → IsNamed (rename_each_table ix c inputs actor_id acc db).1.tables
  unfolding rename_each_table
  rename_each_table-IsNamed [] actor_id acc db named = named
  rename_each_table-IsNamed (input ∷ inputs) actor_id acc db named =
      and_then-keeps (λ (db : Db). IsNamed db.tables) (rename_one_table ix c input actor_id acc db)
        (λ acc. rename_each_table ix c inputs actor_id acc)
        (rename_one_table-IsNamed input actor_id acc db named)
        (λ acc db named. rename_each_table-IsNamed inputs actor_id acc db named)

  -- Tables whose ids are unique, and whose names are unique in each section, are so after
  -- `bulkRenameTables` too, where it throws too, whatever renames it was given and whichever of
  -- them it made: the code's own checks see to it, with no unique index on the names.
  pub bulk_rename_tables-IsNamed :
      (inputs : List RenameTableInput) (actor_id : ℕ) (db : Db)
      → IsNamed db.tables
      → IsNamed (bulk_rename_tables ix c inputs actor_id db).1.tables
  unfolding bulk_rename_tables
  bulk_rename_tables-IsNamed inputs actor_id db named =
      rename_each_table-IsNamed inputs actor_id
        (record { affected_tables = 0; affected_seats = 0; conflicts = [] }) db named
