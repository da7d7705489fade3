-- ===== src/Areas/Sections/Bulk.antt =====
-- The renaming of several sections.
use seat_service.Common.{
  ℕ, ◌≡◌, refl, sym, subst, ap, ◌∙◌, Bool, true, false, inl, inr, Option, none, some, List, [], ◌∷◌,
  String, str_eq, eq_iff, All-Has, map_where, ◌==◌, ==→eq, Has, arith, Bool-cases, length,
}
use seat_service.Action.{and_then-view, and_then}
use seat_service.Meta.{Indexing}
use seat_service.Database.{Db, Section}
use seat_service.Database.Client.{IsDelegate}
use seat_service.Database.Keyed.{is_unique, is_unique-map_where}
use seat_service.Seat.Store.{log_change}
use seat_service.Areas.{trim, find_row}
use seat_service.Areas.Names.{NamesUnique, IsFreeName, NamesUnique-rename}
use seat_service.Areas.Names.Update.{and_then-keeps, update_row-state}
use seat_service.Areas.Sections.{
  RenameSectionInput, RenamedSections, SectionClient, sections_of, set_sections, section_id_of,
  rename_row, is_other, update_section_row, rename_free, rename_unless, rename_known,
  rename_included, rename_one, rename_each, bulk_rename_sections,
}

-- The ids are unique, and the names in each event.
abbrev pub IsNamed : List Section → Type 0
IsNamed rows =
    (is_unique section_id_of rows ≡ true)
    × NamesUnique section_id_of (λ r. r.event_id) (λ r. r.name) rows

module _ (ix : Indexing) (c : SectionClient) (accepts : List Section → Bool)
    (law : IsDelegate accepts c.sections) where
  rename_IsNamed :
      (section : Section) (name : String) (rows : List Section)
      → IsNamed rows
      → Has section rows
      → IsFreeName section_id_of (λ r. r.event_id) (λ r. r.name) section name rows
      → IsNamed (map_where (λ r. section_id_of r == section.id) (rename_row name) rows)
  rename_IsNamed section name rows (u, distinct) m free = (
    is_unique-map_where section_id_of (λ r. section_id_of r == section.id) (rename_row name) rows
          (λ r. refl)
        ∙ u,
    NamesUnique-rename section_id_of (λ r. r.event_id) (λ r. r.name) (rename_row name) name
        (λ r. refl) (λ r. refl) (λ r. refl) section rows u m free distinct,
  )

  rename_free-IsNamed :
      (section : Section) (seats : ℕ) (name : String) (actor_id : ℕ) (acc : RenamedSections)
      (db : Db)
      → IsNamed db.sections
      → Has section db.sections
      → IsFreeName section_id_of (λ r. r.event_id) (λ r. r.name) section name db.sections
      → IsNamed (rename_free ix c section seats name actor_id acc db).1.sections
  unfolding rename_free log_change and_then
  rename_free-IsNamed section seats name actor_id acc db named m free =
      let same =
        and_then-view (λ (db : Db). db.sections)
          (update_section_row ix c section.id (rename_row name) db) _ (λ a db. refl) in
      elim (update_row-state sections_of set_sections section_id_of c.sections accepts law
        section.id (rename_row name) db) [
          | inl idle ↦ subst IsNamed (sym (same ∙ ap (λ (db : Db). db.sections) idle)) named
          | inr moved ↦
              subst IsNamed (sym (same ∙ ap (λ (db : Db). db.sections) moved))
                (rename_IsNamed section name db.sections named m free)
        ]

  is_other-free :
      (section : Section) (name : String) (rows : List Section)
      → ((r : Section) → Has r rows → is_other section name r ≡ false)
      → IsFreeName section_id_of (λ r. r.event_id) (λ r. r.name) section name rows
  is_other-free section name rows none_other r m s n = elim (Bool-cases (r.id == section.id)) [
    | inl same ↦ ==→eq r.id section.id same
    | inr differs ↦ absurd (ground (arith, none_other r m, differs, eq_iff r.name name, s, n))
  ]

  rename_unless-IsNamed :
      (o : Option Section) (section : Section) (seats : ℕ) (name : String) (actor_id : ℕ)
      (acc : RenamedSections) (db : Db)
      → IsNamed db.sections
      → Has section db.sections
      → (o ≡ none
          → IsFreeName section_id_of (λ r. r.event_id) (λ r. r.name) section name db.sections)
      → IsNamed (rename_unless ix c o section seats name actor_id acc db).1.sections
  unfolding rename_unless
  rename_unless-IsNamed none section seats name actor_id acc db named m free =
      rename_free-IsNamed section seats name actor_id acc db named m (free refl)
  rename_unless-IsNamed (some r) section seats name actor_id acc db named m free = named

  rename_known-IsNamed :
      (section : Section) (seats : ℕ) (name : String) (actor_id : ℕ) (acc : RenamedSections)
      (db : Db)
      → IsNamed db.sections
      → Has section db.sections
      → IsNamed (rename_known ix c section seats name actor_id acc db).1.sections
  unfolding rename_known and_then
  rename_known-IsNamed section seats name actor_id acc db named m =
      elim (Bool-cases (str_eq (trim section.name) (trim name))) [
        | inl same ↦ rw same named
        | inr differs ↦ rw differs (
            rename_unless-IsNamed (c.sections.find_first (is_other section name) db.sections)
              section seats name actor_id acc db named m
              (λ missed. is_other-free section name db.sections (λ r n.
                All-Has (λ r. is_other section name r ≡ false) db.sections r
                  (law.find_first_none (is_other section name) db.sections missed) n)))
      ]

  rename_included-IsNamed :
      (o : Option Section) (name : String) (actor_id : ℕ) (acc : RenamedSections) (db : Db)
      → IsNamed db.sections
      → ((section : Section) → o ≡ some section → Has section db.sections)
      → IsNamed (rename_included ix c o name actor_id acc db).1.sections
  unfolding rename_included and_then
  rename_included-IsNamed none name actor_id acc db named there = named
  rename_included-IsNamed (some section) name actor_id acc db named there =
      rename_known-IsNamed section
        (length (c.seats.find_many (λ r. r.section_id == section.id) db.seats)) name actor_id acc db
        named (there section refl)

  rename_one-IsNamed :
      (input : RenameSectionInput) (actor_id : ℕ) (acc : RenamedSections) (db : Db)
      → IsNamed db.sections
      → IsNamed (rename_one ix c input actor_id acc db).1.sections
  unfolding rename_one find_row and_then
  rename_one-IsNamed input actor_id acc db named =
      rename_included-IsNamed (c.sections.find_first (λ r. r.id == input.section_id) db.sections)
        input.new_name actor_id acc db named
        (λ section found.
          (law.find_first_some (λ r. r.id == input.section_id) db.sections section found).0)

  rename_each-IsNamed :
      (inputs : List RenameSectionInput) (actor_id : ℕ) (acc : RenamedSections) (db : Db)
      → IsNamed db.sections
      → IsNamed (rename_each ix c inputs actor_id acc db).1.sections
  unfolding rename_each
  rename_each-IsNamed [] actor_id acc db named = named
  rename_each-IsNamed (input ∷ inputs) actor_id acc db named =
      and_then-keeps (λ (db : Db). IsNamed db.sections) (rename_one ix c input actor_id acc db)
        (λ acc. rename_each ix c inputs actor_id acc)
        (rename_one-IsNamed input actor_id acc db named)
        (λ acc db named. rename_each-IsNamed inputs actor_id acc db named)

  -- Sections whose ids are unique, and whose names are unique in each event, are so after
  -- `bulkRenameSections` too, where it throws too, whatever renames it was given and whichever of
  -- them it made: the code's own checks see to it, with no unique index on the names.
  pub bulk_rename_sections-IsNamed :
      (inputs : List RenameSectionInput) (actor_id : ℕ) (db : Db)
      → IsNamed db.sections
      → IsNamed (bulk_rename_sections ix c inputs actor_id db).1.sections
  unfolding bulk_rename_sections
  bulk_rename_sections-IsNamed inputs actor_id db named =
      rename_each-IsNamed inputs actor_id
        (record { affected_sections = 0; affected_seats = 0; conflicts = [] }) db named
