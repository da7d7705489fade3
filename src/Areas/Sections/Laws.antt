-- ===== src/Areas/Sections/Laws.antt =====
-- The renaming of a section.
use seat_service.Common.{
  ℕ, ◌≡◌, refl, sym, ap, ◌∙◌, Bool, true, false, inl, inr, some, List, String, str_eq, eq_iff, Has,
  All-Has, arith, Option-cases, ◌==◌, ==→eq, ==_self, false≢true,
}
use seat_service.Errors.{Entity, seating_conflict}
use seat_service.Action.{err, and_then}
use seat_service.Meta.{Indexing}
use seat_service.Database.{Db, Section}
use seat_service.Database.Client.{IsDelegate}
use seat_service.Database.Keyed.{is_unique, eq_of_key}
use seat_service.Areas.{conflict_message, find_row}
use seat_service.Areas.Sections.{SectionClient, section_id_of, has_name, rename_section}

str_eq_self : (a : String) → str_eq a a ≡ true
str_eq_self a = ground (arith, eq_iff a a)

module _ (ix : Indexing) (c : SectionClient) (accepts : List Section → Bool)
    (law : IsDelegate accepts c.sections) where
  find-id :
      (db : Db) (section : Section)
      → is_unique section_id_of db.sections ≡ true
      → Has section db.sections
      → c.sections.find_first (λ r. r.id == section.id) db.sections ≡ some section
  find-id db section u m =
      elim (Option-cases (c.sections.find_first (λ r. r.id == section.id) db.sections)) [
        | inl missed ↦
            let off =
              All-Has (λ (r : Section). (r.id == section.id) ≡ false) db.sections section
                (law.find_first_none (λ r. r.id == section.id) db.sections missed) m in
            absurd (false≢true (sym off ∙ ==_self section.id))
        | inr (r, found) ↦
            let (there, hit) = law.find_first_some (λ r. r.id == section.id) db.sections r found in
            found
            ∙ ap some (
                eq_of_key section_id_of db.sections r section u there m (==→eq r.id section.id hit))
      ]

  -- A section keeps its name: where the new name of `renameSection` is the name that the section
  -- has, the search for a conflict finds a section with it, this one if no other, and the rename
  -- throws that the name exists, with nothing changed; it does not return that nothing was to do.
  pub rename_section_self :
      (section : Section) (actor_id : ℕ) (db : Db)
      → is_unique section_id_of db.sections ≡ true
      → Has section db.sections
      → rename_section ix c
          (record { section_id = section.id; new_name = section.name })
          actor_id
          db
        ≡ (err (seating_conflict Entity.section (conflict_message "Section" section.name)), db)
  unfolding rename_section find_row and_then
  rename_section_self section actor_id db u m =
      elim (Option-cases
        (c.sections.find_first (has_name section.event_id section.name) db.sections)) [
          | inl missed ↦
              let off =
                All-Has (λ r. has_name section.event_id section.name r ≡ false) db.sections section
                  (law.find_first_none (has_name section.event_id section.name) db.sections missed)
                  m in
              absurd (
                false≢true (sym off ∙ rw (==_self section.event_id, str_eq_self section.name) refl))
          | inr (other, found) ↦ rw (find-id db section u m, found) refl
        ]
