-- ===== src/Areas/Sections/Create.antt =====
-- The order of a new section.
use seat_service.Common.{
  ℕ, suc, ◌<◌, ◌≤◌, ◌≡◌, refl, sym, subst, ap, ◌∙◌, ◌⊎◌, inl, inr, Bool, true, false, Option, none,
  some, List, ◌∷◌, Has, All-Has, ◌==◌, ==_self, ==→eq, Option-cases, false≢true, get_or, arith,
}
use seat_service.Action.{ok, and_then, and_then-ok, pure, pure-ok, ◌>>◌}
use seat_service.Meta.{Indexing}
use seat_service.Database.{Db, Section, section_create}
use seat_service.Database.Client.{IsDelegate}
use seat_service.Seat.Store.{log_change}
use seat_service.Areas.{next_order, create_row}
use seat_service.Areas.Names.Update.{create_row-ok}
use seat_service.Areas.Sections.{
  CreateSectionInput, SectionClient, sections_of, set_sections, section_id_of, new_section,
  create_section,
}

logged-ok :
    (event_id actor_id : ℕ) (new row : Section) (db db' : Db)
    → (log_change event_id actor_id section_create >> pure new) db ≡ (ok row, db')
    → (row ≡ new) × (db'.sections ≡ db.sections)
unfolding log_change and_then
logged-ok event_id actor_id new row db db' h =
    let (same, after) = pure-ok h in (same, ap sections_of after)

-- An order after those of the sections of an event, with no gap.
abbrev pub IsNext : ℕ → List Section → ℕ → Type 0
IsNext event_id rows order =
    ((r : Section) → Has r rows → r.event_id ≡ event_id → r.order < order)
    × ((order ≡ 1) ⊎ ((r : Section) × Has r rows × (r.event_id ≡ event_id) × (order ≡ suc r.order)))

module _ (ix : Indexing) (c : SectionClient) (accepts : List Section → Bool)
    (law : IsDelegate accepts c.sections) where
  next_order-IsNext :
      (event_id : ℕ) (rows : List Section)
      → IsNext event_id rows
          (next_order (c.sections.max_by (λ r. r.order) (λ r. r.event_id == event_id) rows))
  next_order-IsNext event_id rows =
      let is_of = λ (r : Section). r.event_id == event_id in
      elim (Option-cases (c.sections.max_by (λ r. r.order) is_of rows)) [
        | inl missed ↦ rw missed (
          (λ r m e. absurd (
              false≢true (
                sym (
                  All-Has (λ r. is_of r ≡ false) rows r
                    (law.max_by_none (λ r. r.order) is_of rows missed) m)
                ∙ rw e (==_self event_id)))),
          inl refl,
        )
        | inr (n, found) ↦
            let (s, there, hit, last) = law.max_by_Has (λ r. r.order) is_of rows n found in
            rw found (
              (λ r m e.
                  let below =
                    All-Has (λ r. is_of r ≡ true → r.order ≤ n) rows r
                      (law.max_by_some (λ r. r.order) is_of rows n found) m
                      (rw e (==_self event_id)) in
                  omega (arith, below)),
              inr (s, there, ==→eq s.event_id event_id hit, omega (arith, last)),
            )
      ]

  -- `createSection` that returns adds the section that it returns, and no other change to the
  -- sections. Where the input has an order the section has that; else it comes after all sections of
  -- its event, one after the last of them, or at 1 where its order follows none.
  pub create_section-IsNext :
      (id : ℕ) (input : CreateSectionInput) (actor_id : ℕ) (db db' : Db) (row : Section)
      → create_section ix c id input actor_id db ≡ (ok row, db')
      → (db'.sections ≡ row ∷ db.sections)
        × (row.event_id ≡ input.event_id)
        × ((n : ℕ) → input.order ≡ some n → row.order ≡ n)
        × (input.order ≡ none → IsNext input.event_id db.sections row.order)
  unfolding create_section log_change and_then
  create_section-IsNext id input actor_id db db' row h =
      let order =
        next_order
          (c.sections.max_by (λ r. r.order) (λ r. r.event_id == input.event_id) db.sections) in
      let new = new_section ix c id input order in
      let (u, m, made, rest) =
        and_then-ok (create_row sections_of set_sections section_id_of c.sections new db)
          (λ _. log_change input.event_id actor_id section_create >> pure new) h in
      let added =
        create_row-ok sections_of set_sections section_id_of c.sections accepts law new db m made in
      let (same, after) = logged-ok input.event_id actor_id new row m db' rest in
      let placed = ap (λ (r : Section). r.order) same in
      (
        after ∙ ap sections_of added ∙ ap (λ (r : Section). r ∷ db.sections) (sym same),
        ap (λ (r : Section). r.event_id) same,
        (λ n given. placed ∙ ap (λ (o : Option ℕ). get_or o order) given),
        (λ left_out.
            subst (IsNext input.event_id db.sections)
              (sym (placed ∙ ap (λ (o : Option ℕ). get_or o order) left_out))
              (next_order-IsNext input.event_id db.sections)),
      )
