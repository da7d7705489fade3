-- ===== src/Layout/Geometry/Applied.antt =====
-- A change of the geometry that returns true, inverted step by step.
use seat_service.Common.{
  ℕ, ◌≡◌, sym, subst, ap, ◌∙◌, Bool, true, false, ◌&&◌, not, List, ◌∷◌, map, all, length, ◌==◌, Has,
  inl, inr, false≢true,
}
use seat_service.Errors.{duplicate_geometry_id, invalid_geometry}
use seat_service.Action.{
  ok, ◌>>=◌, ◌>>◌, and_then, and_then-ok, pure, pure-ok, guard, guarded-ok, require, require-ok,
  if-ok, transaction, transaction-ok,
}
use seat_service.Database.{Section, Table, Seat}
use seat_service.Database.Client.{IsDelegate}
use seat_service.Layout.Geometry.Entries.{
  Entry, ApplyLayoutGeometryInput, LayoutGeometryHistory, Store, Delegates, has_duplicates,
  is_valid, change_entry,
}
use seat_service.Layout.Geometry.{
  set_history, entries_before, is_unmatched, load_records, apply_history_geometry, create_history,
  apply_kept, apply_loaded, is_loaded, apply_changes, apply_valid, apply_some, apply_geometry,
}
use seat_service.Layout.Geometry.Effect.{placed}
use seat_service.Layout.Geometry.Before.{records, placed-back}
use seat_service.Layout.Geometry.History.{
  HasKeys, not-true, unique_changes, stay, new_row, Created, apply_entries-ok, next,
  create_history-ok, next_position-max,
}

module _ (c : Delegates) (accepts_seat : List Seat → Bool) (seats : IsDelegate accepts_seat c.seats)
    (accepts_table : List Table → Bool) (tables : IsDelegate accepts_table c.tables)
    (accepts_section : List Section → Bool) (sections : IsDelegate accepts_section c.sections)
    (accepts_history : List LayoutGeometryHistory → Bool)
    (history : IsDelegate accepts_history c.history) where
  apply_kept-ok :
      (id : ℕ) (input : ApplyLayoutGeometryInput) (actor_id : ℕ) (before : List Entry)
      (s s1 : Store) {u : Unit {0}}
      → placed before (placed (map change_entry input.changes) s.db) ≡ s.db
      → apply_kept c id input actor_id before s ≡ (ok u, s1)
      → Created id input actor_id s s1
  unfolding apply_kept and_then
  apply_kept-ok id input actor_id before s s1 back h =
      let rows =
        c.history.delete_many (λ h. h.event_id == input.event_id && not h.applied) s.history in
      let es = map change_entry input.changes in
      let (u, m, moved, h1) =
        and_then-ok (apply_history_geometry c es (set_history rows s))
          (λ _. create_history c id input.event_id actor_id before es) h in
      let now =
        apply_entries-ok c accepts_seat seats accepts_table tables accepts_section sections
          accepts_history history es (set_history rows s) m moved in
      let made =
        create_history-ok c accepts_seat seats accepts_table tables accepts_section sections
          accepts_history history id input actor_id before m s1 h1 in
      let row = λ (rows : List LayoutGeometryHistory).
        new_row id input actor_id before (next c input.event_id rows) in
      let at_rows = ap (λ (m : Store). set_history (row m.history ∷ m.history) m) now in
      let at_stay =
        ap
          (λ (rows : List LayoutGeometryHistory).
            set_history (row rows ∷ rows) (record s { db = placed es s.db }))
          (history.delete_many_eq (λ h. h.event_id == input.event_id && not h.applied) s.history) in
      (
        before,
        next c input.event_id (stay input.event_id s.history),
        back,
        made ∙ at_rows ∙ at_stay,
        next_position-max c accepts_seat seats accepts_table tables accepts_section sections
            accepts_history history input.event_id (stay input.event_id s.history),
      )

  -- The rows of a table that a load finds are rows of the table.
  apply_loaded-ok :
      (id : ℕ) (input : ApplyLayoutGeometryInput) (actor_id : ℕ) (a : List Seat) (b : List Table)
      (d : List Section) (s s1 : Store) {u : Unit {0}}
      → ((r : Seat) → Has r a → Has r s.db.seats)
      → ((r : Table) → Has r b → Has r s.db.tables)
      → ((r : Section) → Has r d → Has r s.db.sections)
      → HasKeys s.db
      → has_duplicates (map (λ ch. ch.id) input.changes) ≡ false
      → apply_loaded c id input actor_id (records a b d) s ≡ (ok u, s1)
      → Created id input actor_id s s1
  unfolding apply_loaded
  apply_loaded-ok id input actor_id a b d s s1 sa sb sd (us, ut, uc) distinct h =
      let (matches, h1) =
        guarded-ok (not (is_unmatched (records a b d) input.changes)) _
          (require (entries_before (records a b d) input.changes) _
            >>= apply_kept c id input actor_id)
          h in
      let (before, m, got, h2) =
        and_then-ok (require (entries_before (records a b d) input.changes) _ s)
          (apply_kept c id input actor_id) h1 in
      let (before_eq, same) = require-ok (entries_before (records a b d) input.changes) _ got in
      let back =
        placed-back a b d s.db input.changes before sa sb sd us ut uc
          (unique_changes input.changes distinct) (not-true _ matches) before_eq in
      apply_kept-ok id input actor_id before s s1 back
        (subst (λ m. apply_kept c id input actor_id before m ≡ (ok tt, s1)) same h2)

  apply_changes-ok :
      (id : ℕ) (input : ApplyLayoutGeometryInput) (actor_id : ℕ) (s s1 : Store) {u : Unit {0}}
      → HasKeys s.db
      → has_duplicates (map (λ ch. ch.id) input.changes) ≡ false
      → apply_changes c id input actor_id s ≡ (ok u, s1)
      → Created id input actor_id s s1
  unfolding apply_changes load_records and_then
  apply_changes-ok id input actor_id s s1 keys distinct h =
      let ids = map (λ ch. ch.id) input.changes in
      let p = is_loaded input.event_id ids in
      apply_loaded-ok id input actor_id (c.seats.find_many (λ r. p r.id r.event_id) s.db.seats)
        (c.tables.find_many (λ r. p r.id r.event_id) s.db.tables)
        (c.sections.find_many (λ r. p r.id r.event_id) s.db.sections) s s1
        (λ r m. (seats.find_many_Has (λ r. p r.id r.event_id) s.db.seats r m).0)
        (λ r m. (tables.find_many_Has (λ r. p r.id r.event_id) s.db.tables r m).0)
        (λ r m. (sections.find_many_Has (λ r. p r.id r.event_id) s.db.sections r m).0) keys distinct
        h

  pub apply_geometry-Created :
      (id : ℕ) (input : ApplyLayoutGeometryInput) (actor_id : ℕ) (s s1 : Store)
      → HasKeys s.db
      → apply_geometry c id input actor_id s ≡ (ok true, s1)
      → Created id input actor_id s s1
  unfolding apply_geometry apply_some apply_valid
  apply_geometry-Created id input actor_id s s1 keys h =
      elim (if-ok (length input.changes == 0) (pure false) (apply_some c id input actor_id) h) [
        | inl (_, idle) ↦ let (no_change, _) = pure-ok idle in absurd (false≢true (sym no_change))
        | inr (_, run) ↦
            let distinct = not (has_duplicates (map (λ ch. ch.id) input.changes)) in
            let valid = all is_valid input.changes in
            let (d, h1) =
              guarded-ok distinct duplicate_geometry_id
                (guard valid invalid_geometry >> apply_valid c id input actor_id) run in
            let (_, h2) = guarded-ok valid invalid_geometry (apply_valid c id input actor_id) h1 in
            let (u, m, h3, h4) =
              and_then-ok (transaction (apply_changes c id input actor_id) s) (λ _. pure true) h2 in
            let (_, same) = pure-ok h4 in
            subst (Created id input actor_id s) (sym same) (
              apply_changes-ok id input actor_id s m keys (not-true _ d)
                (transaction-ok (apply_changes c id input actor_id) s h3))
      ]
