-- ===== src/Layout/Geometry/Effect.antt =====
-- What the updates of places do to the tables, where they return.
use seat_service.Common.{
  ℕ, zero, suc, ◌≡◌, refl, sym, ap, ◌∙◌, Bool, Option, none, some, List, [], ◌∷◌, ◌==◌,
}
use seat_service.Action.{ok, and_then-ok, pure-ok, guarded-ok, each}
use seat_service.Database.{Db, Section, Table, Seat}
use seat_service.Database.Client.{IsDelegate}
use seat_service.Layout.Geometry.Entries.{
  LayoutGeometryKind, seat, table, section, Entry, Store, Delegates, same_kind, put_seat, put_table,
  put_section,
}
use seat_service.Layout.Geometry.{
  write_rows, set_seats, set_tables, set_sections, has_place, update_kind, apply_history_geometry,
}
use seat_service.Layout.Geometry.Placed.{place_all}

abbrev pub is_seat : Entry → Bool
is_seat e = same_kind e.kind seat

abbrev pub is_table : Entry → Bool
is_table e = same_kind e.kind table

abbrev pub is_section : Entry → Bool
is_section e = same_kind e.kind section

-- The tables after entries.
abbrev pub placed : List Entry → Db → Db
placed es db = record db {
  seats = place_all (λ r. r.id) is_seat put_seat (λ e r. refl) es db.seats;
  tables = place_all (λ r. r.id) is_table put_table (λ e r. refl) es db.tables;
  sections = place_all (λ r. r.id) is_section put_section (λ e r. refl) es db.sections;
}

pub write_rows-ok :
    {Row : Type 0} (set : List Row → Store → Store) (o : Option (List Row × ℕ)) (s s' : Store)
    {u : Unit {0}}
    → write_rows set o s ≡ (ok u, s')
    → (rows : List Row) × (n : ℕ) × (o ≡ some (rows, n)) × (s' ≡ set rows s)
unfolding write_rows
write_rows-ok set none s s' h = cc
write_rows-ok set (some (rows, zero)) s s' h = cc
write_rows-ok set (some (rows, suc n)) s s' h = (rows, suc n, refl, sym (ap (λ x. x.1) h))

module _ (c : Delegates) (accepts_seat : List Seat → Bool) (seats : IsDelegate accepts_seat c.seats)
    (accepts_table : List Table → Bool) (tables : IsDelegate accepts_table c.tables)
    (accepts_section : List Section → Bool) (sections : IsDelegate accepts_section c.sections) where
  update_kind-ok :
      (k : LayoutGeometryKind) (e : Entry) (s s' : Store) {u : Unit {0}}
      → update_kind c k e s ≡ (ok u, s')
      → s' ≡ record s { db = placed (record e { kind = k } ∷ []) s.db }
  unfolding update_kind
  update_kind-ok seat e s s' h =
      let (rows, n, found, e') = write_rows-ok set_seats _ s s' h in
      let (same, _) =
        seats.update_many_some (λ r. r.id == e.id) (put_seat e) s.db.seats rows n found in
      e' ∙ ap (λ r. set_seats r s) same
  update_kind-ok table e s s' h =
      let (_, run) = guarded-ok (has_place e) _ _ h in
      let (rows, n, found, e') = write_rows-ok set_tables _ s s' run in
      let (same, _) =
        tables.update_many_some (λ r. r.id == e.id) (put_table e) s.db.tables rows n found in
      e' ∙ ap (λ r. set_tables r s) same
  update_kind-ok section e s s' h =
      let (_, run) = guarded-ok (has_place e) _ _ h in
      let (rows, n, found, e') = write_rows-ok set_sections _ s s' run in
      let (same, _) =
        sections.update_many_some (λ r. r.id == e.id) (put_section e) s.db.sections rows n found in
      e' ∙ ap (λ r. set_sections r s) same

  pub apply_history_geometry-ok :
      (es : List Entry) (s s' : Store) {u : Unit {0}}
      → apply_history_geometry c es s ≡ (ok u, s')
      → s' ≡ record s { db = placed es s.db }
  unfolding apply_history_geometry each
  apply_history_geometry-ok [] s s' h = let (_, same) = pure-ok h in same
  apply_history_geometry-ok (e ∷ es) s s' h =
      let (_, s1, first, rest) = and_then-ok (update_kind c e.kind e s) _ h in
      let now = update_kind-ok e.kind e s s1 first in
      let later = apply_history_geometry-ok es s1 s' rest in
      later ∙ ap (λ (x : Store). record x { db = placed es x.db }) now
