-- ===== src/Layout/Geometry/Undo.antt =====
-- A change of the geometry, its undo, and the redo of that.
use seat_service.Common.{
  ℕ, ◌<◌, ◌≡◌, refl, sym, subst, ap, ◌∙◌, Bool, true, false, not, some, List, [], ◌∷◌, map, any,
  ◌==◌, ==_self, Has, inl, inr, arith, filter-Has, map_where-Has,
}
use seat_service.Action.{Action, ok, and_then}
use seat_service.Database.{Section, Table, Seat}
use seat_service.Database.Client.{IsDelegate}
use seat_service.Layout.Geometry.Entries.{
  Entry, ApplyLayoutGeometryInput, LayoutGeometryHistory, Store, Delegates, change_entry,
}
use seat_service.Layout.Geometry.{
  apply_geometry, can_undo, can_redo, undo_found, redo_found, undo, redo,
}
use seat_service.Layout.Geometry.Effect.{placed}
use seat_service.Layout.Geometry.History.{HasKeys, stay, new_row}
use seat_service.Layout.Geometry.Replay.{mark, replay-ok, find_last-new, find_first-new}
use seat_service.Layout.Geometry.Applied.{apply_geometry-Created}

module _ (c : Delegates) (accepts_seat : List Seat → Bool) (seats : IsDelegate accepts_seat c.seats)
    (accepts_table : List Table → Bool) (tables : IsDelegate accepts_table c.tables)
    (accepts_section : List Section → Bool) (sections : IsDelegate accepts_section c.sections)
    (accepts_history : List LayoutGeometryHistory → Bool)
    (history : IsDelegate accepts_history c.history) where
  -- The stores after the change, the undo and the redo.
  module _ (by_version : ℕ → Action Store Bool) where
    undo_found-ok :
        (event_id : ℕ) (g : LayoutGeometryHistory) (s s' : Store)
        → c.history.find_last_by (λ h. h.position) (can_undo event_id) s.history ≡ some g
        → undo c by_version event_id s ≡ (ok true, s')
        → s' ≡ record { db = placed g.before s.db; history = mark g.id false s.history }
    unfolding undo undo_found and_then
    undo_found-ok event_id g s s' found h =
        replay-ok c accepts_seat seats accepts_table tables accepts_section sections accepts_history
          history g.before g.id false s s'
          (subst (λ o. undo_found c by_version event_id o s ≡ (ok true, s')) found h)

    redo_found-ok :
        (event_id : ℕ) (g : LayoutGeometryHistory) (s s' : Store)
        → c.history.find_first_by (λ h. h.position) (can_redo event_id) s.history ≡ some g
        → redo c by_version event_id s ≡ (ok true, s')
        → s' ≡ record { db = placed g.after s.db; history = mark g.id true s.history }
    unfolding redo redo_found and_then
    redo_found-ok event_id g s s' found h =
        replay-ok c accepts_seat seats accepts_table tables accepts_section sections accepts_history
          history g.after g.id true s s'
          (subst (λ o. redo_found c by_version event_id o s ≡ (ok true, s')) found h)

    undo-Created :
        (id : ℕ) (input : ApplyLayoutGeometryInput) (actor_id : ℕ) (s s1 s2 : Store)
        (before : List Entry) (position : ℕ)
        → placed before (placed (map change_entry input.changes) s.db) ≡ s.db
        → s1 ≡ record {
          db = placed (map change_entry input.changes) s.db;
          history = new_row id input actor_id before position ∷ stay input.event_id s.history;
        }
        → ((h : LayoutGeometryHistory)
            → Has h (stay input.event_id s.history)
            → h.event_id ≡ input.event_id
            → h.position < position)
        → undo c by_version input.event_id s1 ≡ (ok true, s2)
        → s2 ≡ record {
          db = s.db;
          history =
              mark id false
                (new_row id input actor_id before position ∷ stay input.event_id s.history);
        }
    undo-Created id input actor_id s s1 s2 before position back e below h =
        let row = new_row id input actor_id before position in
        let found =
          find_last-new c accepts_seat seats accepts_table tables accepts_section sections
            accepts_history history input.event_id row (stay input.event_id s.history)
            (rw (==_self input.event_id) refl) below in
        let s1' : Store = record {
          db = placed (map change_entry input.changes) s.db;
          history = row ∷ stay input.event_id s.history;
        } in
        undo_found-ok input.event_id row s1' s2 found
          (subst (λ (s1 : Store). undo c by_version input.event_id s1 ≡ (ok true, s2)) e h)
        ∙ ap
            (λ db. record {
              db = db;
              history = mark id false (row ∷ stay input.event_id s.history);
            })
            back

    no_redo :
        (event_id id : ℕ) (rows : List LayoutGeometryHistory)
        → any (λ h. h.id == id) rows ≡ false
        → (h : LayoutGeometryHistory) → Has h (mark id false (stay event_id rows))
        → can_redo event_id h ≡ false
    no_redo event_id id rows fresh h m =
        let (a, n, e) =
          map_where-Has (λ h. h.id == id) (λ h. record h { applied = false }) (stay event_id rows) h
            m in
        let (there, kept) = filter-Has (λ h. not (can_redo event_id h)) rows a n in
        let other : (a.id == id) ≡ false = any_false id rows a there fresh in
        let same : h ≡ a = e ∙ rw other refl in
        subst (λ (h : LayoutGeometryHistory). can_redo event_id h ≡ false) (sym same)
          (ground (arith, kept))
      where
        any_false :
            (id : ℕ) (rows : List LayoutGeometryHistory) (a : LayoutGeometryHistory)
            → Has a rows
            → any (λ h. h.id == id) rows ≡ false
            → (a.id == id) ≡ false
        any_false id [] a m h = absurd m
        any_false id (r ∷ rows) a (inl e) h =
            subst (λ (r : LayoutGeometryHistory). (r.id == id) ≡ false) (sym e) (ground (arith, h))
        any_false id (r ∷ rows) a (inr m) h = any_false id rows a m (ground (arith, h))

    -- A change of the geometry, its undo and the redo of that: where all three return true, the undo
    -- gives back every table as it was before the change, whatever it placed, and the redo gives them
    -- as the change left them. The ids of seats, tables and sections are unique, and the id of the
    -- new history is new; histories of changes that were undone before do not matter, since the
    -- change deletes them.
    pub redo-undo-apply_geometry :
        (id : ℕ) (input : ApplyLayoutGeometryInput) (actor_id : ℕ) (s s1 s2 s3 : Store)
        → HasKeys s.db
        → any (λ h. h.id == id) s.history ≡ false
        → apply_geometry c id input actor_id s ≡ (ok true, s1)
        → undo c by_version input.event_id s1 ≡ (ok true, s2)
        → redo c by_version input.event_id s2 ≡ (ok true, s3)
        → (s2.db ≡ s.db) × (s3.db ≡ s1.db)
    redo-undo-apply_geometry id input actor_id s s1 s2 s3 keys fresh h1 h2 h3 =
        let (before, position, back, e1, below) =
          apply_geometry-Created c accepts_seat seats accepts_table tables accepts_section sections
            accepts_history history id input actor_id s s1 keys h1 in
        let e2 = undo-Created id input actor_id s s1 s2 before position back e1 below h2 in
        let undone : LayoutGeometryHistory = record (new_row id input actor_id before position) {
          applied = false;
        } in
        let s2' : Store = record {
          db = s.db;
          history = undone ∷ mark id false (stay input.event_id s.history);
        } in
        let e2' : s2 ≡ s2' = e2 ∙ rw (==_self id) refl in
        let found =
          find_first-new c accepts_seat seats accepts_table tables accepts_section sections
            accepts_history history input.event_id undone
            (mark id false (stay input.event_id s.history)) (rw (==_self input.event_id) refl)
            (no_redo input.event_id id s.history fresh) in
        let e3 =
          redo_found-ok input.event_id undone s2' s3 found
            (subst (λ (s2 : Store). redo c by_version input.event_id s2 ≡ (ok true, s3)) e2' h3) in
        (
          ap (λ (s : Store). s.db) e2,
          ap (λ (s : Store). s.db) e3 ∙ sym (ap (λ (s : Store). s.db) e1),
        )
