-- ===== src/Layout/Geometry/Replay.antt =====
-- The transaction of an undo or a redo, and the histories that they find.
use seat_service.Common.{
  ℕ, ◌<◌, ◌≤◌, ◌≡◌, sym, ap, ◌∙◌, Bool, true, false, some, List, ◌∷◌, ◌==◌, ==→eq, Has, inl, inr,
  arith, Option-cases, map_where, false≢true,
}
use seat_service.Action.{ok, ◌>>◌, and_then-ok, pure, pure-ok, transaction, transaction-ok}
use seat_service.Database.{Section, Table, Seat}
use seat_service.Database.Client.{IsDelegate}
use seat_service.Layout.Geometry.Entries.{Entry, LayoutGeometryHistory, Store, Delegates}
use seat_service.Layout.Geometry.{
  set_history, apply_history_geometry, mark_history, can_undo, can_redo, replay,
}
use seat_service.Layout.Geometry.Effect.{placed}
use seat_service.Layout.Geometry.History.{apply_entries-ok, mark_history-ok}

-- A mark of the histories with an id.
abbrev pub mark : ℕ → Bool → List LayoutGeometryHistory → List LayoutGeometryHistory
mark id applied rows = map_where (λ h. h.id == id) (λ h. record h { applied = applied }) rows

module _ (c : Delegates) (accepts_seat : List Seat → Bool) (seats : IsDelegate accepts_seat c.seats)
    (accepts_table : List Table → Bool) (tables : IsDelegate accepts_table c.tables)
    (accepts_section : List Section → Bool) (sections : IsDelegate accepts_section c.sections)
    (accepts_history : List LayoutGeometryHistory → Bool)
    (history : IsDelegate accepts_history c.history) where
  -- The entries are placed, and the history is marked.
  pub replay-ok :
      (es : List Entry) (id : ℕ) (applied : Bool) (s s' : Store) {b : Bool}
      → replay c es id applied s ≡ (ok b, s')
      → s' ≡ record { db = placed es s.db; history = mark id applied s.history }
  unfolding replay
  replay-ok es id applied s s' h =
      let body = apply_history_geometry c es >> mark_history c id applied in
      let (u, m, h1, h2) = and_then-ok (transaction body s) (λ _. pure true) h in
      let (_, same) = pure-ok h2 in
      let (u', n, h3, h4) =
        and_then-ok (apply_history_geometry c es s) (λ _. mark_history c id applied)
          (transaction-ok body s h1) in
      let moved =
        apply_entries-ok c accepts_seat seats accepts_table tables accepts_section sections
          accepts_history history es s n h3 in
      let marked =
        mark_history-ok c accepts_seat seats accepts_table tables accepts_section sections
          accepts_history history id applied n m h4 in
      same ∙ marked ∙ ap (λ (n : Store). set_history (mark id applied n.history) n) moved

  -- The undo finds the last change.
  pub find_last-new :
      (event_id : ℕ) (new : LayoutGeometryHistory) (rows : List LayoutGeometryHistory)
      → can_undo event_id new ≡ true
      → ((h : LayoutGeometryHistory)
          → Has h rows
          → h.event_id ≡ event_id
          → h.position < new.position)
      → c.history.find_last_by (λ h. h.position) (can_undo event_id) (new ∷ rows) ≡ some new
  find_last-new event_id new rows hit below =
      elim (Option-cases
        (c.history.find_last_by (λ h. h.position) (can_undo event_id) (new ∷ rows))) [
          | inl missed ↦
              let (off, _) =
                history.find_last_by_none (λ h. h.position) (can_undo event_id) (new ∷ rows)
                  missed in
              absurd (false≢true (sym off ∙ hit))
          | inr (g, found) ↦
              let (m, q, (largest, _)) =
                history.find_last_by_some (λ h. h.position) (can_undo event_id) (new ∷ rows) g
                  found in
              found ∙ ap some (is_new g m q (largest hit))
        ]
    where
      is_new :
          (g : LayoutGeometryHistory)
          → Has g (new ∷ rows)
          → can_undo event_id g ≡ true
          → new.position ≤ g.position
          → g ≡ new
      is_new g (inl e) q le = e
      is_new g (inr m) q le =
          absurd (omega (arith, le, below g m (==→eq g.event_id event_id (ground (arith, q)))))

  -- The redo finds the one that was undone.
  pub find_first-new :
      (event_id : ℕ) (new : LayoutGeometryHistory) (rows : List LayoutGeometryHistory)
      → can_redo event_id new ≡ true
      → ((h : LayoutGeometryHistory) → Has h rows → can_redo event_id h ≡ false)
      → c.history.find_first_by (λ h. h.position) (can_redo event_id) (new ∷ rows) ≡ some new
  find_first-new event_id new rows hit none_else =
      elim (Option-cases
        (c.history.find_first_by (λ h. h.position) (can_redo event_id) (new ∷ rows))) [
          | inl missed ↦
              let (off, _) =
                history.find_first_by_none (λ h. h.position) (can_redo event_id) (new ∷ rows)
                  missed in
              absurd (false≢true (sym off ∙ hit))
          | inr (g, found) ↦
              let (m, q, _) =
                history.find_first_by_some (λ h. h.position) (can_redo event_id) (new ∷ rows) g
                  found in
              found ∙ ap some (is_new g m q)
        ]
    where
      is_new :
          (g : LayoutGeometryHistory) → Has g (new ∷ rows) → can_redo event_id g ≡ true → g ≡ new
      is_new g (inl e) q = e
      is_new g (inr m) q = absurd (false≢true (sym (none_else g m) ∙ q))
