-- ===== src/Layout/Geometry/History.antt =====
-- What a change of the geometry does to the tables and to the histories.
use seat_service.Common.{
  ℕ, ◌<◌, ◌≤◌, ◌≡◌, refl, sym, subst, ap, ◌∙◌, Bool, true, false, ◌&&◌, not, ◌||◌, Option, none,
  some, List, [], ◌∷◌, map, any, ◌==◌, ==_self, Has, All-Has, filter, inl, inr, arith, Option-cases,
  map_where, false≢true,
}
use seat_service.Action.{ok, and_then}
use seat_service.Database.{Db, Section, Table, Seat}
use seat_service.Database.Client.{IsDelegate}
use seat_service.Database.Keyed.{is_unique}
use seat_service.Layout.Geometry.Entries.{
  Entry, GeometryChange, ApplyLayoutGeometryInput, LayoutGeometryHistory, Store, Delegates,
  has_duplicates, change_entry, next_position,
}
use seat_service.Layout.Geometry.{
  set_history, apply_history_geometry, put_history, create_history, mark_history,
}
use seat_service.Layout.Geometry.Effect.{placed, write_rows-ok, apply_history_geometry-ok}

unique-any :
    (k : ℕ) (chs : List GeometryChange)
    → any (λ e. e.id == k) (map change_entry chs) ≡ any (λ i. i == k) (map (λ ch. ch.id) chs)
unique-any k [] = refl
unique-any k (ch ∷ chs) = ap (λ b. ch.id == k || b) (unique-any k chs)

pub unique_changes :
    (chs : List GeometryChange)
    → has_duplicates (map (λ ch. ch.id) chs) ≡ false
    → is_unique (λ e. e.id) (map change_entry chs) ≡ true
unique_changes [] h = refl
unique_changes (ch ∷ chs) h = ground (arith, unique-any ch.id chs, h, unique_changes chs)

-- No two rows of a table have the same id.
abbrev pub HasKeys : Db → Type 0
HasKeys db =
    (is_unique (λ r. r.id) db.seats ≡ true)
    × (is_unique (λ r. r.id) db.tables ≡ true)
    × (is_unique (λ r. r.id) db.sections ≡ true)

pub not-true : (b : Bool) → not b ≡ true → b ≡ false
not-true true h = cc
not-true false h = refl

-- The histories that stay, and the new one.
abbrev pub stay : ℕ → List LayoutGeometryHistory → List LayoutGeometryHistory
stay event_id rows = filter (λ h. not (h.event_id == event_id && not h.applied)) rows

abbrev pub new_row : ℕ → ApplyLayoutGeometryInput → ℕ → List Entry → ℕ → LayoutGeometryHistory
new_row id input actor_id before position = record {
  id = id;
  event_id = input.event_id;
  actor_id = actor_id;
  position = position;
  before = before;
  after = map change_entry input.changes;
  applied = true;
}

abbrev pub Created : ℕ → ApplyLayoutGeometryInput → ℕ → Store → Store → Type 0
Created id input actor_id s s1 =
    (before : List Entry) × (position : ℕ) × (placed before
        (placed (map change_entry input.changes) s.db)
      ≡ s.db)
    × (s1 ≡ record {
      db = placed (map change_entry input.changes) s.db;
      history = new_row id input actor_id before position ∷ stay input.event_id s.history;
    })
    × ((h : LayoutGeometryHistory)
        → Has h (stay input.event_id s.history)
        → h.event_id ≡ input.event_id
        → h.position < position)

abbrev pub next : Delegates → ℕ → List LayoutGeometryHistory → ℕ
next c event_id rows =
    next_position (c.history.max_by (λ h. h.position) (λ h. h.event_id == event_id) rows)

module _ (c : Delegates) (accepts_seat : List Seat → Bool) (seats : IsDelegate accepts_seat c.seats)
    (accepts_table : List Table → Bool) (tables : IsDelegate accepts_table c.tables)
    (accepts_section : List Section → Bool) (sections : IsDelegate accepts_section c.sections)
    (accepts_history : List LayoutGeometryHistory → Bool)
    (history : IsDelegate accepts_history c.history) where
  pub apply_entries-ok :
      (es : List Entry) (s s' : Store) {u : Unit {0}}
      → apply_history_geometry c es s ≡ (ok u, s')
      → s' ≡ record s { db = placed es s.db }
  apply_entries-ok es s s' h =
      apply_history_geometry-ok c accepts_seat seats accepts_table tables accepts_section sections
        es s s' h

  pub mark_history-ok :
      (id : ℕ) (b : Bool) (s s' : Store) {u : Unit {0}}
      → mark_history c id b s ≡ (ok u, s')
      → s' ≡ set_history (map_where (λ h. h.id == id) (λ h. record h { applied = b }) s.history) s
  unfolding mark_history
  mark_history-ok id b s s' h =
      let (rows, n, found, e) = write_rows-ok set_history _ s s' h in
      let (same, _) =
        history.update_many_some (λ h. h.id == id) (λ h. record h { applied = b }) s.history rows n
          found in
      e ∙ ap (λ rows. set_history rows s) same

  put_history-ok :
      (o : Option (List LayoutGeometryHistory)) (s s' : Store) {u : Unit {0}}
      → put_history c o s ≡ (ok u, s')
      → (rows : List LayoutGeometryHistory) × (o ≡ some rows) × (s' ≡ set_history rows s)
  unfolding put_history
  put_history-ok none s s' h = cc
  put_history-ok (some rows) s s' h = (rows, refl, sym (ap (λ x. x.1) h))

  -- The next position is after those of the event.
  pub next_position-max :
      (event_id : ℕ) (rows : List LayoutGeometryHistory) (h : LayoutGeometryHistory)
      → Has h rows
      → h.event_id ≡ event_id
      → h.position
        < next_position (c.history.max_by (λ h. h.position) (λ h. h.event_id == event_id) rows)
  next_position-max event_id rows h m e =
      let at : (h.event_id == event_id) ≡ true = rw e (==_self event_id) in
      elim (Option-cases (c.history.max_by (λ h. h.position) (λ h. h.event_id == event_id) rows)) [
        | inl missed ↦
            let off =
              All-Has (λ h. (h.event_id == event_id) ≡ false) rows h
                (history.max_by_none (λ h. h.position) (λ h. h.event_id == event_id) rows missed)
                m in
            absurd (false≢true (sym off ∙ at))
        | inr (n, found) ↦
            let below =
              All-Has (λ h. (h.event_id == event_id) ≡ true → h.position ≤ n) rows h
                (history.max_by_some (λ h. h.position) (λ h. h.event_id == event_id) rows n found) m
                at in
            subst (λ o. h.position < next_position o) (sym found) (omega (arith, below))
      ]

  pub create_history-ok :
      (id : ℕ) (input : ApplyLayoutGeometryInput) (actor_id : ℕ) (before : List Entry)
      (s s' : Store) {u : Unit {0}}
      → create_history c id input.event_id actor_id before (map change_entry input.changes) s
        ≡ (ok u, s')
      → s'
        ≡ set_history
            (new_row id input actor_id before (next c input.event_id s.history) ∷ s.history)
            s
  unfolding create_history and_then
  create_history-ok id input actor_id before s s' h =
      let (rows, made, e) = put_history-ok _ s s' h in
      e ∙ ap (λ rows. set_history rows s) (history.create_some _ s.history rows made)
