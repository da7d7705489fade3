-- ===== src/Layout/Cleanup/Laws.antt =====
-- What remains after the seats of events are deleted.
use seat_service.Common.{
  ◌≡◌, refl, ap, ◌∙◌, ℕ, Bool, true, false, ◌&&◌, ◌||◌, not, some, List, [], ◌∷◌, filter, any,
  opt_eq, ◌==◌, arith,
}
use seat_service.Action.{ok, and_then, commit}
use seat_service.Database.{Db, Section, Table, Seat, SeatAssignmentLog, LayoutChangeLog}
use seat_service.Database.Client.{IsDelegate}
use seat_service.Database.Cascade.{in_section, at_table}
use seat_service.Layout.Cleanup.{LayoutVersion, Store, Delegates, is_in, delete_all, delete_seats}

-- The rows of other events.
abbrev pub others : {Row : Type 0} → (Row → ℕ) → List ℕ → List Row → List Row
others event ids = filter (λ r. not (is_in ids (event r)))

-- A section goes with its event; a table with its event or its section; a seat with its event, its
-- section or its table.
abbrev pub table_goes : List ℕ → Db → Table → Bool
table_goes ids db u =
    is_in ids u.event_id || in_section (λ s. is_in ids s.event_id) db.sections u.section_id

abbrev pub seat_goes : List ℕ → Db → Seat → Bool
seat_goes ids db r =
    is_in ids r.event_id
    || (in_section (λ s. is_in ids s.event_id) db.sections r.section_id
        || at_table (table_goes ids db) db.tables r)

-- Two deletions are one.
filter-filter :
    {Row : Type 0} (p q d : Row → Bool) (rows : List Row)
    → ((r : Row) → d r ≡ (p r || q r))
    → filter (λ r. not (q r)) (filter (λ r. not (p r)) rows) ≡ filter (λ r. not (d r)) rows
filter-filter p q d [] same = refl
filter-filter p q d (r ∷ rows) same = ground (arith, same r, filter-filter p q d rows same)

-- Without events nothing goes.
filter_none :
    {Row : Type 0} (p : Row → Bool) (rows : List Row)
    → ((r : Row) → p r ≡ false)
    → filter (λ r. not (p r)) rows ≡ rows
filter_none p [] h = refl
filter_none p (r ∷ rows) h = rw (h r) (ap (λ rs. r ∷ rs) (filter_none p rows h))

any_none :
    {Row : Type 0} (p : Row → Bool) (rows : List Row)
    → ((r : Row) → p r ≡ false)
    → any p rows ≡ false
any_none p [] h = refl
any_none p (r ∷ rows) h = rw (h r) (any_none p rows h)

table_goes_none : (db : Db) (u : Table) → table_goes [] db u ≡ false
table_goes_none db u = any_none (λ s. false && s.id == u.section_id) db.sections (λ s. refl)

seat_goes_none : (db : Db) (r : Seat) → seat_goes [] db r ≡ false
seat_goes_none db r =
    rw
      (
        any_none (λ (s : Section). false && s.id == r.section_id) db.sections (λ s. refl),
        any_none (λ (u : Table). false && opt_eq r.table_id (some u.id)) db.tables (λ u. refl),
      )
      refl

-- A seat at a table of one sort, or at one that is left and of another sort.
at_table_split :
    (p q : Table → Bool) (tables : List Table) (r : Seat)
    → at_table (λ u. p u || q u) tables r
      ≡ (at_table p tables r || at_table q (filter (λ u. not (p u)) tables) r)
at_table_split p q [] r = refl
at_table_split p q (u ∷ tables) r = ground (arith, at_table_split p q tables r)

or_split : (a b d e : Bool) → (a || (b || (d || e))) ≡ ((a || d) || (b || e))
or_split true b d e = refl
or_split false true true e = refl
or_split false true false e = refl
or_split false false d e = refl

tables_left :
    (ids : List ℕ) (db : Db)
    → filter
        (λ u. not (in_section (λ s. is_in ids s.event_id) db.sections u.section_id))
        (filter (λ u. not (is_in ids u.event_id)) db.tables)
      ≡ filter (λ u. not (table_goes ids db u)) db.tables
tables_left ids db =
    filter-filter (λ u. is_in ids u.event_id)
      (λ u. in_section (λ s. is_in ids s.event_id) db.sections u.section_id) (table_goes ids db)
      db.tables (λ u. refl)

seats_left :
    (ids : List ℕ) (db : Db)
    → filter
        (λ r. not (
          in_section (λ s. is_in ids s.event_id) db.sections r.section_id
          || at_table
              (λ u. in_section (λ s. is_in ids s.event_id) db.sections u.section_id)
              (filter (λ u. not (is_in ids u.event_id)) db.tables)
              r))
        (filter
          (λ r. not (at_table (λ u. is_in ids u.event_id) db.tables r))
          (filter (λ r. not (is_in ids r.event_id)) db.seats))
      ≡ filter (λ r. not (seat_goes ids db r)) db.seats
seats_left ids db =
    let section = λ (r : Seat). in_section (λ s. is_in ids s.event_id) db.sections r.section_id in
    let own = λ (u : Table). is_in ids u.event_id in
    let below = λ (u : Table). in_section (λ s. is_in ids s.event_id) db.sections u.section_id in
    let rest = filter (λ u. not (own u)) db.tables in
    ap (filter (λ r. not (section r || at_table below rest r))) (
      filter-filter (λ r. is_in ids r.event_id) (at_table own db.tables)
        (λ r. is_in ids r.event_id || at_table own db.tables r) db.seats (λ r. refl))
    ∙ filter-filter (λ r. is_in ids r.event_id || at_table own db.tables r)
        (λ r. section r || at_table below rest r) (seat_goes ids db) db.seats
        (λ r.
          ap (λ b. is_in ids r.event_id || (section r || b)) (at_table_split own below db.tables r)
          ∙ or_split (is_in ids r.event_id) (section r) (at_table own db.tables r)
              (at_table below rest r))

module _ (c : Delegates) (accepts_log : List SeatAssignmentLog → Bool)
    (logs : IsDelegate accepts_log c.logs) (accepts_seat : List Seat → Bool)
    (seats : IsDelegate accepts_seat c.seats) (accepts_table : List Table → Bool)
    (tables : IsDelegate accepts_table c.tables) (accepts_section : List Section → Bool)
    (sections : IsDelegate accepts_section c.sections)
    (accepts_change : List LayoutChangeLog → Bool) (changes : IsDelegate accepts_change c.changes)
    (accepts_version : List LayoutVersion → Bool)
    (versions : IsDelegate accepts_version c.versions) where
  -- Deleting the seats of events returns, for no events too. Of sections, both logs and layout versions
  -- exactly the rows of other events are left. Of tables those are left that are of another event and
  -- in no section of the events; of seats those that are of another event, in no section of the
  -- events, and at no table that went. So a seat of another event in a section of the events goes too.
  pub delete_seats_left :
      (ids : List ℕ) (s : Store)
      → delete_seats c ids s ≡ (
        ok tt,
        record {
          db = record s.db {
            assignment_logs = others (λ r. r.event_id) ids s.db.assignment_logs;
            seats = filter (λ r. not (seat_goes ids s.db r)) s.db.seats;
            tables = filter (λ u. not (table_goes ids s.db u)) s.db.tables;
            sections = others (λ r. r.event_id) ids s.db.sections;
            change_logs = others (λ r. r.event_id) ids s.db.change_logs;
          };
          versions = others (λ r. r.event_id) ids s.versions;
        },
      )
  unfolding delete_seats delete_all and_then commit
  delete_seats_left [] s =
      rw
        (
          filter_none (λ (r : SeatAssignmentLog). false) s.db.assignment_logs (λ r. refl),
          filter_none (seat_goes [] s.db) s.db.seats (seat_goes_none s.db),
          filter_none (table_goes [] s.db) s.db.tables (table_goes_none s.db),
          filter_none (λ (r : Section). false) s.db.sections (λ r. refl),
          filter_none (λ (r : LayoutChangeLog). false) s.db.change_logs (λ r. refl),
          filter_none (λ (r : LayoutVersion). false) s.versions (λ r. refl),
        )
        refl
  delete_seats_left (id ∷ ids) s =
      rw
        (
          logs.delete_many_eq (λ r. is_in (id ∷ ids) r.event_id) s.db.assignment_logs,
          seats.delete_many_eq (λ r. is_in (id ∷ ids) r.event_id) s.db.seats,
          tables.delete_many_eq (λ r. is_in (id ∷ ids) r.event_id) s.db.tables,
          sections.delete_many_eq (λ r. is_in (id ∷ ids) r.event_id) s.db.sections,
          changes.delete_many_eq (λ r. is_in (id ∷ ids) r.event_id) s.db.change_logs,
          versions.delete_many_eq (λ r. is_in (id ∷ ids) r.event_id) s.versions,
          tables_left (id ∷ ids) s.db,
          seats_left (id ∷ ids) s.db,
        )
        refl
