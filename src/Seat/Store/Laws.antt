-- ===== src/Seat/Store/Laws.antt =====
-- What the services' database calls do to the seats.
use seat_service.Common.{
  ℕ, ◌≡◌, refl, ◌∙◌, Bool, Option, none, some, List, ◌==◌, count, map_where, Has, arith, ==→eq,
}
use seat_service.Action.{Action, ok, and_then, and_then-ok, require-ok}
use seat_service.Database.{Db, Seat, SeatAssignmentLog, LayoutChangeType, Fact}
use seat_service.Database.Client.{Delegate, IsDelegate}
use seat_service.Seat.Rows.{fits}
use seat_service.Seat.Store.{
  Platform, put_rows, settle_calls, db_transaction, log_change, log_assignment, enqueue,
  find_unique, update_many, update,
}

-- An action that leaves the seats as they are where it succeeds.
abbrev pub KeepsSeats : {A : Type 0} → Action Db A → Type 0
KeepsSeats {A} m = (db db' : Db) (a : A) → m db ≡ (ok a, db') → db'.seats ≡ db.seats

pub enqueue-KeepsSeats : (pf : Platform) (fact : Fact) → KeepsSeats (enqueue pf fact)
unfolding enqueue and_then
enqueue-KeepsSeats pf fact db db' u h = ground arith

pub log_change-KeepsSeats :
    (event_id actor_id : ℕ) (type : LayoutChangeType)
    → KeepsSeats (log_change event_id actor_id type)
unfolding log_change
log_change-KeepsSeats e a type db db' u h = ground arith

pub log_assignment-KeepsSeats : (row : SeatAssignmentLog) → KeepsSeats (log_assignment row)
unfolding log_assignment
log_assignment-KeepsSeats row db db' u h = ground arith

pub db_transaction-ok :
    {A : Type 0} (m : Action Db A) (db db' : Db) (a : A)
    → db_transaction m db ≡ (ok a, db')
    → m db ≡ (ok a, db')
unfolding settle_calls
db_transaction-ok m db db' a h = ground arith

module _ (t : Delegate Seat) (law : IsDelegate fits t) where
  pub find_unique-ok :
      (id : ℕ) (db db' : Db) (o : Option Seat)
      → find_unique t id db ≡ (ok o, db')
      → (o ≡ t.find_first (λ s. s.id == id) db.seats) × (db' ≡ db)
  unfolding find_unique
  find_unique-ok id db db' o h = ground arith

  pub find_unique-some :
      (id : ℕ) (db db' : Db) (s : Seat)
      → find_unique t id db ≡ (ok (some s), db')
      → Has s db.seats × (s.id ≡ id) × (db' ≡ db)
  find_unique-some id db db' s h =
      let (found, same) = find_unique-ok id db db' (some s) h in
      let (here, hit) = law.find_first_some (λ r. r.id == id) db.seats s (cc) in
      (here, ==→eq s.id id hit, same)

  put_rows-ok :
      (o : Option (List Seat × ℕ)) (db db' : Db) (n : ℕ)
      → put_rows t o db ≡ (ok n, db')
      → (rows : List Seat) × (o ≡ some (rows, n)) × (db' ≡ record db { seats = rows })
  unfolding put_rows
  put_rows-ok none db db' n h = cc
  put_rows-ok (some (rows, m)) db db' n h = (rows, ground arith, ground arith)

  pub update_many-ok :
      (p : Seat → Bool) (f : Seat → Seat) (db db' : Db) (n : ℕ)
      → update_many t p f db ≡ (ok n, db')
      → (db' ≡ record db { seats = map_where p f db.seats }) × (n ≡ count p db.seats)
  unfolding update_many
  update_many-ok p f db db' n h =
      let (rows, e, q) = put_rows-ok (t.update_many p f db.seats) db db' n h in
      let (r, c) = law.update_many_some p f db.seats rows n e in (rw (q, r) refl, c)

  pub update-ok :
      (id : ℕ) (f : Seat → Seat) (db db' : Db) (s : Seat)
      → update t id f db ≡ (ok s, db')
      → (db' ≡ record db { seats = map_where (λ r. r.id == id) f db.seats })
        × Has s db'.seats
        × (s.id ≡ id)
  unfolding update
  update-ok id f db db' s h =
      let (n, db1, e1, h1) = and_then-ok (update_many t (λ r. r.id == id) f db) _ h in
      let (o, db2, e2, h2) = and_then-ok (find_unique t id db1) _ h1 in
      let (e3, same) = require-ok o _ h2 in
      let (q, c) = update_many-ok (λ r. r.id == id) f db db1 n e1 in
      let (here, hit, same2) = find_unique-some id db1 db2 s (rw e3 at e2) in
      (same ∙ same2 ∙ q, rw (same, same2) here, hit)
