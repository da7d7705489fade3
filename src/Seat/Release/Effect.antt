-- ===== src/Seat/Release/Effect.antt =====
-- What `unassignSeat` and `unassignSeatsByGuestId` do to the seats of the database.
use seat_service.Common.{
  ℕ, ◌≡◌, refl, sym, ◌∙◌, ap, Bool, true, false, ◌&&◌, Option, none, some, List, [], ◌∷◌, map, ◌==◌,
  if◌then◌else◌, All-Has, any, Has, arith, ==→eq, subst, is_some, map_where,
}
use seat_service.Action.{ok, and_then, each, transaction, and_then-ok, pure-ok, transaction-ok}
use seat_service.Database.{Db, Seat}
use seat_service.Database.Client.{Delegate, IsDelegate}
use seat_service.Seat.Rows.{fits, subject, holds}
use seat_service.Seat.Rows.Distinct.{
  HasDistinctIds, HasDistinctIds-map, eq_of_id, any-id, map_ext, map_where-map, map-map, map_same,
}
use seat_service.Seat.Store.{Platform, log_change, log_assignment, enqueue, find_unique, update}
use seat_service.Seat.Store.Laws.{
  enqueue-KeepsSeats, log_assignment-KeepsSeats, log_change-KeepsSeats, update-ok, find_unique-some,
  find_unique-ok,
}
use seat_service.Seat.Assign.{freed}
use seat_service.Seat.Release.{
  release, release_held, release_found, unassign_seat, unassign_one, unassign_seats_by_guest_id,
}

-- The specification: the seat with the id is freed if it has a holder.
abbrev pub release_row : ℕ → Seat → Seat
release_row id r = if r.id == id && is_some (subject r) then freed r else r

release_rows : List Seat → Seat → Seat
release_rows ss r = if any (λ s. s.id == r.id) ss && is_some (subject r) then freed r else r

release_rows-cons :
    (x : Seat) (ss : List Seat) (r : Seat)
    → release_rows ss (release_row x.id r) ≡ release_rows (x ∷ ss) r
unfolding release_rows
release_rows-cons x ss r = ground arith

map_same_Has :
    (f : Seat → Seat) (ss : List Seat) → ((s : Seat) → Has s ss → f s ≡ s) → map f ss ≡ ss
map_same_Has f ss h = map_ext f (λ s. s) ss h ∙ map_same (λ s. s) ss (λ s. refl)

module _ (t : Delegate Seat) (law : IsDelegate fits t) (pf : Platform) where
  release-ok :
      (seat : Seat) (holder : ℕ) (db db' : Db) (s : Seat)
      → release t pf seat holder db ≡ (ok s, db')
      → db'.seats ≡ map_where (λ r. r.id == seat.id) freed db.seats
  unfolding release
  release-ok seat holder db db' s h =
      let (x, db1, e1, h1) = and_then-ok (update t seat.id freed db) _ h in
      let (y, db2, e2, h2) = and_then-ok (log_assignment _ db1) _ h1 in
      let (z, db3, e3, h3) = and_then-ok (enqueue pf _ db2) _ h2 in
      let (same, same_db) = pure-ok h3 in
      ap (λ (d : Db). d.seats) same_db
      ∙ enqueue-KeepsSeats pf _ db2 db3 z e3
      ∙ log_assignment-KeepsSeats _ db1 db2 y e2
      ∙ ap (λ (d : Db). d.seats) (update-ok t law seat.id freed db db1 x e1).0

  -- The row with the id is the seat that was found.
  row_of_seat :
      (seat : Seat) (ss : List Seat) (r : Seat)
      → HasDistinctIds ss
      → Has seat ss
      → Has r ss
      → (r.id == seat.id) ≡ true
      → subject r ≡ subject seat
  row_of_seat seat ss r d m n e = ap subject (eq_of_id ss r seat d n m (==→eq r.id seat.id e))

  release_held-ok :
      (seat : Seat) (actor_id : ℕ) (o : Option ℕ) (db db' : Db) (s : Option Seat)
      → HasDistinctIds db.seats
      → Has seat db.seats
      → subject seat ≡ o
      → release_held t pf seat actor_id o db ≡ (ok s, db')
      → db'.seats ≡ map (release_row seat.id) db.seats
  unfolding release_held
  release_held-ok seat actor_id none db db' s d m e h =
      let (same, same_db) = pure-ok {a = some seat} {b = s} {s = db} {s' = db'} (ground arith) in
      ap (λ (x : Db). x.seats) same_db
      ∙ sym (
          map_same_Has (release_row seat.id) db.seats
            (λ r n. ground (arith, row_of_seat seat db.seats r d m n)))
  release_held-ok seat actor_id (some holder) db db' s d m e h =
      let (x, db1, e1, h1) = and_then-ok (transaction (release t pf seat holder) db) _ h in
      let (y, db2, e2, h2) = and_then-ok (log_change _ _ _ db1) _ h1 in
      let (same, same_db) = pure-ok h2 in
      ap (λ (x : Db). x.seats) same_db
      ∙ log_change-KeepsSeats _ _ _ db1 db2 y e2
      ∙ release-ok seat holder db db1 x (transaction-ok (release t pf seat holder) db e1)
      ∙ map_where-map (λ r. r.id == seat.id) freed db.seats
      ∙ map_ext _ (release_row seat.id) db.seats
          (λ r n. ground (arith, row_of_seat seat db.seats r d m n))

  -- Where `unassignSeat` returns, the seat with the id, if there is one, is freed if it has a holder,
  -- and no other seat changes.
  pub unassign_seat-seats :
      (seat_id actor_id : ℕ) (db db' : Db) (s : Option Seat)
      → HasDistinctIds db.seats
      → unassign_seat t pf seat_id actor_id db ≡ (ok s, db')
      → db'.seats ≡ map (release_row seat_id) db.seats
  unfolding unassign_seat
  unassign_seat-seats seat_id actor_id db db' s d h =
      let (o, db1, e1, h1) = and_then-ok (find_unique t seat_id db) _ h in found o db1 e1 h1
    where
      found :
          (o : Option Seat) (db1 : Db)
          → find_unique t seat_id db ≡ (ok o, db1)
          → release_found t pf actor_id o db1 ≡ (ok s, db')
          → db'.seats ≡ map (release_row seat_id) db.seats
      found none db1 e k =
          let (missing, same1) = find_unique-ok t law seat_id db db1 none e in
          let absent = law.find_first_none (λ r. r.id == seat_id) db.seats (sym missing) in
          let (same, same_db) =
            pure-ok {a = none} {b = s} {s = db1} {s' = db'} (unfold release_found in k) in
          ap (λ (x : Db). x.seats) (same_db ∙ same1)
          ∙ sym (
              map_same_Has (release_row seat_id) db.seats (λ r n.
                ground (arith, All-Has (λ u. (u.id == seat_id) ≡ false) db.seats r absent n)))
      found (some seat) db1 e k =
          let (here, hit, same1) = find_unique-some t law seat_id db db1 seat e in
          let k' : release_held t pf seat actor_id (subject seat) db ≡ (ok s, db') =
            subst (λ (x : Db). release_held t pf seat actor_id (subject seat) x ≡ (ok s, db')) same1
              (unfold release_found in k) in
          release_held-ok seat actor_id (subject seat) db db' s d here refl k'
          ∙ ap (λ (n : ℕ). map (release_row n) db.seats) hit

  unassign_one-seats :
      (actor_id : ℕ) (x : Seat) (db db' : Db) (u : Unit {0})
      → HasDistinctIds db.seats
      → unassign_one t pf actor_id x db ≡ (ok u, db')
      → db'.seats ≡ map (release_row x.id) db.seats
  unfolding unassign_one
  unassign_one-seats actor_id x db db' u d h =
      let (o, db1, e1, h1) = and_then-ok (unassign_seat t pf x.id actor_id db) _ h in
      let (same, same_db) = pure-ok h1 in
      ap (λ (y : Db). y.seats) same_db ∙ unassign_seat-seats x.id actor_id db db1 o d e1

  each-unassign_one :
      (actor_id : ℕ) (ss : List Seat) (db db' : Db) (u : Unit {0})
      → HasDistinctIds db.seats
      → each (unassign_one t pf actor_id) ss db ≡ (ok u, db')
      → db'.seats ≡ map (release_rows ss) db.seats
  unfolding each
  each-unassign_one actor_id [] db db' u d h =
      let (same, same_db) = pure-ok {a = tt} {b = u} {s = db} {s' = db'} h in
      ap (λ (x : Db). x.seats) same_db
      ∙ sym (map_same (release_rows []) db.seats (λ r. unfold release_rows in refl))
  each-unassign_one actor_id (x ∷ ss) db db' u d h =
      let (y, db1, e1, h1) = and_then-ok (unassign_one t pf actor_id x db) _ h in
      let step = unassign_one-seats actor_id x db db1 y d e1 in
      let d1 : HasDistinctIds db1.seats =
        subst HasDistinctIds (sym step)
          (HasDistinctIds-map (release_row x.id) db.seats (λ r. ground arith) d) in
      each-unassign_one actor_id ss db1 db' u d1 h1
      ∙ ap (map (release_rows ss)) step
      ∙ map-map (release_rows ss) (release_row x.id) db.seats
      ∙ map_ext _ (release_rows (x ∷ ss)) db.seats (λ r n. release_rows-cons x ss r)

  -- Where `unassignSeatsByGuestId` returns, every seat that the guest held is freed, in every event,
  -- and no other seat changes.
  pub unassign_seats_by_guest_id-seats :
      (guest_id actor_id : ℕ) (db db' : Db) (u : Unit {0})
      → HasDistinctIds db.seats
      → unassign_seats_by_guest_id t pf guest_id actor_id db ≡ (ok u, db')
      → db'.seats ≡ map (λ r. if holds r.guest_id guest_id then freed r else r) db.seats
  unfolding unassign_seats_by_guest_id and_then release_rows
  unassign_seats_by_guest_id-seats guest_id actor_id db db' u d h =
      each-unassign_one actor_id (t.find_many (λ s. holds s.guest_id guest_id) db.seats) db db' u d
        h
      ∙ map_ext _ _ db.seats (λ r n.
        by_guest r (any (λ s. s.id == r.id) (t.find_many (λ s. holds s.guest_id guest_id) db.seats))
          (law.find_many_any (λ s. holds s.guest_id guest_id) (λ s. s.id == r.id) db.seats
            ∙ any-id (λ s. holds s.guest_id guest_id) db.seats r d n))
    where
      by_guest :
          (r : Seat) (b : Bool)
          → b ≡ holds r.guest_id guest_id
          → (if b && is_some (subject r) then freed r else r)
            ≡ (if holds r.guest_id guest_id then freed r else r)
      by_guest r b e = ground arith
