-- ===== src/Seat/Assign/Conflicts.antt =====
-- The loop that frees the seats which the guest or the invitation holds elsewhere in the event.
use seat_service.Common.{
  ℕ, ◌≡◌, refl, sym, ◌∙◌, ap, Option, none, some, List, [], ◌∷◌, map, ◌==◌, if◌then◌else◌, any,
  map_where, arith, inl, inr,
}
use seat_service.Action.{ok, and_then, each, and_then-ok, if-ok}
use seat_service.Database.{Db, Seat}
use seat_service.Database.Client.{Delegate, IsDelegate}
use seat_service.Seat.Rows.{fits, subject}
use seat_service.Seat.Rows.Distinct.{
  HasDistinctIds, any-id, map_ext, map_where-map, map-map, map_same, KeepsId,
}
use seat_service.Seat.Store.{Platform, log_assignment, update}
use seat_service.Seat.Store.Laws.{
  KeepsSeats, enqueue-KeepsSeats, log_assignment-KeepsSeats, update-ok,
}
use seat_service.Seat.Assign.{
  AssignSeatInput, has_assignment, is_conflict, freed, report_unassigned, free_conflict,
  free_conflicts,
}

-- The rows with the id of one of the seats are freed.
abbrev free_in : List Seat → Seat → Seat
free_in ss r = if any (λ s. s.id == r.id) ss then freed r else r

abbrev pub free_conflicting : Seat → AssignSeatInput → Seat → Seat
free_conflicting seat input r =
    if has_assignment input then (if is_conflict seat input r then freed r else r) else r

pub free_conflicting-KeepsId :
    (seat : Seat) (input : AssignSeatInput) → KeepsId (free_conflicting seat input)
free_conflicting-KeepsId seat input s = ground arith

free_in-cons :
    (x : Seat) (ss : List Seat) (r : Seat)
    → free_in ss (if r.id == x.id then freed r else r) ≡ free_in (x ∷ ss) r
free_in-cons x ss r = ground arith

module _ (t : Delegate Seat) (law : IsDelegate fits t) (pf : Platform) where
  report_unassigned-KeepsSeats :
      (s : Seat) (holder : Option ℕ) (event_id : ℕ)
      → KeepsSeats (report_unassigned t pf s holder event_id)
  unfolding report_unassigned
  report_unassigned-KeepsSeats s none event_id db db' u h = ground arith
  report_unassigned-KeepsSeats s (some k) event_id db db' u h = enqueue-KeepsSeats pf _ db db' u h

  free_conflict-seats :
      (event_id : ℕ) (s : Seat) (db db' : Db) (u : Unit {0})
      → free_conflict t pf event_id s db ≡ (ok u, db')
      → db'.seats ≡ map_where (λ r. r.id == s.id) freed db.seats
  unfolding free_conflict
  free_conflict-seats event_id s db db' u h =
      let (x, db1, e1, h1) = and_then-ok (update t s.id freed db) _ h in
      let (y, db2, e2, h2) = and_then-ok (log_assignment _ db1) _ h1 in
      report_unassigned-KeepsSeats s (subject s) event_id db2 db' u h2
      ∙ log_assignment-KeepsSeats _ db1 db2 y e2
      ∙ ap (λ (d : Db). d.seats) (update-ok t law s.id freed db db1 x e1).0

  each-free_conflict :
      (event_id : ℕ) (ss : List Seat) (db db' : Db) (u : Unit {0})
      → each (free_conflict t pf event_id) ss db ≡ (ok u, db')
      → db'.seats ≡ map (free_in ss) db.seats
  unfolding each
  each-free_conflict event_id [] db db' u h =
      ap (λ (d : Db). d.seats) (ends u h) ∙ sym (map_same (free_in []) db.seats (λ r. refl))
    where
      ends : (v : Unit {0}) → each (free_conflict t pf event_id) [] db ≡ (ok v, db') → db' ≡ db
      ends v k = ground arith
  each-free_conflict event_id (x ∷ ss) db db' u h =
      let (y, db1, e1, h1) = and_then-ok (free_conflict t pf event_id x db) _ h in
      each-free_conflict event_id ss db1 db' u h1
      ∙ ap (map (free_in ss)) (
          free_conflict-seats event_id x db db1 y e1
          ∙ map_where-map (λ r. r.id == x.id) freed db.seats)
      ∙ map-map (free_in ss) _ db.seats
      ∙ map_ext _ (free_in (x ∷ ss)) db.seats (λ r m. free_in-cons x ss r)

  free_found :
      (seat : Seat) (input : AssignSeatInput) (db db' : Db) (u : Unit {0})
      → HasDistinctIds db.seats
      → each (free_conflict t pf seat.event_id) (t.find_many (is_conflict seat input) db.seats) db
        ≡ (ok u, db')
      → db'.seats ≡ map (λ r. if is_conflict seat input r then freed r else r) db.seats
  free_found seat input db db' u d h =
      each-free_conflict seat.event_id (t.find_many (is_conflict seat input) db.seats) db db' u h
      ∙ map_ext _ _ db.seats (λ r m.
        ap (λ b. if b then freed r else r)
          (law.find_many_any (is_conflict seat input) (λ s. s.id == r.id) db.seats
            ∙ any-id (is_conflict seat input) db.seats r d m))

  pub free_conflicts-seats :
      (seat : Seat) (input : AssignSeatInput) (db db' : Db) (u : Unit {0})
      → HasDistinctIds db.seats
      → free_conflicts t pf seat input db ≡ (ok u, db')
      → db'.seats ≡ map (free_conflicting seat input) db.seats
  unfolding free_conflicts and_then
  free_conflicts-seats seat input db db' u d h = elim (if-ok (has_assignment input) _ _ h) [
    | inl (some_holder, run) ↦
        free_found seat input db db' u d run
        ∙ map_ext _ (free_conflicting seat input) db.seats (λ r m. ground arith)
    | inr (nobody, run) ↦
        ground (arith, map_same (free_conflicting seat input) db.seats (λ r. ground arith))
  ]
