-- ===== src/Seat/Assign/Laws.antt =====
-- What `assignSeat` guarantees.
use seat_service.Common.{
  ℕ, ◌≡◌, sym, ◌∙◌, ap, inl, inr, true, false, ◌||◌, none, List, ◌==◌, is_some, Has, arith, subst,
  false≢true,
}
use seat_service.Action.{ok}
use seat_service.Database.{Db, Seat}
use seat_service.Database.Client.{Delegate, IsDelegate}
use seat_service.Seat.Rows.{fits, subject, is_available}
use seat_service.Seat.Rows.Distinct.{HasDistinctIds, eq_of_id, map-Has}
use seat_service.Seat.Rows.Consistent.{IsConsistent, AllConsistent, AllConsistent-map}
use seat_service.Seat.Store.{Platform}
use seat_service.Seat.Assign.{AssignSeatInput, has_assignment, holds_any, is_claimable, assign_seat}
use seat_service.Seat.Assign.Effect.{reassign, Done, assign_seat-Done}

reassign-IsConsistent :
    (seat : Seat) (input : AssignSeatInput) (r : Seat)
    → IsConsistent r
    → IsConsistent (reassign seat input r)
reassign-IsConsistent seat input r h = ground arith

-- In the specification only the target has the holder of the input.
reassign_sole :
    (seat : Seat) (input : AssignSeatInput) (r : Seat)
    → has_assignment input ≡ true
    → ((reassign seat input r).event_id == seat.event_id) ≡ true
    → (holds_any (reassign seat input r).guest_id input.guest_id
        || holds_any (reassign seat input r).invitation_id input.invitation_id)
      ≡ true
    → (reassign seat input r).id ≡ seat.id
reassign_sole seat input r h e k = ground arith

-- A seat with no holder whose status is not AVAILABLE passes no guard.
orphan_closed :
    (seat : Seat) (input : AssignSeatInput)
    → is_available seat.status ≡ false
    → seat.guest_id ≡ none
    → seat.invitation_id ≡ none
    → (has_assignment input || is_some (subject seat)) ≡ true
    → is_claimable seat input seat ≡ true
    → ⊥
orphan_closed seat input s g i busy h = ground arith

module _ (t : Delegate Seat) (law : IsDelegate fits t) (pf : Platform) where
  -- After an assignment that returns, every seat of the target's event that the input's guest or
  -- invitation holds is the target.
  pub assign_seat_sole_holder :
      (input : AssignSeatInput) (actor_id : ℕ) (db db' : Db) (s target r : Seat)
      → HasDistinctIds db.seats
      → Has target db.seats
      → target.id ≡ input.seat_id
      → has_assignment input ≡ true
      → assign_seat t pf input actor_id db ≡ (ok s, db')
      → Has r db'.seats
      → r.event_id ≡ target.event_id
      → (holds_any r.guest_id input.guest_id || holds_any r.invitation_id input.invitation_id)
        ≡ true
      → r.id ≡ input.seat_id
  assign_seat_sole_holder input actor_id db db' s target r d m id given h n same_event holder =
      let (seat, here, hit, done) = assign_seat-Done t law pf input actor_id db db' s d h in
      sole seat (eq_of_id db.seats target seat d m here (id ∙ sym hit)) hit done
    where
      sole :
          (seat : Seat)
          → target ≡ seat
          → seat.id ≡ input.seat_id
          → Done t law pf seat input db s db'
          → r.id ≡ input.seat_id
      sole seat same hit (inl (idle, nobody, same_s, same_db)) =
          absurd (false≢true (sym idle ∙ given))
      sole seat same hit (inr (busy, open_target, same_s, rows)) =
          let (u, k, e) =
            map-Has (reassign seat input) db.seats r (subst (λ (l : List Seat). Has r l) rows n) in
          let event : (reassign seat input u).event_id ≡ seat.event_id =
            ap (λ (x : Seat). x.event_id) (sym e)
            ∙ same_event
            ∙ ap (λ (x : Seat). x.event_id) same in
          let held_by =
            subst
              (λ (x : Seat).
                (holds_any x.guest_id input.guest_id
                  || holds_any x.invitation_id input.invitation_id)
                ≡ true)
              e holder in
          ap (λ (x : Seat). x.id) e ∙ reassign_sole seat input u given (ground arith) held_by ∙ hit

  -- An assignment or unassignment that returns keeps every seat's status in agreement with its
  -- holder.
  pub assign_seat-AllConsistent :
      (input : AssignSeatInput) (actor_id : ℕ) (db db' : Db) (s : Seat)
      → HasDistinctIds db.seats
      → AllConsistent db.seats
      → assign_seat t pf input actor_id db ≡ (ok s, db')
      → AllConsistent db'.seats
  assign_seat-AllConsistent input actor_id db db' s d consistent h =
      let (seat, here, hit, done) = assign_seat-Done t law pf input actor_id db db' s d h in
      keeps seat done
    where
      keeps : (seat : Seat) → Done t law pf seat input db s db' → AllConsistent db'.seats
      keeps seat (inl (idle, nobody, same, same_db)) =
          subst (λ (x : Db). AllConsistent x.seats) (sym same_db) consistent
      keeps seat (inr (busy, open_target, same_s, rows)) = subst AllConsistent (sym rows) (
          AllConsistent-map (reassign seat input) db.seats (reassign-IsConsistent seat input)
            consistent)

  -- A seat with no holder whose status is not AVAILABLE is out of reach: no call for it that returns,
  -- with or without a holder in its input, changes the database.
  pub assign_seat_orphan :
      (input : AssignSeatInput) (actor_id : ℕ) (db db' : Db) (s orphan : Seat)
      → HasDistinctIds db.seats
      → Has orphan db.seats
      → orphan.id ≡ input.seat_id
      → is_available orphan.status ≡ false
      → orphan.guest_id ≡ none
      → orphan.invitation_id ≡ none
      → assign_seat t pf input actor_id db ≡ (ok s, db')
      → (has_assignment input ≡ false) × (db' ≡ db)
  assign_seat_orphan input actor_id db db' s orphan d m id status guest invitation h =
      let (seat, here, hit, done) = assign_seat-Done t law pf input actor_id db db' s d h in
      let same : orphan ≡ seat = eq_of_id db.seats orphan seat d m here (id ∙ sym hit) in
      stuck seat same done
    where
      stuck :
          (seat : Seat)
          → orphan ≡ seat
          → Done t law pf seat input db s db'
          → (has_assignment input ≡ false) × (db' ≡ db)
      stuck seat same (inl (idle, nobody, same_s, same_db)) = (idle, same_db)
      stuck seat same (inr (busy, open_target, same_s, rows)) = absurd (
          orphan_closed orphan input status guest invitation
            (subst (λ x. (has_assignment input || is_some (subject x)) ≡ true) (sym same) busy)
            (subst (λ x. is_claimable x input x ≡ true) (sym same) open_target))
