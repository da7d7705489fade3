-- ===== src/Seat/Tests.antt =====
-- Runs of the seat operations, and the theorems at them.
use seat_service.Common.{
  ℕ, ◌≤◌, true, false, none, some, [], ◌∷◌, map, ◌≡◌, refl, ◌⊎◌, inl, inr, All, Has, if◌then◌else◌,
}
use seat_service.Errors.{Error, seat_holder_conflict}
use seat_service.Action.{Result, ok, err, and_then, commit, each}
use seat_service.Database.{Db, Seat}
use seat_service.Database.Memory.{in_memory}
use seat_service.Seat.Rows.{holds}
use seat_service.Seat.Rows.Consistent.{AllConsistent}
use seat_service.Seat.Store.{
  find_unique, update_many, update, enqueue, log_change, log_assignment, settle_calls,
}
use seat_service.Seat.Store.Guarded.{change_row}
use seat_service.Seat.Assign.{
  AssignSeatInput, has_assignment, freed, held, free_conflict, free_conflicts, claim_target,
  record_target, assign_found, assign_existing, assign_seat,
}
use seat_service.Seat.Assign.Effect.{Done, assign_seat-Done}
use seat_service.Seat.Assign.Laws.{
  assign_seat_sole_holder, assign_seat-AllConsistent, assign_seat_orphan,
}
use seat_service.Seat.Assign.Throws.{assign_seat_throws}
use seat_service.Seat.Claim.{
  AssignSeatDto, is_own, is_reservation, is_free_in, claimed, select_seat, find_oldest_free,
  claim_selected, record_claim, claim_new, own_or_claim, claim_in_transaction, assign_seat_to_guest,
}
use seat_service.Seat.Claim.Effect.{Outcome as ClaimOutcome, assign_seat_to_guest-Outcome}
use seat_service.Seat.Claim.Laws.{assign_seat_to_guest-AllConsistent, claims_reservation}
use seat_service.Seat.Reserve.{
  is_invited, reserved_for, find_invited, finish_reservation, retry_reservation, reserve_selected,
  reserve_free, own_or_reserve, reserve_in_transaction, reserve_seat_for_invitation,
}
use seat_service.Seat.Reserve.Effect.{
  Outcome as ReserveOutcome, reserve_seat_for_invitation-Outcome,
}
use seat_service.Seat.Reserve.Laws.{
  reserve_twice, reserve_seat_for_invitation-AllConsistent, reserves_oldest,
}
use seat_service.Seat.Release.{release, unassign_seat, unassign_seats_by_guest_id}
use seat_service.Seat.Release.Effect.{
  release_row, unassign_seat-seats, unassign_seats_by_guest_id-seats,
}
use seat_service.Seat.Fixtures.{
  memory, memory_laws, platform, free_row, guest_row, older_row, orphan_row, event_db, orphan_db,
  with_seats,
}

-- All that a run of an operation computes with.
runs : Unit {0}
unfolding in_memory settle_calls and_then commit each find_unique update_many update enqueue
    log_change log_assignment free_conflict free_conflicts claim_target record_target assign_found
    assign_existing assign_seat select_seat find_oldest_free claim_selected record_claim claim_new
    own_or_claim claim_in_transaction assign_seat_to_guest find_invited finish_reservation
    retry_reservation reserve_selected reserve_free own_or_reserve reserve_in_transaction
    reserve_seat_for_invitation release unassign_seat unassign_seats_by_guest_id
runs = tt

-- Guest 40 moves from seat 2 to seat 1.
abbrev move_guest : AssignSeatInput
move_guest = record { seat_id = 1; guest_id = some 40; invitation_id = none; note = none }

abbrev moved_db : Db
moved_db = (assign_seat memory platform move_guest 9 event_db).1

move_guest_run :
    assign_seat memory platform move_guest 9 event_db ≡ (ok (held move_guest free_row), moved_db)
unfolding runs
move_guest_run = refl

moved_seats : moved_db.seats ≡ held move_guest free_row ∷ freed guest_row ∷ older_row ∷ []
unfolding runs
moved_seats = refl

assign_seat-Done_example :
    (seat : Seat) × Has seat event_db.seats
    × (seat.id ≡ 1)
    × Done memory memory_laws platform seat move_guest event_db (held move_guest free_row) moved_db
assign_seat-Done_example =
    assign_seat-Done memory memory_laws platform move_guest 9 event_db moved_db
      (held move_guest free_row) (refl, (refl, (refl, tt))) move_guest_run

assign_seat_sole_holder_example : (held move_guest free_row).id ≡ 1
unfolding runs
assign_seat_sole_holder_example =
    assign_seat_sole_holder memory memory_laws platform move_guest 9 event_db moved_db
      (held move_guest free_row) free_row (held move_guest free_row) (refl, (refl, (refl, tt)))
      (inl refl) refl refl move_guest_run (inl refl) refl refl

assign_seat-AllConsistent_example : AllConsistent moved_db.seats
assign_seat-AllConsistent_example =
    assign_seat-AllConsistent memory memory_laws platform move_guest 9 event_db moved_db
      (held move_guest free_row) (refl, (refl, (refl, tt))) (refl, (refl, (refl, tt)))
      move_guest_run

-- The orphan can only be released to no effect.
abbrev release_orphan : AssignSeatInput
release_orphan = record { seat_id = 4; guest_id = none; invitation_id = none; note = none }

release_orphan_run :
    assign_seat memory platform release_orphan 9 orphan_db ≡ (ok orphan_row, orphan_db)
unfolding runs
release_orphan_run = refl

assign_seat_orphan_example :
    (has_assignment release_orphan ≡ false) × (◌≡◌ {A = Db} orphan_db orphan_db)
assign_seat_orphan_example =
    assign_seat_orphan memory memory_laws platform release_orphan 9 orphan_db orphan_db orphan_row
      orphan_row (refl, (refl, tt)) (inr (inl refl)) refl refl refl refl release_orphan_run

-- Nobody can take the orphan.
abbrev claim_orphan : AssignSeatInput
claim_orphan = record { seat_id = 4; guest_id = some 41; invitation_id = none; note = none }

orphan_refused : Result Seat × Db
orphan_refused = assign_seat memory platform claim_orphan 9 orphan_db

assign_seat_throws_example :
    ((e : Error)
      → (assign_seat memory platform claim_orphan 9 orphan_db).0 ≡ err e
      → (assign_seat memory platform claim_orphan 9 orphan_db).1 ≡ orphan_db)
    × ((g i : ℕ)
        → claim_orphan.guest_id ≡ some g
        → claim_orphan.invitation_id ≡ some i
        → assign_seat memory platform claim_orphan 9 orphan_db
          ≡ (err seat_holder_conflict, orphan_db))
assign_seat_throws_example = assign_seat_throws memory platform claim_orphan 9 orphan_db

-- Invitation 60 reserves the oldest free seat, and guest 41 then claims it.
abbrev reserved_db : Db
reserved_db = (reserve_seat_for_invitation memory (λ x. x) 7 60 event_db).1

reserve_run :
    reserve_seat_for_invitation memory (λ x. x) 7 60 event_db
    ≡ (ok (reserved_for 60 older_row), reserved_db)
unfolding runs
reserve_run = refl

reserve_seat_for_invitation-Outcome_example :
    ReserveOutcome memory memory_laws (λ x. x) 7 60 event_db (reserved_for 60 older_row) reserved_db
reserve_seat_for_invitation-Outcome_example =
    reserve_seat_for_invitation-Outcome memory memory_laws (λ x. x) 7 60 event_db reserved_db
      (reserved_for 60 older_row) (refl, (refl, (refl, tt))) reserve_run

reserve_twice_example :
    (s' : Seat) × (reserve_seat_for_invitation memory (λ x. x) 7 60 reserved_db
      ≡ (ok s', reserved_db))
    × (is_invited 7 60 s' ≡ true)
reserve_twice_example =
    reserve_twice memory memory_laws (λ x. x) (λ x. x) 7 60 event_db reserved_db
      (reserved_for 60 older_row) (refl, (refl, (refl, tt))) reserve_run

reserve_seat_for_invitation-AllConsistent_example : AllConsistent reserved_db.seats
reserve_seat_for_invitation-AllConsistent_example =
    reserve_seat_for_invitation-AllConsistent memory memory_laws (λ x. x) 7 60 event_db reserved_db
      (reserved_for 60 older_row) (refl, (refl, (refl, tt))) (refl, (refl, (refl, tt)))
      (refl, (refl, (refl, tt))) reserve_run

reserves_oldest_example :
    (free : Seat) × Has free event_db.seats
    × (is_free_in 7 free ≡ true)
    × All (λ r. is_free_in 7 r ≡ true → free.created_at ≤ r.created_at) event_db.seats
    × (reserved_for 60 older_row ≡ reserved_for 60 free)
    × (reserved_db.seats ≡ change_row free.id (reserved_for 60) event_db.seats)
reserves_oldest_example =
    reserves_oldest memory memory_laws 7 60 event_db reserved_db (reserved_for 60 older_row)
      (refl, (refl, (refl, tt))) (refl, (refl, (refl, tt))) reserve_run

-- The reservation in a database without the logs of its making.
abbrev booked_db : Db
booked_db = with_seats (free_row ∷ guest_row ∷ reserved_for 60 older_row ∷ [])

abbrev claim_booked : AssignSeatDto
claim_booked = record {
  seat_id = none;
  guest_id = 41;
  invitation_id = some 60;
  event_id = 7;
  note = none;
  actor_id = 9;
}

abbrev claimed_db : Db
claimed_db = (assign_seat_to_guest memory platform (λ x. x) claim_booked booked_db).1

claim_run :
    assign_seat_to_guest memory platform (λ x. x) claim_booked booked_db
    ≡ (ok (claimed claim_booked (reserved_for 60 older_row)), claimed_db)
unfolding runs
claim_run = refl

assign_seat_to_guest-Outcome_example :
    ClaimOutcome memory memory_laws platform
      (λ x. x)
      claim_booked
      booked_db
      (claimed claim_booked (reserved_for 60 older_row))
      claimed_db
assign_seat_to_guest-Outcome_example =
    assign_seat_to_guest-Outcome memory memory_laws platform (λ x. x) claim_booked booked_db
      claimed_db (claimed claim_booked (reserved_for 60 older_row)) (refl, (refl, (refl, tt)))
      claim_run

assign_seat_to_guest-AllConsistent_example : AllConsistent claimed_db.seats
assign_seat_to_guest-AllConsistent_example =
    assign_seat_to_guest-AllConsistent memory memory_laws platform (λ x. x) claim_booked booked_db
      claimed_db (claimed claim_booked (reserved_for 60 older_row)) (refl, (refl, (refl, tt)))
      (refl, (refl, (refl, tt))) (refl, (refl, (refl, tt))) claim_run

claims_reservation_example :
    Has (claimed claim_booked (reserved_for 60 older_row)) booked_db.seats
      × (is_own claim_booked (claimed claim_booked (reserved_for 60 older_row)) ≡ true)
    ⊎ (c : Seat) × Has c booked_db.seats
      × (is_reservation 7 60 c ≡ true)
      × (claimed claim_booked (reserved_for 60 older_row) ≡ claimed claim_booked c)
claims_reservation_example =
    claims_reservation memory memory_laws platform (λ x. x) claim_booked 60 booked_db claimed_db
      (reserved_for 60 older_row) (claimed claim_booked (reserved_for 60 older_row))
      (refl, (refl, (refl, tt))) refl refl (inr (inr (inl refl))) refl claim_run

-- Seat 2 is released, by its id and by its guest.
abbrev released_db : Db
released_db = (unassign_seat memory platform 2 9 event_db).1

unassign_run :
    unassign_seat memory platform 2 9 event_db ≡ (ok (some (freed guest_row)), released_db)
unfolding runs
unassign_run = refl

unassign_seat-seats_example : released_db.seats ≡ map (release_row 2) event_db.seats
unassign_seat-seats_example =
    unassign_seat-seats memory memory_laws platform 2 9 event_db released_db
      (some (freed guest_row)) (refl, (refl, (refl, tt))) unassign_run

abbrev guest_gone_db : Db
guest_gone_db = (unassign_seats_by_guest_id memory platform 40 9 event_db).1

unassign_guest_run :
    unassign_seats_by_guest_id memory platform 40 9 event_db ≡ (ok tt, guest_gone_db)
unfolding runs
unassign_guest_run = refl

unassign_seats_by_guest_id-seats_example :
    guest_gone_db.seats ≡ map (λ r. if holds r.guest_id 40 then freed r else r) event_db.seats
unassign_seats_by_guest_id-seats_example =
    unassign_seats_by_guest_id-seats memory memory_laws platform 40 9 event_db guest_gone_db tt
      (refl, (refl, (refl, tt))) unassign_guest_run
