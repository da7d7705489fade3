-- ===== src/Seat/Release.antt =====
-- `unassignSeat` and `unassignSeatsByGuestId` of src/seat/services/seat-write.service.ts.
pub mod Effect
use seat_service.Common.{ℕ, false, Option, none, some}
use seat_service.Action.{Action, ◌>>=◌, ◌>>◌, pure, gets, each, transaction}
use seat_service.Database.{
  Db, Seat, SeatAssignmentAction, plain, seat_unassigned_v1, seat_unassigned,
}
use seat_service.Database.Client.{Delegate}
use seat_service.Seat.Rows.{subject, holds}
use seat_service.Seat.Store.{Platform, log_change, log_assignment, enqueue, find_unique, update}
use seat_service.Seat.Assign.{freed}

module _ (t : Delegate Seat) (pf : Platform) where
  -- The transaction: `seat` is the row that was read before it.
  unfoldable pub release : Seat → ℕ → Action Db Seat
  release seat holder = do
    result ← update t seat.id freed
    log_assignment (record {
      event_id = seat.event_id;
      seat_id = seat.id;
      guest_id = seat.guest_id;
      invitation_id = seat.invitation_id;
      action = SeatAssignmentAction.unassigned;
      reason = plain;
    })
    enqueue pf (record {
      topic = seat_unassigned_v1;
      aggregate_id = seat.id;
      subject_id = holder;
      event_id = seat.event_id;
      reassigned = false;
      has_invitation = none;
    })
    pure result

  release_held : Seat → ℕ → Option ℕ → Action Db (Option Seat)
  unfolding release
  release_held seat actor_id none = pure (some seat)
  release_held seat actor_id (some holder) = do
    updated ← transaction (release seat holder)
    log_change seat.event_id actor_id seat_unassigned
    pure (some updated)

  release_found : ℕ → Option Seat → Action Db (Option Seat)
  unfolding release_held
  release_found actor_id none = pure none
  release_found actor_id (some seat) = release_held seat actor_id (subject seat)

  -- `none` where the seat does not exist.
  unfoldable pub unassign_seat : ℕ → ℕ → Action Db (Option Seat)
  unfolding release_found
  unassign_seat seat_id actor_id = do found ← find_unique t seat_id; release_found actor_id found

  unassign_one : ℕ → Seat → Action Db Unit
  unassign_one actor_id s = do updated ← unassign_seat s.id actor_id; pure tt

  unfoldable pub unassign_seats_by_guest_id : ℕ → ℕ → Action Db Unit
  unfolding unassign_one
  unassign_seats_by_guest_id guest_id actor_id = do
    seats ← gets (λ db. t.find_many (λ s. holds s.guest_id guest_id) db.seats)
    each (unassign_one actor_id) seats
