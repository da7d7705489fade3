-- ===== src/Seat/Reserve.antt =====
-- `reserveSeatForInvitation` of src/seat/services/seat-write.service.ts. `other` is what other
-- transactions commit between the selection of the free seat and the guarded update.
pub mod Effect
pub mod Laws
use seat_service.Common.{ℕ, Bool, ◌&&◌, not, Option, none, some, ◌==◌, is_some, if◌then◌else◌}
use seat_service.Errors.{seat_not_found, seat_unavailable}
use seat_service.Action.{Action, ◌>>=◌, ◌>>◌, pure, throw, gets, modify, require, transaction}
use seat_service.Database.{Db, Seat, SeatStatus, SeatAssignmentAction, guest_confirmation}
use seat_service.Database.Client.{Delegate}
use seat_service.Seat.Rows.{holds}
use seat_service.Seat.Store.{log_assignment, find_unique, update_many}
use seat_service.Seat.Claim.{is_free_in, find_oldest_free}

-- `{ eventId, invitationId }`
abbrev pub is_invited : ℕ → ℕ → Seat → Bool
is_invited event_id invitation_id s = s.event_id == event_id && holds s.invitation_id invitation_id

abbrev pub is_free_target : ℕ → Seat → Seat → Bool
is_free_target event_id free s = s.id == free.id && is_free_in event_id s

abbrev pub reserved_for : ℕ → Seat → Seat
reserved_for invitation_id s = record s {
  status = SeatStatus.reserved;
  invitation_id = some invitation_id;
}

module _ (t : Delegate Seat) (other : Db → Db) where
  unfoldable pub find_invited : ℕ → ℕ → Action Db (Option Seat)
  find_invited event_id invitation_id =
      gets λ db. t.find_first (is_invited event_id invitation_id) db.seats

  -- The claim was lost: another transaction may have reserved a seat for the same invitation.
  unfoldable pub retry_reservation : ℕ → Seat → Option Seat → Action Db Seat
  retry_reservation event_id free none = throw (seat_unavailable event_id (some free.id))
  retry_reservation event_id free (some retry) =
      if is_some retry.guest_id
      then throw (seat_unavailable event_id (some free.id))
      else pure retry

  unfoldable pub finish_reservation : ℕ → ℕ → Seat → Action Db Seat
  finish_reservation event_id invitation_id free = do
    log_assignment (record {
      event_id = event_id;
      seat_id = free.id;
      guest_id = none;
      invitation_id = some invitation_id;
      action = SeatAssignmentAction.assigned;
      reason = guest_confirmation;
    })
    found ← find_unique t free.id
    require found (seat_not_found (some free.id))

  -- The guarded update, and what follows a claim that was won or lost.
  unfoldable pub reserve_selected : ℕ → ℕ → Seat → Action Db Seat
  reserve_selected event_id invitation_id free = do
    n ← update_many t (is_free_target event_id free) (reserved_for invitation_id)
    if n == 1
        then finish_reservation event_id invitation_id free
        else (do retry ← find_invited event_id invitation_id; retry_reservation event_id free retry)

  unfoldable pub reserve_free : ℕ → ℕ → Action Db Seat
  reserve_free event_id invitation_id = do
    found ← find_oldest_free t event_id
    free ← require found (seat_unavailable event_id none)
    modify other
    reserve_selected event_id invitation_id free

  -- Both early returns of the source return the seat that the invitation has, reserved or assigned.
  unfoldable pub own_or_reserve : ℕ → ℕ → Option Seat → Action Db Seat
  own_or_reserve event_id invitation_id none = reserve_free event_id invitation_id
  own_or_reserve event_id invitation_id (some existing) =
      if not (is_some existing.guest_id) then pure existing else pure existing

  -- The body of the transaction.
  unfoldable pub reserve_in_transaction : ℕ → ℕ → Action Db Seat
  reserve_in_transaction event_id invitation_id = do
    existing ← find_invited event_id invitation_id
    own_or_reserve event_id invitation_id existing

  unfoldable pub reserve_seat_for_invitation : ℕ → ℕ → Action Db Seat
  reserve_seat_for_invitation event_id invitation_id =
      transaction (reserve_in_transaction event_id invitation_id)
