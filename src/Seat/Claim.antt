-- ===== src/Seat/Claim.antt =====
-- `assignSeatToGuest` of src/seat/services/seat-write.service.ts. `other` is what other
-- transactions commit between the selection of a seat and the guarded update that claims it.
pub mod Effect
pub mod Laws
use seat_service.Common.{
  ℕ, Bool, true, false, ◌&&◌, not, Option, none, some, String, ◌==◌, is_some, or_else,
  if◌then◌else◌,
}
use seat_service.Errors.{seat_not_found, seat_unavailable, seat_event_mismatch}
use seat_service.Action.{Action, ◌>>=◌, ◌>>◌, pure, gets, modify, guard, require, transaction}
use seat_service.Database.{
  Db, Seat, SeatStatus, SeatAssignmentAction, plain, seat_assigned_v1, seat_assigned,
}
use seat_service.Database.Client.{Delegate}
use seat_service.Seat.Rows.{is_free, holds}
use seat_service.Seat.Store.{
  Platform, log_change, log_assignment, enqueue, find_unique, update_many,
}

pub record AssignSeatDto : Type 0 where
  pub seat_id : Option ℕ
  pub guest_id : ℕ
  pub invitation_id : Option ℕ
  pub event_id : ℕ
  pub note : Option String
  pub actor_id : ℕ

-- A filter on a column with `undefined` for its value is no filter.
abbrev pub holds_or_open : Option ℕ → Option ℕ → Bool
holds_or_open column none = true
holds_or_open column (some k) = holds column k

abbrev pub is_own : AssignSeatDto → Seat → Bool
is_own input s =
    s.event_id == input.event_id
    && holds s.guest_id input.guest_id
    && holds_or_open s.invitation_id input.invitation_id

-- `{ eventId, invitationId, guestId: null }`
abbrev pub is_reservation : ℕ → ℕ → Seat → Bool
is_reservation event_id invitation_id s =
    s.event_id == event_id && holds s.invitation_id invitation_id && not (is_some s.guest_id)

abbrev pub is_free_in : ℕ → Seat → Bool
is_free_in event_id s = s.event_id == event_id && is_free s

-- `reservedForInvitation`
abbrev pub is_reserved_for : Option ℕ → Seat → Bool
is_reserved_for none s = false
is_reserved_for (some i) s = holds s.invitation_id i && not (is_some s.guest_id)

-- The `where` of the claim.
abbrev pub is_claim_target : AssignSeatDto → Seat → Seat → Bool
is_claim_target input seat s =
    s.id == seat.id
    && (if is_reserved_for input.invitation_id seat
        then s.event_id == input.event_id && is_reserved_for input.invitation_id s
        else is_free_in input.event_id s)

-- The `data` of the claim; what is `undefined` stays.
abbrev pub claimed : AssignSeatDto → Seat → Seat
claimed input s = record s {
  guest_id = some input.guest_id;
  invitation_id = or_else input.invitation_id s.invitation_id;
  status = SeatStatus.assigned;
  note = or_else input.note s.note;
}

module _ (t : Delegate Seat) where
  -- The seat that the invitation has reserved, the oldest first.
  find_reserved : ℕ → Option ℕ → Action Db (Option Seat)
  find_reserved event_id none = pure none
  find_reserved event_id (some i) =
      gets λ db. t.find_first_by (λ s. s.created_at) (is_reservation event_id i) db.seats

  unfoldable pub find_oldest_free : ℕ → Action Db (Option Seat)
  find_oldest_free event_id =
      gets λ db. t.find_first_by (λ s. s.created_at) (is_free_in event_id) db.seats

  -- `seatId ? findUnique : reservedSeat ?? the oldest free seat`
  unfoldable pub select_seat : Option ℕ → ℕ → Option ℕ → Action Db (Option Seat)
  unfolding find_reserved find_oldest_free
  select_seat (some id) event_id invitation_id = find_unique t id
  select_seat none event_id invitation_id = do
    reserved_seat ← find_reserved event_id invitation_id
    free_seat ← find_oldest_free event_id
    pure (or_else reserved_seat free_seat)

module _ (t : Delegate Seat) (pf : Platform) (other : Db → Db) where
  -- The guarded update, and the row after it.
  unfoldable pub claim_selected : AssignSeatDto → Seat → Action Db Seat
  claim_selected input seat = do
    n ← update_many t (is_claim_target input seat) (claimed input)
    guard (n == 1) (seat_unavailable input.event_id (some seat.id))
    found ← find_unique t seat.id
    require found (seat_not_found (some seat.id))

  unfoldable pub record_claim : AssignSeatDto → Seat → Action Db Unit
  record_claim input result = do
    log_assignment (record {
      event_id = input.event_id;
      seat_id = result.id;
      guest_id = some input.guest_id;
      invitation_id = input.invitation_id;
      action = SeatAssignmentAction.assigned;
      reason = plain;
    })
    enqueue pf (record {
      topic = seat_assigned_v1;
      aggregate_id = result.id;
      subject_id = input.guest_id;
      event_id = input.event_id;
      reassigned = false;
      has_invitation = some (is_some input.invitation_id);
    })

  unfoldable pub claim_new : AssignSeatDto → Action Db Seat
  claim_new input = do
    found ← select_seat t input.seat_id input.event_id input.invitation_id
    seat ← require found (seat_unavailable input.event_id input.seat_id)
    guard (seat.event_id == input.event_id)
        (seat_event_mismatch seat.id input.event_id seat.event_id)
    modify other
    result ← claim_selected input seat
    record_claim input result
    pure result

  unfoldable pub own_or_claim : AssignSeatDto → Option Seat → Action Db Seat
  own_or_claim input (some existing) = pure existing
  own_or_claim input none = claim_new input

  -- The body of the transaction.
  unfoldable pub claim_in_transaction : AssignSeatDto → Action Db Seat
  claim_in_transaction input = do
    existing ← gets (λ db. t.find_first (is_own input) db.seats)
    own_or_claim input existing

  unfoldable pub assign_seat_to_guest : AssignSeatDto → Action Db Seat
  assign_seat_to_guest input = do
    updated ← transaction (claim_in_transaction input)
    log_change input.event_id input.actor_id seat_assigned
    pure updated
