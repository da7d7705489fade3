-- ===== src/Seat/Assign.antt =====
-- `assignSeat` of src/seat/services/seat-write.service.ts: a seat is given to a guest or to an
-- invitation, whose other seats of the event are freed first, or is freed where the input has
-- neither.
mod Conflicts
pub mod Effect
pub mod Laws
pub mod Throws
use seat_service.Common.{
  ℕ, Bool, true, false, ◌&&◌, ◌||◌, not, Option, none, some, String, ◌==◌, is_some, or_else, opt_eq,
  if◌then◌else◌,
}
use seat_service.Errors.{seat_not_found, seat_unavailable, seat_holder_conflict}
use seat_service.Action.{Action, ◌>>=◌, ◌>>◌, pure, throw, gets, guard, require, each}
use seat_service.Database.{
  Db, Seat, SeatStatus, available, SeatAssignmentAction, plain, reassigned, seat_assigned_v1,
  seat_unassigned_v1, seat_assigned, seat_unassigned,
}
use seat_service.Database.Client.{Delegate}
use seat_service.Seat.Rows.{subject, is_free, holds}
use seat_service.Seat.Store.{
  Platform, log_change, log_assignment, enqueue, find_unique, update_many, update, db_transaction,
}

pub record AssignSeatInput : Type 0 where
  pub seat_id : ℕ
  pub guest_id : Option ℕ
  pub invitation_id : Option ℕ
  pub note : Option String

-- `Boolean(guestId || invitationId)`
abbrev pub has_assignment : AssignSeatInput → Bool
has_assignment input = is_some input.guest_id || is_some input.invitation_id

-- A filter that is left out of `OR` where the input has no such id.
abbrev pub holds_any : Option ℕ → Option ℕ → Bool
holds_any column none = false
holds_any column (some k) = holds column k

-- The other seats of the event that the guest or the invitation holds.
abbrev pub is_conflict : Seat → AssignSeatInput → Seat → Bool
is_conflict seat input s =
    s.event_id == seat.event_id
    && not (s.id == seat.id)
    && (holds_any s.guest_id input.guest_id || holds_any s.invitation_id input.invitation_id)

abbrev pub freed : Seat → Seat
freed s = record s { guest_id = none; invitation_id = none; note = none; status = available }

-- The `where` of the claim.
abbrev pub is_claimable : Seat → AssignSeatInput → Seat → Bool
is_claimable seat input s =
    s.id == seat.id
    && s.event_id == seat.event_id
    && (not (has_assignment input)
        || (is_free s
            || opt_eq s.guest_id input.guest_id && opt_eq s.invitation_id input.invitation_id))

abbrev pub held : AssignSeatInput → Seat → Seat
held input s = record s {
  guest_id = input.guest_id;
  invitation_id = input.invitation_id;
  note = input.note;
  status = if has_assignment input then SeatStatus.assigned else available;
}

module _ (t : Delegate Seat) (pf : Platform) where
  report_unassigned : Seat → Option ℕ → ℕ → Action Db Unit
  report_unassigned s none event_id = pure tt
  report_unassigned s (some holder) event_id = enqueue pf (record {
    topic = seat_unassigned_v1;
    aggregate_id = s.id;
    subject_id = holder;
    event_id = event_id;
    reassigned = true;
    has_invitation = none;
  })

  -- One round of the loop over the conflicting seats.
  unfoldable pub free_conflict : ℕ → Seat → Action Db Unit
  unfolding report_unassigned
  free_conflict event_id s = do
    updated ← update t s.id freed
    log_assignment (record {
      event_id = event_id;
      seat_id = s.id;
      guest_id = s.guest_id;
      invitation_id = s.invitation_id;
      action = SeatAssignmentAction.unassigned;
      reason = reassigned;
    })
    report_unassigned s (subject s) event_id

  unfoldable pub free_conflicts : Seat → AssignSeatInput → Action Db Unit
  free_conflicts seat input =
      if has_assignment input
      then (do
        conflicts ← gets (λ db. t.find_many (is_conflict seat input) db.seats)
        each (free_conflict seat.event_id) conflicts)
      else pure tt

  -- The claim of the target seat, and the row after it.
  unfoldable pub claim_target : Seat → AssignSeatInput → Action Db Seat
  claim_target seat input = do
    n ← update_many t (is_claimable seat input) (held input)
    guard (n == 1) (seat_unavailable seat.event_id (some seat.id))
    found ← find_unique t seat.id
    require found (seat_not_found (some seat.id))

  report_target : Seat → AssignSeatInput → Option ℕ → Action Db Unit
  report_target seat input none = pure tt
  report_target seat input (some holder) = enqueue pf (record {
    topic = if has_assignment input then seat_assigned_v1 else seat_unassigned_v1;
    aggregate_id = seat.id;
    subject_id = holder;
    event_id = seat.event_id;
    reassigned = false;
    has_invitation =
        some (
          if has_assignment input then is_some input.invitation_id else is_some seat.invitation_id);
  })

  -- The assignment log, the analytics fact and the audit log.
  unfoldable pub record_target : Seat → AssignSeatInput → ℕ → Action Db Unit
  unfolding report_target
  record_target seat input actor_id = do
    log_assignment (record {
      event_id = seat.event_id;
      seat_id = seat.id;
      guest_id = if has_assignment input then input.guest_id else seat.guest_id;
      invitation_id = if has_assignment input then input.invitation_id else seat.invitation_id;
      action =
          if has_assignment input
          then SeatAssignmentAction.assigned
          else SeatAssignmentAction.unassigned;
      reason = plain;
    })
    report_target seat input
        (if has_assignment input then or_else input.guest_id input.invitation_id else subject seat)
    log_change seat.event_id actor_id
        (if has_assignment input then seat_assigned else seat_unassigned)

  unfoldable pub assign_found : Seat → AssignSeatInput → ℕ → Action Db Seat
  assign_found seat input actor_id =
      if not (has_assignment input) && not (is_some (subject seat)) then pure seat else (do
        free_conflicts seat input
        updated ← claim_target seat input
        record_target seat input actor_id
        pure updated)

  -- The body of the transaction.
  unfoldable pub assign_existing : AssignSeatInput → ℕ → Action Db Seat
  assign_existing input actor_id = do
    found ← find_unique t input.seat_id
    seat ← require found (seat_not_found (some input.seat_id))
    assign_found seat input actor_id

  unfoldable pub assign_seat : AssignSeatInput → ℕ → Action Db Seat
  assign_seat input actor_id =
      if is_some input.guest_id && is_some input.invitation_id
      then throw seat_holder_conflict
      else db_transaction (assign_existing input actor_id)
