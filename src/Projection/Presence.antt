-- ===== src/Projection/Presence.antt =====
-- `handleMilestone` of src/handlers/milestone.handler.ts: who is inside, by the scans of their tickets.
mod Kept
pub mod Laws
mod Tests
use seat_service.Common.{
  ℕ, Bool, true, false, ◌&&◌, not, Option, none, some, is_some, or_else, if◌then◌else◌, ◌==◌,
}
use seat_service.Action.{Action, ◌>>=◌, pure, gets}
use seat_service.Projection.{Projection, write}

pub data PresenceState : Type 0 where
  inside outside : PresenceState

-- A row; its key is the seat.
pub record SeatPresenceProjection : Type 0 where
  pub event_id : ℕ
  pub presence_state : PresenceState
  pub checked_in_at : Option ℕ
  pub revoked : Bool
  pub revoked_at : Option ℕ

pub data MilestoneType : Type 0 where
  ticket_scanned ticket_revoked other_type : MilestoneType

pub record EventMilestone : Type 0 where
  pub type : MilestoneType
  pub reference_id : Option ℕ
  pub event_id : ℕ
  pub occurred_at : ℕ

abbrev pub flip : PresenceState → PresenceState
flip inside = outside
flip outside = inside

-- `existing?.presenceState === 'INSIDE' ? 'OUTSIDE' : 'INSIDE'`
abbrev pub new_state : Option SeatPresenceProjection → PresenceState
new_state none = inside
new_state (some row) = flip row.presence_state

abbrev pub is_inside : PresenceState → Bool
is_inside inside = true
is_inside outside = false

-- `existing?.checkedInAt`
abbrev pub checked_in : Option SeatPresenceProjection → Option ℕ
checked_in none = none
checked_in (some row) = row.checked_in_at

-- The time of the first entry, or `undefined`.
abbrev pub entry_time : Option SeatPresenceProjection → ℕ → Option ℕ
entry_time existing occurred_at =
    if is_inside (new_state existing) && not (is_some (checked_in existing))
    then some occurred_at
    else none

-- `create` and `update` of a scan.
abbrev pub scan_create : EventMilestone → Option SeatPresenceProjection → SeatPresenceProjection
scan_create payload existing = record {
  event_id = payload.event_id;
  presence_state = new_state existing;
  checked_in_at = entry_time existing payload.occurred_at;
  revoked = false;
  revoked_at = none;
}

abbrev pub scan_update :
    EventMilestone → Option SeatPresenceProjection → SeatPresenceProjection → SeatPresenceProjection
scan_update payload existing row = record row {
  presence_state = new_state existing;
  checked_in_at = or_else (entry_time existing payload.occurred_at) row.checked_in_at;
}

-- `create` and `update` of a revocation.
abbrev pub revoke_create : EventMilestone → SeatPresenceProjection
revoke_create payload = record {
  event_id = payload.event_id;
  presence_state = outside;
  checked_in_at = none;
  revoked = true;
  revoked_at = some payload.occurred_at;
}

abbrev pub revoke_update : EventMilestone → SeatPresenceProjection → SeatPresenceProjection
revoke_update payload row = record row {
  presence_state = outside;
  revoked = true;
  revoked_at = some payload.occurred_at;
}

module _ {T : Type 0} (p : Projection ℕ SeatPresenceProjection T) where
  unfoldable pub scan_ticket : ℕ → EventMilestone → Action T Unit
  scan_ticket seat_id payload = do
    existing ← gets (p.find_unique seat_id)
    write (p.upsert seat_id (scan_create payload existing) (scan_update payload existing))

  unfoldable pub revoke_ticket : ℕ → EventMilestone → Action T Unit
  revoke_ticket seat_id payload =
      write (p.upsert seat_id (revoke_create payload) (revoke_update payload))

  abbrev pub handle_seat_milestone : MilestoneType → Option ℕ → EventMilestone → Action T Unit
  handle_seat_milestone other_type seat payload = pure tt
  handle_seat_milestone ticket_scanned none payload = pure tt
  handle_seat_milestone ticket_scanned (some seat_id) payload = scan_ticket seat_id payload
  handle_seat_milestone ticket_revoked none payload = pure tt
  handle_seat_milestone ticket_revoked (some seat_id) payload = revoke_ticket seat_id payload

  unfoldable pub handle_milestone : EventMilestone → Action T Unit
  handle_milestone payload = handle_seat_milestone payload.type payload.reference_id payload
