-- ===== src/Projection/Invitation.antt =====
-- src/handlers/invitation-seating.handler.ts: who invited the guest of an invitation. The values are
-- a list of texts, as the colour group matcher reads them.
pub mod Laws
mod Tests
use seat_service.Common.{ℕ, Option, none, some, List, String}
use seat_service.Action.{Action}
use seat_service.Projection.{Projection, write}

pub record InvitationProjection : Type 0 where
  pub guest_id : Option ℕ
  pub selected_invited_by : Option (List String)

-- The fields of `InvitationSeatingInfoUpdatedDTO`; a guest id that is empty is `none`.
pub record SeatingInfo : Type 0 where
  pub invitation_id : ℕ
  pub guest_id : Option ℕ
  pub selected_invited_by : List String

-- The row that `create` and `update` give.
abbrev pub seating_row : SeatingInfo → InvitationProjection
seating_row payload = record {
  guest_id = payload.guest_id;
  selected_invited_by = some payload.selected_invited_by;
}

-- `invitation?.selectedInvitedBy`
abbrev pub selected_by : Option InvitationProjection → Option (List String)
selected_by none = none
selected_by (some row) = row.selected_invited_by

module _ {T : Type 0} (p : Projection ℕ InvitationProjection T) where
  unfoldable pub handle_seating_info_updated : SeatingInfo → Action T Unit
  handle_seating_info_updated payload =
      write (p.upsert payload.invitation_id (seating_row payload) (λ row. seating_row payload))
