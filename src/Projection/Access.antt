-- ===== src/Projection/Access.antt =====
-- `handleUserAccessChanged` of src/handlers/event-role.handler.ts: the permissions of a user at an
-- event, of which a message that is older than the row is skipped.
mod Newest
pub mod Laws
mod Tests
use seat_service.Common.{ℕ, Option, none, some, List, String, if◌then◌else◌}
use seat_service.Action.{Action, ◌>>=◌, pure, gets, each}
use seat_service.Meta.{Json}
use seat_service.Projection.{Projection, EventUser, is_before, write}

pub record EventAccessProjection : Type 0 where
  pub permissions : List String
  pub roles : Option Json
  pub occurred_at : Option ℕ

-- The fields of `EventAccessDTO` that are read.
pub record EventAccess : Type 0 where
  pub event_id : ℕ
  pub user_id : ℕ
  pub permissions : List String
  pub roles : Json
  pub occurred_at : ℕ

-- `existing?.occurredAt`
abbrev pub access_time : Option EventAccessProjection → Option ℕ
access_time none = none
access_time (some row) = row.occurred_at

-- The row that `create` and `update` give: every column but the key is set.
abbrev pub access_row : EventAccess → EventAccessProjection
access_row payload = record {
  permissions = payload.permissions;
  roles = some payload.roles;
  occurred_at = some payload.occurred_at;
}

abbrev pub access_key : EventAccess → EventUser
access_key payload = (payload.event_id, payload.user_id)

module _ {T : Type 0} (p : Projection EventUser EventAccessProjection T) where
  unfoldable pub handle_user_access_changed : EventAccess → Action T Unit
  handle_user_access_changed payload = do
    existing ← gets (p.find_unique (access_key payload))
    if is_before payload.occurred_at (access_time existing)
        then pure tt
        else write (p.upsert (access_key payload) (access_row payload) (λ row. access_row payload))
