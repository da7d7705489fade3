-- ===== src/Projection/Role.antt =====
-- The role messages of src/handlers/event-role.handler.ts: the role of a user at an event, and what
-- goes with an event that is deleted. The client sets a row's `updatedAt` to the time of each write,
-- the argument `now`.
pub mod Laws
mod Tests
pub mod Deleted
use seat_service.Common.{
  ℕ, Bool, true, false, ◌&&◌, is_some, not, Option, none, some, List, any, ◌==◌, if◌then◌else◌,
}
use seat_service.Action.{Action, Result, ok, err, ◌>>=◌, ◌>>◌, pure, gets}
use seat_service.Errors.{write_refused}
use seat_service.Projection.{Projection, EventUser, same_event_user, is_before, write}

-- Of the roles, which are another service's, the handlers name one.
pub data EventRoleType : Type 0 where
  admin : EventRoleType
  other_role : ℕ → EventRoleType

pub record EventRoleProjection : Type 0 where
  pub role : EventRoleType
  pub updated_at : Option ℕ

pub record EventRoleAssigned : Type 0 where
  pub event_id : ℕ
  pub user_id : ℕ
  pub role : EventRoleType
  pub occurred_at : ℕ

pub record EventRoleRemoved : Type 0 where
  pub event_id : ℕ
  pub user_id : ℕ
  pub occurred_at : ℕ

pub record EventOwnerChanged : Type 0 where
  pub event_id : ℕ
  pub old_owner_id : Option ℕ
  pub new_owner_id : ℕ
  pub occurred_at : ℕ

-- `existing?.updatedAt`
abbrev pub role_time : Option EventRoleProjection → Option ℕ
role_time none = none
role_time (some row) = row.updated_at

module _ {T : Type 0} (p : Projection EventUser EventRoleProjection T) where
  -- An upsert of a role, at the time of the write.
  abbrev pub upsert_role : ℕ → EventUser → EventRoleType → Action T Unit
  upsert_role now key role = write (
      p.upsert key (record { role = role; updated_at = some now })
        (λ row. record { role = role; updated_at = some now }))

  unfoldable pub handle_role_assigned : ℕ → EventRoleAssigned → Action T Unit
  handle_role_assigned now payload = do
    existing ← gets (p.find_unique (payload.event_id, payload.user_id))
    if is_before payload.occurred_at (role_time existing)
        then pure tt
        else upsert_role now (payload.event_id, payload.user_id) payload.role

  unfoldable pub handle_role_removed : EventRoleRemoved → Action T Unit
  handle_role_removed payload = do
    existing ← gets (p.find_unique (payload.event_id, payload.user_id))
    if is_before payload.occurred_at (role_time existing)
        then pure tt
        else write (p.delete_many (same_event_user (payload.event_id, payload.user_id)))

  -- The first half of `handleOwnerChanged`.
  unfoldable pub remove_old_owner : ℕ → ℕ → Option ℕ → Action T Unit
  remove_old_owner event_id occurred_at none = pure tt
  remove_old_owner event_id occurred_at (some old_owner_id) = do
    existing ← gets (p.find_unique (event_id, old_owner_id))
    if not (is_before occurred_at (role_time existing))
        then write (p.delete_many (same_event_user (event_id, old_owner_id)))
        else pure tt

  unfoldable pub add_new_owner : ℕ → EventOwnerChanged → Action T Unit
  add_new_owner now payload = do
    existing ← gets (p.find_unique (payload.event_id, payload.new_owner_id))
    if is_before payload.occurred_at (role_time existing)
        then pure tt
        else upsert_role now (payload.event_id, payload.new_owner_id) admin

  unfoldable pub handle_owner_changed : ℕ → EventOwnerChanged → Action T Unit
  handle_owner_changed now payload = do
    remove_old_owner payload.event_id payload.occurred_at payload.old_owner_id
    add_new_owner now payload

-- `where: { eventId: { in: eventIds } }`
abbrev pub is_of_events : List ℕ → EventUser → Bool
is_of_events event_ids (event_id, user_id) = any (λ id. id == event_id) event_ids

-- A table after a write that may have been refused.
abbrev pub settled : {T : Type 0} → Option T → T → T
settled none t = t
settled (some t') t = t'

-- The three writes of `Promise.all`, each of which is made whatever the others do; one that is
-- refused makes the handler throw.
module _ {Access Settings T S U : Type 0} (roles : Projection EventUser EventRoleProjection T)
    (settings : Projection ℕ Settings S) (access : Projection EventUser Access U) where
  unfoldable pub handle_event_deleted : List ℕ → Action (T × S × U) Unit
  handle_event_deleted event_ids (t, s, u) =
      let t' = roles.delete_many (is_of_events event_ids) t in
      let s' = settings.delete_many (λ id. any (λ i. i == id) event_ids) s in
      let u' = access.delete_many (is_of_events event_ids) u in
      (
        if is_some t' && is_some s' && is_some u' then ok tt else err write_refused,
        (settled t' t, settled s' s, settled u' u),
      )
