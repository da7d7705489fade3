-- ===== src/Projection/Resolver/Laws.antt =====
-- The permissions of a user after messages on access in any order.
use seat_service.Common.{◌≡◌, refl, ◌≤◌, ◌⊎◌, inl, inr, true, false, none, List, Has}
use seat_service.Action.{ok, each}
use seat_service.Projection.{Projection, IsProjection, EventUser, same_event_user}
use seat_service.Projection.Access.{
  EventAccess, EventAccessProjection, access_key, handle_user_access_changed,
}
use seat_service.Projection.Access.Laws.{access_newest}
use seat_service.Projection.Role.{EventRoleProjection}
use seat_service.Projection.Resolver.{Permissions, role_of, get_permissions_for_user}

module _ {T U : Type 0} (lib : Permissions) (roles : Projection EventUser EventRoleProjection T)
    (access : Projection EventUser EventAccessProjection U)
    (law : IsProjection same_event_user access) where
  -- After messages on access in any order, a user for whom there was no row has the permissions of a
  -- newest message on the user, whatever the role, and those of the role where there was no message.
  pub permissions_newest :
      (k : EventUser) (ms : List EventAccess) (t : T) (u u' : U)
      → each (handle_user_access_changed access) ms u ≡ (ok tt, u')
      → access.find_unique k u ≡ none
      → ((get_permissions_for_user lib roles access k t u'
            ≡ lib.defaults (role_of (roles.find_unique k t)))
          × ((n : EventAccess) → Has n ms → same_event_user (access_key n) k ≡ false))
        ⊎ ((m : EventAccess) × Has m ms
            × (same_event_user (access_key m) k ≡ true)
            × (get_permissions_for_user lib roles access k t u' ≡ lib.unique m.permissions)
            × ((n : EventAccess)
                → Has n ms
                → same_event_user (access_key n) k ≡ true
                → n.occurred_at ≤ m.occurred_at))
  unfolding get_permissions_for_user
  permissions_newest k ms t u u' h empty = elim (access_newest access law k ms u u' h empty) [
    | inl (gone, absent) ↦ inl (rw gone refl, absent)
    | inr (m, has, same, row, newest) ↦ inr (m, has, same, rw row refl, newest)
  ]
