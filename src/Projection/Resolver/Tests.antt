-- ===== src/Projection/Resolver/Tests.antt =====
-- A user with an access row, and a library of permissions that leaves them as they are.
use seat_service.Common.{◌≡◌, refl, ◌≤◌, ◌⊎◌, true, false, Option, none, some, List, [], ◌∷◌, Has}
use seat_service.Action.{ok, and_then, each}
use seat_service.Meta.{null}
use seat_service.Projection.{Projection, IsProjection, EventUser, same_event_user, settle}
use seat_service.Projection.Memory.{in_memory, in_memory-IsProjection}
use seat_service.Projection.Access.{
  EventAccess, EventAccessProjection, access_key, handle_user_access_changed,
}
use seat_service.Projection.Role.{EventRoleProjection, admin}
use seat_service.Projection.Resolver.{Permissions, role_of, get_permissions_for_user}
use seat_service.Projection.Resolver.Laws.{permissions_newest}

abbrev lib : Permissions
lib = record { unique = λ ps. ps; defaults = λ role. [] }

abbrev AccessTable : Type 0
AccessTable = EventUser → Option EventAccessProjection

abbrev access : Projection EventUser EventAccessProjection AccessTable
access = in_memory same_event_user

abbrev access_laws : IsProjection same_event_user access
access_laws = in_memory-IsProjection same_event_user

abbrev roles : Projection EventUser EventRoleProjection (EventUser → Option EventRoleProjection)
roles = in_memory same_event_user

abbrev everybody_admin : EventUser → Option EventRoleProjection
everybody_admin k = some (record { role = admin; updated_at = none })

abbrev granted : List EventAccess
granted =
    (record {
      event_id = 7;
      user_id = 5;
      permissions = "seat.read" ∷ [];
      roles = null;
      occurred_at = 1;
    })
    ∷ []

abbrev after_grant : AccessTable
after_grant = (each (handle_user_access_changed access) granted (λ k. none)).1

after_grant_runs :
    each (handle_user_access_changed access) granted (λ k. none) ≡ (ok tt, after_grant)
unfolding each handle_user_access_changed and_then settle
after_grant_runs = refl

permissions_newest_example :
    ((get_permissions_for_user lib roles access (7, 5) everybody_admin after_grant
        ≡ lib.defaults (role_of (roles.find_unique (7, 5) everybody_admin)))
      × ((n : EventAccess) → Has n granted → same_event_user (access_key n) (7, 5) ≡ false))
    ⊎ ((m : EventAccess) × Has m granted
        × (same_event_user (access_key m) (7, 5) ≡ true)
        × (get_permissions_for_user lib roles access (7, 5) everybody_admin after_grant
            ≡ lib.unique m.permissions)
        × ((n : EventAccess)
            → Has n granted
            → same_event_user (access_key n) (7, 5) ≡ true
            → n.occurred_at ≤ m.occurred_at))
permissions_newest_example =
    permissions_newest lib roles access access_laws (7, 5) granted everybody_admin (λ k. none)
      after_grant after_grant_runs refl
