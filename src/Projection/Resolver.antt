-- ===== src/Projection/Resolver.antt =====
-- src/seat/services/seat-event-role-resolver.service.ts: what a user may do at an event. The
-- functions of the permissions library are parameters.
pub mod Laws
mod Tests
use seat_service.Common.{Option, none, some, List, String}
use seat_service.Projection.{Projection, EventUser}
use seat_service.Projection.Access.{EventAccessProjection}
use seat_service.Projection.Role.{EventRoleProjection, EventRoleType}

pub record Permissions : Type 0 where
  -- `uniqueEventPermissions`
  pub unique : List String → List String
  -- `getDefaultPermissionsForEventRole`
  pub defaults : Option EventRoleType → List String

-- `row?.role ?? null`
abbrev pub role_of : Option EventRoleProjection → Option EventRoleType
role_of none = none
role_of (some row) = some row.role

-- The permissions of an access row, or else the role's.
abbrev pub permissions_of :
    Permissions → Option EventAccessProjection → Option EventRoleType → List String
permissions_of lib none role = lib.defaults role
permissions_of lib (some access) role = lib.unique access.permissions

module _ {T U : Type 0} (lib : Permissions) (roles : Projection EventUser EventRoleProjection T)
    (access : Projection EventUser EventAccessProjection U) where
  unfoldable pub get_role_for_user : EventUser → T → Option EventRoleType
  get_role_for_user key t = role_of (roles.find_unique key t)

  unfoldable pub get_permissions_for_user : EventUser → T → U → List String
  unfolding get_role_for_user
  get_permissions_for_user key t u =
      permissions_of lib (access.find_unique key u) (get_role_for_user key t)
