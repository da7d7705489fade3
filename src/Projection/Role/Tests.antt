-- ===== src/Projection/Role/Tests.antt =====
-- Roles that messages drop and restore, a change of owner, and the deletion of an event.
use seat_service.Common.{
  ◌≡◌, refl, if◌then◌else◌, ℕ, ◌⊎◌, false, Option, none, some, [], ◌∷◌, arith, any, ◌==◌,
}
use seat_service.Action.{ok, err, and_then}
use seat_service.Errors.{write_refused}
use seat_service.Projection.{
  Projection, IsProjection, EventUser, same_event_user, is_before, settle,
}
use seat_service.Projection.Memory.{in_memory, in_memory-IsProjection}
use seat_service.Projection.Access.{EventAccessProjection}
use seat_service.Projection.Role.{
  EventRoleProjection, EventRoleType, admin, other_role, EventRoleAssigned, EventRoleRemoved,
  EventOwnerChanged, role_time, handle_role_assigned, handle_role_removed, handle_owner_changed,
  remove_old_owner, add_new_owner, handle_event_deleted, is_of_events,
}
use seat_service.Projection.Role.Laws.{
  role_row, newer_role_dropped, removed_role_returns, owner_changed_roles,
}
use seat_service.Projection.Role.Deleted.{IsWithout, event_deleted_tables}

-- User 5 at event 7.
abbrev user : EventUser
user = (7, 5)

abbrev access_table :
    Projection EventUser EventAccessProjection (EventUser → Option EventAccessProjection)
access_table = in_memory same_event_user

abbrev access_laws : IsProjection same_event_user access_table
access_laws = in_memory-IsProjection same_event_user

abbrev no_access : EventUser → Option EventAccessProjection
no_access k = none

abbrev RoleTable : Type 0
RoleTable = EventUser → Option EventRoleProjection

abbrev role_table : Projection EventUser EventRoleProjection RoleTable
role_table = in_memory same_event_user

abbrev role_laws : IsProjection same_event_user role_table
role_laws = in_memory-IsProjection same_event_user

abbrev no_roles : RoleTable
no_roles k = none

abbrev assigned : ℕ → EventRoleType → EventRoleAssigned
assigned time role = record { event_id = 7; user_id = 5; role = role; occurred_at = time }

-- Assigned at time 1, and written at time 10.
abbrev one_role : RoleTable
one_role = (handle_role_assigned role_table 10 (assigned 1 (other_role 0)) no_roles).1

one_role_runs :
    handle_role_assigned role_table 10 (assigned 1 (other_role 0)) no_roles ≡ (ok tt, one_role)
unfolding handle_role_assigned and_then settle
one_role_runs = refl

-- The assignment of time 5 is dropped, though it is newer than that of time 1.
newer_role_dropped_example :
    (handle_role_assigned role_table 11 (assigned 5 admin) one_role ≡ (ok tt, one_role))
    × (role_table.find_unique user one_role ≡ some (role_row 10 (other_role 0)))
newer_role_dropped_example =
    newer_role_dropped role_table role_laws 10 11 (assigned 1 (other_role 0)) (assigned 5 admin)
      no_roles one_role refl one_role_runs refl refl (omega arith)

abbrev removed : EventRoleRemoved
removed = record { event_id = 7; user_id = 5; occurred_at = 20 }

abbrev role_gone : RoleTable
role_gone = (handle_role_removed role_table removed one_role).1

abbrev role_back : RoleTable
role_back = (handle_role_assigned role_table 30 (assigned 15 admin) role_gone).1

one_role_fresh : is_before 20 (role_time (role_table.find_unique user one_role)) ≡ false
unfolding handle_role_assigned and_then settle
one_role_fresh = refl

role_gone_runs : handle_role_removed role_table removed one_role ≡ (ok tt, role_gone)
unfolding handle_role_assigned handle_role_removed and_then settle
role_gone_runs = refl

role_back_runs :
    handle_role_assigned role_table 30 (assigned 15 admin) role_gone ≡ (ok tt, role_back)
unfolding handle_role_assigned handle_role_removed and_then settle
role_back_runs = refl

removed_role_returns_example :
    (role_table.find_unique user role_gone ≡ none)
    × (role_table.find_unique user role_back ≡ some (role_row 30 admin))
removed_role_returns_example =
    removed_role_returns role_table role_laws 30 removed (assigned 15 admin) one_role role_gone
      role_back one_role_fresh role_gone_runs refl refl role_back_runs

abbrev owner_change : EventOwnerChanged
owner_change = record { event_id = 7; old_owner_id = some 5; new_owner_id = 6; occurred_at = 20 }

abbrev new_owner_roles : RoleTable
new_owner_roles = (handle_owner_changed role_table 21 owner_change one_role).1

new_owner_runs : handle_owner_changed role_table 21 owner_change one_role ≡ (ok tt, new_owner_roles)
unfolding handle_owner_changed remove_old_owner add_new_owner handle_role_assigned and_then settle
new_owner_runs = refl

owner_changed_roles_example :
    (role_table.find_unique (7, 6) new_owner_roles ≡ (
      if is_before 20 (role_time (role_table.find_unique (7, 6) one_role))
      then role_table.find_unique (7, 6) one_role
      else some (role_row 21 admin)))
    × (role_table.find_unique (7, 5) new_owner_roles ≡ (
        if is_before 20 (role_time (role_table.find_unique (7, 5) one_role))
        then role_table.find_unique (7, 5) one_role
        else none))
    × ((j : EventUser)
        → same_event_user (7, 6) j ≡ false
        → same_event_user (7, 5) j ≡ false
        → role_table.find_unique j new_owner_roles ≡ role_table.find_unique j one_role)
owner_changed_roles_example =
    owner_changed_roles role_table role_laws 21 owner_change 5 one_role new_owner_roles refl refl
      new_owner_runs

abbrev settings_table : Projection ℕ ℕ (ℕ → Option ℕ)
settings_table = in_memory (λ i j. i == j)

abbrev some_settings : ℕ → Option ℕ
some_settings k = some k

abbrev without_event : {A : Type 0} → (EventUser → Option A) → EventUser → Option A
without_event t j = if is_of_events (7 ∷ []) j then none else t j

abbrev without_settings : ℕ → Option ℕ
without_settings i = if any (λ id. id == i) (7 ∷ []) then none else some_settings i

event_deleted_runs :
    handle_event_deleted role_table settings_table access_table
      (7 ∷ [])
      (one_role, some_settings, no_access)
    ≡ (ok tt, (without_event one_role, without_settings, without_event no_access))
unfolding handle_event_deleted
event_deleted_runs = refl

event_deleted_tables_example :
    (IsWithout role_table (is_of_events (7 ∷ [])) one_role (without_event one_role)
      ⊎ ((without_event one_role ≡ one_role) × (ok (tt {0}) ≡ err write_refused)))
    × (IsWithout settings_table (λ i. any (λ id. id == i) (7 ∷ [])) some_settings without_settings
        ⊎ ((without_settings ≡ some_settings) × (ok (tt {0}) ≡ err write_refused)))
    × (IsWithout access_table (is_of_events (7 ∷ [])) no_access (without_event no_access)
        ⊎ ((without_event no_access ≡ no_access) × (ok (tt {0}) ≡ err write_refused)))
event_deleted_tables_example =
    event_deleted_tables role_table settings_table access_table role_laws
      (in_memory-IsProjection (λ i j. i == j)) access_laws (7 ∷ []) one_role
      (without_event one_role) some_settings without_settings no_access (without_event no_access)
      (ok tt) event_deleted_runs
