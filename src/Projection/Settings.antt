-- ===== src/Projection/Settings.antt =====
-- src/handlers/event-settings.handler.ts: the settings of an event. A field of a message that is
-- `undefined` or, where the source uses `??`, `null` is `none`, but for the colour groups, whose `null`
-- is a JSON value; the inner option of `ends_at` is `null`. The client sets `updatedAt` to the time of the write, the argument `now`.
pub mod Laws
mod Tests
use seat_service.Common.{ℕ, Bool, false, Option, none, some, String, get_or, or_else, if◌then◌else◌}
use seat_service.Action.{Action, ◌>>=◌, pure, gets}
use seat_service.Meta.{Json, null}
use seat_service.Projection.{Projection, is_before, write}

pub record EventSettingsProjection : Type 0 where
  pub name : Option String
  pub ends_at : Option ℕ
  pub max_seats : Option ℕ
  pub allow_guest_seat_selection : Bool
  pub seat_color_groups : Option Json
  pub updated_at : Option ℕ

pub record EventCreated : Type 0 where
  pub event_id : ℕ
  pub name : String
  pub ends_at : Option ℕ
  pub max_seats : ℕ
  pub allow_guest_seat_selection : Bool
  pub seat_color_groups : Option Json

pub record EventUpdated : Type 0 where
  pub event_id : ℕ
  pub name : Option String
  pub ends_at : Option (Option ℕ)
  pub max_seats : Option ℕ
  pub allow_guest_seat_selection : Option Bool
  pub seat_color_groups : Option Json
  pub occurred_at : ℕ

-- `existing?.updatedAt`
abbrev pub settings_time : Option EventSettingsProjection → Option ℕ
settings_time none = none
settings_time (some row) = row.updated_at

-- What is stored of a JSON value that is given: `null` is the null of the column.
abbrev pub not_null : Option Json → Option Json
not_null (some null) = none
not_null groups = groups

-- The column after an update, which a value that is not given leaves; one that is given, `null` too,
-- is stored.
abbrev pub groups_after : Option Json → Option Json → Option Json
groups_after none row = row
groups_after (some groups) row = not_null (some groups)

-- `create` and `update` of a creation; `seatColorGroups ?? undefined` gives no value for `null`.
abbrev pub created_row : ℕ → EventCreated → EventSettingsProjection
created_row now payload = record {
  name = some payload.name;
  ends_at = payload.ends_at;
  max_seats = some payload.max_seats;
  allow_guest_seat_selection = payload.allow_guest_seat_selection;
  seat_color_groups = not_null payload.seat_color_groups;
  updated_at = some now;
}

abbrev pub recreated_row : ℕ → EventCreated → EventSettingsProjection → EventSettingsProjection
recreated_row now payload row = record {
  name = some payload.name;
  ends_at = payload.ends_at;
  max_seats = some payload.max_seats;
  allow_guest_seat_selection = payload.allow_guest_seat_selection;
  seat_color_groups = or_else (not_null payload.seat_color_groups) row.seat_color_groups;
  updated_at = some now;
}

-- `create` and `update` of an update.
abbrev pub default_row : ℕ → EventUpdated → EventSettingsProjection
default_row now payload = record {
  name = payload.name;
  ends_at = get_or payload.ends_at none;
  max_seats = payload.max_seats;
  allow_guest_seat_selection = get_or payload.allow_guest_seat_selection false;
  seat_color_groups = not_null payload.seat_color_groups;
  updated_at = some now;
}

abbrev pub updated_row : ℕ → EventUpdated → EventSettingsProjection → EventSettingsProjection
updated_row now payload row = record {
  name = or_else payload.name row.name;
  ends_at = get_or payload.ends_at row.ends_at;
  max_seats = or_else payload.max_seats row.max_seats;
  allow_guest_seat_selection =
      get_or payload.allow_guest_seat_selection row.allow_guest_seat_selection;
  seat_color_groups = groups_after payload.seat_color_groups row.seat_color_groups;
  updated_at = some now;
}

module _ {T : Type 0} (p : Projection ℕ EventSettingsProjection T) where
  unfoldable pub handle_event_created : ℕ → EventCreated → Action T Unit
  handle_event_created now payload =
      write (p.upsert payload.event_id (created_row now payload) (recreated_row now payload))

  unfoldable pub handle_event_updated : ℕ → EventUpdated → Action T Unit
  handle_event_updated now payload = do
    existing ← gets (p.find_unique payload.event_id)
    if is_before payload.occurred_at (settings_time existing)
        then pure tt
        else write (p.upsert payload.event_id (default_row now payload) (updated_row now payload))
