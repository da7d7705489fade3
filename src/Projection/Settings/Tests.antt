-- ===== src/Projection/Settings/Tests.antt =====
-- An event that is created, and updated twice.
use seat_service.Common.{◌≡◌, refl, ℕ, true, false, Option, none, some, ◌==◌}
use seat_service.Action.{ok, and_then}
use seat_service.Projection.{Projection, IsProjection, is_before, settle}
use seat_service.Projection.Memory.{in_memory, in_memory-IsProjection}
use seat_service.Projection.Settings.{
  EventSettingsProjection, EventCreated, EventUpdated, settings_time, handle_event_created,
  handle_event_updated,
}
use seat_service.Projection.Settings.Laws.{overlay, updates_overlay}

abbrev SettingsTable : Type 0
SettingsTable = ℕ → Option EventSettingsProjection

abbrev table : Projection ℕ EventSettingsProjection SettingsTable
table = in_memory (λ i j. i == j)

abbrev table_laws : IsProjection (λ i j. i == j) table
table_laws = in_memory-IsProjection (λ i j. i == j)

abbrev gala : EventCreated
gala = record {
  event_id = 7;
  name = "Gala";
  ends_at = some 900;
  max_seats = 57;
  allow_guest_seat_selection = true;
  seat_color_groups = none;
}

abbrev created : SettingsTable
created = (handle_event_created table 10 gala (λ k. none)).1

-- A new name; then no end, and more seats.
abbrev renamed : EventUpdated
renamed = record {
  event_id = 7;
  name = some "Ball";
  ends_at = none;
  max_seats = none;
  allow_guest_seat_selection = none;
  seat_color_groups = none;
  occurred_at = 20;
}

abbrev enlarged : EventUpdated
enlarged = record {
  event_id = 7;
  name = none;
  ends_at = some none;
  max_seats = some 80;
  allow_guest_seat_selection = none;
  seat_color_groups = none;
  occurred_at = 30;
}

abbrev after_rename : SettingsTable
after_rename = (handle_event_updated table 21 renamed created).1

abbrev after_both : SettingsTable
after_both = (handle_event_updated table 31 enlarged after_rename).1

abbrev after_overlay : SettingsTable
after_overlay = (handle_event_updated table 31 (overlay enlarged renamed) created).1

created_fresh : is_before 20 (settings_time (table.find_unique 7 created)) ≡ false
unfolding handle_event_created and_then settle
created_fresh = refl

created_fresh_later : is_before 30 (settings_time (table.find_unique 7 created)) ≡ false
unfolding handle_event_created and_then settle
created_fresh_later = refl

rename_fresh : is_before 30 (settings_time (table.find_unique 7 after_rename)) ≡ false
unfolding handle_event_created handle_event_updated and_then settle
rename_fresh = refl

rename_runs : handle_event_updated table 21 renamed created ≡ (ok tt, after_rename)
unfolding handle_event_created handle_event_updated and_then settle
rename_runs = refl

enlarge_runs : handle_event_updated table 31 enlarged after_rename ≡ (ok tt, after_both)
unfolding handle_event_created handle_event_updated and_then settle
enlarge_runs = refl

overlay_runs :
    handle_event_updated table 31 (overlay enlarged renamed) created ≡ (ok tt, after_overlay)
unfolding handle_event_created handle_event_updated and_then settle
overlay_runs = refl

after_both_row :
    table.find_unique 7 after_both
    ≡ some (record {
      name = some "Ball";
      ends_at = none;
      max_seats = some 80;
      allow_guest_seat_selection = true;
      seat_color_groups = none;
      updated_at = some 31;
    })
unfolding handle_event_created handle_event_updated and_then settle
after_both_row = refl

updates_overlay_example : table.find_unique 7 after_both ≡ table.find_unique 7 after_overlay
updates_overlay_example =
    updates_overlay table table_laws 21 31 renamed enlarged created after_rename after_both
      after_overlay refl created_fresh rename_fresh created_fresh_later rename_runs enlarge_runs
      overlay_runs
