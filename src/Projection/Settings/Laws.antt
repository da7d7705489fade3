-- ===== src/Projection/Settings/Laws.antt =====
-- Two updates of an event's settings in a row are one.
use seat_service.Common.{
  ◌≡◌, refl, sym, ◌∙◌, ap, ℕ, false, Option, none, some, get_or, or_else, ◌==◌, ==_self,
}
use seat_service.Action.{ok, and_then}
use seat_service.Meta.{Json}
use seat_service.Projection.{Projection, IsProjection, is_before, write, write-ok, upserted}
use seat_service.Projection.Settings.{
  EventSettingsProjection, EventUpdated, settings_time, not_null, groups_after, default_row,
  updated_row, handle_event_updated,
}

-- The message with the fields of the later one, and those of the earlier one that it leaves out.
abbrev pub overlay : EventUpdated → EventUpdated → EventUpdated
overlay later earlier = record later {
  name = or_else later.name earlier.name;
  ends_at = or_else later.ends_at earlier.ends_at;
  max_seats = or_else later.max_seats earlier.max_seats;
  allow_guest_seat_selection =
      or_else later.allow_guest_seat_selection earlier.allow_guest_seat_selection;
  seat_color_groups = or_else later.seat_color_groups earlier.seat_color_groups;
}

or_else_assoc : {A : Type 0} (a b c : Option A) → or_else a (or_else b c) ≡ or_else (or_else a b) c
or_else_assoc none b c = refl
or_else_assoc (some a) b c = refl

get_or-or_else :
    {A : Type 0} (a b : Option A) (c : A) → get_or a (get_or b c) ≡ get_or (or_else a b) c
get_or-or_else none b c = refl
get_or-or_else (some a) b c = refl

groups_after-or_else :
    (a b row : Option Json) → groups_after a (groups_after b row) ≡ groups_after (or_else a b) row
groups_after-or_else none b row = refl
groups_after-or_else (some j) b row = refl

groups_after-not_null : (a b : Option Json) → groups_after a (not_null b) ≡ not_null (or_else a b)
groups_after-not_null none b = refl
groups_after-not_null (some j) b = refl

updated_row-overlay :
    (now later : ℕ) (a b : EventUpdated) (row : EventSettingsProjection)
    → updated_row later b (updated_row now a row) ≡ updated_row later (overlay b a) row
updated_row-overlay now later a b row = rw (or_else_assoc b.name a.name row.name) (
    rw (get_or-or_else b.ends_at a.ends_at row.ends_at) (
      rw (or_else_assoc b.max_seats a.max_seats row.max_seats) (
        rw
          (get_or-or_else b.allow_guest_seat_selection a.allow_guest_seat_selection
            row.allow_guest_seat_selection)
          (rw (groups_after-or_else b.seat_color_groups a.seat_color_groups row.seat_color_groups)
            refl))))

default_row-overlay :
    (now later : ℕ) (a b : EventUpdated)
    → updated_row later b (default_row now a) ≡ default_row later (overlay b a)
default_row-overlay now later a b = rw (get_or-or_else b.ends_at a.ends_at none) (
    rw (get_or-or_else b.allow_guest_seat_selection a.allow_guest_seat_selection false)
      (rw (groups_after-not_null b.seat_color_groups a.seat_color_groups) refl))

module _ {T : Type 0} (p : Projection ℕ EventSettingsProjection T)
    (law : IsProjection (λ i j. i == j) p) where
  upsert_self :
      (k : ℕ) (create : EventSettingsProjection)
      (update : EventSettingsProjection → EventSettingsProjection) (t t' : T) {u : Unit {0}}
      → write (p.upsert k create update) t ≡ (ok u, t')
      → p.find_unique k t' ≡ some (upserted create update (p.find_unique k t))
  upsert_self k create update t t' h =
      law.find-upsert k k create update t t' (write-ok (p.upsert k create update) t t' h)
      ∙ rw (==_self k) refl

  handle_event_updated_self :
      (now : ℕ) (m : EventUpdated) (t t' : T)
      → is_before m.occurred_at (settings_time (p.find_unique m.event_id t)) ≡ false
      → handle_event_updated p now m t ≡ (ok tt, t')
      → p.find_unique m.event_id t'
        ≡ some (upserted (default_row now m) (updated_row now m) (p.find_unique m.event_id t))
  unfolding handle_event_updated and_then
  handle_event_updated_self now m t t' fresh h =
      upsert_self m.event_id (default_row now m) (updated_row now m) t t' (rw fresh at h)

  -- Two updates of an event, neither older than the row that it meets, leave what one update with
  -- the fields of the second, and those of the first that it leaves out, leaves at the second's time.
  pub updates_overlay :
      (now later : ℕ) (a b : EventUpdated) (t s t' o : T)
      → b.event_id ≡ a.event_id
      → is_before a.occurred_at (settings_time (p.find_unique a.event_id t)) ≡ false
      → is_before b.occurred_at (settings_time (p.find_unique b.event_id s)) ≡ false
      → is_before b.occurred_at (settings_time (p.find_unique b.event_id t)) ≡ false
      → handle_event_updated p now a t ≡ (ok tt, s)
      → handle_event_updated p later b s ≡ (ok tt, t')
      → handle_event_updated p later (overlay b a) t ≡ (ok tt, o)
      → p.find_unique b.event_id t' ≡ p.find_unique b.event_id o
  updates_overlay now later a b t s t' o event fresh_a fresh_b fresh_o h i both =
      let first : p.find_unique b.event_id s
          ≡ some (upserted (default_row now a) (updated_row now a) (p.find_unique b.event_id t)) =
        rw event (handle_event_updated_self now a t s fresh_a h) in
      let second = handle_event_updated_self later b s t' fresh_b i in
      let once = handle_event_updated_self later (overlay b a) t o fresh_o both in
      second ∙ rw first (merged (p.find_unique b.event_id t)) ∙ sym once
    where
      merged :
          (old : Option EventSettingsProjection)
          → some (updated_row later b (upserted (default_row now a) (updated_row now a) old))
            ≡ some
                (upserted (default_row later (overlay b a)) (updated_row later (overlay b a)) old)
      merged none = ap some (default_row-overlay now later a b)
      merged (some row) = ap some (updated_row-overlay now later a b row)
