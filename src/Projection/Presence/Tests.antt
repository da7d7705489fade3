-- ===== src/Projection/Presence/Tests.antt =====
-- A ticket that is scanned and revoked.
use seat_service.Common.{◌≡◌, refl, ℕ, false, Option, none, some, List, [], ◌∷◌, map, ◌==◌}
use seat_service.Action.{ok, each, and_then}
use seat_service.Projection.{Projection, IsProjection, settle}
use seat_service.Projection.Memory.{in_memory, in_memory-IsProjection}
use seat_service.Projection.Presence.{
  SeatPresenceProjection, inside, EventMilestone, ticket_revoked, handle_milestone, scan_ticket,
  revoke_ticket,
}
use seat_service.Projection.Presence.Kept.{IsKept, scan}
use seat_service.Projection.Presence.Laws.{presence-IsKept, scans_presence}

abbrev PresenceTable : Type 0
PresenceTable = ℕ → Option SeatPresenceProjection

abbrev presence_table : Projection ℕ SeatPresenceProjection PresenceTable
presence_table = in_memory (λ i j. i == j)

abbrev presence_laws : IsProjection (λ i j. i == j) presence_table
presence_laws = in_memory-IsProjection (λ i j. i == j)

abbrev nobody : PresenceTable
nobody k = none

-- Seat 3 of event 7, scanned at 10, 20 and 30.
abbrev after_scans : PresenceTable
after_scans = (each (handle_milestone presence_table) (map (scan 3 7) (10 ∷ 20 ∷ 30 ∷ [])) nobody).1

after_scans_runs :
    each (handle_milestone presence_table) (map (scan 3 7) (10 ∷ 20 ∷ 30 ∷ [])) nobody
    ≡ (ok tt, after_scans)
unfolding each handle_milestone scan_ticket and_then settle
after_scans_runs = refl

abbrev entered : SeatPresenceProjection
entered = record {
  event_id = 7;
  presence_state = inside;
  checked_in_at = some 10;
  revoked = false;
  revoked_at = none;
}

scans_presence_example : presence_table.find_unique 3 after_scans ≡ some entered
scans_presence_example =
    scans_presence presence_table presence_laws 3 7 10 (20 ∷ 30 ∷ []) nobody after_scans
      after_scans_runs refl

abbrev revoked_then_scanned : List EventMilestone
revoked_then_scanned =
    (record { type = ticket_revoked; reference_id = some 3; event_id = 7; occurred_at = 40 })
    ∷ scan 3 7 50
    ∷ []

abbrev after_revocation : PresenceTable
after_revocation = (each (handle_milestone presence_table) revoked_then_scanned after_scans).1

after_revocation_runs :
    each (handle_milestone presence_table) revoked_then_scanned after_scans
    ≡ (ok tt, after_revocation)
unfolding each handle_milestone scan_ticket revoke_ticket and_then settle
after_revocation_runs = refl

presence-IsKept_example : IsKept entered (presence_table.find_unique 3 after_revocation)
presence-IsKept_example =
    presence-IsKept presence_table presence_laws revoked_then_scanned 3 after_scans after_revocation
      entered after_revocation_runs scans_presence_example
