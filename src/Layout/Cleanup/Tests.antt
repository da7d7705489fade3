-- ===== src/Layout/Cleanup/Tests.antt =====
-- The deletion of event 7: a seat of event 8 in a section of event 7 goes too, and one in a section of
-- event 8 stays, with a layout version of event 8.
use seat_service.Common.{ℕ, ◌≡◌, Bool, true, List, [], ◌∷◌, none}
use seat_service.Action.{ok}
use seat_service.Meta.{null}
use seat_service.Database.{Seat, SeatStatus, Section, SectionShape}
use seat_service.Database.Memory.{in_memory, in_memory-IsDelegate}
use seat_service.Seat.Fixtures.{free_row, seat_row, with_seats}
use seat_service.Layout.Cleanup.{Store, Delegates, delete_seats}
use seat_service.Layout.Cleanup.Laws.{delete_seats_left}

abbrev anything : {Row : Type 0} → List Row → Bool
anything rows = true

abbrev client : Delegates
client = record {
  logs = in_memory anything;
  seats = in_memory anything;
  tables = in_memory anything;
  sections = in_memory anything;
  changes = in_memory anything;
  versions = in_memory anything;
}

abbrev section_row : ℕ → ℕ → Section
section_row id event_id = record {
  id = id;
  event_id = event_id;
  name = "Hall";
  order = 1;
  capacity = none;
  shape = SectionShape.rectangle;
  x = 0;
  y = 0;
  width = none;
  height = none;
  rotation = none;
  meta = null;
}

abbrev astray : Seat
astray = record (seat_row 5 SeatStatus.available none none 1) { event_id = 8 }

abbrev at_home : Seat
at_home = record (seat_row 6 SeatStatus.available none none 1) { event_id = 8; section_id = 80 }

abbrev store : Store
store = record {
  db = record (with_seats (free_row ∷ astray ∷ at_home ∷ [])) {
    sections = section_row 70 7 ∷ section_row 80 8 ∷ [];
  };
  versions = (record { event_id = 7; version = 1 }) ∷ (record { event_id = 8; version = 2 }) ∷ [];
}

delete_seats_left_example : delete_seats client (7 ∷ []) store ≡ (
  ok tt,
  record {
    db = record (with_seats (at_home ∷ [])) { sections = section_row 80 8 ∷ [] };
    versions = (record { event_id = 8; version = 2 }) ∷ [];
  },
)
delete_seats_left_example =
    delete_seats_left client anything (in_memory-IsDelegate anything) anything
      (in_memory-IsDelegate anything) anything (in_memory-IsDelegate anything) anything
      (in_memory-IsDelegate anything) anything (in_memory-IsDelegate anything) anything
      (in_memory-IsDelegate anything) (7 ∷ []) store
