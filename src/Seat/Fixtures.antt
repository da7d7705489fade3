-- ===== src/Seat/Fixtures.antt =====
-- A small event for the tests: event 7 with a free seat, a seat of guest 40, an older free seat and
-- an orphan (assigned, with no holder), over the in-memory client.
use seat_service.Common.{ℕ, true, Option, none, some, List, [], ◌∷◌}
use seat_service.Meta.{null}
use seat_service.Database.{Db, Seat, SeatStatus, circle}
use seat_service.Database.Client.{Delegate, IsDelegate}
use seat_service.Database.Memory.{in_memory, in_memory-IsDelegate}
use seat_service.Seat.Rows.{fits}
use seat_service.Seat.Store.{Platform}

abbrev pub memory : Delegate Seat
memory = in_memory fits

abbrev pub memory_laws : IsDelegate fits memory
memory_laws = in_memory-IsDelegate fits

abbrev pub platform : Platform
platform = record {
  tenant_id = some 90;
  correlation_id = none;
  actor_id = none;
  is_uuid = λ n. true;
  accepts_fact = λ fact. true;
}

abbrev pub seat_row : ℕ → SeatStatus → Option ℕ → Option ℕ → ℕ → Seat
seat_row id status guest_id invitation_id created_at = record {
  id = id;
  status = status;
  event_id = 7;
  section_id = 70;
  table_id = none;
  number = some id;
  label = none;
  note = none;
  seat_type = none;
  shape = circle;
  x = none;
  y = none;
  width = none;
  height = none;
  rotation = none;
  guest_id = guest_id;
  invitation_id = invitation_id;
  meta = null;
  created_at = created_at;
}

abbrev pub with_seats : List Seat → Db
with_seats rows = record {
  sections = [];
  tables = [];
  seats = rows;
  assignment_logs = [];
  change_logs = [];
  outbox = [];
}

abbrev pub free_row : Seat
free_row = seat_row 1 SeatStatus.available none none 5

abbrev pub guest_row : Seat
guest_row = seat_row 2 SeatStatus.assigned (some 40) none 3

abbrev pub older_row : Seat
older_row = seat_row 3 SeatStatus.available none none 4

abbrev pub orphan_row : Seat
orphan_row = seat_row 4 SeatStatus.assigned none none 2

abbrev pub event_db : Db
event_db = with_seats (free_row ∷ guest_row ∷ older_row ∷ [])

abbrev pub orphan_db : Db
orphan_db = with_seats (free_row ∷ orphan_row ∷ [])
