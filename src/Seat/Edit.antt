-- ===== src/Seat/Edit.antt =====
-- `createSeat`, `updateSeat` and `deleteSeat` of src/seat/services/seat-write.service.ts.
use seat_service.Common.{
  List, ℕ, Bool, true, Option, none, some, String, get_or, or_else, if◌then◌else◌,
}
use seat_service.Errors.{seat_not_found, write_refused}
use seat_service.Action.{Action, ok, ◌>>=◌, ◌>>◌, pure, throw, require}
use seat_service.Meta.{Json, Indexing, prepare_meta, is_falsy}
use seat_service.Database.{
  Db, Seat, SeatShape, SeatType, Double, available, circle, seat_create, seat_update, seat_delete,
}
use seat_service.Database.Client.{Delegate}
use seat_service.Seat.Store.{log_change, find_unique, update, delete}

pub record CreateSeatInput : Type 0 where
  pub event_id : ℕ
  pub section_id : ℕ
  pub table_id : Option ℕ
  pub number : Option ℕ
  pub label : Option String
  pub note : Option String
  pub x : Option Double
  pub y : Option Double
  pub rotation : Option Double
  pub seat_type : Option SeatType
  pub meta : Json

pub record UpdateSeatInput : Type 0 where
  pub id : ℕ
  pub label : Option String
  pub note : Option String
  pub number : Option ℕ
  pub seat_type : Option SeatType
  pub x : Option Double
  pub y : Option Double
  pub rotation : Option Double
  pub width : Option Double
  pub height : Option Double
  pub shape : Option SeatShape
  pub meta : Json

module _ (ix : Indexing) (t : Delegate Seat) where
  -- The row of `create`; the columns that it leaves out have the defaults of the schema. The id and
  -- the time are the database's.
  unfoldable pub new_seat : ℕ → ℕ → CreateSeatInput → Seat
  new_seat id now input = record {
    id = id;
    status = available;
    event_id = input.event_id;
    section_id = input.section_id;
    table_id = input.table_id;
    number = input.number;
    label = input.label;
    note = input.note;
    seat_type = input.seat_type;
    shape = circle;
    x = input.x;
    y = input.y;
    width = none;
    height = none;
    rotation = input.rotation;
    guest_id = none;
    invitation_id = none;
    meta = prepare_meta ix input.meta;
    created_at = now;
  }

  put_created : Option (List Seat) → Action Db Unit
  put_created none = throw write_refused
  put_created (some rows) = λ db. (ok tt, record db { seats = rows })

  unfoldable pub create_seat : ℕ → ℕ → CreateSeatInput → ℕ → Action Db Seat
  unfolding new_seat put_created log_change
  create_seat id now input actor_id = do
    λ db. put_created (t.create (new_seat id now input) db.seats) db
    log_change input.event_id actor_id seat_create
    pure (new_seat id now input)

  -- `data` of `update`: what the input leaves out stays.
  unfoldable pub edit_seat : UpdateSeatInput → Seat → Seat
  edit_seat input s = record s {
    label = or_else input.label s.label;
    note = or_else input.note s.note;
    number = or_else input.number s.number;
    seat_type = or_else input.seat_type s.seat_type;
    x = or_else input.x s.x;
    y = or_else input.y s.y;
    rotation = or_else input.rotation s.rotation;
    width = or_else input.width s.width;
    height = or_else input.height s.height;
    shape = get_or input.shape s.shape;
    meta = if is_falsy input.meta then s.meta else prepare_meta ix input.meta;
  }

  unfoldable pub update_seat : UpdateSeatInput → ℕ → Action Db Seat
  unfolding edit_seat find_unique update log_change
  update_seat input actor_id = do
    found ← find_unique t input.id
    exists ← require found (seat_not_found (some input.id))
    updated ← update t input.id (edit_seat input)
    log_change exists.event_id actor_id seat_update
    pure updated

  unfoldable pub delete_seat : ℕ → ℕ → Action Db Bool
  unfolding find_unique delete log_change
  delete_seat seat_id actor_id = do
    found ← find_unique t seat_id
    exists ← require found (seat_not_found (some seat_id))
    delete t seat_id
    log_change exists.event_id actor_id seat_delete
    pure true
