-- ===== src/Layout/Geometry/Entries.antt =====
-- The changes of places, what a history keeps of them, and the `data` of the updates. Numbers are
-- doubles, as bit patterns.
use seat_service.Common.{
  ℕ, suc, ◌-◌, ◌/◌, ◌%◌, ◌^◌, Bool, true, false, ◌&&◌, ◌||◌, not, Option, none, some, List, [], ◌∷◌,
  any, ◌==◌, ltb, or_else, get_or, if◌then◌else◌,
}
use seat_service.Database.{Db, Section, Table, Seat, Double}
use seat_service.Database.Client.{Delegate}

pub data LayoutGeometryKind : Type 0 where
  seat table section : LayoutGeometryKind

-- An entry of a history, whose numbers are `null` where the row's are.
pub record Entry : Type 0 where
  pub id : ℕ
  pub kind : LayoutGeometryKind
  pub x : Option Double
  pub y : Option Double
  pub width : Option Double
  pub height : Option Double
  pub rotation : Option Double

pub record GeometryChange : Type 0 where
  pub id : ℕ
  pub kind : LayoutGeometryKind
  pub x : Double
  pub y : Double
  pub width : Double
  pub height : Double
  pub rotation : Double

pub record ApplyLayoutGeometryInput : Type 0 where
  pub event_id : ℕ
  pub changes : List GeometryChange

pub record LayoutGeometryHistory : Type 0 where
  pub id : ℕ
  pub event_id : ℕ
  pub actor_id : ℕ
  pub position : ℕ
  pub before : List Entry
  pub after : List Entry
  pub applied : Bool

pub record Store : Type 0 where
  pub db : Db
  pub history : List LayoutGeometryHistory

pub record Delegates : Type 0 where
  pub seats : Delegate Seat
  pub tables : Delegate Table
  pub sections : Delegate Section
  pub history : Delegate LayoutGeometryHistory

-- `Number.isFinite`, and `value > 0` for a finite number.
abbrev pub is_finite : Double → Bool
is_finite d = not (d / 2 ^ 52 % 2 ^ 11 == 2 ^ 11 - 1)

abbrev pub is_positive : Double → Bool
is_positive d = ltb 0 d && ltb d (2 ^ 63)

abbrev pub is_valid : GeometryChange → Bool
is_valid c =
    is_finite c.x
    && is_finite c.y
    && is_finite c.width
    && is_finite c.height
    && is_finite c.rotation
    && is_positive c.width
    && is_positive c.height

-- `new Set(ids).size !== ids.length`
abbrev pub has_duplicates : List ℕ → Bool
has_duplicates [] = false
has_duplicates (id ∷ ids) = any (λ i. i == id) ids || has_duplicates ids

abbrev pub same_kind : LayoutGeometryKind → LayoutGeometryKind → Bool
same_kind seat seat = true
same_kind table table = true
same_kind section section = true
same_kind _ _ = false

-- What the entry of a change keeps of a row.
abbrev pub seat_entry : Seat → Entry
seat_entry r = record {
  id = r.id;
  kind = seat;
  x = r.x;
  y = r.y;
  width = r.width;
  height = r.height;
  rotation = r.rotation;
}

abbrev pub table_entry : Table → Entry
table_entry r = record {
  id = r.id;
  kind = table;
  x = some r.x;
  y = some r.y;
  width = r.width;
  height = r.height;
  rotation = r.rotation;
}

abbrev pub section_entry : Section → Entry
section_entry r = record {
  id = r.id;
  kind = section;
  x = some r.x;
  y = some r.y;
  width = r.width;
  height = r.height;
  rotation = r.rotation;
}

-- `after: input.changes`
abbrev pub change_entry : GeometryChange → Entry
change_entry c = record {
  id = c.id;
  kind = c.kind;
  x = some c.x;
  y = some c.y;
  width = some c.width;
  height = some c.height;
  rotation = some c.rotation;
}

-- `data` of the updates.
abbrev pub put_seat : Entry → Seat → Seat
put_seat e r = record r {
  x = e.x;
  y = e.y;
  width = e.width;
  height = e.height;
  rotation = e.rotation;
}

abbrev pub put_table : Entry → Table → Table
put_table e r = record r {
  x = get_or e.x r.x;
  y = get_or e.y r.y;
  width = e.width;
  height = e.height;
  rotation = e.rotation;
}

abbrev pub put_section : Entry → Section → Section
put_section e r = record r {
  x = get_or e.x r.x;
  y = get_or e.y r.y;
  width = e.width;
  height = e.height;
  rotation = e.rotation;
}

-- The largest position, and one more; the first position is 0.
abbrev pub next_position : Option ℕ → ℕ
next_position none = 0
next_position (some n) = suc n

-- What the two sources of a map of records have for an id: the later source wins.
abbrev pub map_get : List Entry → ℕ → Option Entry
map_get [] id = none
map_get (e ∷ es) id = or_else (map_get es id) (if e.id == id then some e else none)

abbrev pub is_of_kind : LayoutGeometryKind → Option Entry → Bool
is_of_kind kind none = false
is_of_kind kind (some e) = same_kind e.kind kind
