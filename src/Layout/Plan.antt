-- ===== src/Layout/Plan.antt =====
-- `buildAutoGenerateInputFromMaxSeats` of src/layout/services/layout-write.service.ts: the sections
-- and tables for a number of seats. The texts of numbers are the language's, a parameter; `maxSeats`
-- is a whole number below 2 ^ 53, on which `Math.ceil` of a quotient is exact.
pub mod Laws
mod Tests
use seat_service.Common.{
  ℕ, zero, suc, ◌+◌, ◌-◌, ◌/◌, List, [], ◌∷◌, String, leb, if◌then◌else◌, map,
}
use seat_service.Meta.{Fields, end}
use seat_service.Database.{SeatShape, TableShape, SectionShape, circle}

pub record SeatConfig : Type 0 where
  pub count : ℕ
  pub shape : SeatShape
  pub meta : Fields

pub record TableConfig : Type 0 where
  pub name : String
  pub shape : TableShape
  pub order : ℕ
  pub seats : SeatConfig
  pub meta : Fields

pub record SectionConfig : Type 0 where
  pub name : String
  pub shape : SectionShape
  pub order : ℕ
  pub meta : Fields
  pub tables : List TableConfig

abbrev pub max_seats_per_table : ℕ
max_seats_per_table = 10

abbrev pub max_tables_per_section : ℕ
max_tables_per_section = 5

-- `Math.min(a, b)`
abbrev pub minimum : ℕ → ℕ → ℕ
minimum a b = if leb a b then a else b

-- `Math.ceil(n / d)`, for the two divisors
abbrev pub ceil_tables : ℕ → ℕ
ceil_tables n = (n + 9) / 10

abbrev pub ceil_sections : ℕ → ℕ
ceil_sections n = (n + 4) / 5

-- The names of a table and of a section of an order.
pub record Names : Type 0 where
  pub table_name : ℕ → String
  pub section_name : ℕ → String

module _ (names : Names) where
  abbrev pub table_config : ℕ → ℕ → TableConfig
  table_config order seat_count = record {
    name = names.table_name order;
    shape = TableShape.round;
    order = order;
    seats = record { count = seat_count; shape = circle; meta = end };
    meta = end;
  }

  abbrev pub section_config : ℕ → List TableConfig → SectionConfig
  section_config order tables = record {
    name = names.section_name order;
    shape = SectionShape.circle;
    order = order;
    meta = end;
    tables = tables;
  }

-- The rounds of the inner loop, and the seats and the order that they leave.
pub record Filled : Type 0 where
  pub tables : List TableConfig
  pub remaining_seats : ℕ
  pub table_order : ℕ

abbrev pub push : TableConfig → Filled → Filled
push table filled = record filled { tables = table ∷ filled.tables }

module _ (names : Names) where
  unfoldable pub fill : ℕ → ℕ → ℕ → Filled
  fill zero remaining table_order = record {
    tables = [];
    remaining_seats = remaining;
    table_order = table_order;
  }
  fill (suc rounds) remaining table_order =
      let seat_count = minimum max_seats_per_table remaining in
      let rest = fill rounds (remaining - seat_count) (suc table_order) in
      if leb remaining 0
      then record { tables = []; remaining_seats = remaining; table_order = table_order }
      else push (table_config names table_order seat_count) rest

  -- The rounds of the outer loop.
  unfoldable pub build : ℕ → ℕ → ℕ → ℕ → List SectionConfig
  build zero remaining table_order section_order = []
  build (suc rounds) remaining table_order section_order =
      let filled = fill max_tables_per_section remaining table_order in
      section_config names section_order filled.tables
      ∷ build rounds filled.remaining_seats filled.table_order (suc section_order)

  unfoldable pub build_auto_generate_input_from_max_seats : ℕ → List SectionConfig
  build_auto_generate_input_from_max_seats max_seats =
      build (ceil_sections (ceil_tables max_seats)) max_seats 1 1
