-- ===== src/Layout/Plan/Tests.antt =====
-- The plan of 57 seats: six tables in two sections, the last table of seven.
use seat_service.Common.{◌≡◌, refl, All, List, [], ◌∷◌, map, length}
use seat_service.Layout.Plan.{
  Names, SectionConfig, TableConfig, fill, build, build_auto_generate_input_from_max_seats,
}
use seat_service.Layout.Plan.Laws.{
  all_tables, total_seats, IsNumbered, IsTableSize, IsSectionSize, plan_seats,
}

abbrev names : Names
names = record { table_name = λ n. "Table"; section_name = λ n. "Section" }

abbrev plan : List SectionConfig
plan = build_auto_generate_input_from_max_seats names 57

plan_sizes :
    map (λ (t : TableConfig). t.seats.count) (all_tables plan) ≡ 10 ∷ 10 ∷ 10 ∷ 10 ∷ 10 ∷ 7 ∷ []
unfolding build_auto_generate_input_from_max_seats build fill
plan_sizes = refl

plan_sections : map (λ (s : SectionConfig). length s.tables) plan ≡ 5 ∷ 1 ∷ []
unfolding build_auto_generate_input_from_max_seats build fill
plan_sections = refl

plan_seats_example :
    (total_seats (all_tables plan) ≡ 57)
    × All IsTableSize (all_tables plan)
    × IsNumbered 1 (all_tables plan)
    × All IsSectionSize plan
plan_seats_example = plan_seats names 57
