-- ===== src/Raster/Tests.antt =====
-- A raster of two dark and four light pixels, with whole numbers, distances and the double −1 for
-- the doubles.
use seat_service.Common.{◌≡◌, refl, ◌+◌, ◌-◌, ◌*◌, ◌/◌, some, [], ◌∷◌, ltb, ◌||◌, ◌==◌}
use seat_service.Raster.{
  PreparedLayoutSource, Doubles, found, scan_value, scan_values, separate, binary_threshold,
}
use seat_service.Raster.Laws.{Outcome, binary_threshold_cases}

abbrev whole : Doubles
whole = record {
  from_int = λ n. n;
  sub = λ a b. (a - b) + (b - a);
  mul = λ a b. a * b;
  div = λ a b. a / b;
  gt = λ a b. ltb b a || b == 0xbff0000000000000;
}

abbrev plan : PreparedLayoutSource
plan = record { width = 3; height = 2; channels = 1; pixels = 10 ∷ 12 ∷ 250 ∷ 255 ∷ 251 ∷ 250 ∷ [] }

threshold_of_plan : binary_threshold whole plan ≡ found (some 12)
unfolding binary_threshold separate scan_values scan_value
threshold_of_plan = refl

binary_threshold_cases_example : Outcome plan (binary_threshold whole plan)
binary_threshold_cases_example = binary_threshold_cases whole plan
