-- ===== src/Raster/Components/Tests.antt =====
-- A raster of four by two pixels: a diagonal of dark pixels, and one dark pixel apart.
use seat_service.Common.{◌≡◌, ◌≤◌, refl, ap, some, List, ℕ, [], ◌∷◌, length}
use seat_service.Raster.{PreparedLayoutSource}
use seat_service.Raster.Components.{
  is_zero, get_at, set_at, visit, visit_each, fill_pixel, flood, fill_from,
}
use seat_service.Raster.Components.Drained.{fill_drained}

abbrev diagonal : PreparedLayoutSource
diagonal = record {
  width = 4;
  height = 2;
  channels = 1;
  pixels = 10 ∷ 250 ∷ 250 ∷ 12 ∷ 250 ∷ 11 ∷ 250 ∷ 250 ∷ [];
}

abbrev unlabelled : List ℕ
unlabelled = 0 ∷ 0 ∷ 0 ∷ 0 ∷ 0 ∷ 0 ∷ 0 ∷ 0 ∷ []

-- The fill takes the diagonal, and not the pixel apart.
labels_of_diagonal :
    (fill_from diagonal 12 1 0 unlabelled).labels ≡ 1 ∷ 0 ∷ 0 ∷ 0 ∷ 0 ∷ 1 ∷ 0 ∷ 0 ∷ []
unfolding flood fill_pixel visit_each visit get_at set_at
labels_of_diagonal = refl

is_unlabelled : get_at unlabelled 0 ≡ some 0
unfolding get_at
is_unlabelled = refl

fill_drained_example :
    ((fill_from diagonal 12 1 0 unlabelled).queue ≡ [])
    × ((fill_from diagonal 12 1 0 unlabelled).tail ≤ length diagonal.pixels)
fill_drained_example = fill_drained diagonal 12 0 0 unlabelled refl (ap is_zero is_unlabelled)
