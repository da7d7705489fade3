-- ===== src/Raster.antt =====
-- src/layout-import/recognizers/raster-components.ts, of which `binaryThreshold` is here: the grey
-- value that separates the dark pixels of a plan from the light ones. A pixel is a byte; sizes and
-- the number of channels are whole numbers, not negative. The operations on doubles are those of
-- IEEE 754, a parameter of which nothing is assumed.
pub mod Laws
pub mod Components
mod Tests
use seat_service.Common.{
  ℕ, zero, suc, ◌+◌, ◌-◌, ◌*◌, Bool, true, false, not, ◌&&◌, ◌||◌, Option, none, some, List, [],
  ◌∷◌, all, count, length, ◌==◌, ltb, leb, if◌then◌else◌,
}
use seat_service.Database.{Double}

pub record PreparedLayoutSource : Type 0 where
  pub width : ℕ
  pub height : ℕ
  pub channels : ℕ
  pub pixels : List ℕ

pub data RecognitionFault : Type 0 where
  invalid_raster unsupported_contrast : RecognitionFault

pub data Recognized : Type 0 where
  found : Option ℕ → Recognized
  refused : RecognitionFault → Recognized

pub record Doubles : Type 0 where
  pub from_int : ℕ → Double
  pub sub : Double → Double → Double
  pub mul : Double → Double → Double
  pub div : Double → Double → Double
  pub gt : Double → Double → Bool

abbrev pub max_pixels : ℕ
max_pixels = 1600 * 1600

abbrev pub larger : ℕ → ℕ → ℕ
larger a b = if leb a b then b else a

abbrev pub smaller : ℕ → ℕ → ℕ
smaller a b = if leb a b then a else b

abbrev pub is_valid : PreparedLayoutSource → Bool
is_valid source =
    leb 1 source.width
    && leb 1 source.height
    && leb (larger source.width source.height) 1600
    && leb (source.width * source.height) max_pixels
    && source.channels == 1
    && all (λ v. ltb v 256) source.pixels
    && length source.pixels == source.width * source.height

-- The first loop, as what it computes: `minimum`, `maximum`, `sum` and `histogram[value]`.
abbrev pub minimum : List ℕ → ℕ
minimum [] = 255
minimum (v ∷ vs) = smaller v (minimum vs)

abbrev pub maximum : List ℕ → ℕ
maximum [] = 0
maximum (v ∷ vs) = larger v (maximum vs)

abbrev pub sum : List ℕ → ℕ
sum [] = 0
sum (v ∷ vs) = v + sum vs

abbrev pub histogram : List ℕ → ℕ → ℕ
histogram pixels value = count (λ v. v == value) pixels

pub record Scan : Type 0 where
  pub weight : ℕ
  pub partial_sum : ℕ
  pub best_variance : Double
  pub threshold : ℕ

module _ (fl : Doubles) (pixels : List ℕ) where
  abbrev pub variance : ℕ → ℕ → ℕ → Double
  variance weight remaining partial_sum =
      let difference =
        fl.sub (fl.div (fl.from_int partial_sum) (fl.from_int weight))
          (fl.div (fl.from_int (sum pixels - partial_sum)) (fl.from_int remaining)) in
      fl.mul (fl.mul (fl.from_int (weight * remaining)) difference) difference

  -- The value is taken if its variance is greater.
  abbrev pub weigh : ℕ → ℕ → Scan → Scan
  weigh value remaining s =
      let v = variance s.weight remaining s.partial_sum in
      if fl.gt v s.best_variance then record s { best_variance = v; threshold = value } else s

  -- One round of the second loop.
  unfoldable pub scan_value : ℕ → Scan → Scan
  scan_value value s =
      let next : Scan = record s {
        weight = s.weight + histogram pixels value;
        partial_sum = s.partial_sum + value * histogram pixels value;
      } in
      if next.weight == 0 || length pixels - next.weight == 0
      then next
      else weigh value (length pixels - next.weight) next

  -- The second loop, of as many rounds as there are values left.
  unfoldable pub scan_values : ℕ → ℕ → Scan → ℕ
  scan_values zero value s = s.threshold
  scan_values (suc n) value s = scan_values n (suc value) (scan_value value s)

  -- −1 as a double
  abbrev pub start : Scan
  start = record {
    weight = 0;
    partial_sum = 0;
    best_variance = 0xbff0000000000000;
    threshold = minimum pixels;
  }

  unfoldable pub separate : Recognized
  separate =
      if ltb (maximum pixels - minimum pixels) 24
      then (if leb 224 (minimum pixels) then found none else refused unsupported_contrast)
      else found (some (scan_values (maximum pixels - minimum pixels) (minimum pixels) start))

unfoldable pub binary_threshold : Doubles → PreparedLayoutSource → Recognized
binary_threshold fl source =
    if is_valid source then separate fl source.pixels else refused invalid_raster
