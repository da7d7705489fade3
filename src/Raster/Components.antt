-- ===== src/Raster/Components.antt =====
-- `extractShapes`, up to the contours: the dark pixels are labelled by a flood fill of the eight
-- neighbours, component by component, and the components that are large enough are kept. The arrays
-- `labels` and `queue` are lists; of the queue what is still to be done stands, and how much was put
-- into it. A fill has as many rounds as there are pixels.
pub mod Drained
mod Tests
use seat_service.Common.{
  ℕ, zero, suc, ◌+◌, ◌-◌, ◌*◌, ◌/◌, ◌%◌, Bool, true, false, not, ◌&&◌, ◌||◌, Option, none, some,
  List, [], ◌∷◌, ◌++◌, map, count, filter, length, ◌==◌, ltb, leb, get_or, if◌then◌else◌,
}
use seat_service.Database.{Double}
use seat_service.Raster.{PreparedLayoutSource, Doubles, larger, smaller}

pub data ComponentFault : Type 0 where
  source_too_complex too_dark : ComponentFault

abbrev pub max_components : ℕ
max_components = 20000

abbrev pub max_candidates : ℕ
max_candidates = 10000

pub record Component : Type 0 where
  pub id : ℕ
  pub min_x : ℕ
  pub min_y : ℕ
  pub max_x : ℕ
  pub max_y : ℕ
  pub size : ℕ

-- `array[index]`
unfoldable pub get_at : List ℕ → ℕ → Option ℕ
get_at [] i = none
get_at (v ∷ vs) zero = some v
get_at (v ∷ vs) (suc i) = get_at vs i

-- `array[index] = value`
unfoldable pub set_at : List ℕ → ℕ → ℕ → List ℕ
set_at [] i value = []
set_at (v ∷ vs) zero value = value ∷ vs
set_at (v ∷ vs) (suc i) value = v ∷ set_at vs i value

pub record Fill : Type 0 where
  pub labels : List ℕ
  pub queue : List ℕ
  pub tail : ℕ
  pub component : Component

pub record Labelled : Type 0 where
  pub labels : List ℕ
  pub components : List Component
  pub component_count : ℕ
  pub dark_count : ℕ

pub data Progress : Type 0 where
  going : Labelled → Progress
  stopped : ComponentFault → Progress

-- `labels[index] === 0`
abbrev pub is_zero : Option ℕ → Bool
is_zero none = false
is_zero (some n) = n == 0

module _ (source : PreparedLayoutSource) (threshold : ℕ) where
  -- `(data[index] ?? 255) <= threshold`
  abbrev pub is_dark : ℕ → Bool
  is_dark index = leb (get_or (get_at source.pixels index) 255) threshold

  -- The neighbours of a pixel and the pixel itself, in the order of the loops, as (dy + 1, dx + 1).
  abbrev pub around : List (ℕ × ℕ)
  around = (0, 0) ∷ (0, 1) ∷ (0, 2) ∷ (1, 0) ∷ (1, 1) ∷ (1, 2) ∷ (2, 0) ∷ (2, 1) ∷ (2, 2) ∷ []

  -- `nx < 0 || ny < 0 || nx >= width || ny >= height`, with both numbers greater by 1
  abbrev pub is_outside : ℕ → ℕ → Bool
  is_outside ny nx = nx == 0 || ny == 0 || ltb source.width nx || ltb source.height ny

  abbrev pub label_next : ℕ → ℕ → Fill → Fill
  label_next id next f =
      if is_zero (get_at f.labels next) && is_dark next
      then record f {
        labels = set_at f.labels next id;
        queue = f.queue ++ (next ∷ []);
        tail = f.tail + 1;
      }
      else f

  unfoldable pub visit : ℕ → ℕ → ℕ → Fill → Fill
  visit id ny nx f =
      if is_outside ny nx then f else label_next id ((ny - 1) * source.width + (nx - 1)) f

  unfoldable pub visit_each : ℕ → ℕ → List (ℕ × ℕ) → Fill → Fill
  visit_each id current [] f = f
  visit_each id current ((dy, dx) ∷ ds) f =
      visit_each id current ds
        (visit id (current / source.width + dy) (current % source.width + dx) f)

  -- What a pixel of the queue does to the component.
  abbrev pub grow : ℕ → Component → Component
  grow current c = record c {
    size = c.size + 1;
    min_x = smaller c.min_x (current % source.width);
    max_x = larger c.max_x (current % source.width);
    min_y = smaller c.min_y (current / source.width);
    max_y = larger c.max_y (current / source.width);
  }

  -- One round of `while (head < tail)`.
  unfoldable pub fill_pixel : ℕ → ℕ → List ℕ → Fill → Fill
  fill_pixel id current rest f =
      visit_each id current around (record f { queue = rest; component = grow current f.component })

  unfoldable pub flood : ℕ → ℕ → Fill → Fill
  flood zero id f = f
  flood (suc fuel) id f = elim f.queue [
    | [] ↦ f
    | current ∷ rest ↦ flood fuel id (fill_pixel id current rest f)
  ]

  abbrev pub new_component : ℕ → ℕ → Component
  new_component id index = record {
    id = id;
    min_x = index % source.width;
    max_x = index % source.width;
    min_y = index / source.width;
    max_y = index / source.width;
    size = 0;
  }

  abbrev pub start_fill : ℕ → ℕ → List ℕ → Fill
  start_fill id index labels = record {
    labels = set_at labels index id;
    queue = index ∷ [];
    tail = 1;
    component = new_component id index;
  }

  abbrev pub fill_from : ℕ → ℕ → List ℕ → Fill
  fill_from id index labels = flood (length source.pixels) id (start_fill id index labels)

  -- A component is kept; `max(w / h, h / w) <= 20` on sizes of at most 1600.
  abbrev pub is_kept : Component → Bool
  is_kept c =
      let w = c.max_x - c.min_x + 1 in
      let h = c.max_y - c.min_y + 1 in
      leb 6 w && leb 6 h && leb 12 c.size && leb w (20 * h) && leb h (20 * w)

  abbrev pub keep_large : Component → List Component → List Component
  keep_large c cs = if is_kept c then cs ++ (c ∷ []) else cs

  -- What a fill adds.
  unfoldable pub add_fill : Fill → Labelled → Progress
  add_fill f st =
      if ltb max_candidates (length (keep_large f.component st.components))
      then stopped source_too_complex
      else going (record {
        labels = f.labels;
        components = keep_large f.component st.components;
        component_count = st.component_count + 1;
        dark_count = st.dark_count + f.component.size;
      })

  unfoldable pub start_component : ℕ → Labelled → Progress
  start_component index st =
      if ltb max_components (st.component_count + 1)
      then stopped source_too_complex
      else add_fill (fill_from (st.component_count + 1) index st.labels) st

  unfoldable pub label_pixel : ℕ → Labelled → Progress
  label_pixel index st =
      if not (is_dark index) || not (is_zero (get_at st.labels index))
      then going st
      else start_component index st

  unfoldable pub label_from : ℕ → ℕ → Progress → Progress
  label_from zero index p = p
  label_from (suc n) index (stopped e) = stopped e
  label_from (suc n) index (going st) = label_from n (suc index) (label_pixel index st)

  abbrev pub no_labels : Labelled
  no_labels = record {
    labels = map (λ v. 0) source.pixels;
    components = [];
    component_count = 0;
    dark_count = 0;
  }

  -- `darkCount / data.length > 0.6`
  unfoldable pub check_dark : Doubles → Progress → Progress
  check_dark fl (stopped e) = stopped e
  check_dark fl (going st) =
      if fl.gt (fl.div (fl.from_int st.dark_count) (fl.from_int (length source.pixels)))
        0x3fe3333333333333
      then stopped too_dark
      else going st

  unfoldable pub label_components : Doubles → Progress
  label_components fl = check_dark fl (label_from (length source.pixels) 0 (going no_labels))
