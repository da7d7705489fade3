-- ===== src/Raster/Components/Drained.antt =====
-- A fill ends with its queue done, and never puts more into the queue than it has places.
use seat_service.Common.{
  ℕ, zero, suc, ◌+◌, ◌-◌, ◌≤◌, ◌≡◌, refl, ap, ◌∙◌, true, ◌&&◌, List, [], ◌∷◌, count, length,
  length-append, ◌==◌, arith, Bool-cases, inl, inr, ◌*◌, ◌/◌, ◌%◌,
}
use seat_service.Raster.{PreparedLayoutSource}
use seat_service.Raster.Components.{
  Fill, Component, get_at, set_at, is_zero, is_dark, is_outside, label_next, visit, visit_each,
  around, fill_pixel, flood, fill_from, new_component,
}

-- The pixels with no label.
abbrev pub zeros : List ℕ → ℕ
zeros labels = count (λ v. v == 0) labels

zeros-set_at :
    (labels : List ℕ) (i id : ℕ)
    → is_zero (get_at labels i) ≡ true
    → suc (zeros (set_at labels i (suc id))) ≡ zeros labels
unfolding get_at set_at
zeros-set_at [] i id h = cc
zeros-set_at (v ∷ vs) zero id h = ground (arith, h)
zeros-set_at (v ∷ vs) (suc i) id h = ground (arith, zeros-set_at vs i id h)

length-set_at : (labels : List ℕ) (i v : ℕ) → length (set_at labels i v) ≡ length labels
unfolding set_at
length-set_at [] i v = refl
length-set_at (w ∷ ws) zero v = refl
length-set_at (w ∷ ws) (suc i) v = ap suc (length-set_at ws i v)

zeros-length : (labels : List ℕ) → zeros labels ≤ length labels
zeros-length [] = omega arith
zeros-length (v ∷ vs) = ground (arith, zeros-length vs)

abbrev state : List ℕ → List ℕ → ℕ → Component → Fill
state queue labels tail c = record { labels = labels; queue = queue; tail = tail; component = c }

-- What is still to be done, and what was put into the queue, with the pixels that have no label.
abbrev todo : Fill → ℕ
todo f = length f.queue + zeros f.labels

abbrev places : Fill → ℕ
places f = f.tail + zeros f.labels

module _ (source : PreparedLayoutSource) (threshold id : ℕ) where
  label_next-todo :
      (next : ℕ) (f : Fill)
      → (todo (label_next source threshold (suc id) next f) ≡ todo f)
        × (places (label_next source threshold (suc id) next f) ≡ places f)
  label_next-todo next f =
      elim (Bool-cases (is_zero (get_at f.labels next) && is_dark source threshold next)) [
        | inl hit ↦
            let z = zeros-set_at f.labels next id (ground (arith, hit)) in
            rw hit (omega (arith, z, length-append f.queue (next ∷ [])), omega (arith, z))
        | inr miss ↦ rw miss (refl, refl)
      ]

  visit-todo :
      (ny nx : ℕ) (f : Fill)
      → (todo (visit source threshold (suc id) ny nx f) ≡ todo f)
        × (places (visit source threshold (suc id) ny nx f) ≡ places f)
  unfolding visit
  visit-todo ny nx f = elim (Bool-cases (is_outside source threshold ny nx)) [
    | inl out ↦ rw out (refl, refl)
    | inr inside ↦ rw inside (label_next-todo ((ny - 1) * source.width + (nx - 1)) f)
  ]

  visit_each-todo :
      (current : ℕ) (ds : List (ℕ × ℕ)) (f : Fill)
      → (todo (visit_each source threshold (suc id) current ds f) ≡ todo f)
        × (places (visit_each source threshold (suc id) current ds f) ≡ places f)
  unfolding visit_each
  visit_each-todo current [] f = (refl, refl)
  visit_each-todo current ((dy, dx) ∷ ds) f =
      let next =
        visit source threshold (suc id) (current / source.width + dy) (current % source.width + dx)
          f in
      let (a, b) = visit-todo (current / source.width + dy) (current % source.width + dx) f in
      let (a', b') = visit_each-todo current ds next in (a' ∙ a, b' ∙ b)

  -- A round does one pixel of the queue.
  fill_pixel-todo :
      (current : ℕ) (rest : List ℕ) (f : Fill)
      → (todo (fill_pixel source threshold (suc id) current rest f) ≡ length rest + zeros f.labels)
        × (places (fill_pixel source threshold (suc id) current rest f) ≡ places f)
  unfolding fill_pixel
  fill_pixel-todo current rest f = visit_each-todo current (around source threshold) _

  flood-todo :
      (fuel : ℕ) (queue labels : List ℕ) (tail : ℕ) (c : Component)
      → length queue + zeros labels ≤ fuel
      → ((flood source threshold fuel (suc id) (state queue labels tail c)).queue ≡ [])
        × (places (flood source threshold fuel (suc id) (state queue labels tail c))
            ≡ tail + zeros labels)
  unfolding flood
  flood-todo zero [] labels tail c h = (refl, refl)
  flood-todo zero (q ∷ qs) labels tail c h = absurd (omega (arith, h))
  flood-todo (suc fuel) [] labels tail c h = (refl, refl)
  flood-todo (suc fuel) (q ∷ qs) labels tail c h =
      let next = fill_pixel source threshold (suc id) q qs (state (q ∷ qs) labels tail c) in
      let (a, b) = fill_pixel-todo q qs (state (q ∷ qs) labels tail c) in
      let (empty, kept) =
        flood-todo fuel next.queue next.labels next.tail next.component (omega (arith, a, h)) in
      (empty, kept ∙ b)

  -- A fill of `extractShapes` from a pixel without a label, where there are as many labels as pixels,
  -- ends: after as many rounds as there are pixels nothing is left in the queue. And it put no more
  -- into the queue than the array has places for, one for each pixel.
  pub fill_drained :
      (index : ℕ) (labels : List ℕ)
      → length labels ≡ length source.pixels
      → is_zero (get_at labels index) ≡ true
      → ((fill_from source threshold (suc id) index labels).queue ≡ [])
        × ((fill_from source threshold (suc id) index labels).tail ≤ length source.pixels)
  fill_drained index labels same free =
      let z = zeros-set_at labels index id free in
      let (empty, kept) =
        flood-todo (length source.pixels) (index ∷ []) (set_at labels index (suc id)) 1
          (new_component source threshold (suc id) index)
          (omega (arith, z, zeros-length labels, same)) in
      (empty, omega (arith, kept, z, zeros-length labels, same))
