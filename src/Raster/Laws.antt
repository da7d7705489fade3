-- ===== src/Raster/Laws.antt =====
-- The threshold of a raster, on every branch.
use seat_service.Common.{
  ℕ, zero, suc, ◌+◌, ◌-◌, ◌≤◌, ◌<◌, ◌≡◌, refl, sym, subst, ap, ◌∙◌, Bool, true, false, ◌&&◌, ◌⊎◌,
  inl, inr, none, some, List, [], ◌∷◌, Has, all, length, leb, ltb, ◌==◌, arith, ==→eq, ltb→lt,
  ltb→le, Bool-cases, if◌then◌else◌, ◌||◌, ◌*◌,
}
use seat_service.Raster.{
  max_pixels, PreparedLayoutSource, invalid_raster, unsupported_contrast, Recognized, found,
  refused, Doubles, is_valid, minimum, maximum, larger, smaller, histogram, Scan, weigh, scan_value,
  scan_values, start, separate, binary_threshold,
}

minimum_least : (pixels : List ℕ) (v : ℕ) → Has v pixels → minimum pixels ≤ v
minimum_least [] v m = absurd m
minimum_least (w ∷ ws) v (inl e) = ground (arith, e)
minimum_least (w ∷ ws) v (inr m) = ground (arith, minimum_least ws v m)

maximum_greatest : (pixels : List ℕ) (v : ℕ) → Has v pixels → v ≤ maximum pixels
maximum_greatest [] v m = absurd m
maximum_greatest (w ∷ ws) v (inl e) = ground (arith, e)
maximum_greatest (w ∷ ws) v (inr m) = ground (arith, maximum_greatest ws v m)

smaller_cases : (a b : ℕ) → (smaller a b ≡ a) ⊎ (smaller a b ≡ b)
smaller_cases a b = elim (Bool-cases (leb a b)) [
  | inl h ↦ inl (rw h refl)
  | inr h ↦ inr (rw h refl)
]

larger_cases : (a b : ℕ) → (larger a b ≡ a) ⊎ (larger a b ≡ b)
larger_cases a b = elim (Bool-cases (leb a b)) [ inl h ↦ inr (rw h refl) | inr h ↦ inl (rw h refl) ]

-- The least of some bytes is one of them, and so is the greatest.
minimum-Has :
    (v : ℕ) (vs : List ℕ) → all (λ v. ltb v 256) (v ∷ vs) ≡ true → Has (minimum (v ∷ vs)) (v ∷ vs)
minimum-Has v [] h = inl (ground (arith, h))
minimum-Has v (w ∷ ws) h = elim (smaller_cases v (minimum (w ∷ ws))) [
  | inl e ↦ inl e
  | inr e ↦ inr (subst (λ k. Has k (w ∷ ws)) (sym e) (minimum-Has w ws (ground (arith, h))))
]

maximum-Has : (v : ℕ) (vs : List ℕ) → Has (maximum (v ∷ vs)) (v ∷ vs)
maximum-Has v [] = inl (ground arith)
maximum-Has v (w ∷ ws) = elim (larger_cases v (maximum (w ∷ ws))) [
  | inl e ↦ inl e
  | inr e ↦ inr (subst (λ k. Has k (w ∷ ws)) (sym e) (maximum-Has w ws))
]

if_cases :
    {A : Type 0} (b : Bool) (x y : A) → ((if b then x else y) ≡ x) ⊎ ((if b then x else y) ≡ y)
if_cases true x y = inl refl
if_cases false x y = inr refl

module _ (fl : Doubles) (pixels : List ℕ) where
  weigh_cases :
      (value remaining : ℕ) (s : Scan)
      → ((weigh fl pixels value remaining s).threshold ≡ value)
        ⊎ ((weigh fl pixels value remaining s).threshold ≡ s.threshold)
  weigh_cases value remaining s = elim (if_cases _ _ s) [
    | inl e ↦ inl (ap (λ (s : Scan). s.threshold) e)
    | inr e ↦ inr (ap (λ (s : Scan). s.threshold) e)
  ]

  -- A round keeps the threshold, or takes the value.
  scan_value_cases :
      (value : ℕ) (s : Scan)
      → ((scan_value fl pixels value s).threshold ≡ value)
        ⊎ ((scan_value fl pixels value s).threshold ≡ s.threshold)
  unfolding scan_value
  scan_value_cases value s =
      let next : Scan = record s {
        weight = s.weight + histogram pixels value;
        partial_sum = s.partial_sum + value * histogram pixels value;
      } in
      let remaining = length pixels - next.weight in
      elim (if_cases (next.weight == 0 || remaining == 0) next
        (weigh fl pixels value remaining next)) [
          | inl e ↦ inr (ap (λ (s : Scan). s.threshold) e)
          | inr e ↦ elim (weigh_cases value remaining next) [
            | inl q ↦ inl (ap (λ (s : Scan). s.threshold) e ∙ q)
            | inr q ↦ inr (ap (λ (s : Scan). s.threshold) e ∙ q)
          ]
        ]

  -- The scan stays among the values that it goes through.
  scan_values_bounds :
      (n value low high : ℕ) (s : Scan)
      → low ≤ value
      → value + n ≤ high
      → low ≤ s.threshold
      → s.threshold < high
      → (low ≤ scan_values fl pixels n value s) × (scan_values fl pixels n value s < high)
  unfolding scan_values
  scan_values_bounds zero value low high s a b d e = (d, e)
  scan_values_bounds (suc n) value low high s a b d e =
      let next = scan_value fl pixels value s in
      elim (scan_value_cases value s) [
        | inl q ↦
            scan_values_bounds n (suc value) low high next (omega (arith, a)) (omega (arith, b))
              (omega (arith, a, q)) (omega (arith, b, q))
        | inr q ↦
            scan_values_bounds n (suc value) low high next (omega (arith, a)) (omega (arith, b))
              (omega (arith, d, q)) (omega (arith, e, q))
      ]

-- What each outcome says of a raster.
abbrev pub Outcome : PreparedLayoutSource → Recognized → Type 0
Outcome source (found none) =
    (is_valid source ≡ true)
    × ((v : ℕ) → Has v source.pixels → 224 ≤ v)
    × ((v w : ℕ) → Has v source.pixels → Has w source.pixels → v < w + 24)
Outcome source (found (some t)) =
    (is_valid source ≡ true)
    × (t < 256)
    × ((v : ℕ) × Has v source.pixels × (v ≤ t))
    × ((v : ℕ) × Has v source.pixels × (t < v))
Outcome source (refused invalid_raster) = is_valid source ≡ false
Outcome source (refused unsupported_contrast) =
    (is_valid source ≡ true)
    × ((v : ℕ) × Has v source.pixels × (v < 224))
    × ((v w : ℕ) → Has v source.pixels → Has w source.pixels → v < w + 24)

and_parts : (a b : Bool) → (a && b) ≡ true → (a ≡ true) × (b ≡ true)
and_parts true b h = (refl, h)
and_parts false b h = cc

product_positive : (a b : ℕ) → leb 1 a ≡ true → leb 1 b ≡ true → 1 ≤ a * b
product_positive zero b h k = ground (arith, h)
product_positive (suc a) zero h k = ground (arith, k)
product_positive (suc a) (suc b) h k = omega arith

some_pixel : (pixels : List ℕ) → 1 ≤ length pixels → (v : ℕ) × (vs : List ℕ) × (pixels ≡ v ∷ vs)
some_pixel [] h = absurd (omega (arith, h))
some_pixel (v ∷ vs) h = (v, vs, refl)

valid_pixels :
    (source : PreparedLayoutSource)
    → is_valid source ≡ true
    → ((v : ℕ) × (vs : List ℕ) × (source.pixels ≡ v ∷ vs))
      × (all (λ v. ltb v 256) source.pixels ≡ true)
valid_pixels source h =
    let (h1, size) = and_parts _ (length source.pixels == source.width * source.height) h in
    let (h2, bytes) = and_parts _ (all (λ v. ltb v 256) source.pixels) h1 in
    let (h3, _) = and_parts _ (source.channels == 1) h2 in
    let (h4, _) = and_parts _ (leb (source.width * source.height) max_pixels) h3 in
    let (h5, _) = and_parts _ (leb (larger source.width source.height) 1600) h4 in
    let (w, k) = and_parts (leb 1 source.width) (leb 1 source.height) h5 in
    let same = ==→eq (length source.pixels) (source.width * source.height) size in
    (
      some_pixel source.pixels
          (subst (λ n. 1 ≤ n) (sym same) (product_positive source.width source.height w k)),
      bytes,
    )

byte : (pixels : List ℕ) (v : ℕ) → all (λ v. ltb v 256) pixels ≡ true → Has v pixels → v < 256
byte [] v h m = absurd m
byte (w ∷ ws) v h (inl e) = ground (arith, h, e)
byte (w ∷ ws) v h (inr m) = byte ws v (ground (arith, h)) m

separate_cases :
    (fl : Doubles) (source : PreparedLayoutSource)
    → is_valid source ≡ true
    → Has (minimum source.pixels) source.pixels
    → Has (maximum source.pixels) source.pixels
    → maximum source.pixels < 256
    → Outcome source (separate fl source.pixels)
unfolding separate
separate_cases fl source ok_source low high top =
    let least = minimum_least source.pixels in
    let greatest = maximum_greatest source.pixels in
    elim (Bool-cases (ltb (maximum source.pixels - minimum source.pixels) 24)) [
      | inl flat ↦
          let near : maximum source.pixels < minimum source.pixels + 24 =
            omega (arith, ltb→lt (maximum source.pixels - minimum source.pixels) 24 flat) in
          rw flat (elim (Bool-cases (leb 224 (minimum source.pixels))) [
            | inl white ↦ rw white (
              ok_source,
              (λ v m. ground (arith, white, least v m)),
              (λ v w m n. omega (arith, near, greatest v m, least w n)),
            )
            | inr grey ↦ rw grey (
              ok_source,
              (minimum source.pixels, low, ground (arith, grey)),
              (λ v w m n. omega (arith, near, greatest v m, least w n)),
            )
          ])
      | inr apart ↦
          let far = ltb→le (maximum source.pixels - minimum source.pixels) 24 apart in
          let (above, below) =
            scan_values_bounds fl source.pixels (maximum source.pixels - minimum source.pixels)
              (minimum source.pixels) (minimum source.pixels) (maximum source.pixels)
              (start fl source.pixels) (omega arith) (omega (arith, far)) (omega arith)
              (omega (arith, far)) in
          rw apart (
            ok_source,
            omega (arith, below, top),
            (minimum source.pixels, low, above),
            (maximum source.pixels, high, below),
          )
    ]

-- `binaryThreshold` on any raster and with any arithmetic of doubles: it throws INVALID_RASTER
-- exactly where the sizes or the pixels are not valid; it gives no threshold where every pixel is at
-- least 224 and no two differ by 24 or more, and throws UNSUPPORTED_CONTRAST where no two do but
-- some pixel is darker than that; else it gives a threshold, a byte with a pixel not above it and a
-- pixel above it, so that there are dark pixels and light ones.
pub binary_threshold_cases :
    (fl : Doubles) (source : PreparedLayoutSource) → Outcome source (binary_threshold fl source)
unfolding binary_threshold
binary_threshold_cases fl source = elim (Bool-cases (is_valid source)) [
  | inl valid ↦
      let ((v, vs, e), bytes) = valid_pixels source valid in
      let low : Has (minimum source.pixels) source.pixels =
        subst (λ pixels. Has (minimum pixels) pixels) (sym e)
          (minimum-Has v vs (subst (λ pixels. all (λ v. ltb v 256) pixels ≡ true) e bytes)) in
      let high : Has (maximum source.pixels) source.pixels =
        subst (λ pixels. Has (maximum pixels) pixels) (sym e) (maximum-Has v vs) in
      rw valid (
        separate_cases fl source valid low high
          (byte source.pixels (maximum source.pixels) bytes high))
  | inr invalid ↦ rw invalid invalid
]
