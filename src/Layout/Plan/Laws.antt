-- ===== src/Layout/Plan/Laws.antt =====
-- The plan has all seats, and no section or table too many.
use seat_service.Common.{
  ◌≡◌, refl, subst, ℕ, zero, suc, ◌+◌, ◌-◌, ◌*◌, ◌/◌, ◌≤◌, ◌<◌, List, [], ◌∷◌, ◌++◌, length, All,
  All-append, Bool-cases, false, inl, inr, leb, arith,
}
use seat_service.Layout.Plan.{
  Names, TableConfig, SectionConfig, minimum, fill, build, build_auto_generate_input_from_max_seats,
}

-- The tables of a plan, in order, and the seats of tables.
abbrev pub all_tables : List SectionConfig → List TableConfig
all_tables [] = []
all_tables (s ∷ ss) = s.tables ++ all_tables ss

abbrev pub total_seats : List TableConfig → ℕ
total_seats [] = 0
total_seats (t ∷ ts) = t.seats.count + total_seats ts

-- The tables are numbered from here.
abbrev pub IsNumbered : ℕ → List TableConfig → Type 0
IsNumbered n [] = Unit
IsNumbered n (t ∷ ts) = (t.order ≡ n) × IsNumbered (suc n) ts

abbrev pub IsTableSize : TableConfig → Type 0
IsTableSize t = (1 ≤ t.seats.count) × (t.seats.count ≤ 10)

abbrev pub IsSectionSize : SectionConfig → Type 0
IsSectionSize s = (1 ≤ length s.tables) × (length s.tables ≤ 5)

table_seats_min : (r : ℕ) → leb r 0 ≡ false → 1 ≤ minimum 10 r
table_seats_min r h = ground arith

table_seats_max : (r : ℕ) → minimum 10 r ≤ 10
table_seats_max r = ground arith

total_seats-append :
    (ts us : List TableConfig) → total_seats (ts ++ us) ≡ total_seats ts + total_seats us
total_seats-append [] us = omega arith
total_seats-append (t ∷ ts) us = omega (arith, total_seats-append ts us)

IsNumbered-append :
    (n : ℕ) (ts us : List TableConfig)
    → IsNumbered n ts
    → IsNumbered (n + length ts) us
    → IsNumbered n (ts ++ us)
IsNumbered-append n [] us h k = subst (λ i. IsNumbered i us) (omega arith) k
IsNumbered-append n (t ∷ ts) us (e, h) k =
    (e, IsNumbered-append (suc n) ts us h (subst (λ i. IsNumbered i us) (omega arith) k))

module _ (names : Names) where
  fill-remaining :
      (rounds remaining order : ℕ)
      → (fill names rounds remaining order).remaining_seats ≡ remaining - 10 * rounds
  unfolding fill
  fill-remaining zero r o = omega arith
  fill-remaining (suc n) r o =
      let ih = fill-remaining n (r - minimum 10 r) (suc o) in ground (arith, ih)

  fill-total_seats :
      (rounds remaining order : ℕ)
      → total_seats (fill names rounds remaining order).tables
          + (fill names rounds remaining order).remaining_seats
        ≡ remaining
  unfolding fill
  fill-total_seats zero r o = omega arith
  fill-total_seats (suc n) r o =
      let ih = fill-total_seats n (r - minimum 10 r) (suc o) in ground (arith, ih)

  fill-table_order :
      (rounds remaining order : ℕ)
      → (fill names rounds remaining order).table_order
        ≡ order + length (fill names rounds remaining order).tables
  unfolding fill
  fill-table_order zero r o = omega arith
  fill-table_order (suc n) r o =
      let ih = fill-table_order n (r - minimum 10 r) (suc o) in ground (arith, ih)

  fill-IsNumbered :
      (rounds remaining order : ℕ) → IsNumbered order (fill names rounds remaining order).tables
  unfolding fill
  fill-IsNumbered zero r o = tt
  fill-IsNumbered (suc n) r o = elim (Bool-cases (leb r 0)) [
    | inl e ↦ rw e tt
    | inr e ↦ rw e (refl, fill-IsNumbered n (r - minimum 10 r) (suc o))
  ]

  fill-IsTableSize :
      (rounds remaining order : ℕ) → All IsTableSize (fill names rounds remaining order).tables
  unfolding fill
  fill-IsTableSize zero r o = tt
  fill-IsTableSize (suc n) r o = elim (Bool-cases (leb r 0)) [
    | inl e ↦ rw e tt
    | inr e ↦
        rw e
          ((table_seats_min r e, table_seats_max r), fill-IsTableSize n (r - minimum 10 r) (suc o))
  ]

  fill-length :
      (rounds remaining order : ℕ) → length (fill names rounds remaining order).tables ≤ rounds
  unfolding fill
  fill-length zero r o = omega arith
  fill-length (suc n) r o = let ih = fill-length n (r - minimum 10 r) (suc o) in ground (arith, ih)

  fill_first :
      (remaining order : ℕ) → 0 < remaining → 1 ≤ length (fill names 5 remaining order).tables
  unfolding fill
  fill_first r o h = ground arith

  -- The plan of the outer loop.
  build-total_seats :
      (rounds remaining order section : ℕ)
      → remaining ≤ 50 * rounds
      → total_seats (all_tables (build names rounds remaining order section)) ≡ remaining
  unfolding build
  build-total_seats zero r o s h = omega (arith, h)
  build-total_seats (suc n) r o s h =
      let f = fill names 5 r o in
      let ih =
        build-total_seats n f.remaining_seats f.table_order (suc s)
          (omega (arith, h, fill-remaining 5 r o)) in
      omega (
        arith,
        ih,
        fill-total_seats 5 r o,
        total_seats-append f.tables
            (all_tables (build names n f.remaining_seats f.table_order (suc s))),
      )

  build-IsNumbered :
      (rounds remaining order section : ℕ)
      → IsNumbered order (all_tables (build names rounds remaining order section))
  unfolding build
  build-IsNumbered zero r o s = tt
  build-IsNumbered (suc n) r o s =
      let f = fill names 5 r o in
      IsNumbered-append o f.tables
        (all_tables (build names n f.remaining_seats f.table_order (suc s))) (fill-IsNumbered 5 r o)
        (subst
          (λ i. IsNumbered i (all_tables (build names n f.remaining_seats f.table_order (suc s))))
          (fill-table_order 5 r o) (build-IsNumbered n f.remaining_seats f.table_order (suc s)))

  build-IsTableSize :
      (rounds remaining order section : ℕ)
      → All IsTableSize (all_tables (build names rounds remaining order section))
  unfolding build
  build-IsTableSize zero r o s = tt
  build-IsTableSize (suc n) r o s =
      let f = fill names 5 r o in
      All-append IsTableSize f.tables
        (all_tables (build names n f.remaining_seats f.table_order (suc s)))
        (fill-IsTableSize 5 r o) (build-IsTableSize n f.remaining_seats f.table_order (suc s))

  build-IsSectionSize :
      (rounds remaining order section : ℕ)
      → 50 * rounds < remaining + 50
      → All IsSectionSize (build names rounds remaining order section)
  unfolding build
  build-IsSectionSize zero r o s h = tt
  build-IsSectionSize (suc n) r o s h =
      let f = fill names 5 r o in
      (
        (fill_first r o (omega (arith, h)), fill-length 5 r o),
        build-IsSectionSize n f.remaining_seats f.table_order (suc s)
            (omega (arith, h, fill-remaining 5 r o)),
      )

  -- The plan for a number of seats has exactly so many seats, at tables of one to ten seats that are
  -- numbered from 1 through all sections, in sections of one to five tables.
  pub plan_seats :
      (max_seats : ℕ)
      → (total_seats (all_tables (build_auto_generate_input_from_max_seats names max_seats))
          ≡ max_seats)
        × All IsTableSize (all_tables (build_auto_generate_input_from_max_seats names max_seats))
        × IsNumbered 1 (all_tables (build_auto_generate_input_from_max_seats names max_seats))
        × All IsSectionSize (build_auto_generate_input_from_max_seats names max_seats)
  unfolding build_auto_generate_input_from_max_seats
  plan_seats n = (
    build-total_seats ((((n + 9) / 10) + 4) / 5) n 1 1 (omega arith),
    build-IsTableSize ((((n + 9) / 10) + 4) / 5) n 1 1,
    build-IsNumbered ((((n + 9) / 10) + 4) / 5) n 1 1,
    build-IsSectionSize ((((n + 9) / 10) + 4) / 5) n 1 1 (omega arith),
  )
