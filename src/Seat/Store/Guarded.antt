-- ===== src/Seat/Store/Guarded.antt =====
-- The services' optimistic claim: a guarded `updateMany` that names one row, and a check that it
-- changed one.
use seat_service.Common.{
  ℕ, ◌≡◌, refl, sym, subst, ap, ◌∙◌, inl, inr, Bool, true, false, ◌≤◌, List, [], ◌∷◌, any, count,
  map_where, map, ◌==◌, if◌then◌else◌, Has, arith, ==_self, ==→eq, Bool-cases,
}
use seat_service.Action.{ok}
use seat_service.Database.{Db, Seat}
use seat_service.Database.Client.{Delegate, IsDelegate}
use seat_service.Seat.Rows.{fits}
use seat_service.Seat.Rows.Distinct.{
  HasDistinctIds, eq_of_id, map_ext, map_where-map, KeepsId, map-Has, Has-count,
}
use seat_service.Seat.Store.{update_many}
use seat_service.Seat.Store.Laws.{update_many-ok}

-- The rows after the change of the row with an id.
abbrev pub change_row : ℕ → (Seat → Seat) → List Seat → List Seat
change_row id f = map (λ r. if r.id == id then f r else r)

module _ (id : ℕ) (p : Seat → Bool) (f : Seat → Seat)
    (names : (r : Seat) → p r ≡ true → r.id ≡ id) where
  one_row :
      (ss : List Seat) (c r : Seat)
      → HasDistinctIds ss
      → Has c ss
      → p c ≡ true
      → Has r ss
      → (if p r then f r else r) ≡ (if r.id == id then f r else r)
  one_row ss c r d m hit n = elim (Bool-cases (r.id == id)) [
    | inl same ↦
        let e : c ≡ r = eq_of_id ss c r d m n (names c hit ∙ sym (==→eq r.id id same)) in
        let hit' : p r ≡ true = subst (λ u. p u ≡ true) e hit in rw (hit', same)
    | inr other ↦ elim (Bool-cases (p r)) [
      | inl passed ↦ absurd (ground (arith, names r passed))
      | inr failed ↦ rw (failed, other)
    ]
  ]

  -- Where one row changed, it is the row with the id, and it passed the guard.
  pub guarded_update :
      (t : Delegate Seat) (law : IsDelegate fits t) (db db' : Db) (n : ℕ)
      → HasDistinctIds db.seats
      → update_many t p f db ≡ (ok n, db')
      → (n == 1) ≡ true
      → (c : Seat) × Has c db.seats
        × (p c ≡ true)
        × (db' ≡ record db { seats = change_row id f db.seats })
  guarded_update t law db db' n d h one =
      let (rows, counted) = update_many-ok t law p f db db' n h in
      let (c, m, hit) = Has-count p db.seats 0 (ground arith) in
      let same : change_row id f db.seats ≡ _ = sym (
        map_where-map p f db.seats
        ∙ map_ext _ _ db.seats (λ r k. one_row db.seats c r d m hit k)) in
      (c, m, hit, rows ∙ ap (λ (l : List Seat). record db { seats = l }) (sym same))

  -- The row with the id is then the changed row.
  pub changed_row :
      (ss : List Seat) (c s : Seat)
      → KeepsId f
      → HasDistinctIds ss
      → Has c ss
      → p c ≡ true
      → Has s (change_row id f ss)
      → s.id ≡ id
      → s ≡ f c
  changed_row ss c s k d m hit n e =
      let (r, q, e') = map-Has _ ss s n in
      let kept : (if r.id == id then f r else r).id ≡ r.id = ground (arith, k r) in
      let at_id : r.id ≡ id = sym kept ∙ sym (ap (λ (x : Seat). x.id) e') ∙ e in
      let same : r ≡ c = eq_of_id ss r c d q m (at_id ∙ sym (names c hit)) in
      e' ∙ rw (at_id, ==_self id) (ap f same)

  count_absent : (ss : List Seat) → any (λ r. r.id == id) ss ≡ false → count p ss ≡ 0
  count_absent [] h = refl
  count_absent (s ∷ ss) h = ground (arith, names s, count_absent ss)

  pub count-le-one : (ss : List Seat) → HasDistinctIds ss → count p ss ≤ 1
  count-le-one [] d = omega arith
  count-le-one (s ∷ ss) (d, ds) = elim (Bool-cases (p s)) [
    | inl hit ↦ rw hit (
        omega
          (arith, count_absent ss (subst (λ n. any (λ r. r.id == n) ss ≡ false) (names s hit) d)))
    | inr miss ↦ rw miss (count-le-one ss ds)
  ]

  map_where_none : (ss : List Seat) → count p ss ≡ 0 → map_where p f ss ≡ ss
  map_where_none [] h = refl
  map_where_none (s ∷ ss) h = ground (arith, map_where_none ss)

  -- Where the guarded update changed not one row, it changed none.
  pub guarded_update_lost :
      (t : Delegate Seat) (law : IsDelegate fits t) (db db' : Db) (n : ℕ)
      → HasDistinctIds db.seats
      → update_many t p f db ≡ (ok n, db')
      → (n == 1) ≡ false
      → db' ≡ db
  guarded_update_lost t law db db' n d h lost =
      let (rows, counted) = update_many-ok t law p f db db' n h in
      rows
      ∙ ap (λ (l : List Seat). record db { seats = l })
          (map_where_none db.seats (ground (arith, count-le-one db.seats d)))
