-- ===== src/Seat/Reserve/Laws.antt =====
-- What `reserveSeatForInvitation` guarantees.
use seat_service.Common.{
  ℕ, ◌≤◌, ◌≡◌, sym, ◌∙◌, ap, inl, inr, true, false, some, List, ◌==◌, if◌then◌else◌, All, Has,
  All-Has, arith, subst, Option-cases, Bool-cases, ◌&&◌,
}
use seat_service.Action.{ok, and_then, commit}
use seat_service.Database.{Db, Seat}
use seat_service.Database.Client.{Delegate, IsDelegate}
use seat_service.Seat.Rows.{fits, is_free}
use seat_service.Seat.Rows.Distinct.{HasDistinctIds, Has-map, eq_of_id, map_ext}
use seat_service.Seat.Rows.Consistent.{IsConsistent, AllConsistent, AllConsistent-map}
use seat_service.Seat.Store.Guarded.{change_row}
use seat_service.Seat.Claim.{is_free_in, find_oldest_free}
use seat_service.Seat.Reserve.{
  is_invited, reserved_for, find_invited, own_or_reserve, reserve_in_transaction,
  reserve_seat_for_invitation,
}
use seat_service.Seat.Reserve.Effect.{Outcome, reserve_seat_for_invitation-Outcome}

-- The row `c` and no other, by a test on all that consistency reads.
abbrev reserve_at : Seat → ℕ → Seat → Seat
reserve_at c i r = if r.id == c.id then (if is_free r then reserved_for i r else r) else r

reserve_at-IsConsistent :
    (event_id : ℕ) (c : Seat) (i : ℕ) (r : Seat) → IsConsistent r → IsConsistent (reserve_at c i r)
reserve_at-IsConsistent event_id c i r h = ground arith

reserve_row :
    (id i event_id : ℕ) (c r : Seat)
    → (c.id == id && is_free_in event_id c) ≡ true
    → (c.id ≡ r.id → c ≡ r)
    → reserve_at c i r ≡ (if r.id == id then reserved_for i r else r)
reserve_row id i event_id c r hit same = elim (Bool-cases (r.id == id)) [
  | inl e ↦
      let q : c ≡ r = same (ground arith) in
      let open_row : is_free_in event_id r ≡ true =
        subst (λ x. is_free_in event_id x ≡ true) q (ground arith) in
      ground arith
  | inr e ↦ ground arith
]

-- Reserving the one row that passed the guard.
AllConsistent-change :
    (id i event_id : ℕ) (c : Seat) (ss : List Seat)
    → HasDistinctIds ss
    → Has c ss
    → (c.id == id && is_free_in event_id c) ≡ true
    → AllConsistent ss
    → AllConsistent (change_row id (reserved_for i) ss)
AllConsistent-change id i event_id c ss d m hit h =
    subst AllConsistent
      (map_ext (reserve_at c i) _ ss
        (λ r n. reserve_row id i event_id c r hit (λ e. eq_of_id ss c r d m n e)))
      (AllConsistent-map (reserve_at c i) ss (reserve_at-IsConsistent event_id c i) h)

module _ (t : Delegate Seat) (law : IsDelegate fits t) (other : Db → Db) where
  -- After a reservation the invitation has the seat that was returned.
  reserved-Has :
      (event_id i : ℕ) (db db' : Db) (s : Seat)
      → Outcome t law other event_id i db s db'
      → Has s db'.seats × (is_invited event_id i s ≡ true)
  reserved-Has event_id i db db' s (inl (here, hit, rows)) =
      (subst (λ (l : List Seat). Has s l) (sym rows) here, hit)
  reserved-Has event_id i db db' s (inr (inl (free, found, c, m, hit, row, rows))) =
      let at_id : (c.id == free.id) ≡ true = ground arith in
      let new_row : (if c.id == free.id then reserved_for i c else c) ≡ s = rw at_id (sym row) in
      (
        subst (λ (l : List Seat). Has s l) (sym rows)
            (subst (λ (x : Seat). Has x (change_row free.id (reserved_for i) (other db).seats))
              new_row (Has-map _ (other db).seats c m)),
        subst (λ (x : Seat). is_invited event_id i x ≡ true) (sym row) (ground arith),
      )
  reserved-Has event_id i db db' s (inr (inr (here, hit, unheld, rows))) =
      (subst (λ (l : List Seat). Has s l) (sym rows) here, hit)

  own_some :
      (event_id i : ℕ) (db : Db) (s : Seat)
      → commit db (own_or_reserve t other event_id i (some s) db) ≡ (ok s, db)
  unfolding own_or_reserve commit
  own_some event_id i db s = ground arith

  -- Where the invitation has a seat, a reservation returns one and changes nothing.
  owned_reservation :
      (event_id i : ℕ) (db : Db) (r : Seat)
      → Has r db.seats
      → is_invited event_id i r ≡ true
      → (s : Seat) × (reserve_seat_for_invitation t other event_id i db ≡ (ok s, db))
        × (is_invited event_id i s ≡ true)
  unfolding reserve_seat_for_invitation reserve_in_transaction find_invited own_or_reserve and_then
  owned_reservation event_id i db r m hit =
      elim (Option-cases (t.find_first (is_invited event_id i) db.seats)) [
        | inl missed ↦ absurd (
            ground (
              arith,
              All-Has (λ u. is_invited event_id i u ≡ false) db.seats r
                  (law.find_first_none (is_invited event_id i) db.seats missed) m,
            ))
        | inr (s, e) ↦ (
          s,
          ap (λ o. commit db (own_or_reserve t other event_id i o db)) e ∙ own_some event_id i db s,
          (law.find_first_some (is_invited event_id i) db.seats s e).1,
        )
      ]

-- After a reservation that returns, a second one for the same event and invitation returns too: it
-- gives back a seat of the invitation and changes nothing.
pub reserve_twice :
    (t : Delegate Seat) (law : IsDelegate fits t) (other other' : Db → Db) (event_id i : ℕ)
    (db db' : Db) (s : Seat)
    → HasDistinctIds (other db).seats
    → reserve_seat_for_invitation t other event_id i db ≡ (ok s, db')
    → (s' : Seat) × (reserve_seat_for_invitation t other' event_id i db' ≡ (ok s', db'))
      × (is_invited event_id i s' ≡ true)
reserve_twice t law other other' event_id i db db' s keys h =
    let (here, hit) =
      reserved-Has t law other event_id i db db' s
        (reserve_seat_for_invitation-Outcome t law other event_id i db db' s keys h) in
    owned_reservation t law other' event_id i db' s here hit

module _ (t : Delegate Seat) (law : IsDelegate fits t) (other : Db → Db) where
  -- A reservation that returns keeps every seat's status in agreement with its holder, if the seats
  -- agree before the call and at the time of the claim.
  pub reserve_seat_for_invitation-AllConsistent :
      (event_id i : ℕ) (db db' : Db) (s : Seat)
      → HasDistinctIds (other db).seats
      → AllConsistent db.seats
      → AllConsistent (other db).seats
      → reserve_seat_for_invitation t other event_id i db ≡ (ok s, db')
      → AllConsistent db'.seats
  reserve_seat_for_invitation-AllConsistent event_id i db db' s keys before meanwhile h =
      keeps (reserve_seat_for_invitation-Outcome t law other event_id i db db' s keys h)
    where
      keeps : Outcome t law other event_id i db s db' → AllConsistent db'.seats
      keeps (inl (here, hit, rows)) = subst AllConsistent (sym rows) before
      keeps (inr (inl (free, found, c, m, hit, row, rows))) =
          subst AllConsistent (sym rows)
            (AllConsistent-change free.id i event_id c (other db).seats keys m hit meanwhile)
      keeps (inr (inr (here, hit, unheld, rows))) = subst AllConsistent (sym rows) meanwhile

-- With no other transaction between, a reservation that returns for an invitation without a seat
-- takes the oldest free seat of the event.
pub reserves_oldest :
    (t : Delegate Seat) (law : IsDelegate fits t) (event_id i : ℕ) (db db' : Db) (s : Seat)
    → HasDistinctIds db.seats
    → All (λ r. is_invited event_id i r ≡ false) db.seats
    → reserve_seat_for_invitation t (λ x. x) event_id i db ≡ (ok s, db')
    → (free : Seat) × Has free db.seats
      × (is_free_in event_id free ≡ true)
      × All (λ r. is_free_in event_id r ≡ true → free.created_at ≤ r.created_at) db.seats
      × (s ≡ reserved_for i free)
      × (db'.seats ≡ change_row free.id (reserved_for i) db.seats)
reserves_oldest t law event_id i db db' s keys nobody h =
    first (reserve_seat_for_invitation-Outcome t law (λ x. x) event_id i db db' s keys h)
  where
    first :
        Outcome t law (λ x. x) event_id i db s db'
        → (free : Seat) × Has free db.seats
          × (is_free_in event_id free ≡ true)
          × All (λ r. is_free_in event_id r ≡ true → free.created_at ≤ r.created_at) db.seats
          × (s ≡ reserved_for i free)
          × (db'.seats ≡ change_row free.id (reserved_for i) db.seats)
    first (inl (here, hit, rows)) =
        absurd
          (ground (arith, All-Has (λ r. is_invited event_id i r ≡ false) db.seats s nobody here))
    first (inr (inl (free, found, c, m, hit, row, rows))) =
        let (here, passed, oldest) =
          law.find_first_by_some (λ x. x.created_at) (is_free_in event_id) db.seats free
            (unfold find_oldest_free in (ground arith)) in
        let same : c ≡ free = eq_of_id db.seats c free keys m here (ground arith) in
        (free, here, passed, oldest, row ∙ ap (reserved_for i) same, rows)
    first (inr (inr (here, hit, unheld, rows))) =
        absurd
          (ground (arith, All-Has (λ r. is_invited event_id i r ≡ false) db.seats s nobody here))
