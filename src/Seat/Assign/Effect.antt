-- ===== src/Seat/Assign/Effect.antt =====
-- What `assignSeat` does to the seats of the database.
use seat_service.Common.{
  ℕ, ◌≡◌, refl, sym, ◌∙◌, ap, ◌⊎◌, inl, inr, true, false, ◌&&◌, ◌||◌, not, Option, none, some, List,
  map, ◌==◌, is_some, if◌then◌else◌, map_where, Has, arith, ==_self, ==→eq, Bool-cases, subst,
}
use seat_service.Action.{
  ok, pure, throw, guard, require, and_then-ok, pure-ok, require-ok, guard-ok, if-ok,
}
use seat_service.Database.{Db, Seat}
use seat_service.Database.Client.{Delegate, IsDelegate}
use seat_service.Seat.Rows.{fits, subject}
use seat_service.Seat.Rows.Distinct.{
  HasDistinctIds, eq_of_id, map_ext, map_where-map, map-map, HasDistinctIds-map, map-Has, Has-count,
}
use seat_service.Seat.Store.{db_transaction, Platform, log_assignment, find_unique, update_many}
use seat_service.Seat.Store.Laws.{
  KeepsSeats, enqueue-KeepsSeats, log_assignment-KeepsSeats, log_change-KeepsSeats, update_many-ok,
  db_transaction-ok, find_unique-some,
}
use seat_service.Seat.Assign.{
  AssignSeatInput, has_assignment, is_claimable, held, free_conflicts, claim_target, report_target,
  record_target, assign_found, assign_existing, assign_seat,
}
use seat_service.Seat.Assign.Conflicts.{
  free_conflicting, free_conflicting-KeepsId, free_conflicts-seats,
}

-- The specification: the target takes the holder of the input, the holder's other seats of the event
-- are freed, every other seat is as before.
abbrev pub reassign : Seat → AssignSeatInput → Seat → Seat
reassign seat input r = if r.id == seat.id then held input r else free_conflicting seat input r

reassign-split :
    (seat : Seat) (input : AssignSeatInput) (r : Seat)
    → reassign seat input r
      ≡ (let c = free_conflicting seat input r in if c.id == seat.id then held input c else c)
reassign-split seat input r = ground arith

is_claimable-id :
    (seat : Seat) (input : AssignSeatInput) (r : Seat)
    → is_claimable seat input r ≡ true
    → r.id ≡ seat.id
is_claimable-id seat input r h = ground arith

-- Where one row passes the guard, the rows that pass it are those with the id of the target.
claim_row :
    (seat : Seat) (input : AssignSeatInput) (ss : List Seat) (c r : Seat)
    → HasDistinctIds ss
    → Has c ss
    → is_claimable seat input c ≡ true
    → Has r ss
    → (if is_claimable seat input r then held input r else r)
      ≡ (if r.id == seat.id then held input r else r)
claim_row seat input ss c r d m hit n = elim (Bool-cases (r.id == seat.id)) [
  | inl same ↦
      let e : c ≡ r =
        eq_of_id ss c r d m n (is_claimable-id seat input c hit ∙ sym (==→eq r.id seat.id same)) in
      let hit' : is_claimable seat input r ≡ true =
        subst (λ u. is_claimable seat input u ≡ true) e hit in
      rw (hit', same)
  | inr other ↦ rw other
]

module _ (t : Delegate Seat) (law : IsDelegate fits t) (pf : Platform) where
  -- The guarded update changes the target and nothing else, and the target passed the guard.
  claim_target-ok :
      (seat : Seat) (input : AssignSeatInput) (db db' : Db) (s : Seat)
      → HasDistinctIds db.seats
      → claim_target t pf seat input db ≡ (ok s, db')
      → (db'.seats ≡ map (λ r. if r.id == seat.id then held input r else r) db.seats)
        × (c : Seat) × Has c db.seats
        × (is_claimable seat input c ≡ true)
        × Has s db'.seats
        × (s.id ≡ seat.id)
  unfolding claim_target
  claim_target-ok seat input db db' s d h =
      let (n, db1, e1, h1) = and_then-ok (update_many t _ _ db) _ h in
      let (u, db2, e2, h2) = and_then-ok (guard _ _ db1) _ h1 in
      let (o, db3, e3, h3) = and_then-ok (find_unique t seat.id db2) _ h2 in
      let (o_some, same3) = require-ok o _ h3 in
      let (one, same2) = guard-ok (n == 1) _ e2 in
      let (rows, counted) =
        update_many-ok t law (is_claimable seat input) (held input) db db1 n e1 in
      let (c, m, hit) = Has-count (is_claimable seat input) db.seats 0 (ground arith) in
      let (here, hit_id, same4) = find_unique-some t law seat.id db2 db3 s (rw o_some at e3) in
      let seats : db'.seats ≡ map_where (is_claimable seat input) (held input) db.seats =
        ap (λ (x : Db). x.seats) (same3 ∙ same4 ∙ same2 ∙ rows) in
      (
        seats
            ∙ map_where-map (is_claimable seat input) (held input) db.seats
            ∙ map_ext _ _ db.seats (λ r k. claim_row seat input db.seats c r d m hit k),
        c,
        m,
        hit,
        subst (λ (x : Db). Has s x.seats) (sym (same3 ∙ same4)) here,
        hit_id,
      )

  report_target-KeepsSeats :
      (seat : Seat) (input : AssignSeatInput) (holder : Option ℕ)
      → KeepsSeats (report_target t pf seat input holder)
  unfolding report_target
  report_target-KeepsSeats seat input none db db' u h = ground arith
  report_target-KeepsSeats seat input (some k) db db' u h = enqueue-KeepsSeats pf _ db db' u h

  record_target-KeepsSeats :
      (seat : Seat) (input : AssignSeatInput) (actor_id : ℕ)
      → KeepsSeats (record_target t pf seat input actor_id)
  unfolding record_target
  record_target-KeepsSeats seat input actor_id db db' u h =
      let (x, db1, e1, h1) = and_then-ok (log_assignment _ db) _ h in
      let (y, db2, e2, h2) = and_then-ok (report_target t pf seat input _ db1) _ h1 in
      log_change-KeepsSeats seat.event_id actor_id _ db2 db' u h2
      ∙ report_target-KeepsSeats seat input _ db1 db2 y e2
      ∙ log_assignment-KeepsSeats _ db db1 x e1

  -- The steps after the seat is found: nothing is done for a seat and an input with no holder; else
  -- the target passed the guard, the result is its new row and the seats are those of the
  -- specification.
  abbrev pub Done : Seat → AssignSeatInput → Db → Seat → Db → Type 0
  Done seat input db s db' =
      (has_assignment input ≡ false) × (subject seat ≡ none) × (s ≡ seat) × (db' ≡ db)
      ⊎ ((has_assignment input || is_some (subject seat)) ≡ true)
        × (is_claimable seat input seat ≡ true)
        × (s ≡ held input seat)
        × (db'.seats ≡ map (reassign seat input) db.seats)

  claimed_target :
      (seat : Seat) (input : AssignSeatInput) (ss : List Seat) (c : Seat)
      → HasDistinctIds ss
      → Has seat ss
      → Has c (map (free_conflicting seat input) ss)
      → is_claimable seat input c ≡ true
      → is_claimable seat input seat ≡ true
  claimed_target seat input ss c d m n hit =
      let (r, k, e) = map-Has (free_conflicting seat input) ss c n in
      let same_id : r.id ≡ seat.id =
        sym (free_conflicting-KeepsId seat input r)
        ∙ sym (ap (λ (x : Seat). x.id) e)
        ∙ is_claimable-id seat input c hit in
      let same : r ≡ seat = eq_of_id ss r seat d k m same_id in
      let target : free_conflicting seat input seat ≡ seat = ground (arith, ==_self seat.id) in
      subst (λ x. is_claimable seat input x ≡ true)
        (e ∙ ap (free_conflicting seat input) same ∙ target) hit

  -- The row of the specification with the id of the target.
  target_row :
      (seat : Seat) (input : AssignSeatInput) (ss : List Seat) (s : Seat)
      → HasDistinctIds ss
      → Has seat ss
      → Has s (map (reassign seat input) ss)
      → s.id ≡ seat.id
      → s ≡ held input seat
  target_row seat input ss s d m n id =
      let (r, k, e) = map-Has (reassign seat input) ss s n in
      let kept : (reassign seat input r).id ≡ r.id = ground arith in
      let same : r ≡ seat =
        eq_of_id ss r seat d k m (sym kept ∙ sym (ap (λ (x : Seat). x.id) e) ∙ id) in
      let target : reassign seat input seat ≡ held input seat = rw (==_self seat.id) refl in
      e ∙ ap (reassign seat input) same ∙ target

  assign_found-Done :
      (seat : Seat) (input : AssignSeatInput) (actor_id : ℕ) (db db' : Db) (s : Seat)
      → HasDistinctIds db.seats
      → Has seat db.seats
      → assign_found t pf seat input actor_id db ≡ (ok s, db')
      → Done seat input db s db'
  unfolding assign_found
  assign_found-Done seat input actor_id db db' s d m h =
      elim (if-ok (not (has_assignment input) && not (is_some (subject seat))) (pure seat) _
        {s = db} h) [
          | inl (idle, run) ↦ inl (ground arith, ground arith, ground arith, ground arith)
          | inr (busy, run) ↦
              let (x, db1, e1, h1) = and_then-ok (free_conflicts t pf seat input db) _ run in
              let (u, db2, e2, h2) = and_then-ok (claim_target t pf seat input db1) _ h1 in
              let (y, db3, e3, h3) =
                and_then-ok (record_target t pf seat input actor_id db2) _ h2 in
              let freed_rows = free_conflicts-seats t law pf seat input db db1 x d e1 in
              let d1 : HasDistinctIds db1.seats = subst HasDistinctIds (sym freed_rows) (
                HasDistinctIds-map (free_conflicting seat input) db.seats
                  (free_conflicting-KeepsId seat input) d) in
              let (rows, c, n, hit, here, hit_id) = claim_target-ok seat input db1 db2 u d1 e2 in
              let kept = record_target-KeepsSeats seat input actor_id db2 db3 y e3 in
              let (same_s, same_db) = pure-ok h3 in
              let seats : db'.seats ≡ db2.seats = ap (λ (x : Db). x.seats) same_db ∙ kept in
              let rows' : db'.seats ≡ map (reassign seat input) db.seats =
                seats
                ∙ rows
                ∙ ap (map _) freed_rows
                ∙ map-map _ (free_conflicting seat input) db.seats
                ∙ map_ext _ _ db.seats (λ r k. sym (reassign-split seat input r)) in
              let s_here : Has s db'.seats =
                subst (λ (l : List Seat). Has s l) (sym seats)
                  (subst (λ (x : Seat). Has x db2.seats) (sym same_s) here) in
              inr (
                ground arith,
                claimed_target seat input db.seats c d m
                    (subst (λ (l : List Seat). Has c l) freed_rows n) hit,
                target_row seat input db.seats s d m
                    (subst (λ (l : List Seat). Has s l) rows' s_here)
                    (ap (λ (x : Seat). x.id) same_s ∙ hit_id),
                rows',
              )
        ]

  assign_existing-Done :
      (input : AssignSeatInput) (actor_id : ℕ) (db db' : Db) (s : Seat)
      → HasDistinctIds db.seats
      → assign_existing t pf input actor_id db ≡ (ok s, db')
      → (seat : Seat) × Has seat db.seats × (seat.id ≡ input.seat_id) × Done seat input db s db'
  unfolding assign_existing
  assign_existing-Done input actor_id db db' s d h =
      let (o, db1, e1, h1) = and_then-ok (find_unique t input.seat_id db) _ h in
      let (seat, db2, e2, h2) = and_then-ok (require o _ db1) _ h1 in
      let (o_some, same2) = require-ok o _ e2 in
      let (here, hit, same1) = find_unique-some t law input.seat_id db db1 seat (rw o_some at e1) in
      let h3 : assign_found t pf seat input actor_id db ≡ (ok s, db') =
        subst (λ x. assign_found t pf seat input actor_id x ≡ (ok s, db')) (same2 ∙ same1) h2 in
      (seat, here, hit, assign_found-Done seat input actor_id db db' s d here h3)

  -- `assignSeat`, where it returns and ids are distinct, has found the input's seat; if neither the
  -- input nor that seat has a holder it changes nothing; else that seat passed the guard of the claim,
  -- the result is the seat with the input's holder, and the seats after it are those before it with
  -- the conflicting ones freed and that one given to the input's holder.
  pub assign_seat-Done :
      (input : AssignSeatInput) (actor_id : ℕ) (db db' : Db) (s : Seat)
      → HasDistinctIds db.seats
      → assign_seat t pf input actor_id db ≡ (ok s, db')
      → (seat : Seat) × Has seat db.seats × (seat.id ≡ input.seat_id) × Done seat input db s db'
  unfolding assign_seat
  assign_seat-Done input actor_id db db' s d h =
      elim (if-ok (is_some input.guest_id && is_some input.invitation_id) (throw _)
        (db_transaction (assign_existing t pf input actor_id)) {s = db} h) [
          | inl (both, run) ↦ absurd (ground arith)
          | inr (single, run) ↦
              assign_existing-Done input actor_id db db' s d
                (db_transaction-ok (assign_existing t pf input actor_id) db db' s run)
        ]
