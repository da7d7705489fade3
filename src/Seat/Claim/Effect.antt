-- ===== src/Seat/Claim/Effect.antt =====
-- What `assignSeatToGuest` does to the seats of the database.
use seat_service.Common.{
  ℕ, ◌≡◌, refl, sym, ◌∙◌, ap, ◌⊎◌, inl, inr, true, Option, none, some, List, ◌==◌, Has, arith,
  ==→eq, subst,
}
use seat_service.Action.{
  ok, and_then, modify, guard, require, transaction, and_then-ok, modify-ok, pure-ok, require-ok,
  guard-ok, transaction-ok,
}
use seat_service.Database.{Db, Seat}
use seat_service.Database.Client.{Delegate, IsDelegate}
use seat_service.Seat.Rows.{fits}
use seat_service.Seat.Rows.Distinct.{HasDistinctIds}
use seat_service.Seat.Store.{Platform, log_change, log_assignment, find_unique, update_many}
use seat_service.Seat.Store.Laws.{
  KeepsSeats, enqueue-KeepsSeats, log_assignment-KeepsSeats, log_change-KeepsSeats,
  find_unique-some,
}
use seat_service.Seat.Store.Guarded.{change_row, guarded_update, changed_row}
use seat_service.Seat.Claim.{
  AssignSeatDto, is_own, is_claim_target, claimed, select_seat, claim_selected, record_claim,
  claim_new, own_or_claim, claim_in_transaction, assign_seat_to_guest,
}

names_target :
    (input : AssignSeatDto) (seat r : Seat) → is_claim_target input seat r ≡ true → r.id ≡ seat.id
names_target input seat r h = ground arith

module _ (t : Delegate Seat) (law : IsDelegate fits t) (pf : Platform) (other : Db → Db) where
  claim_selected-ok :
      (input : AssignSeatDto) (seat : Seat) (db db' : Db) (s : Seat)
      → HasDistinctIds db.seats
      → claim_selected t pf other input seat db ≡ (ok s, db')
      → (c : Seat) × Has c db.seats
        × (is_claim_target input seat c ≡ true)
        × (s ≡ claimed input c)
        × (db'.seats ≡ change_row seat.id (claimed input) db.seats)
  unfolding claim_selected
  claim_selected-ok input seat db db' s d h =
      let (n, db1, e1, h1) = and_then-ok (update_many t _ _ db) _ h in
      let (u, db2, e2, h2) = and_then-ok (guard _ _ db1) _ h1 in
      let (o, db3, e3, h3) = and_then-ok (find_unique t seat.id db2) _ h2 in
      let (o_some, same3) = require-ok o _ h3 in
      let (one, same2) = guard-ok (n == 1) _ e2 in
      let (c, m, hit, rows) =
        guarded_update seat.id (is_claim_target input seat) (claimed input)
          (names_target input seat) t law db db1 n d e1 one in
      let (here, hit_id, same4) = find_unique-some t law seat.id db2 db3 s (rw o_some at e3) in
      let seats2 : db2.seats ≡ change_row seat.id (claimed input) db.seats =
        ap (λ (x : Db). x.seats) (same2 ∙ rows) in
      (
        c,
        m,
        hit,
        changed_row seat.id (is_claim_target input seat) (claimed input) (names_target input seat)
            db.seats c s (λ r. refl) d m hit (subst (λ (l : List Seat). Has s l) seats2 here)
            hit_id,
        ap (λ (x : Db). x.seats) (same3 ∙ same4) ∙ seats2,
      )

  record_claim-KeepsSeats :
      (input : AssignSeatDto) (result : Seat) → KeepsSeats (record_claim t pf other input result)
  unfolding record_claim
  record_claim-KeepsSeats input result db db' u h =
      let (x, db1, e1, h1) = and_then-ok (log_assignment _ db) _ h in
      enqueue-KeepsSeats pf _ db1 db' u h1 ∙ log_assignment-KeepsSeats _ db db1 x e1

  -- A new claim: a seat `seat` of the event was selected, and the row `c` of the table at the time of
  -- the claim, which then has the seat's id, passed the guard.
  abbrev pub Claimed : AssignSeatDto → Db → Seat → Db → Type 0
  Claimed input db s db' =
      (seat : Seat) × (seat.event_id ≡ input.event_id)
      × (select_seat t input.seat_id input.event_id input.invitation_id db ≡ (ok (some seat), db))
      × (c : Seat) × Has c (other db).seats
      × (is_claim_target input seat c ≡ true)
      × (s ≡ claimed input c)
      × (db'.seats ≡ change_row seat.id (claimed input) (other db).seats)

  select_seat-same :
      (seat_id : Option ℕ) (event_id : ℕ) (invitation_id : Option ℕ) (db db' : Db) (o : Option Seat)
      → select_seat t seat_id event_id invitation_id db ≡ (ok o, db')
      → db' ≡ db
  unfolding select_seat find_unique and_then
  select_seat-same (some id) event_id invitation_id db db' o h = ground arith
  select_seat-same none event_id none db db' o h = ground arith
  select_seat-same none event_id (some i) db db' o h = ground arith

  claim_new-Claimed :
      (input : AssignSeatDto) (db db' : Db) (s : Seat)
      → HasDistinctIds (other db).seats
      → claim_new t pf other input db ≡ (ok s, db')
      → Claimed input db s db'
  unfolding claim_new
  claim_new-Claimed input db db' s keys h =
      let (o, db1, e1, h1) = and_then-ok (select_seat t _ _ _ db) _ h in
      let (seat, db2, e2, h2) = and_then-ok (require o _ db1) _ h1 in
      let (u, db3, e3, h3) = and_then-ok (guard _ _ db2) _ h2 in
      let (v, db4, e4, h4) = and_then-ok (modify other db3) _ h3 in
      let (r, db5, e5, h5) = and_then-ok (claim_selected t pf other input seat db4) _ h4 in
      let (w, db6, e6, h6) = and_then-ok (record_claim t pf other input r db5) _ h5 in
      let (o_some, same2) = require-ok o _ e2 in
      let (event, same3) = guard-ok (seat.event_id == input.event_id) _ e3 in
      let same1 = select_seat-same input.seat_id input.event_id input.invitation_id db db1 o e1 in
      let moved = modify-ok other db3 db4 v e4 in
      let at_claim : db4 ≡ other db = moved ∙ ap other (same3 ∙ same2 ∙ same1) in
      let (c, m, hit, row, rows) =
        claim_selected-ok input seat db4 db5 r
          (subst (λ (x : Db). HasDistinctIds x.seats) (sym at_claim) keys) e5 in
      let (same_s, same7) = pure-ok h6 in
      let kept = record_claim-KeepsSeats input r db5 db6 w e6 in
      (
        seat,
        ==→eq seat.event_id input.event_id event,
        subst (λ x. select_seat t input.seat_id input.event_id input.invitation_id db ≡ (ok x, db))
            o_some
            (subst
              (λ (x : Db).
                select_seat t input.seat_id input.event_id input.invitation_id db ≡ (ok o, x))
              same1 e1),
        c,
        subst (λ (x : Db). Has c x.seats) at_claim m,
        hit,
        same_s ∙ row,
        ap (λ (x : Db). x.seats) same7
            ∙ kept
            ∙ rows
            ∙ ap (λ (x : Db). change_row seat.id (claimed input) x.seats) at_claim,
      )

  -- What a call that returns has done.
  abbrev pub Outcome : AssignSeatDto → Db → Seat → Db → Type 0
  Outcome input db s db' =
      Has s db.seats × (is_own input s ≡ true) × (db'.seats ≡ db.seats) ⊎ Claimed input db s db'

  own_or_claim-Outcome :
      (input : AssignSeatDto) (db db' : Db) (s : Seat) (o : Option Seat)
      → HasDistinctIds (other db).seats
      → t.find_first (is_own input) db.seats ≡ o
      → own_or_claim t pf other input o db ≡ (ok s, db')
      → Outcome input db s db'
  unfolding own_or_claim
  own_or_claim-Outcome input db db' s none keys e h = inr (claim_new-Claimed input db db' s keys h)
  own_or_claim-Outcome input db db' s (some existing) keys e h =
      let (here, own) = law.find_first_some (is_own input) db.seats existing e in
      let (same, same_db) = pure-ok h in
      inl (
        subst (λ (x : Seat). Has x db.seats) (sym same) here,
        subst (λ (x : Seat). is_own input x ≡ true) (sym same) own,
        ap (λ (x : Db). x.seats) same_db,
      )

  -- A call that returns either gives back a seat of the event that the guest has already, with the
  -- invitation of the input if it has one, and changes no seat; or it claims. The claim names a seat
  -- of the event that the selection found, the row with its id passed the guard at the time of the
  -- claim, whatever other transactions did meanwhile, the result is its new row, and no other row
  -- changes.
  pub assign_seat_to_guest-Outcome :
      (input : AssignSeatDto) (db db' : Db) (s : Seat)
      → HasDistinctIds (other db).seats
      → assign_seat_to_guest t pf other input db ≡ (ok s, db')
      → Outcome input db s db'
  unfolding assign_seat_to_guest
  assign_seat_to_guest-Outcome input db db' s keys h =
      let (r, db1, e1, h1) =
        and_then-ok (transaction (claim_in_transaction t pf other input) db) _ h in
      let (u, db2, e2, h2) = and_then-ok (log_change _ _ _ db1) _ h1 in
      let (same, same_db) = pure-ok h2 in
      let run = transaction-ok (claim_in_transaction t pf other input) db e1 in
      let kept : db'.seats ≡ db1.seats =
        ap (λ (x : Db). x.seats) same_db ∙ log_change-KeepsSeats _ _ _ db1 db2 u e2 in
      moved r db1
        (own_or_claim-Outcome input db db1 r (t.find_first (is_own input) db.seats) keys refl
          (started input db db1 r run))
        same kept
    where
      started :
          (i : AssignSeatDto) (x y : Db) (r : Seat)
          → claim_in_transaction t pf other i x ≡ (ok r, y)
          → own_or_claim t pf other i (t.find_first (is_own i) x.seats) x ≡ (ok r, y)
      started i x y r e = unfold claim_in_transaction and_then in e

      moved :
          (r : Seat) (y : Db)
          → Outcome input db r y
          → s ≡ r
          → db'.seats ≡ y.seats
          → Outcome input db s db'
      moved r y (inl (here, own, rows)) e k = inl (
        subst (λ (x : Seat). Has x db.seats) (sym e) here,
        subst (λ (x : Seat). is_own input x ≡ true) (sym e) own,
        k ∙ rows,
      )
      moved r y (inr (seat, event, selected, c, m, hit, row, rows)) e k =
          inr (seat, event, selected, c, m, hit, e ∙ row, k ∙ rows)
