-- ===== src/Seat/Reserve/Effect.antt =====
-- What `reserveSeatForInvitation` does to the seats of the database.
use seat_service.Common.{
  ℕ, ◌≡◌, refl, sym, ◌∙◌, ap, ◌⊎◌, inl, inr, true, false, Option, none, some, List, ◌==◌, Has,
  arith, subst, is_some,
}
use seat_service.Action.{
  ok, and_then, pure, throw, modify, require, and_then-ok, pure-ok, modify-ok, require-ok,
  transaction-ok, if-ok,
}
use seat_service.Database.{Db, Seat}
use seat_service.Database.Client.{Delegate, IsDelegate}
use seat_service.Seat.Rows.{fits}
use seat_service.Seat.Rows.Distinct.{HasDistinctIds}
use seat_service.Seat.Store.{log_assignment, find_unique, update_many}
use seat_service.Seat.Store.Laws.{log_assignment-KeepsSeats, find_unique-some}
use seat_service.Seat.Store.Guarded.{change_row, guarded_update, guarded_update_lost, changed_row}
use seat_service.Seat.Claim.{find_oldest_free}
use seat_service.Seat.Reserve.{
  is_invited, is_free_target, reserved_for, find_invited, retry_reservation, finish_reservation,
  reserve_selected, reserve_free, own_or_reserve, reserve_in_transaction,
  reserve_seat_for_invitation,
}

names_target :
    (event_id : ℕ) (free r : Seat) → is_free_target event_id free r ≡ true → r.id ≡ free.id
names_target event_id free r h = ground arith

module _ (t : Delegate Seat) (law : IsDelegate fits t) (other : Db → Db) where
  -- The invitation had a seat: nothing changes.
  abbrev pub Owned : ℕ → ℕ → Db → Seat → Db → Type 0
  Owned event_id invitation_id db s db' =
      Has s db.seats × (is_invited event_id invitation_id s ≡ true) × (db'.seats ≡ db.seats)

  -- The row of the free seat, free still at the time of the claim, is reserved.
  abbrev pub Reserved : ℕ → ℕ → Db → Seat → Db → Type 0
  Reserved event_id invitation_id db s db' =
      (free : Seat) × (find_oldest_free t event_id db ≡ (ok (some free), db))
      × (c : Seat) × Has c (other db).seats
      × (is_free_target event_id free c ≡ true)
      × (s ≡ reserved_for invitation_id c)
      × (db'.seats ≡ change_row free.id (reserved_for invitation_id) (other db).seats)

  -- The claim was lost and another transaction had reserved a seat for the invitation.
  abbrev pub Retried : ℕ → ℕ → Db → Seat → Db → Type 0
  Retried event_id invitation_id db s db' =
      Has s (other db).seats
      × (is_invited event_id invitation_id s ≡ true)
      × (is_some s.guest_id ≡ false)
      × (db'.seats ≡ (other db).seats)

  finish_reservation-ok :
      (event_id invitation_id : ℕ) (free : Seat) (db db' : Db) (s : Seat)
      → finish_reservation t other event_id invitation_id free db ≡ (ok s, db')
      → Has s db.seats × (s.id ≡ free.id) × (db'.seats ≡ db.seats)
  unfolding finish_reservation
  finish_reservation-ok event_id invitation_id free db db' s h =
      let (u, db1, e1, h1) = and_then-ok (log_assignment _ db) _ h in
      let (o, db2, e2, h2) = and_then-ok (find_unique t free.id db1) _ h1 in
      let (o_some, same) = require-ok o _ h2 in
      let (here, hit, same1) =
        find_unique-some t law free.id db1 db2 s
          (subst (λ x. find_unique t free.id db1 ≡ (ok x, db2)) o_some e2) in
      let kept = log_assignment-KeepsSeats _ db db1 u e1 in
      (
        subst (λ (l : List Seat). Has s l) kept here,
        hit,
        ap (λ (x : Db). x.seats) (same ∙ same1) ∙ kept,
      )

  retry_reservation-ok :
      (event_id invitation_id : ℕ) (free : Seat) (o : Option Seat) (db db' : Db) (s : Seat)
      → t.find_first (is_invited event_id invitation_id) db.seats ≡ o
      → retry_reservation t other event_id free o db ≡ (ok s, db')
      → Has s db.seats
        × (is_invited event_id invitation_id s ≡ true)
        × (is_some s.guest_id ≡ false)
        × (db'.seats ≡ db.seats)
  unfolding retry_reservation
  retry_reservation-ok event_id invitation_id free none db db' s e h = absurd (ground arith)
  retry_reservation-ok event_id invitation_id free (some retry) db db' s e h =
      let (here, hit) = law.find_first_some (is_invited event_id invitation_id) db.seats retry e in
      elim (if-ok (is_some retry.guest_id) (throw _) (pure retry) {s = db} h) [
        | inl (held, run) ↦ absurd (ground arith)
        | inr (unheld, run) ↦
            let (same, same_db) = pure-ok run in
            (
              subst (λ (x : Seat). Has x db.seats) (sym same) here,
              subst (λ (x : Seat). is_invited event_id invitation_id x ≡ true) (sym same) hit,
              subst (λ (x : Seat). is_some x.guest_id ≡ false) (sym same) unheld,
              ap (λ (x : Db). x.seats) same_db,
            )
      ]

  find_invited-ok :
      (event_id invitation_id : ℕ) (db db' : Db) (o : Option Seat)
      → find_invited t other event_id invitation_id db ≡ (ok o, db')
      → (o ≡ t.find_first (is_invited event_id invitation_id) db.seats) × (db' ≡ db)
  unfolding find_invited
  find_invited-ok event_id invitation_id db db' o h = ground arith

  find_oldest_free-same :
      (event_id : ℕ) (db db' : Db) (o : Option Seat)
      → find_oldest_free t event_id db ≡ (ok o, db')
      → db' ≡ db
  unfolding find_oldest_free
  find_oldest_free-same event_id db db' o h = ground arith

  reserve_selected-ok :
      (event_id invitation_id : ℕ) (free : Seat) (db db' : Db) (s : Seat)
      → HasDistinctIds (other db).seats
      → find_oldest_free t event_id db ≡ (ok (some free), db)
      → reserve_selected t other event_id invitation_id free (other db) ≡ (ok s, db')
      → Reserved event_id invitation_id db s db' ⊎ Retried event_id invitation_id db s db'
  unfolding reserve_selected
  reserve_selected-ok event_id invitation_id free db db' s keys found h =
      let (n, db1, e1, h1) = and_then-ok (update_many t _ _ (other db)) _ h in
      elim (if-ok (n == 1) (finish_reservation t other event_id invitation_id free) _ {s = db1}
        h1) [
          | inl (won, run) ↦
              let (c, m, hit, rows) =
                guarded_update free.id (is_free_target event_id free) (reserved_for invitation_id)
                  (names_target event_id free) t law (other db) db1 n keys e1 won in
              let (here, id, kept) =
                finish_reservation-ok event_id invitation_id free db1 db' s run in
              let seats : db1.seats
                  ≡ change_row free.id (reserved_for invitation_id) (other db).seats =
                ap (λ (x : Db). x.seats) rows in
              inl (
                free,
                found,
                c,
                m,
                hit,
                changed_row free.id (is_free_target event_id free) (reserved_for invitation_id)
                    (names_target event_id free) (other db).seats c s (λ r. refl) keys m hit
                    (subst (λ (l : List Seat). Has s l) seats here) id,
                kept ∙ seats,
              )
          | inr (lost, run) ↦
              let same =
                guarded_update_lost free.id (is_free_target event_id free)
                  (reserved_for invitation_id) (names_target event_id free) t law (other db) db1 n
                  keys e1 lost in
              let (o, db2, e2, h2) =
                and_then-ok (find_invited t other event_id invitation_id db1) _ run in
              let (o_found, same2) = find_invited-ok event_id invitation_id db1 db2 o e2 in
              let (here, hit, unheld, kept) =
                retry_reservation-ok event_id invitation_id free o db1 db' s (sym o_found) (
                  subst (λ (x : Db). retry_reservation t other event_id free o x ≡ (ok s, db'))
                    same2 h2) in
              inr (
                subst (λ (x : Db). Has s x.seats) same here,
                hit,
                unheld,
                kept ∙ ap (λ (x : Db). x.seats) same,
              )
        ]

  reserve_free-ok :
      (event_id invitation_id : ℕ) (db db' : Db) (s : Seat)
      → HasDistinctIds (other db).seats
      → reserve_free t other event_id invitation_id db ≡ (ok s, db')
      → Reserved event_id invitation_id db s db' ⊎ Retried event_id invitation_id db s db'
  unfolding reserve_free
  reserve_free-ok event_id invitation_id db db' s keys h =
      let (o, db1, e1, h1) = and_then-ok (find_oldest_free t event_id db) _ h in
      let (free, db2, e2, h2) = and_then-ok (require o _ db1) _ h1 in
      let (u, db3, e3, h3) = and_then-ok (modify other db2) _ h2 in
      let (o_some, same2) = require-ok o _ e2 in
      let same1 = find_oldest_free-same event_id db db1 o e1 in
      let moved = modify-ok other db2 db3 u e3 in
      reserve_selected-ok event_id invitation_id free db db' s keys
        (subst (λ x. find_oldest_free t event_id db ≡ (ok x, db)) o_some
          (subst (λ (x : Db). find_oldest_free t event_id db ≡ (ok o, x)) same1 e1))
        (subst (λ (x : Db). reserve_selected t other event_id invitation_id free x ≡ (ok s, db'))
          (moved ∙ ap other (same2 ∙ same1)) h3)

  -- What a call that returns has done: the invitation had a seat in the event, or the oldest free
  -- seat was reserved for it, or another transaction did that first.
  abbrev pub Outcome : ℕ → ℕ → Db → Seat → Db → Type 0
  Outcome event_id invitation_id db s db' =
      Owned event_id invitation_id db s db'
      ⊎ (Reserved event_id invitation_id db s db' ⊎ Retried event_id invitation_id db s db')

  own_or_reserve-ok :
      (event_id invitation_id : ℕ) (o : Option Seat) (db db' : Db) (s : Seat)
      → HasDistinctIds (other db).seats
      → t.find_first (is_invited event_id invitation_id) db.seats ≡ o
      → own_or_reserve t other event_id invitation_id o db ≡ (ok s, db')
      → Outcome event_id invitation_id db s db'
  unfolding own_or_reserve
  own_or_reserve-ok event_id invitation_id none db db' s keys e h =
      inr (reserve_free-ok event_id invitation_id db db' s keys h)
  own_or_reserve-ok event_id invitation_id (some existing) db db' s keys e h =
      let (here, hit) =
        law.find_first_some (is_invited event_id invitation_id) db.seats existing e in
      let (same, same_db) = pure-ok {a = existing} {b = s} {s = db} {s' = db'} (ground arith) in
      inl (
        subst (λ (x : Seat). Has x db.seats) (sym same) here,
        subst (λ (x : Seat). is_invited event_id invitation_id x ≡ true) (sym same) hit,
        ap (λ (x : Db). x.seats) same_db,
      )

  -- A reservation that returns gives back the seat that the invitation has in the event and changes
  -- no seat; or it reserves for the invitation the oldest free seat of the event, which was free
  -- still at the time of the claim, whatever other transactions did meanwhile, and changes no other
  -- row; or it lost the claim, changes no row, and gives back a seat that is reserved for the
  -- invitation.
  pub reserve_seat_for_invitation-Outcome :
      (event_id invitation_id : ℕ) (db db' : Db) (s : Seat)
      → HasDistinctIds (other db).seats
      → reserve_seat_for_invitation t other event_id invitation_id db ≡ (ok s, db')
      → Outcome event_id invitation_id db s db'
  unfolding reserve_seat_for_invitation
  reserve_seat_for_invitation-Outcome event_id invitation_id db db' s keys h =
      own_or_reserve-ok event_id invitation_id
        (t.find_first (is_invited event_id invitation_id) db.seats) db db' s keys refl
        (started (transaction-ok (reserve_in_transaction t other event_id invitation_id) db h))
    where
      started :
          reserve_in_transaction t other event_id invitation_id db ≡ (ok s, db')
          → own_or_reserve t other event_id invitation_id
              (t.find_first (is_invited event_id invitation_id) db.seats)
              db
            ≡ (ok s, db')
      started e = unfold reserve_in_transaction find_invited and_then in e
