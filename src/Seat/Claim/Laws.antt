-- ===== src/Seat/Claim/Laws.antt =====
-- What `assignSeatToGuest` guarantees.
use seat_service.Common.{
  ℕ, ◌≡◌, sym, ◌⊎◌, inl, inr, true, false, none, some, ◌==◌, if◌then◌else◌, Has, All-Has, arith,
  subst, Option-cases,
}
use seat_service.Action.{ok, and_then}
use seat_service.Database.{Db, Seat}
use seat_service.Database.Client.{Delegate, IsDelegate}
use seat_service.Seat.Rows.{fits}
use seat_service.Seat.Rows.Distinct.{HasDistinctIds}
use seat_service.Seat.Rows.Consistent.{IsConsistent, AllConsistent, AllConsistent-map}
use seat_service.Seat.Store.{Platform}
use seat_service.Seat.Claim.{
  AssignSeatDto, is_own, is_reservation, is_claim_target, claimed, find_reserved, find_oldest_free,
  select_seat, assign_seat_to_guest,
}
use seat_service.Seat.Claim.Effect.{Outcome, assign_seat_to_guest-Outcome}

claimed-IsConsistent :
    (input : AssignSeatDto) (id : ℕ) (r : Seat)
    → IsConsistent r
    → IsConsistent (if r.id == id then claimed input r else r)
claimed-IsConsistent input id r h = ground arith

-- The guard for a seat that is reserved for the invitation.
target-is_reservation :
    (input : AssignSeatDto) (i : ℕ) (seat c : Seat)
    → input.invitation_id ≡ some i
    → is_reservation input.event_id i seat ≡ true
    → is_claim_target input seat c ≡ true
    → is_reservation input.event_id i c ≡ true
target-is_reservation input i seat c e h k = ground arith

module _ (t : Delegate Seat) (law : IsDelegate fits t) where
  select-reserved :
      (event_id i : ℕ) (db : Db) (r seat : Seat)
      → Has r db.seats
      → is_reservation event_id i r ≡ true
      → select_seat t none event_id (some i) db ≡ (ok (some seat), db)
      → is_reservation event_id i seat ≡ true
  unfolding select_seat find_reserved find_oldest_free and_then
  select-reserved event_id i db r seat m hit h =
      elim (Option-cases
        (t.find_first_by (λ s. s.created_at) (is_reservation event_id i) db.seats)) [
          | inl missed ↦
              let absent =
                law.find_first_by_none (λ s. s.created_at) (is_reservation event_id i) db.seats
                  missed in
              absurd (
                ground
                  (arith, All-Has (λ u. is_reservation event_id i u ≡ false) db.seats r absent m))
          | inr (found, e) ↦
              let (here, passed, oldest) =
                law.find_first_by_some (λ s. s.created_at) (is_reservation event_id i) db.seats
                  found e in
              subst (λ u. is_reservation event_id i u ≡ true) (same found e) passed
        ]
    where
      same :
          (found : Seat)
          → t.find_first_by (λ s. s.created_at) (is_reservation event_id i) db.seats ≡ some found
          → found ≡ seat
      same found e = ground arith

module _ (t : Delegate Seat) (law : IsDelegate fits t) (pf : Platform) (other : Db → Db) where
  -- A call that returns keeps every seat's status in agreement with its holder, if the seats agree
  -- before the call and at the time of the claim.
  pub assign_seat_to_guest-AllConsistent :
      (input : AssignSeatDto) (db db' : Db) (s : Seat)
      → HasDistinctIds (other db).seats
      → AllConsistent db.seats
      → AllConsistent (other db).seats
      → assign_seat_to_guest t pf other input db ≡ (ok s, db')
      → AllConsistent db'.seats
  assign_seat_to_guest-AllConsistent input db db' s keys before meanwhile h =
      keeps (assign_seat_to_guest-Outcome t law pf other input db db' s keys h)
    where
      keeps : Outcome t law pf other input db s db' → AllConsistent db'.seats
      keeps (inl (here, own, rows)) = subst AllConsistent (sym rows) before
      keeps (inr (seat, event, selected, c, m, hit, row, rows)) =
          subst AllConsistent (sym rows)
            (AllConsistent-map _ (other db).seats (claimed-IsConsistent input seat.id) meanwhile)

  -- While the event has a seat reserved for the invitation of the input, a call without a seat gives
  -- a guest who has no seat with this invitation a seat that is so reserved at the time of the claim,
  -- and never a free one.
  pub claims_reservation :
      (input : AssignSeatDto) (i : ℕ) (db db' : Db) (r s : Seat)
      → HasDistinctIds (other db).seats
      → input.seat_id ≡ none
      → input.invitation_id ≡ some i
      → Has r db.seats
      → is_reservation input.event_id i r ≡ true
      → assign_seat_to_guest t pf other input db ≡ (ok s, db')
      → Has s db.seats × (is_own input s ≡ true)
        ⊎ (c : Seat) × Has c (other db).seats
          × (is_reservation input.event_id i c ≡ true)
          × (s ≡ claimed input c)
  claims_reservation input i db db' r s keys open_seat invited m reserved_row h =
      taken (assign_seat_to_guest-Outcome t law pf other input db db' s keys h)
    where
      taken :
          Outcome t law pf other input db s db'
          → Has s db.seats × (is_own input s ≡ true)
            ⊎ (c : Seat) × Has c (other db).seats
              × (is_reservation input.event_id i c ≡ true)
              × (s ≡ claimed input c)
      taken (inl (here, own, rows)) = inl (here, own)
      taken (inr (seat, event, selected, c, n, hit, row, rows)) =
          let selected' : select_seat t none input.event_id (some i) db ≡ (ok (some seat), db) =
            subst (λ x. select_seat t none input.event_id x db ≡ (ok (some seat), db)) invited
              (subst
                (λ x. select_seat t x input.event_id input.invitation_id db ≡ (ok (some seat), db))
                open_seat selected) in
          inr (
            c,
            n,
            target-is_reservation input i seat c invited
                (select-reserved t law input.event_id i db r seat m reserved_row selected') hit,
            row,
          )
