-- ===== src/Projection/Presence/Laws.antt =====
-- The presence of a seat after any milestones, and after scans of its ticket only.
use seat_service.Common.{
  ◌≡◌, refl, subst, ◌∙◌, ap, ℕ, false, Option, none, some, List, [], ◌∷◌, map, length, ◌==◌, ==→eq,
  ==_self, Bool-cases, Option-cases, inl, inr,
}
use seat_service.Action.{ok, and_then, and_then-ok, pure, pure-ok, each}
use seat_service.Projection.{Projection, IsProjection, write, write-ok, upserted}
use seat_service.Projection.Presence.{
  inside, SeatPresenceProjection, EventMilestone, MilestoneType, ticket_scanned, ticket_revoked,
  other_type, flip, scan_ticket, revoke_ticket, scan_create, scan_update, revoke_create,
  revoke_update, handle_seat_milestone, handle_milestone,
}
use seat_service.Projection.Presence.Kept.{
  IsKept, IsKept-self, IsKept-trans, scanned, scanned-IsKept, scanned_entered, upserted-scanned,
  flips, scan,
}

module _ {T : Type 0} (p : Projection ℕ SeatPresenceProjection T)
    (law : IsProjection (λ i j. i == j) p) where
  upsert_self :
      (k : ℕ) (create : SeatPresenceProjection)
      (update : SeatPresenceProjection → SeatPresenceProjection) (t t' : T) {u : Unit {0}}
      → write (p.upsert k create update) t ≡ (ok u, t')
      → p.find_unique k t' ≡ some (upserted create update (p.find_unique k t))
  upsert_self k create update t t' h =
      law.find-upsert k k create update t t' (write-ok (p.upsert k create update) t t' h)
      ∙ rw (==_self k) refl

  upsert-IsKept :
      (k j : ℕ) (create : SeatPresenceProjection)
      (update : SeatPresenceProjection → SeatPresenceProjection) (t t' : T)
      (row : SeatPresenceProjection) {u : Unit {0}}
      → write (p.upsert k create update) t ≡ (ok u, t')
      → p.find_unique j t ≡ some row
      → ((k ≡ j) → IsKept row (some (update row)))
      → IsKept row (p.find_unique j t')
  upsert-IsKept k j create update t t' row h found keeps =
      let after =
        law.find-upsert k j create update t t' (write-ok (p.upsert k create update) t t' h) in
      elim (Bool-cases (k == j)) [
        | inl same ↦
            let new : p.find_unique j t' ≡ some (update row) = after ∙ rw same (rw found refl) in
            rw new (keeps (==→eq k j same))
        | inr other ↦
            let old : p.find_unique j t' ≡ some row = after ∙ rw other found in
            rw old (IsKept-self row)
      ]

  scan_ticket_self :
      (k : ℕ) (m : EventMilestone) (t t' : T) {u : Unit {0}}
      → scan_ticket p k m t ≡ (ok u, t')
      → p.find_unique k t' ≡ some (scanned m (p.find_unique k t))
  unfolding scan_ticket and_then
  scan_ticket_self k m t t' h =
      let old = p.find_unique k t in
      upsert_self k (scan_create m old) (scan_update m old) t t' h ∙ upserted-scanned m old

  unchanged :
      (k : ℕ) (t t' : T) (row : SeatPresenceProjection) {u : Unit {0}}
      → pure {S = T} tt t ≡ (ok u, t')
      → p.find_unique k t ≡ some row
      → IsKept row (p.find_unique k t')
  unchanged k t t' row h found = let (_, same) = pure-ok h in rw same (rw found (IsKept-self row))

  seat_milestone-IsKept :
      (type : MilestoneType) (seat : Option ℕ) (m : EventMilestone) (k : ℕ) (t t' : T)
      (row : SeatPresenceProjection) {u : Unit {0}}
      → handle_seat_milestone p type seat m t ≡ (ok u, t')
      → p.find_unique k t ≡ some row
      → IsKept row (p.find_unique k t')
  unfolding scan_ticket revoke_ticket and_then
  seat_milestone-IsKept ticket_scanned (some seat_id) m k t t' row h found =
      let old = p.find_unique seat_id t in
      upsert-IsKept seat_id k (scan_create m old) (scan_update m old) t t' row h found (λ same.
        let now : old ≡ some row = ap (λ i. p.find_unique i t) same ∙ found in
        rw now (scanned-IsKept m row))
  seat_milestone-IsKept ticket_revoked (some seat_id) m k t t' row h found =
      upsert-IsKept seat_id k (revoke_create m) (revoke_update m) t t' row h found
        (λ same. ((λ _. refl), (λ c i. i), refl))
  seat_milestone-IsKept ticket_scanned none m k t t' row h found = unchanged k t t' row h found
  seat_milestone-IsKept ticket_revoked none m k t t' row h found = unchanged k t t' row h found
  seat_milestone-IsKept other_type seat m k t t' row h found = unchanged k t t' row h found

  -- No milestones take back a revocation or change the time of the first entry or the event of a seat
  -- that has a row.
  pub presence-IsKept :
      (ms : List EventMilestone) (k : ℕ) (t t' : T) (row : SeatPresenceProjection)
      → each (handle_milestone p) ms t ≡ (ok tt, t')
      → p.find_unique k t ≡ some row
      → IsKept row (p.find_unique k t')
  unfolding each handle_milestone
  presence-IsKept [] k t t' row h found =
      let (_, same) = pure-ok h in rw same (rw found (IsKept-self row))
  presence-IsKept (m ∷ ms) k t t' row h found =
      let (_, mid, first, rest) =
        and_then-ok (handle_milestone p m t) (λ _. each (handle_milestone p) ms) h in
      let kept = seat_milestone-IsKept m.type m.reference_id m k t mid row first found in
      elim (Option-cases (p.find_unique k mid)) [
        | inl none_left ↦ absurd (subst (IsKept row) none_left kept)
        | inr (next, there) ↦
            IsKept-trans row next (p.find_unique k t') (subst (IsKept row) there kept)
              (presence-IsKept ms k mid t' next rest there)
      ]

  -- The rows after further scans of a ticket whose first entry has its time.
  scans-from :
      (k event_id c : ℕ) (times : List ℕ) (t t' : T) (row : SeatPresenceProjection)
      → each (handle_milestone p) (map (scan k event_id) times) t ≡ (ok tt, t')
      → p.find_unique k t ≡ some row
      → row.checked_in_at ≡ some c
      → p.find_unique k t'
        ≡ some (record row { presence_state = flips (length times) row.presence_state })
  unfolding each handle_milestone
  scans-from k event_id c [] t t' row h found entered = let (_, same) = pure-ok h in rw same found
  scans-from k event_id c (time ∷ times) t t' row h found entered =
      let m = scan k event_id time in
      let (_, mid, first, rest) =
        and_then-ok (handle_milestone p m t)
          (λ _. each (handle_milestone p) (map (scan k event_id) times)) h in
      let next : p.find_unique k mid ≡ some (scanned m (some row)) =
        scan_ticket_self k m t mid first ∙ rw found refl in
      scans-from k event_id c times mid t' (record row { presence_state = flip row.presence_state })
        rest (next ∙ ap some (scanned_entered m row c entered)) entered

  -- After scans of the ticket of a seat that had no row, the seat is inside if they are odd in number
  -- and outside if they are even, with the time of the first scan as that of its entry.
  pub scans_presence :
      (k event_id first_time : ℕ) (times : List ℕ) (t t' : T)
      → each (handle_milestone p) (map (scan k event_id) (first_time ∷ times)) t ≡ (ok tt, t')
      → p.find_unique k t ≡ none
      → p.find_unique k t'
        ≡ some (record {
          event_id = event_id;
          presence_state = flips (length times) inside;
          checked_in_at = some first_time;
          revoked = false;
          revoked_at = none;
        })
  unfolding each handle_milestone
  scans_presence k event_id first_time times t t' h absent =
      let m = scan k event_id first_time in
      let (_, mid, first, rest) =
        and_then-ok (handle_milestone p m t)
          (λ _. each (handle_milestone p) (map (scan k event_id) times)) h in
      let next : p.find_unique k mid ≡ some (scanned m none) =
        scan_ticket_self k m t mid first ∙ rw absent refl in
      scans-from k event_id first_time times mid t' (scanned m none) rest next refl
