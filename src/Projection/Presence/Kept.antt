-- ===== src/Projection/Presence/Kept.antt =====
-- Rows of the presence of a seat before and after a scan.
use seat_service.Common.{
  ◌≡◌, refl, ◌∙◌, ap, ℕ, zero, suc, Bool, true, false, ◌&&◌, not, Option, none, some, is_some,
  or_else, if◌then◌else◌, arith,
}
use seat_service.Projection.{upserted}
use seat_service.Projection.Presence.{
  PresenceState, inside, SeatPresenceProjection, EventMilestone, ticket_scanned, flip, is_inside,
  entry_time, scan_create, scan_update,
}

-- What no milestone takes back: a revocation, and the time of the first entry.
abbrev pub IsKept : SeatPresenceProjection → Option SeatPresenceProjection → Type 0
IsKept old none = ⊥
IsKept old (some row) =
    (old.revoked ≡ true → row.revoked ≡ true)
    × ((c : ℕ) → old.checked_in_at ≡ some c → row.checked_in_at ≡ some c)
    × (row.event_id ≡ old.event_id)

pub IsKept-self : (row : SeatPresenceProjection) → IsKept row (some row)
IsKept-self row = ((λ h. h), (λ c h. h), refl)

-- The row after a scan, and after a revocation.
abbrev pub scanned : EventMilestone → Option SeatPresenceProjection → SeatPresenceProjection
scanned m none = record {
  event_id = m.event_id;
  presence_state = inside;
  checked_in_at = some m.occurred_at;
  revoked = false;
  revoked_at = none;
}
scanned m (some row) = record row {
  presence_state = flip row.presence_state;
  checked_in_at = or_else (entry_time (some row) m.occurred_at) row.checked_in_at;
}

entry_kept :
    (b : Bool) (c time : ℕ)
    → or_else (if b && not (is_some (some c)) then some time else none) (some c) ≡ some c
entry_kept b c time = ground arith

pub scanned-IsKept :
    (m : EventMilestone) (row : SeatPresenceProjection) → IsKept row (some (scanned m (some row)))
scanned-IsKept m row = (
  (λ h. h),
  (λ c h. rw h (entry_kept (is_inside (flip row.presence_state)) c m.occurred_at)),
  refl,
)

pub scanned_entered :
    (m : EventMilestone) (row : SeatPresenceProjection) (c : ℕ)
    → row.checked_in_at ≡ some c
    → scanned m (some row) ≡ record row { presence_state = flip row.presence_state }
scanned_entered m row c h =
    ap (λ time. record row { presence_state = flip row.presence_state; checked_in_at = time })
      (kept h)
  where
    kept :
        row.checked_in_at ≡ some c
        → or_else (entry_time (some row) m.occurred_at) row.checked_in_at ≡ row.checked_in_at
    kept h = rw h (entry_kept (is_inside (flip row.presence_state)) c m.occurred_at)

pub IsKept-trans :
    (a b : SeatPresenceProjection) (o : Option SeatPresenceProjection)
    → IsKept a (some b)
    → IsKept b o
    → IsKept a o
IsKept-trans a b none h k = absurd k
IsKept-trans a b (some c) (r, i, e) (r', i', e') = ((λ x. r' (r x)), (λ n x. i' n (i n x)), e' ∙ e)

pub upserted-scanned :
    (m : EventMilestone) (old : Option SeatPresenceProjection)
    → some (upserted (scan_create m old) (scan_update m old) old) ≡ some (scanned m old)
upserted-scanned m none = refl
upserted-scanned m (some row) = refl

abbrev pub flips : ℕ → PresenceState → PresenceState
flips zero s = s
flips (suc n) s = flips n (flip s)

-- A scan of the ticket of a seat.
abbrev pub scan : ℕ → ℕ → ℕ → EventMilestone
scan seat_id event_id time = record {
  type = ticket_scanned;
  reference_id = some seat_id;
  event_id = event_id;
  occurred_at = time;
}
