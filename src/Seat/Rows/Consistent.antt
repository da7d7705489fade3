-- ===== src/Seat/Rows/Consistent.antt =====
-- The invariant that ties a seat's status to its holder.
use seat_service.Common.{◌≡◌, Bool, true, ◌&&◌, ◌||◌, not, List, [], ◌∷◌, map, is_some, All}
use seat_service.Database.{Seat, SeatStatus, available, reserved, assigned, blocked}

-- An available seat has no holder, a reserved one an invitation and no guest, an assigned one a guest
-- or an invitation.
abbrev pub agrees : SeatStatus → Seat → Bool
agrees available s = not (is_some s.guest_id) && not (is_some s.invitation_id)
agrees reserved s = is_some s.invitation_id && not (is_some s.guest_id)
agrees assigned s = is_some s.guest_id || is_some s.invitation_id
agrees blocked s = true

abbrev pub IsConsistent : Seat → Type 0
IsConsistent s = agrees s.status s ≡ true

abbrev pub AllConsistent : List Seat → Type 0
AllConsistent = All IsConsistent

pub AllConsistent-map :
    (f : Seat → Seat) (ss : List Seat)
    → ((s : Seat) → IsConsistent s → IsConsistent (f s))
    → AllConsistent ss
    → AllConsistent (map f ss)
AllConsistent-map f [] k h = tt
AllConsistent-map f (s ∷ ss) k (c, h) = (k s c, AllConsistent-map f ss k h)
