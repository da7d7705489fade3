-- ===== src/Seat/Rows.antt =====
-- Tests on a row of the seat table, as the services' `where` filters and conditions make them, and
-- the unique indexes of prisma/schema.prisma.
pub mod Distinct
pub mod Consistent
use seat_service.Common.{
  ℕ, Bool, true, false, ◌&&◌, ◌||◌, not, Option, none, some, List, [], ◌∷◌, ◌==◌, is_some, or_else,
  any,
}
use seat_service.Database.{Seat, SeatStatus, available, reserved, assigned, blocked}

abbrev pub is_available : SeatStatus → Bool
is_available available = true
is_available reserved = false
is_available assigned = false
is_available blocked = false

-- `seat.guestId ?? seat.invitationId`
abbrev pub subject : Seat → Option ℕ
subject s = or_else s.guest_id s.invitation_id

-- `{ status: AVAILABLE, guestId: null, invitationId: null }`
abbrev pub is_free : Seat → Bool
is_free s = is_available s.status && not (is_some s.guest_id) && not (is_some s.invitation_id)

-- `column = value` in SQL, which a null column fails.
abbrev pub holds : Option ℕ → ℕ → Bool
holds none k = false
holds (some j) k = j == k

-- Two rows that a unique index of the table forbids to stand together: the id, and each of the guest
-- and the invitation in an event. Null columns are never equal.
abbrev pub same_key : Option ℕ → Option ℕ → Bool
same_key none b = false
same_key (some a) b = holds b a

abbrev pub clash : Seat → Seat → Bool
clash a b =
    a.id == b.id
    || a.event_id == b.event_id
      && (same_key a.guest_id b.guest_id || same_key a.invitation_id b.invitation_id)

abbrev pub fits : List Seat → Bool
fits [] = true
fits (s ∷ ss) = not (any (clash s) ss) && fits ss
