-- ===== src/Projection.antt =====
-- The tables that the Kafka handlers of src/handlers keep of other services' data. Each has a unique
-- key, by which the handlers read and write it, one message after the other. The Prisma client is no
-- code of this repository: a parameter, with what its documentation says of each call as laws.
pub mod Access
pub mod Role
pub mod Presence
pub mod Settings
pub mod Invitation
pub mod Resolver
mod Memory
use seat_service.Common.{
  ◌≡◌, ℕ, Bool, true, false, Option, none, some, if◌then◌else◌, ◌==◌, ◌&&◌, ltb, arith,
}
use seat_service.Errors.{write_refused}
use seat_service.Action.{Action, Result, ok, err}

-- A table `T` of rows with their keys.
pub record Projection (Key Row T : Type 0) : Type 0 where
  pub find_unique : Key → T → Option Row
  -- `create` and `update`; `none` where the database refuses the write
  pub upsert : Key → Row → (Row → Row) → T → Option T
  -- a filter on the columns of the key
  pub delete_many : (Key → Bool) → T → Option T

-- The row after an upsert.
abbrev pub upserted : {Row : Type 0} → Row → (Row → Row) → Option Row → Row
upserted create update none = create
upserted create update (some row) = update row

pub record IsProjection {Key Row T : Type 0} (same : Key → Key → Bool) (p : Projection Key Row T)
    : Type 0 where
  pub find-upsert :
      (k j : Key) (create : Row) (update : Row → Row) (t t' : T)
      → p.upsert k create update t ≡ some t'
      → p.find_unique j t' ≡ (
          if same k j then some (upserted create update (p.find_unique j t)) else p.find_unique j t)
  pub find-delete_many :
      (f : Key → Bool) (j : Key) (t t' : T)
      → p.delete_many f t ≡ some t'
      → p.find_unique j t' ≡ (if f j then none else p.find_unique j t)

-- The event and the user of `uq_event_role_projection` and `uq_event_access_projection`.
abbrev pub EventUser : Type 0
EventUser = ℕ × ℕ

abbrev pub same_event_user : EventUser → EventUser → Bool
same_event_user (e, u) (e', u') = e == e' && u == u'

-- `time && occurredAt < time`, for the time that a row has
abbrev pub is_before : ℕ → Option ℕ → Bool
is_before occurred_at none = false
is_before occurred_at (some time) = ltb occurred_at time

-- A write, which throws where the database refuses it.
unfoldable pub settle : {T : Type 0} → T → Option T → Result (Unit {0}) × T
settle t none = (err write_refused, t)
settle t (some t') = (ok tt, t')

abbrev pub write : {T : Type 0} → (T → Option T) → Action T (Unit {0})
write change = λ t. settle t (change t)

pub write-ok :
    {T : Type 0} (change : T → Option T) (t t' : T) {u : Unit {0}}
    → write change t ≡ (ok u, t')
    → change t ≡ some t'
unfolding settle
write-ok change t t' h = ground arith

pub same_event_user→eq : (k j : EventUser) → same_event_user k j ≡ true → k ≡ j
same_event_user→eq (e, u) (e', u') h = grind arith
