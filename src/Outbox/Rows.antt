-- ===== src/Outbox/Rows.antt =====
-- The rows of the analytics outbox, and the tests and changes that the publisher's queries make.
use seat_service.Common.{
  ℕ, ◌+◌, ◌*◌, ◌^◌, Bool, true, ◌&&◌, not, Option, none, some, String, ◌==◌, leb, ltb, is_some,
  if◌then◌else◌,
}
use seat_service.Database.{OutboxRow}

-- A row; what `enqueue` sets stands in `row`.
pub record OutboxRecord : Type 0 where
  pub id : ℕ
  pub row : OutboxRow
  pub attempts : ℕ
  pub next_attempt_at : ℕ
  pub locked_at : Option ℕ
  pub locked_by : Option ℕ
  pub published_at : Option ℕ
  pub dead_lettered_at : Option ℕ
  pub last_error : Option String
  pub created_at : ℕ

-- `lockedAt < now - 60_000`, or no lock.
abbrev pub is_unlocked : ℕ → Option ℕ → Bool
is_unlocked now none = true
is_unlocked now (some time) = ltb (time + 60_000) now

-- Neither published nor given up.
abbrev pub is_open : OutboxRecord → Bool
is_open r = not (is_some r.published_at) && not (is_some r.dead_lettered_at)

-- The `where` of the candidates.
abbrev pub is_ready : ℕ → OutboxRecord → Bool
is_ready now r = is_open r && leb r.next_attempt_at now && is_unlocked now r.locked_at

-- The `where` of the claim.
abbrev pub is_claimable : ℕ → ℕ → OutboxRecord → Bool
is_claimable now id r = r.id == id && is_open r && is_unlocked now r.locked_at

abbrev pub locked : ℕ → ℕ → OutboxRecord → OutboxRecord
locked now instance_id r = record r { locked_at = some now; locked_by = some instance_id }

abbrev pub published : ℕ → OutboxRecord → OutboxRecord
published now r = record r {
  published_at = some now;
  locked_at = none;
  locked_by = none;
  last_error = none;
}

-- `Math.min(300_000, 2 ** attempts * 1_000)`
abbrev pub backoff : ℕ → ℕ
backoff attempts = if leb 300_000 (2 ^ attempts * 1_000) then 300_000 else 2 ^ attempts * 1_000

-- From ten attempts the row is given up, else it is tried again later.
abbrev pub failed : ℕ → ℕ → String → OutboxRecord → OutboxRecord
failed now attempts error r = record r {
  attempts = attempts;
  locked_at = none;
  locked_by = none;
  last_error = some error;
  dead_lettered_at = if leb 10 attempts then some now else r.dead_lettered_at;
  next_attempt_at = if leb 10 attempts then r.next_attempt_at else now + backoff attempts;
}
