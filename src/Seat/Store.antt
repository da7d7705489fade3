-- ===== src/Seat/Store.antt =====
-- The services' calls of the database, as actions on it, and what they take from their platform:
-- the request's context (`ContextAccessor`), `isUUID` and the schema of analytics facts.
-- `logChange` is that of src/layout/services/layout-write.service.ts, `enqueue` that of
-- src/analytics/analytics-outbox.service.ts.
pub mod Laws
pub mod Guarded
pub mod Logs
use seat_service.Common.{ℕ, Bool, Option, none, some, List, ◌∷◌, ◌==◌, if◌then◌else◌}
use seat_service.Errors.{tenant_required, fact_rejected, write_refused}
use seat_service.Action.{Action, Result, ok, err, ◌>>=◌, ◌>>◌, throw, gets, modify, guard, require}
use seat_service.Database.{Db, Seat, SeatAssignmentLog, LayoutChangeType, Fact}
use seat_service.Database.Client.{Delegate}

pub record Platform : Type 0 where
  -- `ContextAccessor.get()?.tenant?.tenantId`, `correlationId` and `principal?.actorId`
  pub tenant_id : Option ℕ
  pub correlation_id : Option ℕ
  pub actor_id : Option ℕ
  pub is_uuid : ℕ → Bool
  pub accepts_fact : Fact → Bool

unfoldable pub log_change : ℕ → ℕ → LayoutChangeType → Action Db Unit
log_change event_id actor_id type = modify λ db. record db {
  change_logs = (record { event_id = event_id; actor_id = actor_id; type = type }) ∷ db.change_logs;
}

unfoldable pub log_assignment : SeatAssignmentLog → Action Db Unit
log_assignment row = modify λ db. record db { assignment_logs = row ∷ db.assignment_logs }

-- `$transaction`: what a body that throws wrote is undone, but for the audit log, which `logChange`
-- writes with the client and not with the transaction.
unfoldable pub settle_calls : {A : Type 0} → Db → Result A × Db → Result A × Db
settle_calls db (ok a, db') = (ok a, db')
settle_calls db (err e, db') = (err e, record db { change_logs = db'.change_logs })

abbrev pub db_transaction : {A : Type 0} → Action Db A → Action Db A
db_transaction m db = settle_calls db (m db)

module _ (pf : Platform) where
  add_fact : ℕ → Fact → Action Db Unit
  add_fact tenant_id fact = modify λ db. record db {
    outbox =
        (record {
          tenant_id = tenant_id;
          correlation_id = pf.correlation_id;
          actor_id = pf.actor_id;
          fact = fact;
        })
        ∷ db.outbox;
  }

  -- `!tenantId || !isUUID(tenantId)`
  verified_tenant : Option ℕ → Option ℕ
  verified_tenant none = none
  verified_tenant (some id) = if pf.is_uuid id then some id else none

  unfoldable pub enqueue : Fact → Action Db Unit
  unfolding add_fact verified_tenant
  enqueue fact = do
    tenant_id ← require (verified_tenant pf.tenant_id) tenant_required
    guard (pf.accepts_fact fact) fact_rejected
    add_fact tenant_id fact

module _ (t : Delegate Seat) where
  put_rows : Option (List Seat × ℕ) → Action Db ℕ
  put_rows none = throw write_refused
  put_rows (some (rows, n)) = λ db. (ok n, record db { seats = rows })

  unfoldable pub find_unique : ℕ → Action Db (Option Seat)
  find_unique id = gets λ db. t.find_first (λ s. s.id == id) db.seats

  -- `updateMany`, and the count that it returns
  unfoldable pub update_many : (Seat → Bool) → (Seat → Seat) → Action Db ℕ
  unfolding put_rows
  update_many filter change = λ db. put_rows (t.update_many filter change db.seats) db

  -- `update`, which throws where there is no row, and returns the row
  unfoldable pub update : ℕ → (Seat → Seat) → Action Db Seat
  unfolding update_many find_unique
  update id change = do
    n ← update_many (λ s. s.id == id) change
    found ← find_unique id
    require found write_refused

  unfoldable pub delete : ℕ → Action Db Unit
  delete id = modify λ db. record db { seats = t.delete_many (λ s. s.id == id) db.seats }
