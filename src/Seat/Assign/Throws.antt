-- ===== src/Seat/Assign/Throws.antt =====
-- What an `assignSeat` that throws leaves: its transaction undoes all but the audit log, to which the
-- body writes last.
use seat_service.Common.{
  ℕ, ◌≡◌, refl, subst, ap, ◌∙◌, Bool, true, false, ◌&&◌, not, Option, none, some, List, ◌==◌,
  is_some, if◌then◌else◌, arith,
}
use seat_service.Errors.{Error, seat_holder_conflict, seat_not_found, seat_unavailable}
use seat_service.Action.{Result, ok, err, and_then, ◌>>=◌, ◌>>◌, pure, throw, guard, require, each}
use seat_service.Database.{Db, Seat, LayoutChangeLog}
use seat_service.Database.Client.{Delegate}
use seat_service.Seat.Rows.{subject}
use seat_service.Seat.Store.{
  Platform, log_assignment, find_unique, update_many, update, settle_calls, db_transaction,
}
use seat_service.Seat.Assign.{
  AssignSeatInput, has_assignment, is_conflict, is_claimable, freed, held, report_unassigned,
  free_conflict, free_conflicts, claim_target, report_target, record_target, assign_found,
  assign_existing, assign_seat,
}
use seat_service.Seat.Store.Logs.{
  KeepsLog, ThrowsWith, log_change-ThrowsWith, bind-KeepsLog, bind-ThrowsWith, then-ThrowsWith,
  require-KeepsLog, guard-KeepsLog, each-KeepsLog, log_assignment-KeepsLog, enqueue-KeepsLog,
  update_many-KeepsLog, find_unique-KeepsLog, update-KeepsLog,
}

module _ (t : Delegate Seat) (pf : Platform) where
  report_unassigned-KeepsLog :
      (s : Seat) (o : Option ℕ) (event_id : ℕ) → KeepsLog (report_unassigned t pf s o event_id)
  unfolding report_unassigned
  report_unassigned-KeepsLog s none event_id db = refl
  report_unassigned-KeepsLog s (some holder) event_id db = enqueue-KeepsLog pf _ db

  free_conflict-KeepsLog : (event_id : ℕ) (s : Seat) → KeepsLog (free_conflict t pf event_id s)
  unfolding free_conflict
  free_conflict-KeepsLog event_id s =
      bind-KeepsLog (update t s.id freed) _ (update-KeepsLog t s.id freed) (λ _.
        bind-KeepsLog (log_assignment _) (λ _. report_unassigned t pf s (subject s) event_id)
          (log_assignment-KeepsLog _) (λ _. report_unassigned-KeepsLog s (subject s) event_id))

  free_conflicts-KeepsLog :
      (seat : Seat) (input : AssignSeatInput) → KeepsLog (free_conflicts t pf seat input)
  unfolding free_conflicts and_then
  free_conflicts-KeepsLog seat input db = by (has_assignment input)
    where
      by :
          (b : Bool)
          → ((if b
                then (λ (db : Db).
                    each
                      (free_conflict t pf seat.event_id)
                      (t.find_many (is_conflict seat input) db.seats)
                      db)
                else pure tt)
              db).1.change_logs
            ≡ db.change_logs
      by true =
          each-KeepsLog (free_conflict t pf seat.event_id)
            (t.find_many (is_conflict seat input) db.seats)
            (λ s. free_conflict-KeepsLog seat.event_id s) db
      by false = refl

  claim_target-KeepsLog :
      (seat : Seat) (input : AssignSeatInput) → KeepsLog (claim_target t pf seat input)
  unfolding claim_target
  claim_target-KeepsLog seat input =
      bind-KeepsLog (update_many t (is_claimable seat input) (held input)) _
        (update_many-KeepsLog t (is_claimable seat input) (held input))
        (λ n.
          bind-KeepsLog (guard (n == 1) (seat_unavailable seat.event_id (some seat.id)))
            (λ _. find_unique t seat.id >>= λ found. require found (seat_not_found (some seat.id)))
            (guard-KeepsLog (n == 1) _)
            (λ _.
              bind-KeepsLog (find_unique t seat.id)
                (λ found. require found (seat_not_found (some seat.id)))
                (find_unique-KeepsLog t seat.id) (λ found. require-KeepsLog found _)))

  report_target-KeepsLog :
      (seat : Seat) (input : AssignSeatInput) (o : Option ℕ)
      → KeepsLog (report_target t pf seat input o)
  unfolding report_target
  report_target-KeepsLog seat input none db = refl
  report_target-KeepsLog seat input (some holder) db = enqueue-KeepsLog pf _ db

  -- The audit log is written last, which cannot throw.
  record_target-ThrowsWith :
      (seat : Seat) (input : AssignSeatInput) (actor_id : ℕ) (logs : List LayoutChangeLog) (db : Db)
      → db.change_logs ≡ logs
      → ThrowsWith logs (record_target t pf seat input actor_id db)
  unfolding record_target
  record_target-ThrowsWith seat input actor_id logs db same =
      bind-ThrowsWith (log_assignment _ db) _ logs (log_assignment-KeepsLog _ db ∙ same)
        (λ _ db1 same1.
          bind-ThrowsWith (report_target t pf seat input _ db1) _ logs
            (report_target-KeepsLog seat input _ db1 ∙ same1)
            (λ _ db2 same2. log_change-ThrowsWith seat.event_id actor_id _ logs db2))

  assign_found-ThrowsWith :
      (seat : Seat) (input : AssignSeatInput) (actor_id : ℕ) (db : Db)
      → ThrowsWith db.change_logs (assign_found t pf seat input actor_id db)
  unfolding assign_found
  assign_found-ThrowsWith seat input actor_id db =
      by (not (has_assignment input) && not (is_some (subject seat)))
    where
      busy : ThrowsWith db.change_logs (
          (free_conflicts t pf seat input
              >> (claim_target t pf seat input >>= λ updated.
                  record_target t pf seat input actor_id >> pure updated))
            db)
      busy =
          bind-ThrowsWith (free_conflicts t pf seat input db) _ db.change_logs
            (free_conflicts-KeepsLog seat input db)
            (λ _ db1 same1.
              bind-ThrowsWith (claim_target t pf seat input db1) _ db.change_logs
                (claim_target-KeepsLog seat input db1 ∙ same1)
                (λ updated db2 same2.
                  then-ThrowsWith (record_target t pf seat input actor_id db2) (λ _. updated)
                    db.change_logs
                    (record_target-ThrowsWith seat input actor_id db.change_logs db2 same2)))

      by :
          (b : Bool)
          → ThrowsWith db.change_logs (
              (if b
                  then pure seat
                  else (free_conflicts t pf seat input
                      >> (claim_target t pf seat input >>= λ updated.
                          record_target t pf seat input actor_id >> pure updated)))
                db)
      by true e h = refl
      by false e h = busy e h

  assign_existing-ThrowsWith :
      (input : AssignSeatInput) (actor_id : ℕ) (db : Db)
      → ThrowsWith db.change_logs (assign_existing t pf input actor_id db)
  unfolding assign_existing
  assign_existing-ThrowsWith input actor_id db =
      bind-ThrowsWith (find_unique t input.seat_id db) _ db.change_logs
        (find_unique-KeepsLog t input.seat_id db)
        (λ found db1 same1.
          bind-ThrowsWith (require found (seat_not_found (some input.seat_id)) db1) _ db.change_logs
            (require-KeepsLog found (seat_not_found (some input.seat_id)) db1 ∙ same1)
            (λ seat db2 same2.
              subst (λ logs. ThrowsWith logs (assign_found t pf seat input actor_id db2)) same2
                (assign_found-ThrowsWith seat input actor_id db2)))

  undone :
      (r : Result Seat × Db) (db : Db) (e : Error)
      → ThrowsWith db.change_logs r
      → (settle_calls db r).0 ≡ err e
      → (settle_calls db r).1 ≡ db
  unfolding settle_calls
  undone (ok a, x) db e h q = absurd (cc)
  undone (err a, x) db e h q = ap (λ logs. record db { change_logs = logs }) (h a refl)

  -- A call that throws leaves the database as it was, the audit log too, whose rows the transaction
  -- does not undo: the body writes to it last, where nothing throws any more. And a call with both a
  -- guest and an invitation throws.
  pub assign_seat_throws :
      (input : AssignSeatInput) (actor_id : ℕ) (db : Db)
      → ((e : Error)
          → (assign_seat t pf input actor_id db).0 ≡ err e
          → (assign_seat t pf input actor_id db).1 ≡ db)
        × ((g i : ℕ)
            → input.guest_id ≡ some g
            → input.invitation_id ≡ some i
            → assign_seat t pf input actor_id db ≡ (err seat_holder_conflict, db))
  unfolding assign_seat
  assign_seat_throws input actor_id db = (
    λ e h. by (is_some input.guest_id && is_some input.invitation_id) e h,
    λ g i p q. ground arith,
  )
    where
      by :
          (b : Bool) (e : Error)
          → ((if b
                then throw seat_holder_conflict
                else db_transaction (assign_existing t pf input actor_id))
              db).0
            ≡ err e
          → ((if b
                then throw seat_holder_conflict
                else db_transaction (assign_existing t pf input actor_id))
              db).1
            ≡ db
      by true e h = refl
      by false e h =
          undone (assign_existing t pf input actor_id db) db e
            (assign_existing-ThrowsWith input actor_id db) h
