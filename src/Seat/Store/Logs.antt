-- ===== src/Seat/Store/Logs.antt =====
-- What the services' database calls do to the audit log: nothing, but for `logChange`.
use seat_service.Common.{
  ℕ, ◌≡◌, refl, ◌∙◌, Bool, true, false, Option, none, some, List, [], ◌∷◌, ◌==◌, arith,
}
use seat_service.Errors.{Error, write_refused}
use seat_service.Action.{
  Result, Action, ok, err, and_then, and_then-view, ◌>>=◌, pure, guard, require, each,
}
use seat_service.Database.{LayoutChangeType, Db, Seat, LayoutChangeLog, SeatAssignmentLog, Fact}
use seat_service.Database.Client.{Delegate}
use seat_service.Seat.Store.{
  Platform, log_change, log_assignment, enqueue, find_unique, put_rows, update_many, update,
}

-- An action that writes nothing to the audit log, and a result with the audit log as given where
-- it is a throw.
abbrev pub KeepsLog : {A : Type 0} → Action Db A → Type 0
KeepsLog m = (db : Db) → (m db).1.change_logs ≡ db.change_logs

abbrev pub ThrowsWith : {A : Type 0} → List LayoutChangeLog → Result A × Db → Type 0
ThrowsWith logs r = (e : Error) → r.0 ≡ err e → r.1.change_logs ≡ logs

pub bind-KeepsLog :
    {A B : Type 0} (m : Action Db A) (f : A → Action Db B)
    → KeepsLog m
    → ((a : A) → KeepsLog (f a))
    → KeepsLog (m >>= f)
bind-KeepsLog m f h k db = and_then-view (λ (x : Db). x.change_logs) (m db) f (λ a x. k a x) ∙ h db

pub bind-ThrowsWith :
    {A B : Type 0} (r : Result A × Db) (f : A → Action Db B) (logs : List LayoutChangeLog)
    → r.1.change_logs ≡ logs
    → ((a : A) (db : Db) → db.change_logs ≡ logs → ThrowsWith logs (f a db))
    → ThrowsWith logs (and_then r f)
unfolding and_then
bind-ThrowsWith (ok a, db) f logs h k e q = k a db h e q
bind-ThrowsWith (err x, db) f logs h k e q = h

-- A result that is followed by what cannot throw.
pub then-ThrowsWith :
    {A B : Type 0} (r : Result A × Db) (f : A → B) (logs : List LayoutChangeLog)
    → ThrowsWith logs r
    → ThrowsWith logs (and_then r (λ a. pure (f a)))
unfolding and_then
then-ThrowsWith (ok a, db) f logs h e q = absurd (cc)
then-ThrowsWith (err x, db) f logs h e q = h x refl

pub require-KeepsLog : {A : Type 0} (o : Option A) (e : Error) → KeepsLog (require o e)
require-KeepsLog none e db = refl
require-KeepsLog (some a) e db = refl

pub guard-KeepsLog : (b : Bool) (e : Error) → KeepsLog (guard b e)
guard-KeepsLog true e db = refl
guard-KeepsLog false e db = refl

pub each-KeepsLog :
    {A : Type 0} (f : A → Action Db (Unit {0})) (xs : List A)
    → ((a : A) → KeepsLog (f a))
    → KeepsLog (each f xs)
unfolding each
each-KeepsLog f [] h db = refl
each-KeepsLog f (x ∷ xs) h db =
    bind-KeepsLog (f x) (λ _. each f xs) (h x) (λ _. each-KeepsLog f xs h) db

pub log_assignment-KeepsLog : (row : SeatAssignmentLog) → KeepsLog (log_assignment row)
unfolding log_assignment
log_assignment-KeepsLog row db = refl

pub enqueue-KeepsLog : (pf : Platform) (fact : Fact) → KeepsLog (enqueue pf fact)
unfolding enqueue and_then
enqueue-KeepsLog pf fact db = ground arith

pub log_change-ThrowsWith :
    (event_id actor_id : ℕ) (type : LayoutChangeType) (logs : List LayoutChangeLog) (db : Db)
    → ThrowsWith logs (log_change event_id actor_id type db)
unfolding log_change
log_change-ThrowsWith event_id actor_id type logs db e h = absurd (cc)

module _ (t : Delegate Seat) where
  put_rows-KeepsLog : (o : Option (List Seat × ℕ)) → KeepsLog (put_rows t o)
  unfolding put_rows
  put_rows-KeepsLog none db = refl
  put_rows-KeepsLog (some (rows, n)) db = refl

  pub update_many-KeepsLog : (p : Seat → Bool) (f : Seat → Seat) → KeepsLog (update_many t p f)
  unfolding update_many
  update_many-KeepsLog p f db = put_rows-KeepsLog (t.update_many p f db.seats) db

  pub find_unique-KeepsLog : (id : ℕ) → KeepsLog (find_unique t id)
  unfolding find_unique
  find_unique-KeepsLog id db = refl

  pub update-KeepsLog : (id : ℕ) (f : Seat → Seat) → KeepsLog (update t id f)
  unfolding update
  update-KeepsLog id f =
      bind-KeepsLog (update_many t (λ s. s.id == id) f)
        (λ n. find_unique t id >>= λ found. require found write_refused)
        (update_many-KeepsLog (λ s. s.id == id) f)
        (λ n.
          bind-KeepsLog (find_unique t id) (λ found. require found write_refused)
            (find_unique-KeepsLog id) (λ found. require-KeepsLog found write_refused))
