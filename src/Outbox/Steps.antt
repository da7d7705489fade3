-- ===== src/Outbox/Steps.antt =====
-- The steps that publishers, services and the clock take on the outbox, in any order.
pub mod Runs
pub mod Safety
use seat_service.Common.{
  ℕ, ◌≤◌, ◌≡◌, refl, Bool, true, false, Option, none, some, List, [], ◌∷◌, String, ◌==◌, any,
  map_where, is_some, All,
}
use seat_service.Outbox.Rows.{OutboxRecord, is_open, is_claimable, locked, published, failed}
use seat_service.Outbox.{Message, World}

-- The broker has accepted a message of the row with this id.
abbrev pub was_sent : ℕ → List Message → Bool
was_sent id sent = any (λ m. m.event_id == id) sent

-- A row is marked as published only once its message was accepted; the attempts of a failure are
-- those that some instance has read, so any number.
pub data Step (w w' : World) : Type 0 where
  enqueued : (r : OutboxRecord) → is_open r ≡ true → w' ≡ record w { rows = r ∷ w.rows } → Step w w'
  waited : (now : ℕ) → w.now ≤ now → w' ≡ record w { now = now } → Step w w'
  flagged : (b : Bool) → w' ≡ record w { running = b } → Step w w'
  claimed :
      (instance_id id : ℕ)
      → w' ≡ record w { rows = map_where (is_claimable w.now id) (locked w.now instance_id) w.rows }
      → Step w w'
  delivered : (m : Message) → w' ≡ record w { sent = m ∷ w.sent } → Step w w'
  marked :
      (id : ℕ)
      → was_sent id w.sent ≡ true
      → w' ≡ record w { rows = map_where (λ r. r.id == id) (published w.now) w.rows }
      → Step w w'
  gave_up :
      (id attempts : ℕ) (error : String)
      → w' ≡ record w { rows = map_where (λ r. r.id == id) (failed w.now attempts error) w.rows }
      → Step w w'

pub data Reach (w : World) : World → Type 0 where
  here : Reach w w
  next : {v u : World} → Reach w v → Step v u → Reach w u

pub Reach-trans : {u v w : World} → Reach u v → Reach v w → Reach u w
Reach-trans r here = r
Reach-trans r (next s st) = next (Reach-trans r s) st
