-- ===== src/Outbox.antt =====
-- `AnalyticsOutboxPublisher` of src/analytics/analytics-outbox.publisher.ts: the rows of the analytics
-- outbox are claimed, sent to the broker, and marked as published or failed. `other` is what other
-- instances and the clock do while the publisher waits for the database or the broker.
pub mod Rows
pub mod Steps
pub mod Effect
pub mod Retries
mod Tests
use seat_service.Common.{
  ℕ, suc, ◌+◌, Bool, true, false, ◌&&◌, not, Option, none, some, List, [], ◌∷◌, String, ◌==◌, leb,
  if◌then◌else◌,
}
use seat_service.Errors.{write_refused}
use seat_service.Action.{
  Action, Result, ok, err, ◌>>=◌, ◌>>◌, pure, throw, gets, modify, require, each,
}
use seat_service.Database.{Topic}
use seat_service.Database.Client.{Delegate}
use seat_service.Outbox.Rows.{OutboxRecord, is_ready, is_claimable, locked, published, failed}

-- What `rawSend` is given: the topic, the fields of the body, and the headers.
pub record Message : Type 0 where
  pub topic : Topic
  pub event_id : ℕ
  pub timestamp : ℕ
  pub tenant_id : ℕ
  pub correlation_id : Option ℕ
  pub actor_id : Option ℕ

abbrev pub message_of : OutboxRecord → Message
message_of r = record {
  topic = r.row.fact.topic;
  event_id = r.id;
  timestamp = r.created_at;
  tenant_id = r.row.tenant_id;
  correlation_id = r.row.correlation_id;
  actor_id = r.row.actor_id;
}

-- The clock, the table, the messages that the broker has accepted, newest first, and the flag
-- `running` of the instance.
pub record World : Type 0 where
  pub now : ℕ
  pub rows : List OutboxRecord
  pub sent : List Message
  pub running : Bool

-- What the publisher uses of its platform: its id, the query of at most so many rows ordered by a
-- column, the answer of the broker at a time, which is `none` if it accepts, and the text of the
-- error of a refused write.
pub record Platform : Type 0 where
  pub instance_id : ℕ
  pub find_page :
      (OutboxRecord → ℕ) → ℕ → (OutboxRecord → Bool) → List OutboxRecord → List OutboxRecord
  pub raw_send : ℕ → Message → Option String
  pub refusal : String

module _ (t : Delegate OutboxRecord) (pf : Platform) (other : World → World) where
  -- `updateMany`, and the count that it returns
  put_rows : Option (List OutboxRecord × ℕ) → Action World ℕ
  put_rows none = throw write_refused
  put_rows (some (rows, n)) = λ w. (ok n, record w { rows = rows })

  unfoldable pub update_many :
      (OutboxRecord → Bool) → (OutboxRecord → OutboxRecord) → Action World ℕ
  unfolding put_rows
  update_many filter change = λ w. put_rows (t.update_many filter change w.rows) w

  -- `update` of the row with an id, which throws where there is none
  unfoldable pub update : ℕ → (OutboxRecord → OutboxRecord) → Action World Unit
  unfolding update_many
  update id change = do
    n ← update_many (λ r. r.id == id) change
    if n == 0 then throw write_refused else pure tt

  -- The `catch`: the attempts are those of the row that was read, and one more.
  unfoldable pub mark_failed : OutboxRecord → String → Action World Unit
  mark_failed r error = do now ← gets (λ w. w.now); update r.id (failed now (suc r.attempts) error)

  unfoldable pub mark_published : OutboxRecord → Action World Unit
  mark_published r = do now ← gets (λ w. w.now); update r.id (published now)

  -- An action, and what is done where it throws.
  unfoldable pub rescue : Result (Unit {0}) × World → Action World Unit → Result (Unit {0}) × World
  rescue (ok u, w) handler = (ok u, w)
  rescue (err e, w) handler = handler w

  unfoldable pub accepted : OutboxRecord → Action World Unit
  accepted r = do
    modify (λ w. record w { sent = message_of r ∷ w.sent })
    modify other
    λ w. rescue (mark_published r w) (mark_failed r pf.refusal)

  unfoldable pub deliver : OutboxRecord → Option String → Action World Unit
  deliver r none = accepted r
  deliver r (some error) = do modify other; mark_failed r error

  unfoldable pub publish : ℕ → Action World Unit
  publish id = do
    found ← gets (λ w. t.find_first (λ r. r.id == id) w.rows)
    r ← require found write_refused
    modify other
    answer ← gets (λ w. pf.raw_send w.now (message_of r))
    deliver r answer

  -- One round of the loop over the candidates.
  unfoldable pub publish_candidate : OutboxRecord → Action World Unit
  publish_candidate candidate = do
    now ← gets (λ w. w.now)
    n ← update_many (is_claimable now candidate.id) (locked now pf.instance_id)
    modify other
    if n == 1 then (publish candidate.id >> modify other) else pure tt

  unfoldable pub publish_page : Action World Unit
  publish_page = do
    candidates ← gets (λ w. pf.find_page (λ r. r.created_at) 50 (is_ready w.now) w.rows)
    modify other
    each publish_candidate candidates

  -- `finally`
  unfoldable pub stop_running : Result (Unit {0}) × World → Result (Unit {0}) × World
  stop_running (r, w) = (r, record w { running = false })

  unfoldable pub publish_ready : Action World Unit
  publish_ready = λ w.
      if w.running then (ok tt, w) else stop_running (publish_page (record w { running = true }))
