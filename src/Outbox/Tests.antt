-- ===== src/Outbox/Tests.antt =====
-- Three rows, of which one is published, and a broker that refuses one message.
use seat_service.Common.{
  ◌⊎◌, Has, ℕ, ◌+◌, ◌≤◌, ◌<◌, ◌≡◌, refl, true, false, ◌==◌, Option, none, some, [], ◌∷◌, String,
  filter, if◌then◌else◌, arith, inl, inr,
}
use seat_service.Action.{ok}
use seat_service.Database.{OutboxRow, seat_assigned_v1}
use seat_service.Database.Client.{Delegate, IsDelegate}
use seat_service.Database.Keyed.{is_unique}
use seat_service.Database.Memory.{in_memory, in_memory-IsDelegate}
use seat_service.Outbox.Rows.{OutboxRecord}
use seat_service.Outbox.{Message, message_of, World, Platform, publish_ready}
use seat_service.Outbox.Steps.{was_sent, Reach, here, waited, next}
use seat_service.Outbox.Steps.Safety.{IsSound, has_published, has_given_up, publish_ready-IsSound}
use seat_service.Outbox.Effect.{publish_ready-settled}
use seat_service.Outbox.Retries.{refused, refused_row_waits}

abbrev fact_row : OutboxRow
fact_row = record {
  tenant_id = 90;
  correlation_id = none;
  actor_id = none;
  fact = record {
    topic = seat_assigned_v1;
    aggregate_id = 1;
    subject_id = 40;
    event_id = 7;
    reassigned = false;
    has_invitation = none;
  };
}

abbrev fresh : ℕ → OutboxRecord
fresh id = record {
  id = id;
  row = fact_row;
  attempts = 0;
  next_attempt_at = 100;
  locked_at = none;
  locked_by = none;
  published_at = none;
  dead_lettered_at = none;
  last_error = none;
  created_at = id;
}

abbrev sent_before : OutboxRecord
sent_before = record (fresh 3) { published_at = some 50 }

abbrev world : World
world = record {
  now = 70_000;
  rows = fresh 1 ∷ fresh 2 ∷ sent_before ∷ [];
  sent = message_of sent_before ∷ [];
  running = false;
}

abbrev client : Delegate OutboxRecord
client = in_memory (is_unique (λ r. r.id))

abbrev client_laws : IsDelegate (is_unique (λ r. r.id)) client
client_laws = in_memory-IsDelegate (is_unique (λ r. r.id))

abbrev refuses_two : Message → Option String
refuses_two m = if m.event_id == 2 then some "down" else none

abbrev platform : Platform
platform = record {
  instance_id = 5;
  find_page = λ key n p rows. filter p rows;
  raw_send = λ now m. refuses_two m;
  refusal = "refused";
}

-- Meanwhile a second passes.
abbrev second_passes : World → World
second_passes w = record w { now = w.now + 1_000 }

second_passes-Reach : (w : World) → Reach w (second_passes w)
second_passes-Reach w = next here (waited (w.now + 1_000) (omega arith) refl)

publish_ready-IsSound_example :
    IsSound (publish_ready client platform second_passes world).1
    × ((id : ℕ)
        → has_published id world.rows ≡ true
        → has_published id (publish_ready client platform second_passes world).1.rows ≡ true)
    × ((id : ℕ)
        → has_given_up id world.rows ≡ true
        → has_given_up id (publish_ready client platform second_passes world).1.rows ≡ true)
    × ((id : ℕ)
        → was_sent id world.sent ≡ true
        → was_sent id (publish_ready client platform second_passes world).1.sent ≡ true)
publish_ready-IsSound_example =
    publish_ready-IsSound client client_laws platform second_passes world second_passes-Reach
      ((λ h. cc), ((λ h. cc), ((λ h. refl), tt)))

publish_ready-settled_example : publish_ready client platform (λ v. v) world ≡ (
  ok tt,
  record {
    now = 70_000;
    rows =
        record (fresh 1) { published_at = some 70_000 }
        ∷ record (fresh 2) { attempts = 1; next_attempt_at = 72_000; last_error = some "down" }
        ∷ sent_before
        ∷ [];
    sent = message_of (fresh 1) ∷ message_of sent_before ∷ [];
    running = false;
  },
)
publish_ready-settled_example =
    publish_ready-settled client client_laws platform world refl refl refl
      ((inl refl, refl), ((inr (inl refl), refl), tt))

-- The world after that run.
abbrev refused_two : World
refused_two = record {
  now = 70_000;
  rows =
      record (fresh 1) { published_at = some 70_000 }
      ∷ record (fresh 2) { attempts = 1; next_attempt_at = 72_000; last_error = some "down" }
      ∷ sent_before
      ∷ [];
  sent = message_of (fresh 1) ∷ message_of sent_before ∷ [];
  running = false;
}

refused_row_waits_example :
    Has (refused 70_000 "down" (fresh 2)) refused_two.rows
    × ((fresh 2).attempts < 9
        → (70_000 + 2_000 ≤ (refused 70_000 "down" (fresh 2)).next_attempt_at)
          × ((refused 70_000 "down" (fresh 2)).next_attempt_at ≤ 70_000 + 300_000))
    × ((71_000 < (refused 70_000 "down" (fresh 2)).next_attempt_at) ⊎ (9 ≤ (fresh 2).attempts)
        → Has
            (refused 70_000 "down" (fresh 2))
            (publish_ready client platform (λ v. v) (record refused_two { now = 71_000 })).1.rows)
refused_row_waits_example =
    refused_row_waits client client_laws platform world refused_two (fresh 2) "down" 71_000
      (refl, refl, refl, ((inl refl, refl), ((inr (inl refl), refl), tt))) (inr (inl refl)) refl
      publish_ready-settled_example (refl, refl, refl, tt)
