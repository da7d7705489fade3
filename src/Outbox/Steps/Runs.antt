-- ===== src/Outbox/Steps/Runs.antt =====
-- Every run of the publisher is a sequence of steps, whether it returns or throws.
use seat_service.Common.{
  ℕ, suc, ◌≡◌, refl, Bool, true, false, ◌||◌, Option, none, some, List, [], ◌∷◌, String, ◌==◌,
  ==_self, map_where, if◌then◌else◌, inl, inr, Option-cases, Bool-cases,
}
use seat_service.Action.{Action, Result, ok, err, and_then, pure, throw, modify, ◌>>◌, each}
use seat_service.Database.Client.{Delegate, IsDelegate}
use seat_service.Database.Keyed.{is_unique}
use seat_service.Outbox.Rows.{OutboxRecord, is_ready, is_claimable, locked, published, failed}
use seat_service.Outbox.{
  message_of, World, Platform, put_rows, update_many, update, mark_failed, mark_published, rescue,
  accepted, deliver, publish, publish_candidate, publish_page, stop_running, publish_ready,
}
use seat_service.Outbox.Steps.{
  was_sent, Step, enqueued, waited, flagged, claimed, delivered, marked, gave_up, Reach, here, next,
  Reach-trans,
}
use seat_service.Errors.{Error, write_refused}

-- What was sent stays sent.
pub Step-was_sent :
    {v w : World} (id : ℕ) → Step v w → was_sent id v.sent ≡ true → was_sent id w.sent ≡ true
Step-was_sent id (enqueued r o e) h = rw e h
Step-was_sent id (waited now l e) h = rw e h
Step-was_sent id (flagged b e) h = rw e h
Step-was_sent id (claimed i k e) h = rw e h
Step-was_sent {v} id (delivered m e) h = rw e (added (m.event_id == id) h)
  where
    added : (b : Bool) → was_sent id v.sent ≡ true → b || was_sent id v.sent ≡ true
    added true k = refl
    added false k = k
Step-was_sent id (marked k p e) h = rw e h
Step-was_sent id (gave_up k n x e) h = rw e h

pub Reach-was_sent :
    {v w : World} (id : ℕ) → Reach v w → was_sent id v.sent ≡ true → was_sent id w.sent ≡ true
Reach-was_sent id here h = h
Reach-was_sent id (next r st) h = Step-was_sent id st (Reach-was_sent id r h)

one : {v w : World} → Step v w → Reach v w
one s = next here s

-- What follows a run.
Reach-and_then :
    {A B : Type 0} (u : World) (r : Result A × World) (f : A → Action World B)
    → Reach u r.1
    → ((a : A) (v : World) → Reach u v → r ≡ (ok a, v) → Reach v (f a v).1)
    → Reach u (and_then r f).1
unfolding and_then
Reach-and_then u (ok a, v) f r k = Reach-trans r (k a v r refl)
Reach-and_then u (err e, v) f r k = r

Reach-rescue :
    (u : World) (r : Result (Unit {0}) × World) (handler : Action World Unit)
    (t : Delegate OutboxRecord) (pf : Platform) (other : World → World)
    → Reach u r.1
    → ((v : World) → Reach v (handler v).1)
    → Reach u (rescue t pf other r handler).1
unfolding rescue
Reach-rescue u (ok a, v) handler t pf other r k = r
Reach-rescue u (err e, v) handler t pf other r k = Reach-trans r (k v)

throw_or_not : (b : Bool) (e : Error) (v : World) → Reach v ((if b then throw e else pure tt) v).1
throw_or_not true e v = here
throw_or_not false e v = here

module _ (t : Delegate OutboxRecord) (law : IsDelegate (is_unique (λ r. r.id)) t) (pf : Platform)
    (other : World → World) (others : (w : World) → Reach w (other w)) where
  update_many-Reach :
      (p : OutboxRecord → Bool) (f : OutboxRecord → OutboxRecord) (w : World)
      → ((v : World) → v ≡ record w { rows = map_where p f w.rows } → Reach w v)
      → Reach w (update_many t pf other p f w).1
  unfolding update_many put_rows
  update_many-Reach p f w step = elim (Option-cases (t.update_many p f w.rows)) [
    | inl refused ↦ rw refused here
    | inr ((rows, n), done) ↦
        let (same, _) = law.update_many_some p f w.rows rows n done in
        rw done (step (record w { rows = rows }) (rw same refl))
  ]

  update-Reach :
      (id : ℕ) (f : OutboxRecord → OutboxRecord) (w : World)
      → ((v : World) → v ≡ record w { rows = map_where (λ r. r.id == id) f w.rows } → Reach w v)
      → Reach w (update t pf other id f w).1
  unfolding update
  update-Reach id f w step =
      Reach-and_then w (update_many t pf other (λ r. r.id == id) f w) _
        (update_many-Reach (λ r. r.id == id) f w step)
        (λ n v r e. throw_or_not (n == 0) write_refused v)

  mark_failed-Reach :
      (r : OutboxRecord) (e : String) (w : World) → Reach w (mark_failed t pf other r e w).1
  unfolding mark_failed and_then
  mark_failed-Reach r e w =
      update-Reach r.id (failed w.now (suc r.attempts) e) w
        (λ v same. one (gave_up r.id (suc r.attempts) e same))

  mark_published-Reach :
      (r : OutboxRecord) (w : World)
      → was_sent r.id w.sent ≡ true
      → Reach w (mark_published t pf other r w).1
  unfolding mark_published and_then
  mark_published-Reach r w h =
      update-Reach r.id (published w.now) w (λ v same. one (marked r.id h same))

  accepted-Reach : (r : OutboxRecord) (w : World) → Reach w (accepted t pf other r w).1
  unfolding accepted and_then
  accepted-Reach r w =
      let w1 = record w { sent = message_of r ∷ w.sent } in
      let sent : was_sent r.id w1.sent ≡ true = rw (==_self r.id) refl in
      Reach-trans (one (delivered (message_of r) refl)) (
        Reach-trans (others w1) (
          Reach-rescue (other w1) (mark_published t pf other r (other w1))
            (mark_failed t pf other r pf.refusal) t pf other
            (mark_published-Reach r (other w1) (Reach-was_sent r.id (others w1) sent))
            (mark_failed-Reach r pf.refusal)))

  deliver-Reach :
      (r : OutboxRecord) (answer : Option String) (w : World)
      → Reach w (deliver t pf other r answer w).1
  unfolding deliver and_then
  deliver-Reach r none w = accepted-Reach r w
  deliver-Reach r (some e) w = Reach-trans (others w) (mark_failed-Reach r e (other w))

  publish-Reach : (id : ℕ) (w : World) → Reach w (publish t pf other id w).1
  unfolding publish
  publish-Reach id w = elim (Option-cases (t.find_first (λ r. r.id == id) w.rows)) [
    | inl absent ↦ unfold and_then in rw absent here
    | inr (r, found) ↦
        unfold and_then in
        rw found (
          Reach-trans (others w)
            (deliver-Reach r (pf.raw_send (other w).now (message_of r)) (other w)))
  ]

  publish_candidate-Reach :
      (c : OutboxRecord) (w : World) → Reach w (publish_candidate t pf other c w).1
  unfolding publish_candidate and_then
  publish_candidate-Reach c w =
      Reach-and_then w
        (update_many t pf other (is_claimable w.now c.id) (locked w.now pf.instance_id) w) _
        (update_many-Reach (is_claimable w.now c.id) (locked w.now pf.instance_id) w
          (λ v same. one (claimed pf.instance_id c.id same)))
        (λ n v r e. Reach-trans (others v) (after (n == 1) (other v)))
    where
      after :
          (b : Bool) (v : World)
          → Reach v ((if b then (publish t pf other c.id >> modify other) else pure tt) v).1
      after true v =
          Reach-and_then v (publish t pf other c.id v) _ (publish-Reach c.id v)
            (λ u x r e. others x)
      after false v = here

  each-Reach :
      (cs : List OutboxRecord) (w : World) → Reach w (each (publish_candidate t pf other) cs w).1
  unfolding each
  each-Reach [] w = here
  each-Reach (c ∷ cs) w =
      Reach-and_then w (publish_candidate t pf other c w) _ (publish_candidate-Reach c w)
        (λ u v r e. each-Reach cs v)

  pub publish_ready-Reach : (w : World) → Reach w (publish_ready t pf other w).1
  unfolding publish_ready publish_page stop_running and_then
  publish_ready-Reach w = elim (Bool-cases w.running) [
    | inl busy ↦ rw busy here
    | inr idle ↦
        let w1 = record w { running = true } in
        rw idle (
          Reach-trans (one (flagged true refl)) (
            Reach-trans (others w1) (
              Reach-trans
                (each-Reach (pf.find_page (λ r. r.created_at) 50 (is_ready w.now) w.rows)
                  (other w1))
                (one (flagged false refl)))))
  ]
