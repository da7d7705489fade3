-- ===== src/Outbox/Effect.antt =====
-- What a run of the publisher does where nothing else happens meanwhile.
pub mod Rounds
use seat_service.Common.{
  ℕ, suc, ◌≡◌, refl, sym, subst, ap, ◌∙◌, Bool, true, false, ◌&&◌, ◌||◌, Option, none, some, List,
  [], ◌∷◌, String, ◌==◌, ==_self, ==→eq, any, map, map_where, All, Has, is_some, if◌then◌else◌,
  arith, Bool-cases, inl, inr,
}
use seat_service.Action.{Action, ok, and_then, each, modify, pure, ◌>>◌}
use seat_service.Database.Client.{Delegate, IsDelegate}
use seat_service.Database.Keyed.{
  is_unique, change, find_first-key, update_many-guarded, is_unique-map_where, Has-change,
  Has-change_self, change-change, change_ext, eq_of_key,
}
use seat_service.Outbox.Rows.{OutboxRecord, is_ready, is_claimable, locked, published, failed}
use seat_service.Outbox.{
  Message, message_of, World, Platform, put_rows, update_many, update, mark_failed, mark_published,
  rescue, accepted, deliver, publish, publish_candidate, publish_page, stop_running, publish_ready,
}
use seat_service.Outbox.Effect.Rounds.{
  answered, kept, settled, IsTable, after_candidate, candidate-quiet,
}

module _ (t : Delegate OutboxRecord) (law : IsDelegate (is_unique (λ r. r.id)) t)
    (pf : Platform) where
  -- The world after the rounds of candidates.
  abbrev after_all : List OutboxRecord → World → World
  after_all [] w = w
  after_all (c ∷ cs) w = after_all cs (after_candidate t law pf c w)

  settled_id : (now : ℕ) (r : OutboxRecord) → (settled t law pf now r).id ≡ r.id
  settled_id now r = by_answer (pf.raw_send now (message_of r))
    where
      by_answer : (a : Option String) → (answered now a (locked now pf.instance_id r)).id ≡ r.id
      by_answer none = refl
      by_answer (some e) = refl

  -- The candidates are ready rows.
  abbrev AreReady : List OutboxRecord → World → Type 0
  AreReady cs w = All (λ c. Has c w.rows × (is_ready w.now c ≡ true)) cs

  ready_after :
      (c : OutboxRecord) (cs : List OutboxRecord) (w : World)
      → any (λ s. s.id == c.id) cs ≡ false
      → AreReady cs w
      → AreReady cs (after_candidate t law pf c w)
  ready_after c [] w fresh h = tt
  ready_after c (s ∷ cs) w fresh ((m, ready), h) = (
    (
      Has-change (λ u. u.id) c.id (settled t law pf w.now) w.rows s m (ground (arith, fresh)),
      ready,
    ),
    ready_after c cs w (ground (arith, fresh)) h,
  )

  each-quiet :
      (cs : List OutboxRecord) (w : World)
      → IsTable t law pf w
      → is_unique (λ c. c.id) cs ≡ true
      → AreReady cs w
      → each (publish_candidate t pf (λ v. v)) cs w ≡ (ok tt, after_all cs w)
  unfolding each and_then
  each-quiet [] w d u h = refl
  each-quiet (c ∷ cs) w d u ((m, ready), h) = rw (candidate-quiet t law pf c w d m ready) (
      each-quiet cs (after_candidate t law pf c w)
        (is_unique-map_where (λ s. s.id) (λ s. s.id == c.id) (settled t law pf w.now) w.rows
            (settled_id w.now)
          ∙ d)
        (ground (arith, u)) (ready_after c cs w (ground (arith, u)) h))

  -- A candidate's row.
  abbrev pub is_among : List OutboxRecord → OutboxRecord → Bool
  is_among cs r = any (λ c. c.id == r.id) cs

  after_all-now : (cs : List OutboxRecord) (w : World) → (after_all cs w).now ≡ w.now
  after_all-now [] w = refl
  after_all-now (c ∷ cs) w = after_all-now cs (after_candidate t law pf c w)

  -- One more candidate.
  among_step :
      (now : ℕ) (c : OutboxRecord) (cs rows : List OutboxRecord)
      → any (λ s. s.id == c.id) cs ≡ false
      → map_where
          (is_among cs)
          (settled t law pf now)
          (change (λ s. s.id) c.id (settled t law pf now) rows)
        ≡ map_where (is_among (c ∷ cs)) (settled t law pf now) rows
  among_step now c cs [] fresh = refl
  among_step now c cs (r ∷ rows) fresh =
      let ih = among_step now c cs rows fresh in
      elim (Bool-cases (r.id == c.id)) [
        | inl e ↦
            let k : r.id ≡ c.id = ==→eq r.id c.id e in
            let out : is_among cs (settled t law pf now r) ≡ false =
              ap (λ i. any (λ s. s.id == i) cs) (settled_id now r ∙ k) ∙ fresh in
            let back : (c.id == r.id) ≡ true =
              subst (λ i. (c.id == i) ≡ true) (sym k) (==_self c.id) in
            rw (e, out, back, ih) refl
        | inr e ↦
            let back : (c.id == r.id) ≡ false = ground (arith, e) in
            rw (e, back)
              (elim (Bool-cases (is_among cs r)) [
                | inl m ↦ rw (m, ih) refl
                | inr m ↦ rw (m, ih) refl
              ])
      ]

  after_all-rows :
      (cs : List OutboxRecord) (w : World)
      → is_unique (λ c. c.id) cs ≡ true
      → (after_all cs w).rows ≡ map_where (is_among cs) (settled t law pf w.now) w.rows
  after_all-rows [] w u = sym (none_among w.rows)
    where
      none_among :
          (rows : List OutboxRecord) → map_where (is_among []) (settled t law pf w.now) rows ≡ rows
      none_among [] = refl
      none_among (r ∷ rows) = ap (λ rs. r ∷ rs) (none_among rows)
  after_all-rows (c ∷ cs) w u =
      after_all-rows cs (after_candidate t law pf c w) (ground (arith, u))
      ∙ among_step w.now c cs w.rows (ground (arith, u))

  -- The messages that are accepted, newest first, before those of before.
  abbrev pub sent_after : ℕ → List OutboxRecord → List Message → List Message
  sent_after now [] sent = sent
  sent_after now (c ∷ cs) sent =
      sent_after now cs (kept (pf.raw_send now (message_of c)) (message_of c) sent)

  after_all-sent :
      (cs : List OutboxRecord) (w : World) → (after_all cs w).sent ≡ sent_after w.now cs w.sent
  after_all-sent [] w = refl
  after_all-sent (c ∷ cs) w = after_all-sent cs (after_candidate t law pf c w)

  after_all-running : (cs : List OutboxRecord) (w : World) → (after_all cs w).running ≡ w.running
  after_all-running [] w = refl
  after_all-running (c ∷ cs) w = after_all-running cs (after_candidate t law pf c w)

  -- A run of an idle publisher meanwhile nothing else happens, over a table with distinct ids of which
  -- the query gives distinct ready rows: it returns; each row of the page is published if the broker
  -- accepts its message and else failed, and unlocked; no other row changes; and the broker has one
  -- more message for each row of the page that it accepts, in the page's order.
  pub publish_ready-settled :
      (w : World)
      → w.running ≡ false
      → is_unique (λ r. r.id) w.rows ≡ true
      → is_unique (λ r. r.id) (pf.find_page (λ r. r.created_at) 50 (is_ready w.now) w.rows) ≡ true
      → All
          (λ c. Has c w.rows × (is_ready w.now c ≡ true))
          (pf.find_page (λ r. r.created_at) 50 (is_ready w.now) w.rows)
      → publish_ready t pf (λ v. v) w ≡ (
        ok tt,
        record {
          now = w.now;
          rows =
              map_where
                (is_among (pf.find_page (λ r. r.created_at) 50 (is_ready w.now) w.rows))
                (settled t law pf w.now)
                w.rows;
          sent =
              sent_after w.now (pf.find_page (λ r. r.created_at) 50 (is_ready w.now) w.rows) w.sent;
          running = false;
        },
      )
  unfolding publish_ready publish_page stop_running and_then
  publish_ready-settled w idle d u h =
      let page = pf.find_page (λ r. r.created_at) 50 (is_ready w.now) w.rows in
      let w1 = record w { running = true } in
      rw idle (
        rw (each-quiet page w1 d u h)
          (rw (after_all-now page w1, after_all-rows page w1 u, after_all-sent page w1) refl))
