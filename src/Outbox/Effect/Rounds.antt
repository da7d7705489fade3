-- ===== src/Outbox/Effect/Rounds.antt =====
-- A round of the loop where nothing else happens meanwhile.
use seat_service.Common.{
  ℕ, suc, ◌≡◌, refl, sym, ap, ◌∙◌, true, Option, none, some, List, ◌∷◌, String, ◌==◌, ==_self,
  ==→eq, Has, arith,
}
use seat_service.Action.{ok, and_then}
use seat_service.Database.Client.{Delegate, IsDelegate}
use seat_service.Database.Keyed.{
  is_unique, change, find_first-key, update_many-guarded, is_unique-map_where, Has-change_self,
  change-change, change_ext, eq_of_key,
}
use seat_service.Outbox.Rows.{OutboxRecord, is_ready, is_claimable, locked, published, failed}
use seat_service.Outbox.{
  Message, message_of, World, Platform, put_rows, update_many, update, mark_failed, mark_published,
  rescue, accepted, deliver, publish, publish_candidate,
}

-- The row after an answer of the broker.
abbrev pub answered : ℕ → Option String → OutboxRecord → OutboxRecord
answered now none r = published now r
answered now (some error) r = failed now (suc r.attempts) error r

-- The messages of the broker after an answer.
abbrev pub kept : Option String → Message → List Message → List Message
kept none m sent = m ∷ sent
kept (some error) m sent = sent

module _ (t : Delegate OutboxRecord) (law : IsDelegate (is_unique (λ r. r.id)) t)
    (pf : Platform) where
  abbrev pub quiet : World → World
  quiet w = w

  -- A candidate after its round.
  abbrev pub settled : ℕ → OutboxRecord → OutboxRecord
  settled now r = answered now (pf.raw_send now (message_of r)) (locked now pf.instance_id r)

  abbrev pub IsTable : World → Type 0
  IsTable w = is_unique (λ r. r.id) w.rows ≡ true

  update-quiet :
      (f : OutboxRecord → OutboxRecord) (r : OutboxRecord) (w : World)
      → ((s : OutboxRecord) → (f s).id ≡ s.id)
      → IsTable w
      → Has r w.rows
      → update t pf quiet r.id f w ≡ (ok tt, record w { rows = change (λ s. s.id) r.id f w.rows })
  unfolding update update_many put_rows and_then
  update-quiet f r w keeps d m =
      rw
        (update_many-guarded (λ s. s.id) t law (λ s. s.id == r.id) f w.rows r keeps
          (λ s h. ==→eq s.id r.id h) d m (==_self r.id))
        refl

  claim-quiet :
      (c : OutboxRecord) (w : World)
      → IsTable w
      → Has c w.rows
      → is_ready w.now c ≡ true
      → update_many t pf quiet (is_claimable w.now c.id) (locked w.now pf.instance_id) w
        ≡ (ok 1, record w { rows = change (λ s. s.id) c.id (locked w.now pf.instance_id) w.rows })
  unfolding update_many put_rows
  claim-quiet c w d m ready =
      rw
        (update_many-guarded (λ s. s.id) t law (is_claimable w.now c.id)
          (locked w.now pf.instance_id) w.rows c (λ s. refl)
          (λ s h. ==→eq s.id c.id (ground (arith, h))) d m (ground (arith, ==_self c.id, ready)))
        refl

  -- The world after the row with an id has a change, and an answer of the broker is kept.
  abbrev after_answer : ℕ → Option String → Message → World → World
  after_answer id answer m w = record w {
    rows = change (λ s. s.id) id (answered w.now answer) w.rows;
    sent = kept answer m w.sent;
  }

  deliver-quiet :
      (r : OutboxRecord) (answer : Option String) (w : World)
      → IsTable w
      → Has r w.rows
      → deliver t pf quiet r answer w ≡ (ok tt, after_answer r.id answer (message_of r) w)
  unfolding deliver accepted mark_published mark_failed rescue and_then
  deliver-quiet r none w d m =
      rw
        (update-quiet (published w.now) r (record w { sent = message_of r ∷ w.sent }) (λ s. refl) d
          m)
        refl
  deliver-quiet r (some error) w d m =
      rw (update-quiet (failed w.now (suc r.attempts) error) r w (λ s. refl) d m) (
        ap (λ rows. (ok tt, record w { rows = rows }))
          (change_ext (λ s. s.id) r.id (failed w.now (suc r.attempts) error)
            (answered w.now (some error)) w.rows
            (λ s n e.
              ap (λ u. failed w.now (suc u.attempts) error s)
                (eq_of_key (λ u. u.id) w.rows r s d m n (sym e)))))

  publish-quiet :
      (r : OutboxRecord) (w : World)
      → IsTable w
      → Has r w.rows
      → publish t pf quiet r.id w
        ≡ (ok tt, after_answer r.id (pf.raw_send w.now (message_of r)) (message_of r) w)
  unfolding publish and_then
  publish-quiet r w d m =
      rw (find_first-key (λ s. s.id) t law w.rows r d m)
        (deliver-quiet r (pf.raw_send w.now (message_of r)) w d m)

  -- The world after the round of a candidate.
  abbrev pub after_candidate : OutboxRecord → World → World
  after_candidate c w = record w {
    rows = change (λ s. s.id) c.id (settled w.now) w.rows;
    sent = kept (pf.raw_send w.now (message_of c)) (message_of c) w.sent;
  }

  pub candidate-quiet :
      (c : OutboxRecord) (w : World)
      → IsTable w
      → Has c w.rows
      → is_ready w.now c ≡ true
      → publish_candidate t pf quiet c w ≡ (ok tt, after_candidate c w)
  unfolding publish_candidate and_then
  candidate-quiet c w d m ready =
      let lock = locked w.now pf.instance_id in
      let w1 = record w { rows = change (λ s. s.id) c.id lock w.rows } in
      let answer = pf.raw_send w.now (message_of c) in
      rw (claim-quiet c w d m ready) (
        rw
          (publish-quiet (lock c) w1
            (is_unique-map_where (λ s. s.id) (λ s. s.id == c.id) lock w.rows (λ s. refl) ∙ d)
            (Has-change_self (λ s. s.id) lock w.rows c m))
          (ap (λ rows. (ok tt, record w { rows = rows; sent = kept answer (message_of c) w.sent }))
            (change-change (λ s. s.id) c.id lock (answered w.now answer) w.rows (λ s. refl)
              ∙ change_ext (λ s. s.id) c.id (λ s. answered w.now answer (lock s)) (settled w.now)
                  w.rows
                  (λ s n e.
                    ap (λ u. answered w.now (pf.raw_send w.now (message_of u)) (lock s))
                      (eq_of_key (λ u. u.id) w.rows c s d m n (sym e))))))
