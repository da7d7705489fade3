-- ===== src/Outbox/Retries.antt =====
-- How soon a row is tried again whose message the broker refuses.
use seat_service.Common.{
  ℕ, zero, suc, ◌+◌, ◌^◌, ◌≤◌, ◌<◌, ◌≡◌, refl, sym, subst, ap, ◌∙◌, ◌⊎◌, inl, inr, Bool, true,
  false, some, List, [], ◌∷◌, String, ◌==◌, ==_self, ==→eq, any, map_where, All, All-Has, Has,
  if◌then◌else◌, Bool-cases, false≢true, leb, arith,
}
use seat_service.Action.{ok}
use seat_service.Database.Client.{IsDelegate, Delegate}
use seat_service.Database.Keyed.{is_unique, eq_of_key}
use seat_service.Outbox.Rows.{OutboxRecord, is_ready, backoff, failed}
use seat_service.Outbox.{message_of, World, Platform, publish_ready}
use seat_service.Outbox.Effect.{is_among, publish_ready-settled}
use seat_service.Outbox.Effect.Rounds.{settled}

power_bound : (n : ℕ) → 2 ≤ 2 ^ suc n
power_bound zero = omega arith
power_bound (suc n) = omega (arith, power_bound n)

backoff_bounds : (n : ℕ) → (2_000 ≤ backoff (suc n)) × (backoff (suc n) ≤ 300_000)
backoff_bounds n = ground (arith, power_bound n)

module _ {A : Type 0} (p : A → Bool) where
  any-Has : (xs : List A) (a : A) → Has a xs → p a ≡ true → any p xs ≡ true
  any-Has [] a m h = absurd m
  any-Has (x ∷ xs) a (inl e) h = rw (subst (λ x. p x ≡ true) e h) refl
  any-Has (x ∷ xs) a (inr m) h = ground (arith, any-Has xs a m h)

  any-some : (xs : List A) → any p xs ≡ true → (a : A) × Has a xs × (p a ≡ true)
  any-some [] h = cc
  any-some (x ∷ xs) h = elim (Bool-cases (p x)) [
    | inl hit ↦ (x, inl refl, hit)
    | inr miss ↦ let (a, m, q) = any-some xs (ground (arith, h, miss)) in (a, inr m, q)
  ]

  Has-map_where :
      (f : A → A) (xs : List A) (a : A) → Has a xs → Has (if p a then f a else a) (map_where p f xs)
  Has-map_where f [] a m = absurd m
  Has-map_where f (x ∷ xs) a (inl e) = inl (ap (λ x. if p x then f x else x) e)
  Has-map_where f (x ∷ xs) a (inr m) = inr (Has-map_where f xs a m)

-- The row after a refusal that was read at a time.
abbrev pub refused : ℕ → String → OutboxRecord → OutboxRecord
refused now error r = failed now (suc r.attempts) error r

-- Not before its next attempt, or never, is the row ready.
refused-waits :
    (now later : ℕ) (error : String) (r : OutboxRecord)
    → (later < (refused now error r).next_attempt_at) ⊎ (9 ≤ r.attempts)
    → is_ready later (refused now error r) ≡ false
refused-waits now later error r (inl early) = ground (arith, early)
refused-waits now later error r (inr many) =
    let late : leb 10 (suc r.attempts) ≡ true = ground (arith, many) in rw late (ground arith)

refused_bounds :
    (now : ℕ) (error : String) (r : OutboxRecord)
    → r.attempts < 9
    → (now + 2_000 ≤ (refused now error r).next_attempt_at)
      × ((refused now error r).next_attempt_at ≤ now + 300_000)
refused_bounds now error r few =
    let early : leb 10 (suc r.attempts) ≡ false = ground (arith, few) in
    let bounds = backoff_bounds r.attempts in
    (rw early (omega (arith, bounds)), rw early (omega (arith, bounds)))

module _ (t : Delegate OutboxRecord) (law : IsDelegate (is_unique (λ r. r.id)) t)
    (pf : Platform) where
  -- The page of a run.
  abbrev pub page : World → List OutboxRecord
  page w = pf.find_page (λ r. r.created_at) 50 (is_ready w.now) w.rows

  -- An idle publisher over a table with distinct ids, of which the query gives distinct ready rows.
  abbrev pub IsIdle : World → Type 0
  IsIdle w =
      (w.running ≡ false)
      × (is_unique (λ r. r.id) w.rows ≡ true)
      × (is_unique (λ r. r.id) (page w) ≡ true)
      × All (λ c. Has c w.rows × (is_ready w.now c ≡ true)) (page w)

  rows_after :
      (w : World)
      → IsIdle w
      → (publish_ready t pf (λ v. v) w).1.rows
        ≡ map_where (is_among t law pf (page w)) (settled t law pf w.now) w.rows
  rows_after w (idle, d, u, h) = ap (λ x. x.1.rows) (publish_ready-settled t law pf w idle d u h)

  -- A row that is not ready stays.
  unready_stays :
      (w : World) (r : OutboxRecord)
      → IsIdle w
      → Has r w.rows
      → is_ready w.now r ≡ false
      → Has r (publish_ready t pf (λ v. v) w).1.rows
  unready_stays w r (idle, d, u, h) m unready = subst (Has r) (sym (rows_after w (idle, d, u, h))) (
      subst
        (λ (x : OutboxRecord).
          Has x (map_where (is_among t law pf (page w)) (settled t law pf w.now) w.rows))
        (rw absent refl)
        (Has-map_where (is_among t law pf (page w)) (settled t law pf w.now) w.rows r m))
    where
      absent : is_among t law pf (page w) r ≡ false
      absent = elim (Bool-cases (is_among t law pf (page w) r)) [
        | inl among ↦
            let (c, n, k) = any-some (λ (c : OutboxRecord). c.id == r.id) (page w) among in
            let (there, ready) =
              All-Has (λ c. Has c w.rows × (is_ready w.now c ≡ true)) (page w) c h n in
            let one : c ≡ r =
              eq_of_key (λ (r : OutboxRecord). r.id) w.rows c r d there m (==→eq c.id r.id k) in
            absurd (false≢true (sym unready ∙ subst (λ c. is_ready w.now c ≡ true) one ready))
        | inr out ↦ out
      ]

  refused_there :
      (w : World) (c : OutboxRecord) (error : String)
      → IsIdle w
      → Has c (page w)
      → pf.raw_send w.now (message_of c) ≡ some error
      → Has (refused w.now error c) (publish_ready t pf (λ v. v) w).1.rows
  refused_there w c error (idle, d, u, h) m answer =
      let (there, ready) = All-Has (λ c. Has c w.rows × (is_ready w.now c ≡ true)) (page w) c h m in
      let among : is_among t law pf (page w) c ≡ true =
        any-Has (λ (s : OutboxRecord). s.id == c.id) (page w) c m (==_self c.id) in
      subst (Has (refused w.now error c)) (sym (rows_after w (idle, d, u, h))) (
        subst
          (λ (x : OutboxRecord).
            Has x (map_where (is_among t law pf (page w)) (settled t law pf w.now) w.rows))
          (rw (among, answer) refl)
          (Has-map_where (is_among t law pf (page w)) (settled t law pf w.now) w.rows c there))

  -- Two runs of `publishReady`, in each of which nothing else happens meanwhile: where the broker
  -- refuses the message of a row of the first run's page, that run leaves the row with one attempt
  -- more; below ten attempts its next attempt is two seconds to five minutes after the run. A second
  -- run at a later time that is before the next attempt, or at any time if the attempts are ten or
  -- more, leaves the row exactly so.
  pub refused_row_waits :
      (w w1 : World) (c : OutboxRecord) (error : String) (later : ℕ)
      → IsIdle w
      → Has c (page w)
      → pf.raw_send w.now (message_of c) ≡ some error
      → publish_ready t pf (λ v. v) w ≡ (ok tt, w1)
      → IsIdle (record w1 { now = later })
      → Has (refused w.now error c) w1.rows
        × (c.attempts < 9
            → (w.now + 2_000 ≤ (refused w.now error c).next_attempt_at)
              × ((refused w.now error c).next_attempt_at ≤ w.now + 300_000))
        × ((later < (refused w.now error c).next_attempt_at) ⊎ (9 ≤ c.attempts)
            → Has
                (refused w.now error c)
                (publish_ready t pf (λ v. v) (record w1 { now = later })).1.rows)
  refused_row_waits w w1 c error later idle m answer run idle1 =
      let there : Has (refused w.now error c) w1.rows =
        subst (λ (x : _). Has (refused w.now error c) x.1.rows) run
          (refused_there w c error idle m answer) in
      (
        there,
        refused_bounds w.now error c,
        λ wait.
            unready_stays (record w1 { now = later }) (refused w.now error c) idle1 there
              (refused-waits w.now later error c wait),
      )
