-- ===== src/Outbox/Steps/Safety.antt =====
-- What every sequence of steps keeps, and so every run of the publisher among others.
use seat_service.Common.{
  ℕ, ◌≡◌, refl, subst, sym, Bool, true, false, ◌&&◌, ◌||◌, List, [], ◌∷◌, String, ◌==◌, any,
  map_where, is_some, All, arith, ==→eq, Bool-cases, inl, inr,
}
use seat_service.Database.Client.{Delegate, IsDelegate}
use seat_service.Database.Keyed.{is_unique}
use seat_service.Outbox.Rows.{OutboxRecord, is_open, is_claimable, locked, published, failed}
use seat_service.Outbox.{World, Platform, publish_ready}
use seat_service.Outbox.Steps.{
  was_sent, Step, enqueued, waited, flagged, claimed, delivered, marked, gave_up, Reach, here, next,
}
use seat_service.Outbox.Steps.Runs.{Step-was_sent, Reach-was_sent, publish_ready-Reach}

-- A row that is marked as published was sent.
abbrev pub IsSoundRow : World → OutboxRecord → Type 0
IsSoundRow w r = is_some r.published_at ≡ true → was_sent r.id w.sent ≡ true

abbrev pub IsSound : World → Type 0
IsSound w = All (IsSoundRow w) w.rows

-- The row with this id is marked as published; it is given up.
abbrev pub has_published : ℕ → List OutboxRecord → Bool
has_published id rows = any (λ r. r.id == id && is_some r.published_at) rows

abbrev pub has_given_up : ℕ → List OutboxRecord → Bool
has_given_up id rows = any (λ r. r.id == id && is_some r.dead_lettered_at) rows

All-map_where :
    (P Q : OutboxRecord → Type 0) (p : OutboxRecord → Bool) (f : OutboxRecord → OutboxRecord)
    (rows : List OutboxRecord)
    → ((r : OutboxRecord) → p r ≡ true → P r → Q (f r))
    → ((r : OutboxRecord) → P r → Q r)
    → All P rows
    → All Q (map_where p f rows)
All-map_where P Q p f [] hit miss h = tt
All-map_where P Q p f (r ∷ rows) hit miss (h, hs) = (
  elim (Bool-cases (p r)) [ inl e ↦ rw e (hit r e h) | inr e ↦ rw e (miss r h) ],
  All-map_where P Q p f rows hit miss hs,
)

-- A test that a change of rows does not make fail.
any-map_where :
    (q p : OutboxRecord → Bool) (f : OutboxRecord → OutboxRecord) (rows : List OutboxRecord)
    → ((r : OutboxRecord) → q r ≡ true → q (f r) ≡ true)
    → any q rows ≡ true
    → any q (map_where p f rows) ≡ true
any-map_where q p f [] keeps h = h
any-map_where q p f (r ∷ rows) keeps h = ground (arith, keeps r, any-map_where q p f rows keeps)

All-weaken :
    (P Q : OutboxRecord → Type 0) (rows : List OutboxRecord)
    → ((r : OutboxRecord) → P r → Q r)
    → All P rows
    → All Q rows
All-weaken P Q [] k h = tt
All-weaken P Q (r ∷ rows) k (h, hs) = (k r h, All-weaken P Q rows k hs)

not_open : (r : OutboxRecord) → is_open r ≡ true → is_some r.published_at ≡ true → ⊥
not_open r o p = ground arith

Step-IsSound : {v w : World} → Step v w → IsSound v → IsSound w
Step-IsSound {v} {w} (enqueued r o e) h = rw e ((λ p. absurd (not_open r o p)), h)
Step-IsSound (waited now l e) h = rw e h
Step-IsSound (flagged b e) h = rw e h
Step-IsSound {v} (claimed i k e) h = rw e (
    All-map_where (IsSoundRow v) (IsSoundRow v) (is_claimable v.now k) (locked v.now i) v.rows
      (λ r hit s. s) (λ r s. s) h)
Step-IsSound {v} {w} (delivered m e) h = rw e (
    All-weaken (IsSoundRow v) (IsSoundRow (record v { sent = m ∷ v.sent })) v.rows
      (λ r s p.
        Step-was_sent {v = v} {w = record v { sent = m ∷ v.sent }} r.id (delivered m refl) (s p))
      h)
Step-IsSound {v} (marked k p e) h = rw e (
    All-map_where (IsSoundRow v) (IsSoundRow v) (λ r. r.id == k) (published v.now) v.rows
      (λ r hit s _. subst (λ i. was_sent i v.sent ≡ true) (sym (==→eq r.id k hit)) p) (λ r s. s) h)
Step-IsSound {v} (gave_up k n x e) h = rw e (
    All-map_where (IsSoundRow v) (IsSoundRow v) (λ r. r.id == k) (failed v.now n x) v.rows
      (λ r hit s. s) (λ r s. s) h)

Reach-IsSound : {v w : World} → Reach v w → IsSound v → IsSound w
Reach-IsSound here h = h
Reach-IsSound (next r st) h = Step-IsSound st (Reach-IsSound r h)

-- A mark on the row with an id that no change takes off.
module _ (id : ℕ) (mark : OutboxRecord → Bool)
    (on_lock : (now i : ℕ) (r : OutboxRecord) → mark r ≡ true → mark (locked now i r) ≡ true)
    (on_publish : (now : ℕ) (r : OutboxRecord) → mark r ≡ true → mark (published now r) ≡ true)
    (on_fail : (now n : ℕ) (x : String) (r : OutboxRecord)
      → mark r ≡ true
      → mark (failed now n x r) ≡ true) where
  abbrev marked_row : OutboxRecord → Bool
  marked_row r = r.id == id && mark r

  Step-marked :
      {v w : World} → Step v w → any marked_row v.rows ≡ true → any marked_row w.rows ≡ true
  Step-marked {v} (enqueued r o e) h = rw e (later (marked_row r) h)
    where
      later : (b : Bool) → any marked_row v.rows ≡ true → b || any marked_row v.rows ≡ true
      later true k = refl
      later false k = k
  Step-marked (waited now l e) h = rw e h
  Step-marked (flagged b e) h = rw e h
  Step-marked {v} (claimed i k e) h = rw e (
      any-map_where marked_row (is_claimable v.now k) (locked v.now i) v.rows
        (λ r m. ground (arith, on_lock v.now i r)) h)
  Step-marked (delivered m e) h = rw e h
  Step-marked {v} (marked k p e) h = rw e (
      any-map_where marked_row (λ r. r.id == k) (published v.now) v.rows
        (λ r m. ground (arith, on_publish v.now r)) h)
  Step-marked {v} (gave_up k n x e) h = rw e (
      any-map_where marked_row (λ r. r.id == k) (failed v.now n x) v.rows
        (λ r m. ground (arith, on_fail v.now n x r)) h)

  Reach-marked :
      {v w : World} → Reach v w → any marked_row v.rows ≡ true → any marked_row w.rows ≡ true
  Reach-marked here h = h
  Reach-marked (next r st) h = Step-marked st (Reach-marked r h)

Reach-has_published :
    {v w : World} (id : ℕ)
    → Reach v w
    → has_published id v.rows ≡ true
    → has_published id w.rows ≡ true
Reach-has_published id =
    Reach-marked id (λ r. is_some r.published_at) (λ now i r h. h) (λ now r h. refl)
      (λ now n x r h. h)

Reach-has_given_up :
    {v w : World} (id : ℕ)
    → Reach v w
    → has_given_up id v.rows ≡ true
    → has_given_up id w.rows ≡ true
Reach-has_given_up id =
    Reach-marked id (λ r. is_some r.dead_lettered_at) (λ now i r h. h) (λ now r h. h)
      (λ now n x r h. ground (arith, h))

-- A run of the publisher, whether it returns or throws, among any steps of other instances, of
-- services that enqueue facts and of the clock: if every row that is marked as published was sent
-- before the run, so it is after it; no row loses its mark of publication or of being given up; and
-- what was sent stays sent.
pub publish_ready-IsSound :
    (t : Delegate OutboxRecord) (law : IsDelegate (is_unique (λ r. r.id)) t) (pf : Platform)
    (other : World → World) (w : World)
    → ((v : World) → Reach v (other v))
    → IsSound w
    → IsSound (publish_ready t pf other w).1
      × ((id : ℕ)
          → has_published id w.rows ≡ true
          → has_published id (publish_ready t pf other w).1.rows ≡ true)
      × ((id : ℕ)
          → has_given_up id w.rows ≡ true
          → has_given_up id (publish_ready t pf other w).1.rows ≡ true)
      × ((id : ℕ)
          → was_sent id w.sent ≡ true
          → was_sent id (publish_ready t pf other w).1.sent ≡ true)
publish_ready-IsSound t law pf other w others sound =
    let run = publish_ready-Reach t law pf other others w in
    (
      Reach-IsSound run sound,
      (λ id. Reach-has_published id run),
      (λ id. Reach-has_given_up id run),
      (λ id. Reach-was_sent id run),
    )
