-- ===== src/Projection/Access/Laws.antt =====
-- Whatever the order of the messages, the newest stands in the table.
use seat_service.Common.{
  ◌≡◌, refl, sym, subst, ◌∙◌, ap, ◌≤◌, ◌⊎◌, inl, inr, true, false, Option, none, some, List, [],
  ◌∷◌, if◌then◌else◌, Has, arith, Bool-cases, Option-cases,
}
use seat_service.Action.{ok, and_then, and_then-ok, pure-ok, if-ok, each}
use seat_service.Projection.{
  Projection, IsProjection, EventUser, same_event_user, is_before, write-ok, upserted,
  same_event_user→eq,
}
use seat_service.Projection.Access.{
  EventAccess, EventAccessProjection, access_key, access_row, access_time,
  handle_user_access_changed,
}
use seat_service.Projection.Access.Newest.{
  newer, newest, newer-other, IsSince, newest-IsSince, newest-IsFrom,
}

module _ {T : Type 0} (p : Projection EventUser EventAccessProjection T)
    (law : IsProjection same_event_user p) where
  handle-newer :
      (k : EventUser) (m : EventAccess) (t t' : T) {u : Unit {0}}
      → handle_user_access_changed p m t ≡ (ok u, t')
      → p.find_unique k t' ≡ newer k (p.find_unique k t) m
  unfolding handle_user_access_changed and_then
  handle-newer k m t t' h =
      elim (if-ok (is_before m.occurred_at (access_time (p.find_unique (access_key m) t))) _ _ h) [
        | inl (stale, done) ↦ let (_, same) = pure-ok done in rw same (skip stale)
        | inr (fresh, wrote) ↦
            law.find-upsert (access_key m) k (access_row m) (λ row. access_row m) t t'
              (write-ok (p.upsert (access_key m) (access_row m) (λ row. access_row m)) t t' wrote)
            ∙ put fresh
      ]
    where
      skip :
          is_before m.occurred_at (access_time (p.find_unique (access_key m) t)) ≡ true
          → p.find_unique k t ≡ newer k (p.find_unique k t) m
      skip stale = elim (Bool-cases (same_event_user (access_key m) k)) [
        | inl e ↦
            let key = same_event_user→eq (access_key m) k e in
            let stale' =
              subst (λ j. is_before m.occurred_at (access_time (p.find_unique j t)) ≡ true) key
                stale in
            rw e (rw stale' refl)
        | inr e ↦ sym (newer-other k (p.find_unique k t) m e)
      ]

      set :
          (old : Option EventAccessProjection)
          → some (upserted (access_row m) (λ row. access_row m) old) ≡ some (access_row m)
      set none = refl
      set (some r) = refl

      put :
          is_before m.occurred_at (access_time (p.find_unique (access_key m) t)) ≡ false
          → (if same_event_user (access_key m) k
              then some (upserted (access_row m) (λ row. access_row m) (p.find_unique k t))
              else p.find_unique k t)
            ≡ newer k (p.find_unique k t) m
      put fresh = elim (Bool-cases (same_event_user (access_key m) k)) [
        | inl e ↦
            let key = same_event_user→eq (access_key m) k e in
            let fresh' =
              subst (λ j. is_before m.occurred_at (access_time (p.find_unique j t)) ≡ false) key
                fresh in
            rw e (rw fresh' (set (p.find_unique k t)))
        | inr e ↦ rw e refl
      ]

  deliver-newest :
      (k : EventUser) (ms : List EventAccess) (t t' : T) {u : Unit {0}}
      → each (handle_user_access_changed p) ms t ≡ (ok u, t')
      → p.find_unique k t' ≡ newest k (p.find_unique k t) ms
  unfolding each
  deliver-newest k [] t t' h = let (_, same) = pure-ok h in rw same refl
  deliver-newest k (m ∷ ms) t t' h =
      let (_, mid, first, rest) =
        and_then-ok (handle_user_access_changed p m t) (λ _. each (handle_user_access_changed p) ms)
          h in
      deliver-newest k ms mid t' rest ∙ ap (λ old. newest k old ms) (handle-newer k m t mid first)

  -- After any messages, in any order, a key that had no row has the row of a newest message for it,
  -- and no row only if there was no message for it.
  pub access_newest :
      (k : EventUser) (ms : List EventAccess) (t t' : T)
      → each (handle_user_access_changed p) ms t ≡ (ok tt, t')
      → p.find_unique k t ≡ none
      → ((p.find_unique k t' ≡ none)
          × ((n : EventAccess) → Has n ms → same_event_user (access_key n) k ≡ false))
        ⊎ ((m : EventAccess) × Has m ms
            × (same_event_user (access_key m) k ≡ true)
            × (p.find_unique k t' ≡ some (access_row m))
            × ((n : EventAccess)
                → Has n ms
                → same_event_user (access_key n) k ≡ true
                → n.occurred_at ≤ m.occurred_at))
  access_newest k ms t t' h empty = elim (Option-cases (p.find_unique k t')) [
    | inl gone ↦ inl (gone, λ n has. no_message n has gone)
    | inr (r, found) ↦ inr (from_message r found)
  ]
    where
      result : p.find_unique k t' ≡ newest k none ms
      result = deliver-newest k ms t t' h ∙ ap (λ old. newest k old ms) empty

      no_message :
          (n : EventAccess)
          → Has n ms
          → p.find_unique k t' ≡ none
          → same_event_user (access_key n) k ≡ false
      no_message n has gone = elim (Bool-cases (same_event_user (access_key n) k)) [
        | inl e ↦
            absurd
              (subst (IsSince n.occurred_at) (sym result ∙ gone) (newest-IsSince k ms none n has e))
        | inr e ↦ e
      ]

      impossible : {r : EventAccessProjection} → none ≡ some r → ⊥
      impossible e = cc

      from_message :
          (r : EventAccessProjection)
          → p.find_unique k t' ≡ some r
          → (m : EventAccess) × Has m ms
            × (same_event_user (access_key m) k ≡ true)
            × (p.find_unique k t' ≡ some (access_row m))
            × ((n : EventAccess)
                → Has n ms
                → same_event_user (access_key n) k ≡ true
                → n.occurred_at ≤ m.occurred_at)
      from_message r found = elim (newest-IsFrom k ms none r (sym result ∙ found)) [
        | inl e ↦ absurd (impossible e)
        | inr (m, has, e, row) ↦ (
          m,
          has,
          e,
          found ∙ ap some row,
          λ n there e'.
              subst (IsSince n.occurred_at) (sym result ∙ found ∙ ap some row)
                (newest-IsSince k ms none n there e'),
        )
      ]

  -- Two deliveries of the same messages, in any order and with any repetitions, leave the same row,
  -- where a key that had no row has no two messages of one time.
  pub access_converges :
      (k : EventUser) (ms ns : List EventAccess) (t s' t' : T)
      → each (handle_user_access_changed p) ms t ≡ (ok tt, s')
      → each (handle_user_access_changed p) ns t ≡ (ok tt, t')
      → p.find_unique k t ≡ none
      → ((m : EventAccess) → Has m ms → Has m ns)
      → ((m : EventAccess) → Has m ns → Has m ms)
      → ((m n : EventAccess)
          → Has m ms
          → Has n ms
          → same_event_user (access_key m) k ≡ true
          → same_event_user (access_key n) k ≡ true
          → m.occurred_at ≡ n.occurred_at
          → m ≡ n)
      → p.find_unique k s' ≡ p.find_unique k t'
  access_converges k ms ns t s' t' h i empty sub sup distinct =
      elim (access_newest k ms t s' h empty) [
        | inl (gone, none_m) ↦ elim (access_newest k ns t t' i empty) [
          | inl (gone', _) ↦ gone ∙ sym gone'
          | inr (n, has, e, _, _) ↦ absurd (contradiction (sym e ∙ none_m n (sup n has)))
        ]
        | inr (m, has_m, e, row, max) ↦ elim (access_newest k ns t t' i empty) [
          | inl (_, none_n) ↦ absurd (contradiction (sym e ∙ none_n m (sub m has_m)))
          | inr (n, has_n, e', row', max') ↦
              let below = max n (sup n has_n) e' in
              let above = max' m (sub m has_m) e in
              let same = distinct m n has_m (sup n has_n) e e' (omega (arith, below, above)) in
              row ∙ ap (λ i. some (access_row i)) same ∙ sym row'
        ]
      ]
    where
      contradiction : true ≡ false → ⊥
      contradiction e = cc
