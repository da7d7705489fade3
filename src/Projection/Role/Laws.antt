-- ===== src/Projection/Role/Laws.antt =====
-- Who has which role after a change of owner, and which messages on roles are lost: their age is
-- compared to the time at which the row was written, and a removal leaves no row to compare with.
use seat_service.Common.{
  ◌≡◌, refl, subst, ◌∙◌, ap, ℕ, ◌<◌, inl, inr, true, false, Option, none, some, if◌then◌else◌,
  arith, Bool-cases, lt→ltb,
}
use seat_service.Action.{ok, and_then, and_then-ok, pure-ok}
use seat_service.Projection.{
  Projection, IsProjection, EventUser, same_event_user, is_before, write, write-ok, upserted,
}
use seat_service.Projection.Role.{
  EventRoleProjection, EventRoleType, admin, EventRoleAssigned, EventRoleRemoved, EventOwnerChanged,
  role_time, upsert_role, handle_role_assigned, handle_role_removed, remove_old_owner,
  add_new_owner, handle_owner_changed,
}

same_event_user_self : (k : EventUser) → same_event_user k k ≡ true
same_event_user_self (e, u) = ground arith

-- A row that a handler wrote.
abbrev pub role_row : ℕ → EventRoleType → EventRoleProjection
role_row now role = record { role = role; updated_at = some now }

module _ {T : Type 0} (p : Projection EventUser EventRoleProjection T)
    (law : IsProjection same_event_user p) where
  upsert_role-ok :
      (now : ℕ) (k j : EventUser) (role : EventRoleType) (t t' : T) {u : Unit {0}}
      → upsert_role p now k role t ≡ (ok u, t')
      → p.find_unique j t'
        ≡ (if same_event_user k j then some (role_row now role) else p.find_unique j t)
  upsert_role-ok now k j role t t' h =
      law.find-upsert k j (role_row now role) (λ row. role_row now role) t t'
        (write-ok (p.upsert k (role_row now role) (λ row. role_row now role)) t t' h)
      ∙ ap (λ row. if same_event_user k j then row else p.find_unique j t) (set (p.find_unique j t))
    where
      set :
          (old : Option EventRoleProjection)
          → some (upserted (role_row now role) (λ row. role_row now role) old)
            ≡ some (role_row now role)
      set none = refl
      set (some row) = refl

  upsert_role_self :
      (now : ℕ) (k : EventUser) (role : EventRoleType) (t t' : T) {u : Unit {0}}
      → upsert_role p now k role t ≡ (ok u, t')
      → p.find_unique k t' ≡ some (role_row now role)
  upsert_role_self now k role t t' h =
      upsert_role-ok now k k role t t' h ∙ rw (same_event_user_self k) refl

  delete_self :
      (k : EventUser) (t t' : T) {u : Unit {0}}
      → write (p.delete_many (same_event_user k)) t ≡ (ok u, t')
      → p.find_unique k t' ≡ none
  delete_self k t t' h =
      law.find-delete_many (same_event_user k) k t t'
        (write-ok (p.delete_many (same_event_user k)) t t' h)
      ∙ rw (same_event_user_self k) refl

  delete-other :
      (k j : EventUser) (t t' : T) {u : Unit {0}}
      → same_event_user k j ≡ false
      → write (p.delete_many (same_event_user k)) t ≡ (ok u, t')
      → p.find_unique j t' ≡ p.find_unique j t
  delete-other k j t t' other h =
      law.find-delete_many (same_event_user k) j t t'
        (write-ok (p.delete_many (same_event_user k)) t t' h)
      ∙ rw other refl

  -- An assignment that is not older than the row is written; any message on the same role that
  -- occurred before that write is then skipped, also one that occurred after the first.
  pub newer_role_dropped :
      (now later : ℕ) (a b : EventRoleAssigned) (t t' : T)
      → is_before a.occurred_at (role_time (p.find_unique (a.event_id, a.user_id) t)) ≡ false
      → handle_role_assigned p now a t ≡ (ok tt, t')
      → b.event_id ≡ a.event_id
      → b.user_id ≡ a.user_id
      → b.occurred_at < now
      → (handle_role_assigned p later b t' ≡ (ok tt, t'))
        × (p.find_unique (b.event_id, b.user_id) t' ≡ some (role_row now a.role))
  unfolding handle_role_assigned and_then
  newer_role_dropped now later a b t t' fresh h event user early =
      let wrote = upsert_role_self now (a.event_id, a.user_id) a.role t t' (rw fresh at h) in
      rw event (rw user ((rw wrote (rw (lt→ltb b.occurred_at now early) refl)), wrote))

  -- After a removal that is not older than the row there is no row, and the next assignment is written
  -- whatever its age, so one that occurred before the removal restores the role.
  pub removed_role_returns :
      (now : ℕ) (r : EventRoleRemoved) (a : EventRoleAssigned) (t s t' : T)
      → is_before r.occurred_at (role_time (p.find_unique (r.event_id, r.user_id) t)) ≡ false
      → handle_role_removed p r t ≡ (ok tt, s)
      → a.event_id ≡ r.event_id
      → a.user_id ≡ r.user_id
      → handle_role_assigned p now a s ≡ (ok tt, t')
      → (p.find_unique (r.event_id, r.user_id) s ≡ none)
        × (p.find_unique (a.event_id, a.user_id) t' ≡ some (role_row now a.role))
  unfolding handle_role_assigned handle_role_removed and_then
  removed_role_returns now r a t s t' fresh removed event user assigned =
      let gone = delete_self (r.event_id, r.user_id) t s (rw fresh at removed) in
      let gone' : p.find_unique (a.event_id, a.user_id) s ≡ none = rw event (rw user gone) in
      (gone, upsert_role_self now (a.event_id, a.user_id) a.role s t' (rw gone' at assigned))

  remove_old_owner-ok :
      (e occurred_at old_id : ℕ) (t t' : T) {u : Unit {0}}
      → remove_old_owner p e occurred_at (some old_id) t ≡ (ok u, t')
      → (p.find_unique (e, old_id) t' ≡ (
          if is_before occurred_at (role_time (p.find_unique (e, old_id) t))
          then p.find_unique (e, old_id) t
          else none))
        × ((j : EventUser)
            → same_event_user (e, old_id) j ≡ false
            → p.find_unique j t' ≡ p.find_unique j t)
  unfolding remove_old_owner and_then
  remove_old_owner-ok e occurred_at old_id t t' h =
      elim (Bool-cases (is_before occurred_at (role_time (p.find_unique (e, old_id) t)))) [
        | inl stale ↦
            let (_, same) = pure-ok (rw stale at h) in
            (rw stale (rw same refl), λ j other. rw same refl)
        | inr fresh ↦ (
          rw fresh (delete_self (e, old_id) t t' (rw fresh at h)),
          λ j other. delete-other (e, old_id) j t t' other (rw fresh at h),
        )
      ]

  add_new_owner-ok :
      (now : ℕ) (m : EventOwnerChanged) (t t' : T) {u : Unit {0}}
      → add_new_owner p now m t ≡ (ok u, t')
      → (p.find_unique (m.event_id, m.new_owner_id) t' ≡ (
          if is_before m.occurred_at (role_time (p.find_unique (m.event_id, m.new_owner_id) t))
          then p.find_unique (m.event_id, m.new_owner_id) t
          else some (role_row now admin)))
        × ((j : EventUser)
            → same_event_user (m.event_id, m.new_owner_id) j ≡ false
            → p.find_unique j t' ≡ p.find_unique j t)
  unfolding add_new_owner and_then
  add_new_owner-ok now m t t' h =
      let k : EventUser = (m.event_id, m.new_owner_id) in
      elim (Bool-cases (is_before m.occurred_at (role_time (p.find_unique k t)))) [
        | inl stale ↦
            let (_, same) = pure-ok (rw stale at h) in
            (rw stale (rw same refl), λ j other. rw same refl)
        | inr fresh ↦
            let wrote = rw fresh at h in
            (
              rw fresh (upsert_role_self now k admin t t' wrote),
              λ j other. upsert_role-ok now k j admin t t' wrote ∙ rw other refl,
            )
      ]

  -- A change of owner that returns, from one user to another: the new owner is an ADMIN, with the time
  -- of the write, unless the new owner's row before the call was written after the change occurred, and
  -- then that row stays; the old owner has no role, unless the old owner's row before the call was
  -- written after the change occurred, and then that row stays; and everybody else's role stays.
  pub owner_changed_roles :
      (now : ℕ) (m : EventOwnerChanged) (old_id : ℕ) (t t' : T)
      → m.old_owner_id ≡ some old_id
      → same_event_user (m.event_id, m.new_owner_id) (m.event_id, old_id) ≡ false
      → handle_owner_changed p now m t ≡ (ok tt, t')
      → (p.find_unique (m.event_id, m.new_owner_id) t' ≡ (
          if is_before m.occurred_at (role_time (p.find_unique (m.event_id, m.new_owner_id) t))
          then p.find_unique (m.event_id, m.new_owner_id) t
          else some (role_row now admin)))
        × (p.find_unique (m.event_id, old_id) t' ≡ (
            if is_before m.occurred_at (role_time (p.find_unique (m.event_id, old_id) t))
            then p.find_unique (m.event_id, old_id) t
            else none))
        × ((j : EventUser)
            → same_event_user (m.event_id, m.new_owner_id) j ≡ false
            → same_event_user (m.event_id, old_id) j ≡ false
            → p.find_unique j t' ≡ p.find_unique j t)
  unfolding handle_owner_changed
  owner_changed_roles now m old_id t t' old differ h =
      let (_, mid, first, second) =
        and_then-ok (remove_old_owner p m.event_id m.occurred_at m.old_owner_id t)
          (λ _. add_new_owner p now m) h in
      let (removed, others) =
        remove_old_owner-ok m.event_id m.occurred_at old_id t mid
          (subst (λ o. remove_old_owner p m.event_id m.occurred_at o t ≡ (ok tt, mid)) old first) in
      let (added, rest) = add_new_owner-ok now m mid t' second in
      let new_same = others (m.event_id, m.new_owner_id) (ground (arith, differ)) in
      let added_from_before =
        subst
          (λ row.
            p.find_unique (m.event_id, m.new_owner_id) t'
            ≡ (if is_before m.occurred_at (role_time row) then row else some (role_row now admin)))
          new_same added in
      (
        added_from_before,
        rest (m.event_id, old_id) differ ∙ removed,
        λ j new was. rest j new ∙ others j was,
      )
