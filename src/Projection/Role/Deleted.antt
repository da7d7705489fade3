-- ===== src/Projection/Role/Deleted.antt =====
-- What goes with deleted events.
use seat_service.Common.{
  ◌≡◌, refl, sym, ap, subst, ◌∙◌, arith, ℕ, ◌⊎◌, inl, inr, Bool, true, false, ◌&&◌, none, List, any,
  ◌==◌, if◌then◌else◌, Option-cases, is_some,
}
use seat_service.Errors.{write_refused}
use seat_service.Action.{Result, ok, err}
use seat_service.Projection.{Projection, IsProjection, EventUser, same_event_user}
use seat_service.Projection.Role.{EventRoleProjection, is_of_events, settled, handle_event_deleted}

-- The rows of a table whose keys pass a test are gone, and the others stand.
abbrev pub IsWithout : {Key Row T : Type 0} → Projection Key Row T → (Key → Bool) → T → T → Type 0
IsWithout {Key} p f t t' =
    (j : Key) → p.find_unique j t' ≡ (if f j then none else p.find_unique j t)

module _ {Key Row T : Type 0} (same : Key → Key → Bool) (p : Projection Key Row T)
    (law : IsProjection same p) where
  settled-IsWithout :
      (f : Key → Bool) (t : T)
      → ((is_some (p.delete_many f t) ≡ true) × IsWithout p f t (settled (p.delete_many f t) t))
        ⊎ ((is_some (p.delete_many f t) ≡ false) × (settled (p.delete_many f t) t ≡ t))
  settled-IsWithout f t = elim (Option-cases (p.delete_many f t)) [
    | inl refused ↦ inr (rw refused (refl, refl))
    | inr (t', done) ↦ inl (rw done (refl, λ j. law.find-delete_many f j t t' done))
  ]

  settled-cases :
      (f : Key → Bool) (t t' : T) (r : Result (Unit {0}))
      → settled (p.delete_many f t) t ≡ t'
      → (is_some (p.delete_many f t) ≡ false → r ≡ err write_refused)
      → IsWithout p f t t' ⊎ ((t' ≡ t) × (r ≡ err write_refused))
  settled-cases f t t' r e throws = elim (settled-IsWithout f t) [
    | inl (_, without) ↦ inl (subst (IsWithout p f t) e without)
    | inr (refused, same) ↦ inr (sym e ∙ same, throws refused)
  ]

-- What the three writes give together.
abbrev verdict : Bool → Bool → Bool → Result (Unit {0})
verdict a b c = if a && b && c then ok tt else err write_refused

verdict_first : (a b c : Bool) → a ≡ false → verdict a b c ≡ err write_refused
verdict_first a b c h = ground arith

verdict_second : (a b c : Bool) → b ≡ false → verdict a b c ≡ err write_refused
verdict_second a b c h = ground arith

verdict_third : (a b c : Bool) → c ≡ false → verdict a b c ≡ err write_refused
verdict_third a b c h = ground arith

module _ {Access Settings T S U : Type 0} (roles : Projection EventUser EventRoleProjection T)
    (settings : Projection ℕ Settings S) (access : Projection EventUser Access U)
    (roles_law : IsProjection same_event_user roles)
    (settings_law : IsProjection (λ i j. i == j) settings)
    (access_law : IsProjection same_event_user access) where
  -- After the deletion of events each of the three tables is without them, or as it was, and then the
  -- handler threw.
  pub event_deleted_tables :
      (event_ids : List ℕ) (t t' : T) (s s' : S) (u u' : U) (r : Result (Unit {0}))
      → handle_event_deleted roles settings access event_ids (t, s, u) ≡ (r, (t', s', u'))
      → (IsWithout roles (is_of_events event_ids) t t' ⊎ ((t' ≡ t) × (r ≡ err write_refused)))
        × (IsWithout settings (λ i. any (λ id. id == i) event_ids) s s'
            ⊎ ((s' ≡ s) × (r ≡ err write_refused)))
        × (IsWithout access (is_of_events event_ids) u u' ⊎ ((u' ≡ u) × (r ≡ err write_refused)))
  unfolding handle_event_deleted
  event_deleted_tables event_ids t t' s s' u u' r h =
      let f = is_of_events event_ids in
      let g = λ (i : ℕ). any (λ id. id == i) event_ids in
      let a = is_some (roles.delete_many f t) in
      let b = is_some (settings.delete_many g s) in
      let c = is_some (access.delete_many f u) in
      let result = ap (λ x. x.0) h in
      (
        settled-cases same_event_user roles roles_law f t t' r (ap (λ x. x.1.0) h)
            (λ no. sym result ∙ verdict_first a b c no),
        settled-cases (λ i j. i == j) settings settings_law g s s' r (ap (λ x. x.1.1) h)
            (λ no. sym result ∙ verdict_second a b c no),
        settled-cases same_event_user access access_law f u u' r (ap (λ x. x.1.2) h)
            (λ no. sym result ∙ verdict_third a b c no),
      )
