-- ===== src/Projection/Access/Tests.antt =====
-- Messages on access in two orders.
use seat_service.Common.{
  ◌≡◌, refl, sym, ap, ◌∙◌, ℕ, ◌≤◌, ◌⊎◌, inl, inr, true, false, Option, none, some, List, [], ◌∷◌,
  Has, arith,
}
use seat_service.Action.{ok, each, and_then}
use seat_service.Meta.{null}
use seat_service.Projection.{Projection, IsProjection, EventUser, same_event_user, settle}
use seat_service.Projection.Memory.{in_memory, in_memory-IsProjection}
use seat_service.Projection.Access.{
  EventAccess, EventAccessProjection, access_key, access_row, handle_user_access_changed,
}
use seat_service.Projection.Access.Laws.{access_newest, access_converges}

-- User 5 at event 7.
abbrev user : EventUser
user = (7, 5)

abbrev access_table :
    Projection EventUser EventAccessProjection (EventUser → Option EventAccessProjection)
access_table = in_memory same_event_user

abbrev access_laws : IsProjection same_event_user access_table
access_laws = in_memory-IsProjection same_event_user

abbrev no_access : EventUser → Option EventAccessProjection
no_access k = none

abbrev access : ℕ → EventAccess
access time = record {
  event_id = 7;
  user_id = 5;
  permissions = "seat.read" ∷ [];
  roles = null;
  occurred_at = time;
}

abbrev in_order : List EventAccess
in_order = access 1 ∷ access 2 ∷ []

abbrev out_of_order : List EventAccess
out_of_order = access 2 ∷ access 1 ∷ access 2 ∷ []

abbrev after_access : List EventAccess → EventUser → Option EventAccessProjection
after_access ms = (each (handle_user_access_changed access_table) ms no_access).1

in_order_runs :
    each (handle_user_access_changed access_table) in_order no_access
    ≡ (ok tt, after_access in_order)
unfolding each handle_user_access_changed and_then settle
in_order_runs = refl

out_of_order_runs :
    each (handle_user_access_changed access_table) out_of_order no_access
    ≡ (ok tt, after_access out_of_order)
unfolding each handle_user_access_changed and_then settle
out_of_order_runs = refl

access_newest_example :
    ((access_table.find_unique user (after_access in_order) ≡ none)
      × ((n : EventAccess) → Has n in_order → same_event_user (access_key n) user ≡ false))
    ⊎ ((m : EventAccess) × Has m in_order
        × (same_event_user (access_key m) user ≡ true)
        × (access_table.find_unique user (after_access in_order) ≡ some (access_row m))
        × ((n : EventAccess)
            → Has n in_order
            → same_event_user (access_key n) user ≡ true
            → n.occurred_at ≤ m.occurred_at))
access_newest_example =
    access_newest access_table access_laws user in_order no_access (after_access in_order)
      in_order_runs refl

in_order-sub : (m : EventAccess) → Has m in_order → Has m out_of_order
in_order-sub m (inl e) = inr (inl e)
in_order-sub m (inr (inl e)) = inl e
in_order-sub m (inr (inr h)) = absurd h

in_order-sup : (m : EventAccess) → Has m out_of_order → Has m in_order
in_order-sup m (inl e) = inr (inl e)
in_order-sup m (inr (inl e)) = inl e
in_order-sup m (inr (inr (inl e))) = inr (inl e)
in_order-sup m (inr (inr (inr h))) = absurd h

times_differ :
    (m n : EventAccess) → m ≡ access 1 → n ≡ access 2 → m.occurred_at ≡ n.occurred_at → m ≡ n
times_differ m n e e' h =
    absurd (omega (arith, ap (λ i. i.occurred_at) e, ap (λ i. i.occurred_at) e', h))

in_order-distinct :
    (m n : EventAccess)
    → Has m in_order
    → Has n in_order
    → same_event_user (access_key m) user ≡ true
    → same_event_user (access_key n) user ≡ true
    → m.occurred_at ≡ n.occurred_at
    → m ≡ n
in_order-distinct m n (inl e) (inl e') k k' h = e ∙ sym e'
in_order-distinct m n (inl e) (inr (inl e')) k k' h = times_differ m n e e' h
in_order-distinct m n (inr (inl e)) (inl e') k k' h = sym (times_differ n m e' e (sym h))
in_order-distinct m n (inr (inl e)) (inr (inl e')) k k' h = e ∙ sym e'
in_order-distinct m n (inr (inr i)) j k k' h = absurd i
in_order-distinct m n (inl e) (inr (inr j)) k k' h = absurd j
in_order-distinct m n (inr (inl e)) (inr (inr j)) k k' h = absurd j

access_converges_example :
    access_table.find_unique user (after_access in_order)
    ≡ access_table.find_unique user (after_access out_of_order)
access_converges_example =
    access_converges access_table access_laws user in_order out_of_order no_access
      (after_access in_order) (after_access out_of_order) in_order_runs out_of_order_runs refl
      in_order-sub in_order-sup in_order-distinct
