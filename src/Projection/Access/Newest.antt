-- ===== src/Projection/Access/Newest.antt =====
-- What messages in a row leave for a key: one of its newest.
use seat_service.Common.{
  ◌≡◌, refl, sym, subst, ◌∙◌, ℕ, ◌≤◌, ◌⊎◌, inl, inr, true, false, Option, none, some, List, [], ◌∷◌,
  if◌then◌else◌, Has, arith, Bool-cases, ltb→lt, ltb→le,
}
use seat_service.Projection.{EventUser, same_event_user, is_before}
use seat_service.Projection.Access.{
  EventAccess, EventAccessProjection, access_key, access_row, access_time,
}

-- The row of a key after a message.
abbrev pub newer :
    EventUser → Option EventAccessProjection → EventAccess → Option EventAccessProjection
newer k old m =
    if same_event_user (access_key m) k
    then (if is_before m.occurred_at (access_time old) then old else some (access_row m))
    else old

abbrev pub newest :
    EventUser → Option EventAccessProjection → List EventAccess → Option EventAccessProjection
newest k old [] = old
newest k old (m ∷ ms) = newest k (newer k old m) ms

pub newer-other :
    (k : EventUser) (old : Option EventAccessProjection) (m : EventAccess)
    → same_event_user (access_key m) k ≡ false
    → newer k old m ≡ old
newer-other k old m h = rw h refl

-- The row is of this time or a later one.
abbrev pub IsSinceTime : ℕ → Option ℕ → Type 0
IsSinceTime n none = ⊥
IsSinceTime n (some time) = n ≤ time

abbrev pub IsSince : ℕ → Option EventAccessProjection → Type 0
IsSince n none = ⊥
IsSince n (some r) = IsSinceTime n r.occurred_at

not_before : (n i : ℕ) (time : Option ℕ) → IsSinceTime n time → is_before i time ≡ false → n ≤ i
not_before n i none s h = absurd s
not_before n i (some time) s h = omega (arith, s, ltb→le i time h)

before-IsSinceTime : (i : ℕ) (time : Option ℕ) → is_before i time ≡ true → IsSinceTime i time
before-IsSinceTime i none h = cc
before-IsSinceTime i (some time) h = omega (arith, ltb→lt i time h)

newer-keeps :
    (k : EventUser) (n : ℕ) (old : Option EventAccessProjection) (m : EventAccess)
    → IsSince n old
    → IsSince n (newer k old m)
newer-keeps k n none m s = absurd s
newer-keeps k n (some r) m s = elim (Bool-cases (same_event_user (access_key m) k)) [
  | inl e ↦ elim (Bool-cases (is_before m.occurred_at r.occurred_at)) [
    | inl b ↦ rw e (rw b s)
    | inr b ↦ rw e (rw b (not_before n m.occurred_at r.occurred_at s b))
  ]
  | inr e ↦ rw e s
]

newer-IsSince :
    (k : EventUser) (old : Option EventAccessProjection) (m : EventAccess)
    → same_event_user (access_key m) k ≡ true
    → IsSince m.occurred_at (newer k old m)
newer-IsSince k none m e = rw e (omega arith)
newer-IsSince k (some r) m e = elim (Bool-cases (is_before m.occurred_at r.occurred_at)) [
  | inl b ↦ rw e (rw b (before-IsSinceTime m.occurred_at r.occurred_at b))
  | inr b ↦ rw e (rw b (omega arith))
]

newest-keeps :
    (k : EventUser) (n : ℕ) (ms : List EventAccess) (old : Option EventAccessProjection)
    → IsSince n old
    → IsSince n (newest k old ms)
newest-keeps k n [] old s = s
newest-keeps k n (m ∷ ms) old s = newest-keeps k n ms (newer k old m) (newer-keeps k n old m s)

pub newest-IsSince :
    (k : EventUser) (ms : List EventAccess) (old : Option EventAccessProjection) (m : EventAccess)
    → Has m ms
    → same_event_user (access_key m) k ≡ true
    → IsSince m.occurred_at (newest k old ms)
newest-IsSince k [] old m h e = absurd h
newest-IsSince k (n ∷ ms) old m (inl same) e = newest-keeps k m.occurred_at ms (newer k old n) (
    subst (λ (i : EventAccess). IsSince m.occurred_at (newer k old i)) same
      (newer-IsSince k old m e))
newest-IsSince k (n ∷ ms) old m (inr h) e = newest-IsSince k ms (newer k old n) m h e

-- A row is that of a message for its key, or was there before.
abbrev pub IsFrom : EventUser → List EventAccess → EventAccessProjection → Type 0
IsFrom k ms r =
    (m : EventAccess) × Has m ms × (same_event_user (access_key m) k ≡ true) × (r ≡ access_row m)

newer-from :
    (k : EventUser) (old : Option EventAccessProjection) (m : EventAccess)
    → (newer k old m ≡ old)
      ⊎ ((same_event_user (access_key m) k ≡ true) × (newer k old m ≡ some (access_row m)))
newer-from k old m = elim (Bool-cases (same_event_user (access_key m) k)) [
  | inl e ↦ elim (Bool-cases (is_before m.occurred_at (access_time old))) [
    | inl b ↦ inl (rw e (rw b refl))
    | inr b ↦ inr (e, rw e (rw b refl))
  ]
  | inr e ↦ inl (newer-other k old m e)
]

pub newest-IsFrom :
    (k : EventUser) (ms : List EventAccess) (old : Option EventAccessProjection)
    (r : EventAccessProjection)
    → newest k old ms ≡ some r
    → (old ≡ some r) ⊎ IsFrom k ms r
newest-IsFrom k [] old r h = inl h
newest-IsFrom k (m ∷ ms) old r h = elim (newest-IsFrom k ms (newer k old m) r h) [
  | inr (n, has, e, row) ↦ inr (n, inr has, e, row)
  | inl now ↦ elim (newer-from k old m) [
    | inl same ↦ inl (sym same ∙ now)
    | inr (e, new) ↦ inr (m, inl refl, e, value (sym now ∙ new))
  ]
]
  where
    value : {a b : EventAccessProjection} → some a ≡ some b → a ≡ b
    value e = cc
