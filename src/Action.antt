-- ===== src/Action.antt =====
-- Service methods. An action reads and changes a state, and returns a value or throws; what it did
-- before it threw stays done. `transaction` is the client's `$transaction`, which undoes it.
use seat_service.Common.{
  ◌⊎◌, inl, inr, if◌then◌else◌, ◌≡◌, refl, Option, none, some, List, [], ◌∷◌, Bool, true, false,
  arith,
}
use seat_service.Errors.{Error}

pub data Result {ℓ} (A : Type ℓ) : Type ℓ where
  ok : A → Result A
  err : Error → Result A

abbrev pub Action : Type 0 → Type 0 → Type 0
Action S A = S → Result A × S

-- What follows an action, given what the action did.
unfoldable pub and_then : {S A B : Type 0} → Result A × S → (A → Action S B) → Result B × S
and_then (ok a, s) f = f a s
and_then (err e, s) f = (err e, s)

infixl 5 ◌>>=◌ ◌>>◌
abbrev pub ◌>>=◌ : {S A B : Type 0} → Action S A → (A → Action S B) → Action S B
◌>>=◌ m f s = and_then (m s) f

abbrev pub ◌>>◌ : {S B : Type 0} → Action S (Unit {0}) → Action S B → Action S B
m >> k = m >>= λ _. k

abbrev pub pure : {S A : Type 0} → A → Action S A
pure a s = (ok a, s)

abbrev pub throw : {S A : Type 0} → Error → Action S A
throw e s = (err e, s)

abbrev pub gets : {S A : Type 0} → (S → A) → Action S A
gets f s = (ok (f s), s)

abbrev pub modify : {S : Type 0} → (S → S) → Action S (Unit {0})
modify f s = (ok tt, f s)

-- `if (!found) { throw error }`
abbrev pub require : {S A : Type 0} → Option A → Error → Action S A
require none e = throw e
require (some a) e = pure a

-- `if (!test) { throw error }`
abbrev pub guard : {S : Type 0} → Bool → Error → Action S (Unit {0})
guard true e = pure tt
guard false e = throw e

unfoldable pub commit : {S A : Type 0} → S → Result A × S → Result A × S
commit s (ok a, s') = (ok a, s')
commit s (err e, s') = (err e, s)

abbrev pub transaction : {S A : Type 0} → Action S A → Action S A
transaction m s = commit s (m s)

-- A loop over a list, in order; the first throw ends it.
unfoldable pub each : {S A : Type 0} → (A → Action S (Unit {0})) → List A → Action S (Unit {0})
each f [] = pure tt
each f (x ∷ xs) = λ s. and_then (f x s) (λ _. each f xs)

-- A transaction that throws leaves the state as it was.
pub transaction_undo :
    {S A : Type 0} (m : Action S A) (s : S) (e : Error)
    → (transaction m s).0 ≡ err e
    → (transaction m s).1 ≡ s
unfolding commit
transaction_undo m s e h = ground arith

-- Inversion of a successful run.
pub and_then-ok :
    {S A B : Type 0} (r : Result A × S) (f : A → Action S B) {b : B} {s' : S}
    → and_then r f ≡ (ok b, s')
    → (a : A) × (m : S) × (r ≡ (ok a, m)) × (f a m ≡ (ok b, s'))
unfolding and_then
and_then-ok (ok a, m) f h = (a, m, refl, h)
and_then-ok (err e, m) f h = cc

pub pure-ok : {S A : Type 0} {a b : A} {s s' : S} → pure a s ≡ (ok b, s') → (b ≡ a) × (s' ≡ s)
pure-ok h = ground arith

pub modify-ok :
    {S : Type 0} (f : S → S) (s s' : S) (u : Unit {0}) → modify f s ≡ (ok u, s') → s' ≡ f s
modify-ok f s s' u h = ground arith

pub require-ok :
    {S A : Type 0} (o : Option A) (e : Error) {s s' : S} {a : A}
    → require o e s ≡ (ok a, s')
    → (o ≡ some a) × (s' ≡ s)
require-ok none e h = cc
require-ok (some a) e h = ground arith

pub guard-ok :
    {S : Type 0} (b : Bool) (e : Error) {s s' : S} {u : Unit {0}}
    → guard b e s ≡ (ok u, s')
    → (b ≡ true) × (s' ≡ s)
guard-ok true e h = ground arith
guard-ok false e h = cc

pub transaction-ok :
    {S A : Type 0} (m : Action S A) (s : S) {a : A} {s' : S}
    → transaction m s ≡ (ok a, s')
    → m s ≡ (ok a, s')
unfolding commit
transaction-ok m s h = ground arith

pub if-ok :
    {S A : Type 0} (b : Bool) (m n : Action S A) {s s' : S} {a : A}
    → (if b then m else n) s ≡ (ok a, s')
    → ((b ≡ true) × (m s ≡ (ok a, s'))) ⊎ ((b ≡ false) × (n s ≡ (ok a, s')))
if-ok true m n h = inl (refl, h)
if-ok false m n h = inr (refl, h)

-- What follows a test that was passed.
pub guarded-ok :
    {S A : Type 0} (b : Bool) (e : Error) (m : Action S A) {s s' : S} {a : A}
    → and_then (guard b e s) (λ _. m) ≡ (ok a, s')
    → (b ≡ true) × (m s ≡ (ok a, s'))
unfolding and_then
guarded-ok true e m h = (refl, h)
guarded-ok false e m h = cc

-- What an action is followed by, which keeps a view of the state.
pub and_then-view :
    {S A B C : Type 0} (view : S → C) (r : Result A × S) (f : A → Action S B)
    → ((a : A) (s : S) → view (f a s).1 ≡ view s)
    → view (and_then r f).1 ≡ view r.1
unfolding and_then
and_then-view view (ok a, s) f h = h a s
and_then-view view (err e, s) f h = refl
