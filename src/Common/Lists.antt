-- ===== src/Common/Lists.antt =====
-- Lists over the native numbers, with Boolean tests.
use Prim.Native.Nat.{ℕ, suc, ◌+◌}
use mathlib.Core.Path.{◌≡◌, refl, sym, subst}
use mathlib.Core.Logic.{◌⊎◌, inl, inr}
use mathlib.Core.Bool.{Bool, true, false, ◌||◌, ◌&&◌}
use mathlib.Core.Option.{Option, none, some}
use mathlib.Core.List.{List, [], ◌∷◌, ◌++◌, map}
use native.Mathlib.Omega.{arith}
use seat_service.Common.Tests.{if◌then◌else◌}

module _ {ℓ} {A : Type ℓ} where
  abbrev pub length : List A → ℕ
  length [] = 0
  length (x ∷ xs) = suc (length xs)

  pub length-append : (xs ys : List A) → length (xs ++ ys) ≡ length xs + length ys
  length-append [] ys = omega arith
  length-append (x ∷ xs) ys = omega (arith, length-append xs ys)

  -- The rows that pass a test, and how many they are.
  abbrev pub filter : (A → Bool) → List A → List A
  filter p [] = []
  filter p (x ∷ xs) = if p x then x ∷ filter p xs else filter p xs

  abbrev pub count : (A → Bool) → List A → ℕ
  count p [] = 0
  count p (x ∷ xs) = if p x then suc (count p xs) else count p xs

  abbrev pub any : (A → Bool) → List A → Bool
  any p [] = false
  any p (x ∷ xs) = p x || any p xs

  abbrev pub all : (A → Bool) → List A → Bool
  all p [] = true
  all p (x ∷ xs) = p x && all p xs

  abbrev pub find? : (A → Bool) → List A → Option A
  find? p [] = none
  find? p (x ∷ xs) = if p x then some x else find? p xs

  -- Rewrites the items that pass a test.
  abbrev pub map_where : (A → Bool) → (A → A) → List A → List A
  map_where p f [] = []
  map_where p f (x ∷ xs) = (if p x then f x else x) ∷ map_where p f xs

module _ {ℓ κ} {A : Type ℓ} (P : A → Type κ) where
  abbrev pub All : List A → Type κ
  All [] = Unit
  All (x ∷ xs) = P x × All xs

  pub All-append : (xs ys : List A) → All xs → All ys → All (xs ++ ys)
  All-append [] ys h k = k
  All-append (x ∷ xs) ys (p, h) k = (p, All-append xs ys h k)

-- Membership as data: a case split finds the place.
abbrev pub Has : {A : Type 0} → A → List A → Type 0
Has a [] = ⊥
Has a (x ∷ xs) = (a ≡ x) ⊎ Has a xs

module _ {A : Type 0} (P : A → Type 0) where
  pub All-Has : (xs : List A) (a : A) → All P xs → Has a xs → P a
  All-Has [] a h m = absurd m
  All-Has (x ∷ xs) a (p, h) (inl e) = subst P (sym e) p
  All-Has (x ∷ xs) a (p, h) (inr m) = All-Has xs a h m

module _ {A : Type 0} where
  pub filter-Has :
      (p : A → Bool) (xs : List A) (a : A) → Has a (filter p xs) → Has a xs × (p a ≡ true)
  filter-Has p [] a m = absurd m
  filter-Has p (x ∷ xs) a m = ground (arith, filter-Has p xs a)

  pub append-Has : (xs ys : List A) (a : A) → Has a (xs ++ ys) → Has a xs ⊎ Has a ys
  append-Has [] ys a m = inr m
  append-Has (x ∷ xs) ys a (inl e) = inl (inl e)
  append-Has (x ∷ xs) ys a (inr m) = elim (append-Has xs ys a m) [
    | inl n ↦ inl (inr n)
    | inr n ↦ inr n
  ]

  pub map-Has :
      {B : Type 0} (f : A → B) (xs : List A) (b : B)
      → Has b (map f xs)
      → (a : A) × Has a xs × (b ≡ f a)
  map-Has f [] b m = absurd m
  map-Has f (x ∷ xs) b (inl e) = (x, inl refl, e)
  map-Has f (x ∷ xs) b (inr m) = let (a, n, e) = map-Has f xs b m in (a, inr n, e)

  pub map_where-Has :
      (p : A → Bool) (f : A → A) (xs : List A) (b : A)
      → Has b (map_where p f xs)
      → (a : A) × Has a xs × (b ≡ (if p a then f a else a))
  map_where-Has p f [] b m = absurd m
  map_where-Has p f (x ∷ xs) b (inl e) = (x, inl refl, e)
  map_where-Has p f (x ∷ xs) b (inr m) = let (a, n, e) = map_where-Has p f xs b m in (a, inr n, e)
