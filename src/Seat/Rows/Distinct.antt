-- ===== src/Seat/Rows/Distinct.antt =====
-- Rows whose ids differ, and what a change of the row with one id does to them.
use seat_service.Common.{
  ℕ, suc, ◌≡◌, refl, sym, subst, ap, ◌∙◌, inl, inr, Bool, true, false, ◌&&◌, List, [], ◌∷◌, map,
  ◌==◌, if◌then◌else◌, any, count, map_where, Has, arith, ==_self, Bool-cases,
}
use seat_service.Database.{Seat}

abbrev pub HasDistinctIds : List Seat → Type 0
HasDistinctIds [] = Unit
HasDistinctIds (s ∷ ss) = (any (λ r. r.id == s.id) ss ≡ false) × HasDistinctIds ss

any-Has :
    (id : ℕ) (ss : List Seat) (r : Seat) → Has r ss → r.id ≡ id → any (λ s. s.id == id) ss ≡ true
any-Has id [] r m e = absurd m
any-Has id (s ∷ ss) r (inl p) e = ground (arith, ==_self id)
any-Has id (s ∷ ss) r (inr m) e = ground (arith, any-Has id ss r m)

pub eq_of_id :
    (ss : List Seat) (a b : Seat) → HasDistinctIds ss → Has a ss → Has b ss → a.id ≡ b.id → a ≡ b
eq_of_id [] a b d m n e = absurd m
eq_of_id (s ∷ ss) a b (d, ds) (inl p) (inl q) e = cc
eq_of_id (s ∷ ss) a b (d, ds) (inl p) (inr n) e = absurd (ground (arith, any-Has s.id ss b n))
eq_of_id (s ∷ ss) a b (d, ds) (inr m) (inl q) e = absurd (ground (arith, any-Has s.id ss a m))
eq_of_id (s ∷ ss) a b (d, ds) (inr m) (inr n) e = eq_of_id ss a b ds m n e

any-none :
    (p : Seat → Bool) (id : ℕ) (ss : List Seat)
    → any (λ s. s.id == id) ss ≡ false
    → any (λ s. p s && s.id == id) ss ≡ false
any-none p id [] h = refl
any-none p id (s ∷ ss) h = ground (arith, any-none p id ss)

-- A test of the one row with an id.
pub any-id :
    (p : Seat → Bool) (ss : List Seat) (r : Seat)
    → HasDistinctIds ss
    → Has r ss
    → any (λ s. p s && s.id == r.id) ss ≡ p r
any-id p [] r d m = absurd m
any-id p (s ∷ ss) r (d, ds) (inl e) =
    subst (λ u. any (λ x. p x && x.id == u.id) (s ∷ ss) ≡ p u) (sym e)
      (ground (arith, any-none p s.id ss, ==_self s.id))
any-id p (s ∷ ss) r (d, ds) (inr m) = ground (arith, any-id p ss r ds m, any-Has s.id ss r m)

pub map_ext :
    (f g : Seat → Seat) (ss : List Seat) → ((s : Seat) → Has s ss → f s ≡ g s) → map f ss ≡ map g ss
map_ext f g [] h = refl
map_ext f g (s ∷ ss) h = ground (arith, h s (inl refl), map_ext f g ss (λ r m. h r (inr m)))

pub map_where-map :
    (p : Seat → Bool) (f : Seat → Seat) (ss : List Seat)
    → map_where p f ss ≡ map (λ s. if p s then f s else s) ss
map_where-map p f [] = refl
map_where-map p f (s ∷ ss) = ground (arith, map_where-map p f ss)

pub map-map : (f g : Seat → Seat) (ss : List Seat) → map f (map g ss) ≡ map (λ s. f (g s)) ss
map-map f g [] = refl
map-map f g (s ∷ ss) = ground (arith, map-map f g ss)

-- A map that keeps the ids.
abbrev pub KeepsId : (Seat → Seat) → Type 0
KeepsId f = (s : Seat) → (f s).id ≡ s.id

any-map :
    (f : Seat → Seat) (id : ℕ) (ss : List Seat)
    → KeepsId f
    → any (λ s. s.id == id) (map f ss) ≡ any (λ s. s.id == id) ss
any-map f id [] k = refl
any-map f id (s ∷ ss) k = ground (arith, k s, any-map f id ss k)

pub HasDistinctIds-map :
    (f : Seat → Seat) (ss : List Seat) → KeepsId f → HasDistinctIds ss → HasDistinctIds (map f ss)
HasDistinctIds-map f [] k d = tt
HasDistinctIds-map f (s ∷ ss) k (d, ds) =
    (rw (k s) (any-map f s.id ss k ∙ d), HasDistinctIds-map f ss k ds)

pub Has-map : (f : Seat → Seat) (ss : List Seat) (s : Seat) → Has s ss → Has (f s) (map f ss)
Has-map f [] s m = absurd m
Has-map f (r ∷ ss) s (inl e) = inl (ap f e)
Has-map f (r ∷ ss) s (inr m) = inr (Has-map f ss s m)

pub map-Has :
    (f : Seat → Seat) (ss : List Seat) (r : Seat)
    → Has r (map f ss)
    → (s : Seat) × Has s ss × (r ≡ f s)
map-Has f [] r m = absurd m
map-Has f (s ∷ ss) r (inl e) = (s, inl refl, e)
map-Has f (s ∷ ss) r (inr m) = let (u, n, e) = map-Has f ss r m in (u, inr n, e)

pub Has-count :
    (p : Seat → Bool) (ss : List Seat) (n : ℕ)
    → count p ss ≡ suc n
    → (s : Seat) × Has s ss × (p s ≡ true)
Has-count p [] n h = absurd (omega arith)
Has-count p (s ∷ ss) n h = elim (Bool-cases (p s)) [
  | inl hit ↦ (s, inl refl, hit)
  | inr miss ↦ let (r, m, e) = Has-count p ss n (rw miss at h) in (r, inr m, e)
]

pub map_same : (f : Seat → Seat) (ss : List Seat) → ((s : Seat) → f s ≡ s) → map f ss ≡ ss
map_same f [] h = refl
map_same f (s ∷ ss) h = ground (arith, h s, map_same f ss h)
