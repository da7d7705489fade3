-- ===== src/Database/Keyed.antt =====
-- Rows with a key that no two of them share, and changes of the row with a key.
use seat_service.Common.{
  ℕ, suc, ◌≡◌, refl, sym, subst, ap, ◌∙◌, inl, inr, Bool, true, false, ◌&&◌, not, some, List, [],
  ◌∷◌, ◌==◌, any, count, map_where, Has, arith, ==_self, ==→eq, Bool-cases, Option-cases, All-Has,
  false≢true,
}
use seat_service.Database.Client.{Delegate, IsDelegate}

module _ {Row : Type 0} (key : Row → ℕ) where
  abbrev pub is_unique : List Row → Bool
  is_unique [] = true
  is_unique (r ∷ rs) = not (any (λ s. key s == key r) rs) && is_unique rs

  abbrev pub KeepsKey : (Row → Row) → Type 0
  KeepsKey f = (r : Row) → key (f r) ≡ key r

  -- The rows with a change of the row with a key.
  abbrev pub change : ℕ → (Row → Row) → List Row → List Row
  change k f rows = map_where (λ r. key r == k) f rows

  any-Has :
      (k : ℕ) (rows : List Row) (r : Row)
      → Has r rows
      → key r ≡ k
      → any (λ s. key s == k) rows ≡ true
  any-Has k [] r m e = absurd m
  any-Has k (s ∷ rows) r (inl p) e = ground (arith, ==_self k, ap key p)
  any-Has k (s ∷ rows) r (inr m) e = ground (arith, any-Has k rows r m)

  pub eq_of_key :
      (rows : List Row) (a b : Row)
      → is_unique rows ≡ true
      → Has a rows
      → Has b rows
      → key a ≡ key b
      → a ≡ b
  eq_of_key [] a b d m n e = absurd m
  eq_of_key (s ∷ rows) a b d (inl p) (inl q) e = p ∙ sym q
  eq_of_key (s ∷ rows) a b d (inl p) (inr n) e =
      absurd (ground (arith, any-Has (key s) rows b n, ap key p))
  eq_of_key (s ∷ rows) a b d (inr m) (inl q) e =
      absurd (ground (arith, any-Has (key s) rows a m, ap key q))
  eq_of_key (s ∷ rows) a b d (inr m) (inr n) e = eq_of_key rows a b (ground arith) m n e

  any-map_where :
      (p : Row → Bool) (f : Row → Row) (k : ℕ) (rows : List Row)
      → KeepsKey f
      → any (λ s. key s == k) (map_where p f rows) ≡ any (λ s. key s == k) rows
  any-map_where p f k [] keeps = refl
  any-map_where p f k (r ∷ rows) keeps = ground (arith, keeps r, any-map_where p f k rows keeps)

  pub is_unique-map_where :
      (p : Row → Bool) (f : Row → Row) (rows : List Row)
      → KeepsKey f
      → is_unique (map_where p f rows) ≡ is_unique rows
  is_unique-map_where p f [] keeps = refl
  is_unique-map_where p f (r ∷ rows) keeps = ground (
    arith,
    keeps r,
    any-map_where p f (key r) rows keeps,
    any-map_where p f (key (f r)) rows keeps,
    is_unique-map_where p f rows keeps,
  )

  -- A filter that only the row with the key of one row can pass.
  count_absent :
      (p : Row → Bool) (k : ℕ) (rows : List Row)
      → ((r : Row) → p r ≡ true → key r ≡ k)
      → any (λ s. key s == k) rows ≡ false
      → count p rows ≡ 0
  count_absent p k [] names h = refl
  count_absent p k (r ∷ rows) names h = ground (arith, names r, count_absent p k rows names)

  pub count_one :
      (p : Row → Bool) (rows : List Row) (c : Row)
      → ((r : Row) → p r ≡ true → key r ≡ key c)
      → is_unique rows ≡ true
      → Has c rows
      → p c ≡ true
      → count p rows ≡ 1
  count_one p [] c names d m hit = absurd m
  count_one p (r ∷ rows) c names d (inl e) hit =
      let hit' : p r ≡ true = subst (λ s. p s ≡ true) e hit in
      let k : key c ≡ key r = ap key e in
      rw hit' (ap suc (count_absent p (key r) rows (λ s h. names s h ∙ k) (ground arith)))
  count_one p (r ∷ rows) c names d (inr m) hit = elim (Bool-cases (p r)) [
    | inl there ↦ absurd (ground (arith, any-Has (key r) rows c m, names r there))
    | inr miss ↦ rw miss (count_one p rows c names (ground arith) m hit)
  ]

  pub map_where_ext :
      (p q : Row → Bool) (f : Row → Row) (rows : List Row)
      → ((r : Row) → Has r rows → p r ≡ q r)
      → map_where p f rows ≡ map_where q f rows
  map_where_ext p q f [] same = refl
  map_where_ext p q f (r ∷ rows) same =
      ground (arith, same r (inl refl), map_where_ext p q f rows (λ s m. same s (inr m)))

  pub Has-change :
      (k : ℕ) (f : Row → Row) (rows : List Row) (r : Row)
      → Has r rows
      → (key r == k) ≡ false
      → Has r (change k f rows)
  Has-change k f [] r m e = m
  Has-change k f (s ∷ rows) r (inl p) e = inl (rw (subst (λ (u : Row). (key u == k) ≡ false) p e) p)
  Has-change k f (s ∷ rows) r (inr m) e = inr (Has-change k f rows r m e)

  pub Has-change_self :
      (f : Row → Row) (rows : List Row) (r : Row) → Has r rows → Has (f r) (change (key r) f rows)
  Has-change_self f [] r m = m
  Has-change_self f (s ∷ rows) r (inl p) =
      inl (rw (subst (λ (u : Row). (key s == key u) ≡ true) (sym p) (==_self (key s))) (ap f p))
  Has-change_self f (s ∷ rows) r (inr m) = inr (Has-change_self f rows r m)

  module _ (t : Delegate Row) (law : IsDelegate is_unique t) where
    -- The row with a key is found.
    pub find_first-key :
        (rows : List Row) (c : Row)
        → is_unique rows ≡ true
        → Has c rows
        → t.find_first (λ r. key r == key c) rows ≡ some c
    find_first-key rows c d m = elim (Option-cases (t.find_first (λ r. key r == key c) rows)) [
      | inl absent ↦ absurd (
          differs (
            All-Has (λ r. (key r == key c) ≡ false) rows c
              (law.find_first_none (λ r. key r == key c) rows absent) m))
      | inr (r, found) ↦
          let (there, hit) = law.find_first_some (λ r. key r == key c) rows r found in
          found ∙ ap some (eq_of_key rows r c d there m (==→eq (key r) (key c) hit))
    ]
      where
        differs : (key c == key c) ≡ false → ⊥
        differs h = absurd (ground (arith, ==_self (key c)))

    -- A guarded update that only the row with a key can pass, and passes, changes that row.
    pub update_many-guarded :
        (p : Row → Bool) (f : Row → Row) (rows : List Row) (c : Row)
        → KeepsKey f
        → ((r : Row) → p r ≡ true → key r ≡ key c)
        → is_unique rows ≡ true
        → Has c rows
        → p c ≡ true
        → t.update_many p f rows ≡ some (change (key c) f rows, 1)
    update_many-guarded p f rows c keeps names d m hit =
        let counted = count_one p rows c names d m hit in
        let same : map_where p f rows ≡ change (key c) f rows =
          map_where_ext p (λ r. key r == key c) f rows (λ r n. agrees r n) in
        law.update_many_accepts p f rows (rw counted (omega arith))
          (is_unique-map_where p f rows keeps ∙ d)
        ∙ rw (counted, same) refl
      where
        agrees : (r : Row) → Has r rows → p r ≡ (key r == key c)
        agrees r n = elim (Bool-cases (p r)) [
          | inl passed ↦
              passed ∙ sym (subst (λ k. (key r == k) ≡ true) (names r passed) (==_self (key r)))
          | inr failed ↦ elim (Bool-cases (key r == key c)) [
            | inl same ↦
                let e : c ≡ r = eq_of_key rows c r d m n (sym (==→eq (key r) (key c) same)) in
                absurd (false≢true (sym failed ∙ subst (λ s. p s ≡ true) e hit))
            | inr other ↦ failed ∙ sym other
          ]
        ]

  pub change-change :
      (k : ℕ) (f g : Row → Row) (rows : List Row)
      → KeepsKey f
      → change k g (change k f rows) ≡ change k (λ r. g (f r)) rows
  change-change k f g [] keeps = refl
  change-change k f g (r ∷ rows) keeps = elim (Bool-cases (key r == k)) [
    | inl e ↦
        let e' : (key (f r) == k) ≡ true = subst (λ i. (i == k) ≡ true) (sym (keeps r)) e in
        rw (e, e') (ap (λ rs. g (f r) ∷ rs) (change-change k f g rows keeps))
    | inr e ↦ rw (e, e) (ap (λ rs. r ∷ rs) (change-change k f g rows keeps))
  ]

  pub change_ext :
      (k : ℕ) (f g : Row → Row) (rows : List Row)
      → ((r : Row) → Has r rows → key r ≡ k → f r ≡ g r)
      → change k f rows ≡ change k g rows
  change_ext k f g [] same = refl
  change_ext k f g (r ∷ rows) same =
      let ih = change_ext k f g rows (λ s m. same s (inr m)) in
      elim (Bool-cases (key r == k)) [
        | inl e ↦ rw (e, same r (inl refl) (==→eq (key r) k e), ih) refl
        | inr e ↦ rw (e, ih) refl
      ]
