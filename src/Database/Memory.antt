-- ===== src/Database/Memory.antt =====
-- A client over the list of rows, which shows that the client's laws can hold; tests run on it.
use seat_service.Common.{
  ℕ, ◌≤◌, ◌≡◌, refl, Bool, true, false, ◌&&◌, not, Option, none, some, List, [], ◌∷◌, All, Has, any,
  count, filter, find?, map_where, leb, if◌then◌else◌, arith, inl, inr, Option-cases, subst,
  filter-Has,
}
use seat_service.Database.Client.{Delegate, IsDelegate}

module _ {Row : Type 0} where
  older : (Row → ℕ) → Row → Option Row → Row
  older key r none = r
  older key r (some s) = if leb (key r) (key s) then r else s

  unfoldable pub oldest : (Row → ℕ) → (Row → Bool) → List Row → Option Row
  unfolding older
  oldest key p [] = none
  oldest key p (r ∷ rows) =
      if p r then some (older key r (oldest key p rows)) else oldest key p rows

  newer : (Row → ℕ) → Row → Option Row → Row
  newer key r none = r
  newer key r (some s) = if leb (key s) (key r) then r else s

  unfoldable pub newest : (Row → ℕ) → (Row → Bool) → List Row → Option Row
  unfolding newer
  newest key p [] = none
  newest key p (r ∷ rows) =
      if p r then some (newer key r (newest key p rows)) else newest key p rows

  unfoldable pub greatest : (Row → ℕ) → Option Row → Option ℕ
  greatest key none = none
  greatest key (some r) = some (key r)

  unfoldable pub accept : (List Row → Bool) → List Row → Option (List Row)
  accept fits rows = if fits rows then some rows else none

  unfoldable pub accept_count : (List Row → Bool) → List Row → ℕ → Option (List Row × ℕ)
  accept_count fits rows n = if fits rows then some (rows, n) else none

  unfoldable pub in_memory : (List Row → Bool) → Delegate Row
  unfolding oldest newest greatest accept accept_count
  in_memory fits = record {
    find_first = find?;
    find_first_by = oldest;
    find_last_by = newest;
    find_many = filter;
    count_rows = count;
    max_by = λ key p rows. greatest key (newest key p rows);
    create = λ r rows. accept fits (r ∷ rows);
    update_many = λ p f rows. accept_count fits (map_where p f rows) (count p rows);
    delete_many = λ p rows. filter (λ r. not (p r)) rows;
  }

  find?-some :
      (p : Row → Bool) (rows : List Row) (r : Row)
      → find? p rows ≡ some r
      → Has r rows × (p r ≡ true)
  find?-some p [] r h = cc
  find?-some p (s ∷ rows) r h = ground (arith, find?-some p rows r)

  find?-none :
      (p : Row → Bool) (rows : List Row) → find? p rows ≡ none → All (λ r. p r ≡ false) rows
  find?-none p [] h = tt
  find?-none p (s ∷ rows) h = ground (arith, find?-none p rows)

  any-filter :
      (p q : Row → Bool) (rows : List Row) → any q (filter p rows) ≡ any (λ r. p r && q r) rows
  any-filter p q [] = refl
  any-filter p q (r ∷ rows) = ground (arith, any-filter p q rows)

  oldest-none :
      (key : Row → ℕ) (p : Row → Bool) (rows : List Row)
      → oldest key p rows ≡ none
      → All (λ r. p r ≡ false) rows
  unfolding oldest
  oldest-none key p [] h = tt
  oldest-none key p (s ∷ rows) h = ground (arith, oldest-none key p rows)

  abbrev IsOldest : (Row → ℕ) → (Row → Bool) → List Row → Row → Type 0
  IsOldest key p rows r = Has r rows × (p r ≡ true) × All (λ s. p s ≡ true → key r ≤ key s) rows

  All-later :
      (key : Row → ℕ) (p : Row → Bool) (rows : List Row) (r s : Row)
      → key r ≤ key s
      → All (λ u. p u ≡ true → key s ≤ key u) rows
      → All (λ u. p u ≡ true → key r ≤ key u) rows
  All-later key p [] r s h k = tt
  All-later key p (u ∷ rows) r s h (q, k) =
      ((λ e. omega (arith, q e)), All-later key p rows r s h k)

  All-missed :
      (key : Row → ℕ) (p : Row → Bool) (rows : List Row) (r : Row)
      → All (λ u. p u ≡ false) rows
      → All (λ u. p u ≡ true → key r ≤ key u) rows
  All-missed key p [] r k = tt
  All-missed key p (u ∷ rows) r (q, k) = ((λ e. absurd (cc)), All-missed key p rows r k)

  oldest-some :
      (key : Row → ℕ) (p : Row → Bool) (rows : List Row) (r : Row)
      → oldest key p rows ≡ some r
      → IsOldest key p rows r
  unfolding oldest older
  oldest-some key p [] r h = cc
  oldest-some key p (s ∷ rows) r h = elim (Option-cases (oldest key p rows)) [
    | inl missed ↦
        let late = oldest-none key p rows missed in
        ground (arith, All-missed key p rows s late, All-missed key p rows r late)
    | inr (u, found) ↦
        let ih = oldest-some key p rows u found in
        ground (arith, ih, All-later key p rows s u, All-later key p rows r u)
  ]

  newest-none :
      (key : Row → ℕ) (p : Row → Bool) (rows : List Row)
      → newest key p rows ≡ none
      → All (λ r. p r ≡ false) rows
  unfolding newest
  newest-none key p [] h = tt
  newest-none key p (s ∷ rows) h = ground (arith, newest-none key p rows)

  abbrev IsNewest : (Row → ℕ) → (Row → Bool) → List Row → Row → Type 0
  IsNewest key p rows r = Has r rows × (p r ≡ true) × All (λ s. p s ≡ true → key s ≤ key r) rows

  All-earlier :
      (key : Row → ℕ) (p : Row → Bool) (rows : List Row) (r s : Row)
      → key s ≤ key r
      → All (λ u. p u ≡ true → key u ≤ key s) rows
      → All (λ u. p u ≡ true → key u ≤ key r) rows
  All-earlier key p [] r s h k = tt
  All-earlier key p (u ∷ rows) r s h (q, k) =
      ((λ e. omega (arith, q e)), All-earlier key p rows r s h k)

  All-none :
      (key : Row → ℕ) (p : Row → Bool) (rows : List Row) (r : Row)
      → All (λ u. p u ≡ false) rows
      → All (λ u. p u ≡ true → key u ≤ key r) rows
  All-none key p [] r k = tt
  All-none key p (u ∷ rows) r (q, k) = ((λ e. absurd (cc)), All-none key p rows r k)

  newest-some :
      (key : Row → ℕ) (p : Row → Bool) (rows : List Row) (r : Row)
      → newest key p rows ≡ some r
      → IsNewest key p rows r
  unfolding newest newer
  newest-some key p [] r h = cc
  newest-some key p (s ∷ rows) r h = elim (Option-cases (newest key p rows)) [
    | inl missed ↦
        let early = newest-none key p rows missed in
        ground (arith, All-none key p rows s early, All-none key p rows r early)
    | inr (u, found) ↦
        let ih = newest-some key p rows u found in
        ground (arith, ih, All-earlier key p rows s u, All-earlier key p rows r u)
  ]

  greatest-some :
      (key : Row → ℕ) (p : Row → Bool) (rows : List Row) (n : ℕ)
      → greatest key (newest key p rows) ≡ some n
      → All (λ s. p s ≡ true → key s ≤ n) rows
  unfolding greatest
  greatest-some key p rows n h = elim (Option-cases (newest key p rows)) [
    | inl missed ↦ absurd (no_value (rw missed at h))
    | inr (u, found) ↦
        subst (λ m. All (λ s. p s ≡ true → key s ≤ m) rows) (value (rw found at h))
          (newest-some key p rows u found).2
  ]
    where
      no_value : none ≡ some n → ⊥
      no_value e = cc

      value : {m : ℕ} → some m ≡ some n → m ≡ n
      value e = cc

  greatest-Has :
      (key : Row → ℕ) (p : Row → Bool) (rows : List Row) (n : ℕ)
      → greatest key (newest key p rows) ≡ some n
      → (r : Row) × Has r rows × (p r ≡ true) × (key r ≡ n)
  unfolding greatest
  greatest-Has key p rows n h = elim (Option-cases (newest key p rows)) [
    | inl missed ↦ absurd (no_value (rw missed at h))
    | inr (u, found) ↦
        let (there, hit, _) = newest-some key p rows u found in
        (u, there, hit, value (rw found at h))
  ]
    where
      no_value : none ≡ some n → ⊥
      no_value e = cc

      value : {m : ℕ} → some m ≡ some n → m ≡ n
      value e = cc

  greatest-none :
      (key : Row → ℕ) (p : Row → Bool) (rows : List Row)
      → greatest key (newest key p rows) ≡ none
      → All (λ r. p r ≡ false) rows
  unfolding greatest
  greatest-none key p rows h = elim (Option-cases (newest key p rows)) [
    | inl missed ↦ newest-none key p rows missed
    | inr (u, found) ↦ absurd (no_value (rw found at h))
  ]
    where
      no_value : {m : ℕ} → some m ≡ none → ⊥
      no_value e = cc

  pub in_memory-IsDelegate : (fits : List Row → Bool) → IsDelegate fits (in_memory fits)
  unfolding in_memory
  in_memory-IsDelegate fits = record {
    find_first_some = find?-some;
    find_first_none = find?-none;
    find_first_by_some = oldest-some;
    find_first_by_none = oldest-none;
    find_last_by_some = newest-some;
    find_last_by_none = newest-none;
    max_by_some = greatest-some;
    max_by_Has = greatest-Has;
    max_by_none = greatest-none;
    find_many_Has = filter-Has;
    find_many_any = any-filter;
    count_rows_eq = λ p rows. refl;
    create_some = λ r rows rows' h. ground arith;
    update_many_some = λ p f rows rows' n h. ground arith;
    update_many_accepts = λ p f rows one h. ground arith;
    delete_many_eq = λ p rows. refl;
  }
