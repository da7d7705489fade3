-- ===== src/Database/Client.antt =====
-- What the services use of the Prisma client on a table. The client is no code of this repository,
-- so it is a parameter: functions on the rows of a table, with what its documentation says of them.
use seat_service.Common.{
  ℕ, ◌≤◌, ◌≡◌, Bool, true, false, ◌&&◌, Option, none, some, List, ◌∷◌, All, Has, any, count, filter,
  map_where, not,
}

-- `none` where the result is a list of rows: the database refuses the write.
pub record Delegate (Row : Type 0) : Type 0 where
  pub find_first : (Row → Bool) → List Row → Option Row
  -- `orderBy` one column, `asc`
  pub find_first_by : (Row → ℕ) → (Row → Bool) → List Row → Option Row
  -- `orderBy` one column, `desc`
  pub find_last_by : (Row → ℕ) → (Row → Bool) → List Row → Option Row
  pub find_many : (Row → Bool) → List Row → List Row
  -- `count`
  pub count_rows : (Row → Bool) → List Row → ℕ
  -- `aggregate` with the `_max` of one column
  pub max_by : (Row → ℕ) → (Row → Bool) → List Row → Option ℕ
  pub create : Row → List Row → Option (List Row)
  pub update_many : (Row → Bool) → (Row → Row) → List Row → Option (List Row × ℕ)
  pub delete_many : (Row → Bool) → List Row → List Row

pub record IsDelegate {Row : Type 0} (fits : List Row → Bool) (t : Delegate Row) : Type 0 where
  pub find_first_some :
      (p : Row → Bool) (rows : List Row) (r : Row)
      → t.find_first p rows ≡ some r
      → Has r rows × (p r ≡ true)
  pub find_first_none :
      (p : Row → Bool) (rows : List Row) → t.find_first p rows ≡ none → All (λ r. p r ≡ false) rows
  pub find_first_by_some :
      (key : Row → ℕ) (p : Row → Bool) (rows : List Row) (r : Row)
      → t.find_first_by key p rows ≡ some r
      → Has r rows × (p r ≡ true) × All (λ s. p s ≡ true → key r ≤ key s) rows
  pub find_first_by_none :
      (key : Row → ℕ) (p : Row → Bool) (rows : List Row)
      → t.find_first_by key p rows ≡ none
      → All (λ r. p r ≡ false) rows
  pub find_last_by_some :
      (key : Row → ℕ) (p : Row → Bool) (rows : List Row) (r : Row)
      → t.find_last_by key p rows ≡ some r
      → Has r rows × (p r ≡ true) × All (λ s. p s ≡ true → key s ≤ key r) rows
  pub find_last_by_none :
      (key : Row → ℕ) (p : Row → Bool) (rows : List Row)
      → t.find_last_by key p rows ≡ none
      → All (λ r. p r ≡ false) rows
  pub max_by_some :
      (key : Row → ℕ) (p : Row → Bool) (rows : List Row) (n : ℕ)
      → t.max_by key p rows ≡ some n
      → All (λ s. p s ≡ true → key s ≤ n) rows
  pub max_by_Has :
      (key : Row → ℕ) (p : Row → Bool) (rows : List Row) (n : ℕ)
      → t.max_by key p rows ≡ some n
      → (r : Row) × Has r rows × (p r ≡ true) × (key r ≡ n)
  pub max_by_none :
      (key : Row → ℕ) (p : Row → Bool) (rows : List Row)
      → t.max_by key p rows ≡ none
      → All (λ r. p r ≡ false) rows
  pub find_many_Has :
      (p : Row → Bool) (rows : List Row) (r : Row)
      → Has r (t.find_many p rows)
      → Has r rows × (p r ≡ true)
  -- the rows that pass the filter, and no others
  pub find_many_any :
      (p q : Row → Bool) (rows : List Row) → any q (t.find_many p rows) ≡ any (λ r. p r && q r) rows
  pub count_rows_eq : (p : Row → Bool) (rows : List Row) → t.count_rows p rows ≡ count p rows
  pub create_some :
      (r : Row) (rows rows' : List Row) → t.create r rows ≡ some rows' → rows' ≡ r ∷ rows
  -- every row that passes the filter is rewritten, and the count is theirs
  pub update_many_some :
      (p : Row → Bool) (f : Row → Row) (rows rows' : List Row) (n : ℕ)
      → t.update_many p f rows ≡ some (rows', n)
      → (rows' ≡ map_where p f rows) × (n ≡ count p rows)
  -- an update of one row is refused only for the constraints of the schema
  pub update_many_accepts :
      (p : Row → Bool) (f : Row → Row) (rows : List Row)
      → count p rows ≤ 1
      → fits (map_where p f rows) ≡ true
      → t.update_many p f rows ≡ some (map_where p f rows, count p rows)
  pub delete_many_eq :
      (p : Row → Bool) (rows : List Row) → t.delete_many p rows ≡ filter (λ r. not (p r)) rows
