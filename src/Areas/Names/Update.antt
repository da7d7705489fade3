-- ===== src/Areas/Names/Update.antt =====
-- What the update of a row does to the database.
use seat_service.Common.{
  ℕ, ◌≡◌, refl, sym, subst, ap, ◌∙◌, Bool, ◌⊎◌, inl, inr, Option, none, some, List, ◌∷◌, map_where,
  ◌==◌,
}
use seat_service.Action.{
  Result, Action, ok, err, and_then, and_then-ok, and_then-view, require, require-ok, ◌>>=◌,
}
use seat_service.Errors.{Error, write_refused}
use seat_service.Database.{Db}
use seat_service.Database.Client.{Delegate, IsDelegate}
use seat_service.Areas.{find_row, put_changed, update_row, put_new, create_row}

-- What an action is followed by, which keeps a property.
pub and_then-keeps :
    {S A B : Type 0} (P : S → Type 0) (r : Result A × S) (f : A → Action S B)
    → P r.1
    → ((a : A) (s : S) → P s → P (f a s).1)
    → P (and_then r f).1
unfolding and_then
and_then-keeps P (ok a, s) f p h = h a s p
and_then-keeps P (err e, s) f p h = p

pub require-state : {S A : Type 0} (o : Option A) (e : Error) (s : S) → (require o e s).1 ≡ s
require-state none e s = refl
require-state (some a) e s = refl

module _ {Row : Type 0} (rows_of : Db → List Row) (set_rows : List Row → Db → Db) (id_of : Row → ℕ)
    (t : Delegate Row) (accepts : List Row → Bool) (law : IsDelegate accepts t) where
  abbrev changed : ℕ → (Row → Row) → Db → Db
  changed id change db = set_rows (map_where (λ r. id_of r == id) change (rows_of db)) db

  put_changed-state :
      (o : Option (List Row × ℕ)) (db : Db)
      → ((put_changed rows_of set_rows id_of t o db).1 ≡ db)
        ⊎ ((rows : List Row) × (n : ℕ) × (o ≡ some (rows, n))
            × ((put_changed rows_of set_rows id_of t o db).1 ≡ set_rows rows db))
  unfolding put_changed
  put_changed-state none db = inl refl
  put_changed-state (some (rows, n)) db = inr (rows, n, refl, refl)

  pub update_row-state :
      (id : ℕ) (change : Row → Row) (db : Db)
      → ((update_row rows_of set_rows id_of t id change db).1 ≡ db)
        ⊎ ((update_row rows_of set_rows id_of t id change db).1 ≡ changed id change db)
  unfolding update_row find_row and_then
  update_row-state id change db =
      let o = t.update_many (λ r. id_of r == id) change (rows_of db) in
      let same =
        and_then-view (λ (s : Db). s) (put_changed rows_of set_rows id_of t o db)
          (λ u. find_row rows_of set_rows id_of t id >>= λ found. require found write_refused)
          (λ u s. require-state (t.find_first (λ r. id_of r == id) (rows_of s)) write_refused s) in
      elim (put_changed-state o db) [
        | inl idle ↦ inl (same ∙ idle)
        | inr (rows, n, made, moved) ↦
            let (e, _) =
              law.update_many_some (λ r. id_of r == id) change (rows_of db) rows n made in
            inr (same ∙ moved ∙ ap (λ rows. set_rows rows db) e)
      ]

  put_changed-ok :
      (o : Option (List Row × ℕ)) (db db' : Db) {u : Unit {0}}
      → put_changed rows_of set_rows id_of t o db ≡ (ok u, db')
      → (rows : List Row) × (n : ℕ) × (o ≡ some (rows, n)) × (db' ≡ set_rows rows db)
  unfolding put_changed
  put_changed-ok none db db' h = cc
  put_changed-ok (some (rows, n)) db db' h = (rows, n, refl, sym (ap (λ x. x.1) h))

  put_new-ok :
      (o : Option (List Row)) (db db' : Db) {u : Unit {0}}
      → put_new rows_of set_rows id_of t o db ≡ (ok u, db')
      → (rows : List Row) × (o ≡ some rows) × (db' ≡ set_rows rows db)
  unfolding put_new
  put_new-ok none db db' h = cc
  put_new-ok (some rows) db db' h = (rows, refl, sym (ap (λ x. x.1) h))

  -- A row that is created.
  pub create_row-ok :
      (row : Row) (db db' : Db) {u : Unit {0}}
      → create_row rows_of set_rows id_of t row db ≡ (ok u, db')
      → db' ≡ set_rows (row ∷ rows_of db) db
  unfolding create_row
  create_row-ok row db db' h =
      let (rows, made, e) = put_new-ok (t.create row (rows_of db)) db db' h in
      e ∙ ap (λ rows. set_rows rows db) (law.create_some row (rows_of db) rows made)

  pub find_row-ok :
      (id : ℕ) (db db' : Db) (r : Row) (e : Error)
      → and_then (find_row rows_of set_rows id_of t id db) (λ found. require found e) ≡ (ok r, db')
      → (t.find_first (λ r. id_of r == id) (rows_of db) ≡ some r) × (db' ≡ db)
  unfolding find_row and_then
  find_row-ok id db db' r e h = require-ok (t.find_first (λ r. id_of r == id) (rows_of db)) _ h

  -- An update that returns.
  pub update_row-ok :
      (id : ℕ) (change : Row → Row) (db db' : Db) (r : Row)
      → update_row rows_of set_rows id_of t id change db ≡ (ok r, db')
      → (db' ≡ changed id change db) × (t.find_first (λ r. id_of r == id) (rows_of db') ≡ some r)
  unfolding update_row find_row
  update_row-ok id change db db' r h =
      let o = t.update_many (λ r. id_of r == id) change (rows_of db) in
      let (u, m, h1, h2) =
        and_then-ok (put_changed rows_of set_rows id_of t o db)
          (λ u. find_row rows_of set_rows id_of t id >>= λ found. require found write_refused) h in
      let (rows, n, made, moved) = put_changed-ok o db m h1 in
      let (found, same) = find_row-ok id m db' r write_refused h2 in
      let (e, _) = law.update_many_some (λ r. id_of r == id) change (rows_of db) rows n made in
      (
        same ∙ moved ∙ ap (λ rows. set_rows rows db) e,
        subst (λ (m : Db). t.find_first (λ r. id_of r == id) (rows_of m) ≡ some r) (sym same) found,
      )
