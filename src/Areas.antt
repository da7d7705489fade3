-- ===== src/Areas.antt =====
-- Sections and tables: what src/section/services/section-write.service.ts and
-- src/table/services/table-write.service.ts share, and src/utils/auto-order.ts. The index of
-- orders starts at 1; orders are not negative.
pub mod Names
pub mod Sections
pub mod Tables
mod Tests
use seat_service.Common.{
  ℕ, suc, ◌+◌, Bool, true, false, ◌&&◌, ◌||◌, Option, none, some, List, String, ◌==◌, ltb, leb,
  get_or, if◌then◌else◌,
}
use Prim.Native.String.{◌++◌}
use Prim.Native.Char.{code}
use seat_service.Errors.{write_refused}
use seat_service.Action.{Action, ok, ◌>>=◌, ◌>>◌, throw, gets, require}
use seat_service.Database.{Db}
use seat_service.Database.Client.{Delegate}

-- White space and line ends of the language.
abbrev is_space : ℕ → Bool
is_space c =
    leb 9 c && leb c 13
    || c == 32
    || c == 160
    || c == 5760
    || leb 8192 c && leb c 8202
    || c == 8232
    || c == 8233
    || c == 8239
    || c == 8287
    || c == 12288
    || c == 65279

trim_start : String → String
trim_start String.[] = String.[]
trim_start (String.◌∷◌ c s) = if is_space (code c) then trim_start s else String.◌∷◌ c s

keep : Bool → String → String → String
keep true String.[] s = String.[]
keep true (String.◌∷◌ c rest) s = s
keep false rest s = s

trim_end : String → String
trim_end String.[] = String.[]
trim_end (String.◌∷◌ c s) = keep (is_space (code c)) (trim_end s) (String.◌∷◌ c (trim_end s))

-- `trim` of a text
unfoldable pub trim : String → String
unfolding trim_start trim_end keep
trim s = trim_start (trim_end s)

-- `(max._max.order ?? 0) + 1`
abbrev pub next_order : Option ℕ → ℕ
next_order max = get_or max 0 + 1

abbrev pub conflict_message : String → String → String
conflict_message kind name = kind ++ " \"" ++ name ++ "\" already exists"

-- The calls on one table of the database.
module _ {Row : Type 0} (rows_of : Db → List Row) (set_rows : List Row → Db → Db) (id_of : Row → ℕ)
    (t : Delegate Row) where
  unfoldable pub find_row : ℕ → Action Db (Option Row)
  find_row id = gets λ db. t.find_first (λ r. id_of r == id) (rows_of db)

  put_new : Option (List Row) → Action Db Unit
  put_new none = throw write_refused
  put_new (some rows) = λ db. (ok tt, set_rows rows db)

  unfoldable pub create_row : Row → Action Db Unit
  unfolding put_new
  create_row row = λ db. put_new (t.create row (rows_of db)) db

  put_changed : Option (List Row × ℕ) → Action Db Unit
  put_changed none = throw write_refused
  put_changed (some (rows, n)) = λ db. (ok tt, set_rows rows db)

  -- `update`, which throws where there is no row, and returns the row
  unfoldable pub update_row : ℕ → (Row → Row) → Action Db Row
  unfolding put_changed find_row
  update_row id change = do
    λ db. put_changed (t.update_many (λ r. id_of r == id) change (rows_of db)) db
    found ← find_row id
    require found write_refused
