-- ===== src/Store/Table.antt =====
-- A table with an `AUTOINCREMENT` key: its rows in the order of the key, and the last key given.
-- Times are natural numbers of one unit; `now` is the clock of the database.
use mutsumi_s_sync.Common.{ℕ, ◌+◌, Bool, List, [], ◌∷◌, ◌++◌, map}
use mutsumi_s_sync.Common.{take, filter, leb, if◌then◌else◌}
use mathlib.Core.List.{reverse}

pub record Table (R : Type 0) : Type 0 where
  pub rows : List R
  pub last_id : ℕ

module _ {R : Type 0} where
  abbrev pub no_rows : Table R
  no_rows = record { rows = []; last_id = 0 }

  -- `INSERT`, of the row that the new key gives; the first part is `lastrowid`.
  abbrev pub insert : (ℕ → R) → Table R → ℕ × Table R
  insert row t =
      (t.last_id + 1, record { rows = t.rows ++ row (t.last_id + 1) ∷ []; last_id = t.last_id + 1 })

  -- `UPDATE … SET … WHERE test`
  abbrev pub update : (R → Bool) → (R → R) → Table R → Table R
  update test f t = record t { rows = map (λ r. if test r then f r else r) t.rows }

  -- `SELECT … WHERE test ORDER BY id DESC LIMIT limit`
  abbrev pub newest : (R → Bool) → ℕ → Table R → List R
  newest test limit t = take limit (reverse (filter test t.rows))

  unfoldable pub insert_by : (R → ℕ) → R → List R → List R
  insert_by key r [] = r ∷ []
  insert_by key r (x ∷ xs) =
      let rest = insert_by key r xs in if leb (key r) (key x) then r ∷ x ∷ xs else x ∷ rest

  -- `ORDER BY key ASC`; rows of one key stay in the order of the table.
  unfoldable pub order_by : (R → ℕ) → List R → List R
  unfolding insert_by
  order_by key [] = []
  order_by key (r ∷ rs) = insert_by key r (order_by key rs)
