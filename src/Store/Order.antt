-- ===== src/Store/Order.antt =====
-- What `ORDER BY` and the conditions of a query do to the rows.
use mutsumi_s_sync.Common.{
  ℕ, ◌+◌, ◌≤◌, ◌≡◌, refl, Bool, List, [], ◌∷◌, arith, Bool-cases, inl, inr, if◌then◌else◌, filter,
  length, leb,
}
use mutsumi_s_sync.Store.Table.{order_by, insert_by}

module _ {R : Type 0} (key : R → ℕ) where
  -- A list of rows whose keys are at least `least` and ascend.
  abbrev pub Ascending : ℕ → List R → Type 0
  Ascending least [] = Unit
  Ascending least (r ∷ rs) = (least ≤ key r) × Ascending (key r) rs

  insert_by-Ascending :
      (least : ℕ) (r : R) (rs : List R)
      → least ≤ key r
      → Ascending least rs
      → Ascending least (insert_by key r rs)
  unfolding insert_by
  insert_by-Ascending least r [] le h = (le, tt)
  insert_by-Ascending least r (x ∷ xs) le h = elim (Bool-cases (leb (key r) (key x))) [
    | inl e ↦ rw e (le, (ground arith, h.1))
    | inr e ↦ rw e (h.0, insert_by-Ascending (key x) r xs (ground arith) h.1)
  ]

  pub order_by-Ascending : (rs : List R) → Ascending 0 (order_by key rs)
  unfolding order_by
  order_by-Ascending [] = tt
  order_by-Ascending (r ∷ rs) =
      insert_by-Ascending 0 r (order_by key rs) (omega arith) (order_by-Ascending rs)

  -- How many rows pass a test.
  abbrev pub count_rows : (R → Bool) → List R → ℕ
  count_rows test rs = length (filter test rs)

  count_rows-at :
      (test : R → Bool) (r : R) (rs : List R)
      → count_rows test (r ∷ rs) ≡ (if test r then 1 else 0) + count_rows test rs
  count_rows-at test r rs = ground arith

  count_rows-insert_by :
      (test : R → Bool) (r : R) (rs : List R)
      → count_rows test (insert_by key r rs) ≡ (if test r then 1 else 0) + count_rows test rs
  unfolding insert_by
  count_rows-insert_by test r [] = count_rows-at test r []
  count_rows-insert_by test r (x ∷ xs) = elim (Bool-cases (leb (key r) (key x))) [
    | inl e ↦ rw e (count_rows-at test r (x ∷ xs))
    | inr e ↦ rw e (
        omega (
          arith,
          count_rows-at test x xs,
          count_rows-at test x (insert_by key r xs),
          count_rows-insert_by test r xs,
        ))
  ]

  pub count_rows-order_by :
      (test : R → Bool) (rs : List R) → count_rows test (order_by key rs) ≡ count_rows test rs
  unfolding order_by
  count_rows-order_by test [] = refl
  count_rows-order_by test (r ∷ rs) = omega (
    arith,
    count_rows-insert_by test r (order_by key rs),
    count_rows-at test r rs,
    count_rows-order_by test rs,
  )
