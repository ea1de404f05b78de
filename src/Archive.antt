-- ===== src/Archive.antt =====
-- The size-bounded archive (archive/v3/src/mutsumi_sync/memory/archive.py). Its sizes are floats in
-- the source and natural numbers here, so sums are exact.
pub mod Cutoff
use Prim.Native.Nat.{max}
use mutsumi_s_sync.Common.{
  ℕ, suc, ◌+◌, ◌-◌, ◌/◌, Bool, not, Option, none, some, List, [], ◌∷◌, ◌++◌,
}
use mutsumi_s_sync.Common.{length, take, drop, ltb, leb, if◌then◌else◌}

pub record SlidingArchive (T : Type 0) : Type 0 where
  pub max_size : ℕ
  pub min_size : ℕ
  pub items : List T
  pub size_of : T → ℕ

module _ {T : Type 0} where
  abbrev pub sum_sizes : (T → ℕ) → List T → ℕ
  sum_sizes size_of [] = 0
  sum_sizes size_of (it ∷ items) = size_of it + sum_sizes size_of items

  abbrev pub total : SlidingArchive T → ℕ
  total a = sum_sizes a.size_of a.items

  abbrev pub needs_recycle : SlidingArchive T → Bool
  needs_recycle a = ltb a.max_size (total a)

  pub add : T → SlidingArchive T → SlidingArchive T
  add item a = record a { items = a.items ++ item ∷ [] }

  pub extend : List T → SlidingArchive T → SlidingArchive T
  extend items a = record a { items = a.items ++ items }

  -- The `for` loop of `find_cutoff`: `t` is the total, `acc` the size of what stands before `i`.
  cutoff_from : SlidingArchive T → ℕ → ℕ → ℕ → List T → Option ℕ
  cutoff_from a t acc i [] = none
  cutoff_from a t acc i (item ∷ rest) =
      let acc' = acc + a.size_of item in
      let later = cutoff_from a t acc' (suc i) rest in
      if leb (t - acc') a.min_size then some (i + 1) else later

  find_cutoff : SlidingArchive T → ℕ
  unfolding cutoff_from
  find_cutoff a =
      if leb (total a) a.max_size then 0 else elim (cutoff_from a (total a) 0 0 a.items) [
        | some cutoff ↦ cutoff
        | none ↦ max 1 (length a.items / 2)
      ]

  unfoldable pub pop_recyclable : SlidingArchive T → List T × List T
  unfolding find_cutoff
  pop_recyclable a =
      if not (needs_recycle a)
      then ([], a.items)
      else (take (find_cutoff a) a.items, drop (find_cutoff a) a.items)

  pub commit : List T → SlidingArchive T → SlidingArchive T
  commit kept a = record a { items = kept }
