-- ===== src/Archive/Cutoff.antt =====
-- What `pop_recyclable` gives away and what it keeps.
use mutsumi_s_sync.Common.{
  ℕ, suc, ◌+◌, ◌-◌, ◌≤◌, ◌<◌, ◌≡◌, false, some, ◌⊎◌, inl, inr, List, [], ◌∷◌, ◌++◌, arith, ltb, leb,
  Bool-cases,
}
use mutsumi_s_sync.Common.{length, take, drop, take-append-drop}
use mutsumi_s_sync.Archive.{
  SlidingArchive, sum_sizes, total, cutoff_from, find_cutoff, pop_recyclable,
}

module _ {T : Type 0} (a : SlidingArchive T) where
  -- From the state after `i` items: the first cutoff whose rest fits, counted from `i`.
  record IsFirstCutoff (items : List T) (i k : ℕ) : Type 0 where
    count : ℕ
    place : k ≡ i + suc count
    inside : suc count ≤ length items
    fits : sum_sizes a.size_of (drop (suc count) items) ≤ a.min_size
    needed : a.min_size < sum_sizes a.size_of (drop count items)

  cutoff_from-first :
      (t acc i : ℕ) (items : List T)
      → t ≡ acc + sum_sizes a.size_of items
      → a.min_size < sum_sizes a.size_of items
      → (k : ℕ) × (cutoff_from a t acc i items ≡ some k) × IsFirstCutoff items i k
  unfolding cutoff_from
  cutoff_from-first t acc i [] h over = absurd (omega arith)
  cutoff_from-first t acc i (item ∷ rest) h over =
      elim (Bool-cases (leb (t - (acc + a.size_of item)) a.min_size)) [
        | inl e ↦ (
          i + 1,
          rw e,
          record {
            count = 0;
            place = omega arith;
            inside = omega arith;
            fits = ground arith;
            needed = over;
          },
        )
        | inr e ↦
            let (k, found, f) =
              cutoff_from-first t (acc + a.size_of item) (suc i) rest (omega arith)
                (ground arith) in
            (
              k,
              rw e found,
              record {
                count = suc f.count;
                place = omega (arith, f.place);
                inside = omega (arith, f.inside);
                fits = f.fits;
                needed = f.needed;
              },
            )
      ]

  -- What is given away and what is kept are the items, in their order: nothing is lost or doubled.
  pub pop_recyclable-partition : (pop_recyclable a).0 ++ (pop_recyclable a).1 ≡ a.items
  unfolding pop_recyclable
  pop_recyclable-partition = elim (Bool-cases (ltb a.max_size (total a))) [
    | inl e ↦ rw e (take-append-drop (find_cutoff a) a.items)
    | inr e ↦ rw e
  ]

  -- With a minimum at most the maximum: over the maximum, as few items as possible are given away
  -- from the front so that the rest fits into the minimum; within the maximum, nothing is.
  pub pop_recyclable-least :
      a.min_size ≤ a.max_size
      → ((total a ≤ a.max_size) × (pop_recyclable a ≡ ([], a.items)))
        ⊎ ((n : ℕ) × (suc n ≤ length a.items)
            × (pop_recyclable a ≡ (take (suc n) a.items, drop (suc n) a.items))
            × (sum_sizes a.size_of (drop (suc n) a.items) ≤ a.min_size)
            × (a.min_size < sum_sizes a.size_of (drop n a.items)))
  unfolding pop_recyclable find_cutoff
  pop_recyclable-least le = elim (Bool-cases (ltb a.max_size (total a))) [
    | inr e ↦ inl (ground arith, rw e)
    | inl e ↦
        let (k, found, f) = cutoff_from-first (total a) 0 0 a.items (omega arith) (ground arith) in
        let over : leb (total a) a.max_size ≡ false = ground arith in
        let k-eq : k ≡ suc f.count = omega (arith, f.place) in
        inr (f.count, f.inside, rw (e, over, found, k-eq), f.fits, f.needed)
  ]
