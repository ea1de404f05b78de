-- ===== src/Tests/ArchiveTests.antt =====
-- The archive at four items.
use mutsumi_s_sync.Common.{ℕ, suc, ◌≡◌, ◌⊎◌, ◌≤◌, ◌<◌, refl, [], ◌∷◌, take, drop, arith}
use mutsumi_s_sync.Archive.{SlidingArchive, total, sum_sizes, pop_recyclable}
use mutsumi_s_sync.Archive.Cutoff.{pop_recyclable-least}

abbrev archive : SlidingArchive ℕ
archive = record { max_size = 9; min_size = 4; items = 5 ∷ 3 ∷ 2 ∷ 1 ∷ []; size_of = λ n. n }

pop-archive : pop_recyclable archive ≡ (5 ∷ 3 ∷ [], 2 ∷ 1 ∷ [])
unfolding pop_recyclable
pop-archive = refl

pop_recyclable-least_example :
    ((total archive ≤ 9) × (pop_recyclable archive ≡ ([], archive.items)))
    ⊎ ((n : ℕ) × (suc n ≤ 4)
        × (pop_recyclable archive ≡ (take (suc n) archive.items, drop (suc n) archive.items))
        × (sum_sizes archive.size_of (drop (suc n) archive.items) ≤ 4)
        × (4 < sum_sizes archive.size_of (drop n archive.items)))
pop_recyclable-least_example = pop_recyclable-least archive (omega arith)
