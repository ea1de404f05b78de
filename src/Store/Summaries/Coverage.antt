-- ===== src/Store/Summaries/Coverage.antt =====
-- The numbering of the summaries, and the boundary that a restart begins from.
use mutsumi_s_sync.Common.{
  ℕ, ◌+◌, ◌≤◌, ◌<◌, ◌≡◌, refl, subst, ◌⊎◌, inl, inr, Option, none, some, List, [], ◌∷◌, ◌++◌, arith,
  Bool-cases, Option-cases, filter, All, Any, leb,
}
use mutsumi_s_sync.Common.{Text}
use mutsumi_s_sync.Store.Summaries.{
  Summary, Summaries, of_group, max_seq, summary_row, add_summary, covered_or_zero, is_boundary,
  greatest, get_newest_compaction_summary,
}

max_seq-bounds : (rs : List Summary) → All (λ r. r.seq ≤ max_seq rs) rs
unfolding max_seq
max_seq-bounds [] = tt
max_seq-bounds (r ∷ rs) = (ground arith, raised (max_seq rs) rs (max_seq-bounds rs) (ground arith))
  where
    raised :
        (m : ℕ) (xs : List Summary)
        → All (λ x. x.seq ≤ m) xs
        → m ≤ max_seq (r ∷ rs)
        → All (λ x. x.seq ≤ max_seq (r ∷ rs)) xs
    raised m [] h le = tt
    raised m (x ∷ xs) h le = (omega (arith, h.0, le), raised m xs h.1 le)

-- A summary that is added goes to the end of the table, under a number of its group that is above
-- all those the group has.
pub add_summary_lem :
    (now : ℕ) (group_key source summary : Text) (last : ℕ) (kind : Text) (covered : Option ℕ)
    (t : Summaries)
    → let (id, after) = add_summary now group_key source summary last kind covered t in
      (seq : ℕ) × (after.rows
        ≡ t.rows ++ summary_row now group_key source summary last kind covered seq id ∷ [])
      × All (λ r. r.seq < seq) (of_group group_key t)
unfolding add_summary
add_summary_lem now group_key source summary last kind covered t = (
  max_seq (of_group group_key t) + 1,
  refl,
  below (of_group group_key t) (max_seq-bounds (of_group group_key t)),
)
  where
    below :
        (rs : List Summary)
        → All (λ r. r.seq ≤ max_seq (of_group group_key t)) rs
        → All (λ r. r.seq < max_seq (of_group group_key t) + 1) rs
    below [] h = tt
    below (r ∷ rs) h = (omega (arith, h.0), below rs h.1)

-- `top` is one of the rows, and none covers more.
abbrev pub IsGreatest : Summary → List Summary → Type 0
IsGreatest top rs = Any (λ r. r ≡ top) rs × All (λ r. covered_or_zero r ≤ covered_or_zero top) rs

greatest-none : (rs : List Summary) → greatest rs ≡ none → rs ≡ []
unfolding greatest
greatest-none [] h = refl
greatest-none (r ∷ rs) h = absurd (ground arith)

All-raise :
    (low high : Summary) (rs : List Summary)
    → covered_or_zero low ≤ covered_or_zero high
    → All (λ r. covered_or_zero r ≤ covered_or_zero low) rs
    → All (λ r. covered_or_zero r ≤ covered_or_zero high) rs
All-raise low high [] le h = tt
All-raise low high (r ∷ rs) le h = (omega (arith, h.0, le), All-raise low high rs le h.1)

greatest-IsGreatest :
    (rs : List Summary) (top : Summary) → greatest rs ≡ some top → IsGreatest top rs
unfolding greatest
greatest-IsGreatest [] top h = absurd cc
greatest-IsGreatest (r ∷ rs) top h = elim (Option-cases (greatest rs)) [
  | inl e ↦
      let only : rs ≡ [] = greatest-none rs e in
      let same : r ≡ top = ground (arith, e) in rw (only, same) (inl refl, (omega arith, tt))
  | inr (s, e) ↦ elim (Bool-cases (leb (covered_or_zero s) (covered_or_zero r))) [
    | inl le ↦
        let same : r ≡ top = ground (arith, e, le) in
        let bound : covered_or_zero s ≤ covered_or_zero top =
          subst (λ x. covered_or_zero s ≤ covered_or_zero x) same (ground arith) in
        let below = (greatest-IsGreatest rs s e).1 in
        rw same (inl refl, (omega arith, All-raise s top rs bound below))
    | inr gt ↦
        let same : s ≡ top = ground (arith, e, gt) in
        let (member, bound) = greatest-IsGreatest rs top (ground (arith, e, same)) in
        (
          inr member,
          (subst (λ x. covered_or_zero r ≤ covered_or_zero x) same (ground arith), bound),
        )
  ]
]

-- The boundary that a restart begins from is a compaction summary of the group with a boundary, and
-- none of those covers more messages; there is none only if the group has no such summary.
pub get_newest_compaction_summary_lem :
    (group_key : Text) (t : Summaries)
    → ((get_newest_compaction_summary group_key t ≡ none)
        × (filter (is_boundary group_key) t.rows ≡ []))
      ⊎ ((top : Summary) × (get_newest_compaction_summary group_key t ≡ some top)
          × IsGreatest top (filter (is_boundary group_key) t.rows))
unfolding get_newest_compaction_summary
get_newest_compaction_summary_lem group_key t =
    let rows = filter (is_boundary group_key) t.rows in
    elim (Option-cases (greatest rows)) [
      | inl e ↦ inl (e, greatest-none rows e)
      | inr (top, e) ↦ inr (top, e, greatest-IsGreatest rows top e)
    ]
