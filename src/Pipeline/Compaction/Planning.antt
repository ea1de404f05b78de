-- ===== src/Pipeline/Compaction/Planning.antt =====
-- What a compaction of archive/v3/src/mutsumi_sync/pipeline.py removes from the window.
use mutsumi_s_sync.Common.{
  ℕ, zero, suc, ◌+◌, ◌≤◌, ◌<◌, Bool, true, false, Option, none, some, List, [], ◌∷◌, ◌++◌, ◌≡◌, ◌⊎◌,
  refl, inl, inr, arith, ap, sym, subst, ◌∙◌, append_assoc, Bool-cases, if_true, if_false,
}
use mutsumi_s_sync.Common.{Text, is_empty, length, leb, if◌then◌else◌, All}
use mutsumi_s_sync.Pipeline.Compaction.{
  WindowItem, MessageWindow, GroupKey, key_of, same_key, collect, window_turn_groups, concat,
  newest_record, combined, Plan, cost, removed_groups, split_groups, plan_compaction,
  compact_context,
}

abbrev IsFull : List WindowItem → Type 0
IsFull g = is_empty g ≡ false

full-append : (group : List WindowItem) (item : WindowItem) → is_empty (group ++ item ∷ []) ≡ false
full-append [] item = refl
full-append (x ∷ group) item = refl

collect-concat :
    (key : GroupKey) (group : List WindowItem) (legacy : ℕ) (items : List WindowItem)
    → is_empty group ≡ false
    → (concat (collect key group legacy items) ≡ group ++ items)
      × All IsFull (collect key group legacy items)
unfolding collect concat
collect-concat key group legacy [] h = (refl, (h, tt))
collect-concat key group legacy (item ∷ items) h =
    let next = key_of false legacy item in
    let full : is_empty (group ++ item ∷ []) ≡ false = full-append group item in
    let (joined, all_joined) = collect-concat key (group ++ item ∷ []) next.1 items full in
    let (apart, all_apart) = collect-concat next.0 (item ∷ []) next.1 items refl in
    elim (Bool-cases (same_key next.0 key)) [
      | inl e ↦ rw e (joined ∙ append_assoc group (item ∷ []) items, all_joined)
      | inr e ↦ rw e (ap (λ l. group ++ l) apart, (h, all_apart))
    ]

window_turn_groups-concat :
    (items : List WindowItem)
    → (concat (window_turn_groups items) ≡ items) × All IsFull (window_turn_groups items)
unfolding window_turn_groups concat
window_turn_groups-concat [] = (refl, tt)
window_turn_groups-concat (item ∷ items) =
    let next = key_of true 0 item in collect-concat next.0 (item ∷ []) next.1 items refl

split_groups-concat :
    (n : ℕ) (gs : List (List WindowItem))
    → concat gs ≡ concat (split_groups n gs).0 ++ concat (split_groups n gs).1
unfolding split_groups concat
split_groups-concat zero gs = refl
split_groups-concat (suc n) [] = refl
split_groups-concat (suc n) (g ∷ gs) =
    ap (λ l. g ++ l) (split_groups-concat n gs)
    ∙ sym (append_assoc g (concat (split_groups n gs).0) (concat (split_groups n gs).1))

full-concat :
    (g : List WindowItem) (rest : List WindowItem)
    → is_empty g ≡ false
    → is_empty (g ++ rest) ≡ false
full-concat [] rest h = ground arith
full-concat (x ∷ g) rest h = refl

-- At least one group goes, and at least one stays.
removed_groups-bounds :
    (estimate target tokens : ℕ) (g h : List WindowItem) (gs : List (List WindowItem))
    → (1 ≤ removed_groups estimate target tokens (g ∷ h ∷ gs))
      × (removed_groups estimate target tokens (g ∷ h ∷ gs) ≤ suc (length gs))
unfolding removed_groups
removed_groups-bounds estimate target tokens g h [] = (ground arith, ground arith)
removed_groups-bounds estimate target tokens g h (k ∷ gs) =
    let (some_go, some_stay) = removed_groups-bounds estimate target (tokens + cost g) h k gs in
    (ground arith, ground arith)

split_groups-full :
    (n : ℕ) (gs : List (List WindowItem))
    → All IsFull gs
    → n < length gs
    → is_empty (concat (split_groups n gs).1) ≡ false
unfolding split_groups concat
split_groups-full zero [] h few = ground arith
split_groups-full zero (g ∷ gs) (h, hs) few = full-concat g (concat gs) h
split_groups-full (suc n) [] h few = ground arith
split_groups-full (suc n) (g ∷ gs) (h, hs) few = split_groups-full n gs hs (ground arith)

split_groups-some :
    (n : ℕ) (gs : List (List WindowItem))
    → All IsFull gs
    → 1 ≤ n
    → 1 ≤ length gs
    → is_empty (concat (split_groups n gs).0) ≡ false
unfolding split_groups concat
split_groups-some zero gs h a b = ground arith
split_groups-some (suc n) [] h a b = ground arith
split_groups-some (suc n) (g ∷ gs) (h, hs) a b = full-concat g (concat (split_groups n gs).0) h

-- No item has a newer record.
abbrev pub IsCovered : ℕ → WindowItem → Type 0
IsCovered n item = (item.record_id ≡ none) ⊎ ((id : ℕ) × (item.record_id ≡ some id) × (id ≤ n))

older-IsCovered :
    (m n : ℕ) (items : List WindowItem) → m ≤ n → All (IsCovered m) items → All (IsCovered n) items
older-IsCovered m n [] le h = tt
older-IsCovered m n (item ∷ items) le (inl e, hs) = (inl e, older-IsCovered m n items le hs)
older-IsCovered m n (item ∷ items) le (inr (id, e, b), hs) =
    (inr (id, e, ground arith), older-IsCovered m n items le hs)

none-IsCovered :
    (n : ℕ) (items : List WindowItem)
    → All (λ item. item.record_id ≡ none) items
    → All (IsCovered n) items
none-IsCovered n [] h = tt
none-IsCovered n (item ∷ items) (e, h) = (inl e, none-IsCovered n items h)

newest_record-IsCovered :
    (items : List WindowItem)
    → ((newest_record items ≡ none) × All (λ item. item.record_id ≡ none) items)
      ⊎ ((n : ℕ) × (newest_record items ≡ some n) × All (IsCovered n) items)
unfolding newest_record
newest_record-IsCovered [] = inl (refl, tt)
newest_record-IsCovered (item ∷ items) =
    by_cases item.record_id refl (newest_record-IsCovered items)
  where
    by_cases :
        (o : Option ℕ)
        → item.record_id ≡ o
        → ((newest_record items ≡ none) × All (λ x. x.record_id ≡ none) items)
          ⊎ ((n : ℕ) × (newest_record items ≡ some n) × All (IsCovered n) items)
        → ((newest_record (item ∷ items) ≡ none) × All (λ x. x.record_id ≡ none) (item ∷ items))
          ⊎ ((n : ℕ) × (newest_record (item ∷ items) ≡ some n) × All (IsCovered n) (item ∷ items))
    by_cases none e (inl (f, h)) = inl (ground arith, (e, h))
    by_cases none e (inr (n, f, h)) = inr (n, ground arith, (inl e, h))
    by_cases (some id) e (inl (f, h)) =
        inr (id, ground arith, (inr (id, e, ground arith), none-IsCovered id items h))
    by_cases (some id) e (inr (n, f, h)) = elim (Bool-cases (leb id n)) [
      | inl b ↦ inr (n, ground arith, (inr (id, e, ground arith), h))
      | inr b ↦ inr (
        id,
        ground arith,
        (inr (id, e, ground arith), older-IsCovered n id items (ground arith) h),
      )
    ]

newest_record-cases :
    (trusted : Bool) (items : List WindowItem)
    → ((if trusted then newest_record items else none) ≡ none)
      ⊎ ((n : ℕ) × ((if trusted then newest_record items else none) ≡ some n)
          × (trusted ≡ true)
          × All (IsCovered n) items)
newest_record-cases false items = inl refl
newest_record-cases true items = elim (newest_record-IsCovered items) [
  | inl (e, h) ↦ inl e
  | inr (n, e, h) ↦ inr (n, e, refl, h)
]

module _ (estimate trigger target : ℕ) (w : MessageWindow) where
  abbrev groups : List (List WindowItem)
  groups = window_turn_groups w.window

  abbrev cut : ℕ
  cut = removed_groups estimate target 0 groups

  abbrev archive : List WindowItem
  archive = concat (split_groups cut groups).0

  abbrev kept : List WindowItem
  kept = concat (split_groups cut groups).1

  cut-bounds : leb (length groups) 1 ≡ false → (1 ≤ cut) × (cut < length groups)
  cut-bounds many = by_groups groups many
    where
      by_groups :
          (gs : List (List WindowItem))
          → leb (length gs) 1 ≡ false
          → (1 ≤ removed_groups estimate target 0 gs)
            × (removed_groups estimate target 0 gs < length gs)
      by_groups [] h = ground arith
      by_groups (g ∷ []) h = ground arith
      by_groups (g ∷ h ∷ gs) e =
          let (a, b) = removed_groups-bounds estimate target 0 g h gs in (a, ground arith)

  abbrev pub IsSound : Plan → Type 0
  IsSound p =
      (w.window ≡ p.to_archive ++ p.kept)
      × (is_empty p.to_archive ≡ false)
      × (is_empty p.kept ≡ false)
      × ((p.covered_through ≡ none)
          ⊎ ((n : ℕ) × (p.covered_through ≡ some n)
              × (w.coverage_trusted ≡ true)
              × All (IsCovered n) p.to_archive))

  plan_compaction-IsSound :
      (p : Plan) → plan_compaction estimate trigger target w ≡ some p → IsSound p
  unfolding plan_compaction
  plan_compaction-IsSound p h =
      let many : leb (length groups) 1 ≡ false = ground arith in
      let (same, full) = window_turn_groups-concat w.window in
      let (low, high) = cut-bounds many in
      let covered : Option ℕ = if w.coverage_trusted then newest_record archive else none in
      let made : Plan = record { to_archive = archive; kept = kept; covered_through = covered } in
      let same_archive : archive ≡ p.to_archive = ground arith in
      let same_kept : kept ≡ p.kept = ground arith in
      let same_covered : covered ≡ p.covered_through = ground arith in
      let is : made ≡ p = λ i. record {
        to_archive = same_archive i;
        kept = same_kept i;
        covered_through = same_covered i;
      } in
      subst IsSound is (
        sym same ∙ split_groups-concat cut groups,
        split_groups-some cut groups full low (ground arith),
        split_groups-full cut groups full high,
        newest_record-cases w.coverage_trusted archive,
      )

  -- What a compaction gives: the window is not touched; or a summary was awaited and not saved, and
  -- the window is what the other tasks made of it; or one was saved, and the window has exactly the
  -- part of the plan that stays.
  abbrev pub IsCompacted :
      {W : Type 0}
      → (Text → Option ℕ → MessageWindow → W → Bool × MessageWindow × W)
      → W
      → Bool × MessageWindow × W
      → Type 0
  IsCompacted {W} save s result =
      (result ≡ (false, w, s))
      ⊎ ((p : Plan) × IsSound p
          × (((save (combined p) p.covered_through w s).0 ≡ false)
                × (result ≡ save (combined p) p.covered_through w s)
              ⊎ ((save (combined p) p.covered_through w s).0 ≡ true)
                × (result ≡ (
                  true,
                  record (save (combined p) p.covered_through w s).1 { window = p.kept },
                  (save (combined p) p.covered_through w s).2,
                ))))

  -- A compaction either does nothing, or plans to split the items of the window, as it is before
  -- the summary, into a nonempty older part, which is summarized, and a nonempty newer part, both
  -- in their order; what the summary is said to cover is at least every record of the older part,
  -- and is said only of a window that is trusted. If the summary is not saved, the window is what
  -- the other tasks made of it meanwhile; if it is saved, the window is the newer part, whatever
  -- the other tasks did to it meanwhile.
  pub compact_context_lem :
      {W : Type 0} (save : Text → Option ℕ → MessageWindow → W → Bool × MessageWindow × W) (s : W)
      → IsCompacted save s (compact_context save estimate trigger target w s)
  unfolding compact_context
  compact_context_lem save s = by_plan (plan_compaction estimate trigger target w) refl
    where
      by_plan :
          (o : Option Plan)
          → plan_compaction estimate trigger target w ≡ o
          → IsCompacted save s (compact_context save estimate trigger target w s)
      by_plan none e = rw (e, compact_context) (inl refl)
      by_plan (some p) e = elim (Bool-cases (save (combined p) p.covered_through w s).0) [
        | inl saved ↦
            rw (e, compact_context)
              (inr (p, plan_compaction-IsSound p e, inr (saved, if_true _ _ _ saved)))
        | inr failed ↦
            rw (e, compact_context)
              (inr (p, plan_compaction-IsSound p e, inl (failed, if_false _ _ _ failed)))
      ]
