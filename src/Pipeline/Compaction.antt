-- ===== src/Pipeline/Compaction.antt =====
-- The compaction of a window that is too large for a request: `_window_turn_groups` and
-- `_compact_context_for_request` of archive/v3/src/mutsumi_sync/pipeline.py, on the `MessageWindow`
-- of archive/v3/src/mutsumi_sync/memory/window.py. The summarizer is a
-- parameter, and so are the budgets, which the source rounds from the configured ratios.
pub mod Planning
use mutsumi_s_sync.Common.{
  ℕ, zero, suc, ◌+◌, ◌-◌, ◌/◌, ◌==◌, Bool, true, false, not, ◌&&◌, ◌||◌, Option, none, some, List,
  [], ◌∷◌, ◌++◌, map,
}
use mutsumi_s_sync.Common.{Text, codes, text_eq, is_empty, length, leb, join, if◌then◌else◌}

pub record WindowItem : Type 0 where
  pub role : Text
  pub content : Text
  pub user_id : Text
  pub actor_name : Text
  pub created_at : ℕ
  pub record_id : Option ℕ

-- `MessageWindow`
pub record MessageWindow : Type 0 where
  pub window : List WindowItem
  pub coverage_trusted : Bool

-- `MessageWindow.add`; `now` is the time that stands in for none.
unfoldable pub add_item :
    ℕ → Text → Text → Bool → Option ℕ → Option ℕ → Text → MessageWindow → MessageWindow
add_item now user_id message is_bot created_at record_id actor_name w = record w {
  window =
      w.window
      ++ record {
        role = if is_bot then codes "assistant" else codes "user";
        content = message;
        user_id = user_id;
        actor_name = actor_name;
        created_at = elim created_at [ none ↦ now | some t ↦ t ];
        record_id = record_id;
      }
        ∷ [];
}

-- `_estimate_tokens`
unfoldable pub estimate_tokens : Text → ℕ
estimate_tokens text = let tokens = length text / 4 in if leb 1 tokens then tokens else 1

pub data GroupKey : Type 0 where
  record_key legacy_key : ℕ → GroupKey

abbrev same_key : GroupKey → GroupKey → Bool
same_key (record_key a) (record_key b) = a == b
same_key (legacy_key a) (legacy_key b) = a == b
same_key _ _ = false

-- The key of an item and the number of legacy turns after it; `first` says that there is no group.
abbrev key_of : Bool → ℕ → WindowItem → GroupKey × ℕ
key_of first legacy item = elim item.record_id [
  | some id ↦ (record_key id, legacy)
  | none ↦
      let next = if text_eq item.role (codes "user") || first then suc legacy else legacy in
      (legacy_key next, next)
]

-- The groups that the open one, its key and the number of legacy turns lead to.
unfoldable pub collect : GroupKey → List WindowItem → ℕ → List WindowItem → List (List WindowItem)
collect key group legacy [] = group ∷ []
collect key group legacy (item ∷ items) =
    let next = key_of false legacy item in
    let joined = collect key (group ++ item ∷ []) next.1 items in
    let apart = group ∷ collect next.0 (item ∷ []) next.1 items in
    if same_key next.0 key then joined else apart

-- `_window_turn_groups`
unfoldable pub window_turn_groups : List WindowItem → List (List WindowItem)
unfolding collect
window_turn_groups [] = []
window_turn_groups (item ∷ items) =
    let next = key_of true 0 item in collect next.0 (item ∷ []) next.1 items

unfoldable pub concat : List (List WindowItem) → List WindowItem
concat [] = []
concat (g ∷ gs) = g ++ concat gs

-- `max(record_ids)`, of the items that have one
unfoldable pub newest_record : List WindowItem → Option ℕ
newest_record [] = none
newest_record (item ∷ items) =
    let rest = newest_record items in
    elim item.record_id [
      | none ↦ rest
      | some id ↦ elim rest [ none ↦ some id | some n ↦ if leb id n then some n else some id ]
    ]

-- What is archived, what stays, and the message that the summary covers.
pub record Plan : Type 0 where
  pub to_archive : List WindowItem
  pub kept : List WindowItem
  pub covered_through : Option ℕ

abbrev pub cost : List WindowItem → ℕ
cost [] = 0
cost (item ∷ items) = estimate_tokens (item.content) + cost items

-- The loop over the groups but the last: how many of them are removed.
unfoldable pub removed_groups : ℕ → ℕ → ℕ → List (List WindowItem) → ℕ
removed_groups estimate target tokens [] = 0
removed_groups estimate target tokens (g ∷ []) = 0
removed_groups estimate target tokens (g ∷ h ∷ gs) =
    let total = tokens + cost g in
    let further = removed_groups estimate target total (h ∷ gs) in
    if leb (estimate - total) target then 1 else suc further

unfoldable pub split_groups :
    ℕ → List (List WindowItem) → List (List WindowItem) × List (List WindowItem)
split_groups zero gs = ([], gs)
split_groups (suc n) [] = ([], [])
split_groups (suc n) (g ∷ gs) = let rest = split_groups n gs in (g ∷ rest.0, rest.1)

-- The part of `_compact_context_for_request` before the summary.
unfoldable pub plan_compaction : ℕ → ℕ → ℕ → MessageWindow → Option Plan
unfolding window_turn_groups removed_groups split_groups concat newest_record
plan_compaction estimate trigger target w =
    if leb estimate trigger
    then none
    else let groups = window_turn_groups w.window in
      if leb (length groups) 1
      then none
      else let parts = split_groups (removed_groups estimate target 0 groups) groups in
        some (record {
          to_archive = concat parts.0;
          kept = concat parts.1;
          covered_through = if w.coverage_trusted then newest_record (concat parts.0) else none;
        })

abbrev pub line_of : WindowItem → Text
line_of item = item.content ++ (codes "\nrole: " ++ item.role)

-- The text that is summarized.
abbrev pub combined : Plan → Text
combined plan = join (10 ∷ []) (map line_of plan.to_archive)

-- `_compact_context_for_request`; `save` is `_generate_and_save_summary`, with what other tasks do to
-- the window and to the rest of the program while the summary is awaited.
unfoldable pub compact_context :
    {W : Type 0}
    → (Text → Option ℕ → MessageWindow → W → Bool × MessageWindow × W)
    → ℕ
    → ℕ
    → ℕ
    → MessageWindow
    → W
    → Bool × MessageWindow × W
unfolding plan_compaction
compact_context save estimate trigger target w s =
    elim (plan_compaction estimate trigger target w) [
      | none ↦ (false, w, s)
      | some plan ↦
          let saved = save (combined plan) plan.covered_through w s in
          if saved.0 then (true, record (saved.1) { window = plan.kept }, saved.2) else saved
    ]
