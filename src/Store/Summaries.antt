-- ===== src/Store/Summaries.antt =====
-- The summaries of a conversation, and the boundary up to which messages are covered by one.
pub mod Coverage
use mutsumi_s_sync.Common.{
  ℕ, zero, suc, ◌+◌, ◌-◌, ◌==◌, ◌≡◌, refl, Bool, true, false, not, ◌&&◌, Option, none, some, List,
  [], ◌∷◌, ◌++◌, map,
}
use mutsumi_s_sync.Common.{Text, codes, text_eq, any, filter, take, length, leb, ltb, if◌then◌else◌}
use mutsumi_s_sync.Store.Table.{Table, insert, update, order_by}

pub record Summary : Type 0 where
  pub id : ℕ
  pub group_key : Text
  pub seq : ℕ
  pub source : Text
  pub summary : Text
  pub last_message_id : ℕ
  pub kind : Text
  pub covered_through_message_id : Option ℕ
  pub created_at : ℕ

abbrev pub Summaries : Type 0
Summaries = Table Summary

abbrev pub of_group : Text → Summaries → List Summary
of_group group_key t = filter (λ r. text_eq r.group_key group_key) t.rows

-- `COALESCE(MAX(seq), 0)`
unfoldable pub max_seq : List Summary → ℕ
max_seq [] = 0
max_seq (r ∷ rs) = let rest = max_seq rs in if leb rest r.seq then r.seq else rest

abbrev pub summary_row : ℕ → Text → Text → Text → ℕ → Text → Option ℕ → ℕ → ℕ → Summary
summary_row now group_key source summary last_message_id kind covered seq n = record {
  id = n;
  group_key = group_key;
  seq = seq;
  source = source;
  summary = summary;
  last_message_id = last_message_id;
  kind = kind;
  covered_through_message_id = covered;
  created_at = now;
}

unfoldable pub add_summary :
    ℕ → Text → Text → Text → ℕ → Text → Option ℕ → Summaries → ℕ × Summaries
unfolding max_seq
add_summary now group_key source summary last_message_id kind covered t =
    insert
      (summary_row now group_key source summary last_message_id kind covered
        (max_seq (of_group group_key t) + 1))
      t

unfoldable pub get_summaries : Text → ℕ → Summaries → List Summary
unfolding order_by
get_summaries group_key limit t = take limit (order_by (λ r. r.seq) (of_group group_key t))

abbrev id_in : List Summary → Summary → Bool
id_in chosen r = any (λ s. s.id == r.id) chosen

-- `LIMIT` with a negative number is no limit: if more is to be kept than there is, although the
-- maximum is exceeded, everything of the group goes.
unfoldable pub trim_summaries : Text → ℕ → ℕ → Summaries → ℕ × Summaries
unfolding order_by
trim_summaries group_key max_count min_count t =
    let group = of_group group_key t in
    if leb (length group) max_count
    then (0, t)
    else let oldest = order_by (λ r. r.seq) group in
      let chosen =
        if ltb (length group) min_count then oldest else take (length group - min_count) oldest in
      let after = record t { rows = filter (λ r. not (id_in chosen r)) t.rows } in
      (length t.rows - length after.rows, after)

abbrev pub covered_or_zero : Summary → ℕ
covered_or_zero r = elim r.covered_through_message_id [ none ↦ 0 | some n ↦ n ]

abbrev pub is_boundary : Text → Summary → Bool
is_boundary group_key r =
    text_eq r.group_key group_key
    && text_eq r.kind (codes "compaction")
    && elim r.covered_through_message_id [ none ↦ false | some n ↦ true ]

-- `ORDER BY covered_through_message_id DESC LIMIT 1`; of rows that cover the same, the first.
greatest : List Summary → Option Summary
greatest [] = none
greatest (r ∷ rs) =
    let rest = greatest rs in
    elim rest [
      | none ↦ some r
      | some s ↦ if leb (covered_or_zero s) (covered_or_zero r) then some r else some s
    ]

unfoldable pub get_newest_compaction_summary : Text → Summaries → Option Summary
unfolding greatest
get_newest_compaction_summary group_key t = greatest (filter (is_boundary group_key) t.rows)

unfoldable pub set_last_message_id : ℕ → ℕ → Summaries → Summaries
set_last_message_id summary_id last_message_id t =
    update (λ r. r.id == summary_id) (λ r. record r { last_message_id = last_message_id }) t
