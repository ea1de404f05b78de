-- ===== src/Store/Tasks.antt =====
-- The scheduled tasks and the recorded actions.
use mutsumi_s_sync.Common.{
  ℕ, ◌+◌, ◌==◌, ◌≡◌, refl, Bool, false, not, ◌&&◌, ◌||◌, inl, inr, Option, List, [], ◌∷◌, map,
  arith, Bool-cases, ◌∙◌, length,
}
use mutsumi_s_sync.Common.{Text, codes, text_eq, filter, if◌then◌else◌}
use mathlib.Core.List.{reverse}
use mutsumi_s_sync.Json.{Fields}
use mutsumi_s_sync.Store.Table.{Table, insert, update, newest, order_by}
use mutsumi_s_sync.Store.Order.{Ascending, order_by-Ascending, count_rows-order_by}

pub record ScheduledTaskRecord : Type 0 where
  pub id : ℕ
  pub group_key : Text
  pub peer_chat_type : ℕ
  pub peer_uid : Text
  pub prompt : Text
  pub scheduled_at : ℕ
  pub status : Text
  pub created_at : ℕ

abbrev pub Tasks : Type 0
Tasks = Table ScheduledTaskRecord

abbrev pub task_row : ℕ → Text → ℕ → Text → Text → ℕ → ℕ → ScheduledTaskRecord
task_row now group_key chat_type peer_uid prompt scheduled_at n = record {
  id = n;
  group_key = group_key;
  peer_chat_type = chat_type;
  peer_uid = peer_uid;
  prompt = prompt;
  scheduled_at = scheduled_at;
  status = codes "pending";
  created_at = now;
}

unfoldable pub add_scheduled_task : ℕ → Text → ℕ → Text → Text → ℕ → Tasks → ℕ × Tasks
add_scheduled_task now group_key chat_type peer_uid prompt scheduled_at t =
    insert (task_row now group_key chat_type peer_uid prompt scheduled_at) t

abbrev pub is_pending : ScheduledTaskRecord → Bool
is_pending r = text_eq r.status (codes "pending") || text_eq r.status (codes "running")

unfoldable pub get_pending_scheduled_tasks : Tasks → List ScheduledTaskRecord
unfolding order_by
get_pending_scheduled_tasks t = order_by (λ r. r.scheduled_at) (filter is_pending t.rows)

unfoldable pub mark_scheduled_task_status : ℕ → Text → Tasks → Tasks
mark_scheduled_task_status task_id status t =
    update (λ r. r.id == task_id) (λ r. record r { status = status }) t

-- The table `actions`.
pub record ActionRecord : Type 0 where
  pub id : ℕ
  pub group_key : Text
  pub tool_name : Text
  pub call_id : Text
  pub success : Bool
  pub arguments : Fields
  pub result : Text
  pub artifact : Option Fields
  pub created_at : ℕ

abbrev pub Actions : Type 0
Actions = Table ActionRecord

-- The row is given with no key and no time yet.
unfoldable pub save_action : ℕ → ActionRecord → Actions → ℕ × Actions
save_action now action t = insert (λ n. record action { id = n; created_at = now }) t

unfoldable pub get_recent_actions : Text → ℕ → Actions → List ActionRecord
get_recent_actions group_key limit t = reverse (newest (λ r. text_eq r.group_key group_key) limit t)

count-pending :
    (test : ScheduledTaskRecord → Bool) (rs : List ScheduledTaskRecord)
    → length (filter test (filter is_pending rs)) ≡ length (filter (λ r. is_pending r && test r) rs)
count-pending test [] = refl
count-pending test (r ∷ rs) = ground (arith, count-pending test rs)

-- After a restart the tasks that are pending or were running come back, each once and nothing else,
-- in the order of their times: for every test, as many of them pass it as there are such rows.
pub get_pending_scheduled_tasks_lem :
    (t : Tasks) (test : ScheduledTaskRecord → Bool)
    → Ascending (λ r. r.scheduled_at) 0 (get_pending_scheduled_tasks t)
      × (length (filter test (get_pending_scheduled_tasks t))
          ≡ length (filter (λ r. is_pending r && test r) t.rows))
unfolding get_pending_scheduled_tasks
get_pending_scheduled_tasks_lem t test =
    let time = λ (r : ScheduledTaskRecord). r.scheduled_at in
    let rows = filter is_pending t.rows in
    (order_by-Ascending time rows, count_rows-order_by time test rows ∙ count-pending test t.rows)

abbrev pub is_left : ℕ → ScheduledTaskRecord → Bool
is_left task_id r = is_pending r && not (r.id == task_id)

module _ (task_id : ℕ) (status : Text) (not_pending : text_eq status (codes "pending") ≡ false)
    (not_running : text_eq status (codes "running") ≡ false) where
  mark : ScheduledTaskRecord → ScheduledTaskRecord
  mark r = if r.id == task_id then record r { status = status } else r

  mark-at :
      (test : ScheduledTaskRecord → Bool) (r : ScheduledTaskRecord)
      (rest : List ScheduledTaskRecord)
      → length (filter (λ r. is_pending r && test r) (mark r ∷ rest))
        ≡ (if is_left task_id r && test r then 1 else 0)
          + length (filter (λ r. is_pending r && test r) rest)
  unfolding mark text_eq
  mark-at test r rest = elim (Bool-cases (r.id == task_id)) [
    | inl e ↦ rw (e, not_pending, not_running) (ground arith)
    | inr e ↦ rw e (ground arith)
  ]

  count-left :
      (test : ScheduledTaskRecord → Bool) (r : ScheduledTaskRecord)
      (rest : List ScheduledTaskRecord)
      → length (filter (λ r. is_left task_id r && test r) (r ∷ rest))
        ≡ (if is_left task_id r && test r then 1 else 0)
          + length (filter (λ r. is_left task_id r && test r) rest)
  count-left test r rest = ground arith

  count-marked :
      (test : ScheduledTaskRecord → Bool) (rs : List ScheduledTaskRecord)
      → length (filter (λ r. is_pending r && test r) (map mark rs))
        ≡ length (filter (λ r. is_left task_id r && test r) rs)
  count-marked test [] = refl
  count-marked test (r ∷ rs) =
      omega (arith, mark-at test r (map mark rs), count-left test r rs, count-marked test rs)

  -- A task that is marked with a status other than pending and running does not come back after a
  -- restart, and every other one that would have come back still does, unchanged: for every test,
  -- as many rows pass it as there are such other rows.
  pub mark_scheduled_task_status_lem :
      (t : Tasks) (test : ScheduledTaskRecord → Bool)
      → length
          (filter test (get_pending_scheduled_tasks (mark_scheduled_task_status task_id status t)))
        ≡ length (filter (λ r. is_left task_id r && test r) t.rows)
  unfolding mark_scheduled_task_status mark
  mark_scheduled_task_status_lem t test =
      (get_pending_scheduled_tasks_lem (mark_scheduled_task_status task_id status t) test).1
      ∙ count-marked test t.rows
