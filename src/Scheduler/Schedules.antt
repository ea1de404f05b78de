-- ===== src/Scheduler/Schedules.antt =====
-- The tasks that are to run at a time (archive/v3/src/mutsumi_sync/scheduler.py): `schedule_once`,
-- `_start_scheduled_task`, `_scheduled_sleep_and_fire`, `_fire_scheduled_task`, and the part of
-- `startup` that starts the stored ones again. What the pipeline does is a parameter.
use mutsumi_s_sync.Common.{
  ℕ, ◌==◌, false, not, ◌&&◌, List, [], ◌∷◌, ◌++◌, ◌≡◌, refl, ◌≢◌, arith, ap, ◌∙◌, map,
}
use mutsumi_s_sync.Common.{Text, codes, text_eq, filter, length, text_eq_refl, if◌then◌else◌}
use mutsumi_s_sync.Store.Tasks.{
  ScheduledTaskRecord, Tasks, add_scheduled_task, get_pending_scheduled_tasks, is_pending,
  mark_scheduled_task_status, task_row, is_left, mark_scheduled_task_status_lem,
  get_pending_scheduled_tasks_lem,
}
use mutsumi_s_sync.Scheduler.Keys.{Peer}
use mutsumi_s_sync.Scheduler.Users.{UserState, cancel_user, add_key}

-- `tasks` is the table of the store, `sleeping` the keys of `_scheduled_tasks`.
pub record ScheduleState : Type 0 where
  pub tasks : Tasks
  pub sleeping : List ℕ
  pub users : UserState

abbrev drop_id : ℕ → List ℕ → List ℕ
drop_id n ids = filter (λ i. not (i == n)) ids

-- `_start_scheduled_task`: a task of the same id that sleeps is cancelled.
unfoldable pub start_scheduled_task : ScheduledTaskRecord → ScheduleState → ScheduleState
start_scheduled_task r s = record s { sleeping = drop_id r.id s.sleeping ++ r.id ∷ [] }

-- The `finally` of a task. That of a task which was replaced runs when the new one has the entry, and
-- removes it.
unfoldable pub forget_task : ℕ → ScheduleState → ScheduleState
forget_task id s = record s { sleeping = drop_id id s.sleeping }

-- The record that `schedule_once` starts is built from its arguments.
unfoldable pub schedule_once : ℕ → ℕ → Text → Text → Peer → ScheduleState → ℕ × ScheduleState
unfolding start_scheduled_task add_scheduled_task
schedule_once now scheduled_at prompt group_key peer s =
    let (id, tasks) =
      add_scheduled_task now group_key peer.chat_type peer.peer_uid prompt scheduled_at s.tasks in
    let row = task_row now group_key peer.chat_type peer.peer_uid prompt scheduled_at id in
    (id, start_scheduled_task row (record s { tasks = tasks }))

-- How the pipeline of a task ends.
pub data Ending : Type 0 where
  finished raised cut_off : Ending

-- `_fire_scheduled_task` up to the pipeline
unfoldable pub begin_fire : ScheduledTaskRecord → ScheduleState → ScheduleState
begin_fire r s =
    let free = cancel_user r.group_key s.users in
    record s {
      tasks = mark_scheduled_task_status r.id (codes "running") s.tasks;
      users = record free { windows = add_key r.group_key free.windows };
    }

abbrev mark_end : ℕ → Ending → Tasks → Tasks
mark_end id finished t = mark_scheduled_task_status id (codes "done") t
mark_end id raised t = mark_scheduled_task_status id (codes "error") t
mark_end id cut_off t = t

-- `_scheduled_sleep_and_fire` when the time has come; `run` is the pipeline on the state, which
-- leaves the table of tasks to the tools it calls.
unfoldable pub sleep_and_fire :
    (ScheduleState → Ending × ScheduleState) → ScheduledTaskRecord → ScheduleState → ScheduleState
unfolding begin_fire forget_task
sleep_and_fire run r s =
    let ended = run (begin_fire r s) in
    forget_task r.id (record (ended.1) { tasks = mark_end r.id ended.0 ended.1.tasks })

unfoldable pub start_all : List ScheduledTaskRecord → ScheduleState → ScheduleState
unfolding start_scheduled_task
start_all [] s = s
start_all (r ∷ rs) s = start_all rs (start_scheduled_task r s)

-- The part of `startup` for scheduled tasks.
unfoldable pub restore_schedules : ScheduleState → ScheduleState
unfolding start_all get_pending_scheduled_tasks
restore_schedules s = start_all (get_pending_scheduled_tasks s.tasks) s

left-none :
    (n : ℕ) (rs : List ScheduledTaskRecord)
    → length (filter (λ r. is_left n r && (r.id == n)) rs) ≡ 0
left-none n [] = refl
left-none n (r ∷ rs) = ground (arith, left-none n rs)

done_status :
    (text_eq (codes "done") (codes "pending") ≡ false)
    × (text_eq (codes "done") (codes "running") ≡ false)
unfolding text_eq
done_status = (refl, refl)

error_status :
    (text_eq (codes "error") (codes "pending") ≡ false)
    × (text_eq (codes "error") (codes "running") ≡ false)
unfolding text_eq
error_status = (refl, refl)

mark_end-none :
    (id : ℕ) (e : Ending) (t : Tasks)
    → e ≢ cut_off
    → length (filter (λ x. x.id == id) (get_pending_scheduled_tasks (mark_end id e t))) ≡ 0
mark_end-none id finished t ends =
    mark_scheduled_task_status_lem id (codes "done") done_status.0 done_status.1 t (λ x. x.id == id)
    ∙ left-none id t.rows
mark_end-none id raised t ends =
    mark_scheduled_task_status_lem id (codes "error") error_status.0 error_status.1 t
      (λ x. x.id == id)
    ∙ left-none id t.rows
mark_end-none id cut_off t ends = absurd (ends refl)

-- A scheduled task whose pipeline returned or raised does not come back at a restart.
pub sleep_and_fire-ended :
    (run : ScheduleState → Ending × ScheduleState) (r : ScheduledTaskRecord) (s : ScheduleState)
    → (run (begin_fire r s)).0 ≢ cut_off
    → length
        (filter (λ x. x.id == r.id) (get_pending_scheduled_tasks (sleep_and_fire run r s).tasks))
      ≡ 0
unfolding sleep_and_fire
sleep_and_fire-ended run r s ends =
    mark_end-none r.id (run (begin_fire r s)).0 (run (begin_fire r s)).1.tasks ends

begun_rows :
    (n : ℕ) (rs : List ScheduledTaskRecord)
    → length (
        filter
          (λ x. is_pending x && (x.id == n))
          (map (λ x. if x.id == n then record x { status = codes "running" } else x) rs))
      ≡ length (filter (λ x. x.id == n) rs)
begun_rows n [] = refl
begun_rows n (r ∷ rs) = ground (arith, begun_rows n rs, text_eq_refl (codes "running"))

-- A scheduled task whose pipeline was cancelled, and left the table of tasks alone, comes back at a
-- restart: as many rows come back under its id as the table had.
pub sleep_and_fire-cut_off :
    (run : ScheduleState → Ending × ScheduleState) (r : ScheduledTaskRecord) (s : ScheduleState)
    → (run (begin_fire r s)).0 ≡ cut_off
    → (run (begin_fire r s)).1.tasks ≡ (begin_fire r s).tasks
    → length
        (filter (λ x. x.id == r.id) (get_pending_scheduled_tasks (sleep_and_fire run r s).tasks))
      ≡ length (filter (λ x. x.id == r.id) s.tasks.rows)
unfolding sleep_and_fire begin_fire mark_scheduled_task_status
sleep_and_fire-cut_off run r s ends kept =
    let begun = mark_scheduled_task_status r.id (codes "running") s.tasks in
    let same : (sleep_and_fire run r s).tasks ≡ begun =
      ap (λ e. mark_end r.id e (run (begin_fire r s)).1.tasks) ends ∙ kept in
    ap (λ t. length (filter (λ x. x.id == r.id) (get_pending_scheduled_tasks t))) same
    ∙ (get_pending_scheduled_tasks_lem begun (λ x. x.id == r.id)).1
    ∙ begun_rows r.id s.tasks.rows
