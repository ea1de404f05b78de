-- ===== src/Prototype/Worker/Lane.antt =====
-- The worker's lane of `pipeline`, and one round of `_work_loop`
-- (archive/v3/src/mutsumi_sync/prototype/runtime.py).
use mutsumi_s_sync.Common.{
  ℕ, zero, suc, ◌==◌, true, false, not, ◌&&◌, ◌||◌, Option, none, some, List, [], ◌∷◌, ◌++◌,
}
use mutsumi_s_sync.Common.{
  Text, codes, text_eq, is_empty, strip, length, if◌then◌else◌, Result, ok, err,
}
use mutsumi_s_sync.Json.{str, end, field}
use mutsumi_s_sync.Jobs.{
  BackgroundJob, JobRow, JobError, get_job, list_jobs, update_job, queued, running, unknown,
}
use mutsumi_s_sync.Jobs.Settling.{settled_fields}
use mutsumi_s_sync.Prototype.Chat.{no_task}
use mutsumi_s_sync.Prototype.Tasks.{Work, Call}
use mutsumi_s_sync.Prototype.Worker.{
  Shop, prompt, supplement, native, Outside, blocked, interrupted_action, raised, answered,
  run_calls, add_message, update_work,
}

-- What the model's task gives: it was cancelled, it raised or timed out, or its result.
pub data ModelAnswer : Type 0 where
  interrupted broken : ModelAnswer
  reported : Text → ModelAnswer
  called : Call → List Call → ModelAnswer

-- How the lane ends; `waiting` is a wait that has not ended in the rounds it was given.
pub data Ending : Type 0 where
  finished failed cancelled waiting : Ending

-- `ask` is what happens until the model's task is done.
pub record Surroundings : Type 0 where
  pub outside : Outside
  pub ask : Shop → ModelAnswer × Shop

-- The supplement at the start of a round: after a restart, and for a job that had updates before
-- its first round.
unfoldable pub supply : Shop → Shop
supply s =
    if s.work.restart
    then add_message (supplement s.work.job.updates)
        (record s { work = record (s.work) { restart = false } })
    else if length s.messages == 2 && not (is_empty s.work.job.updates)
    then add_message (supplement s.work.job.updates) s
    else s

abbrev cancelled_text : Text
cancelled_text = codes "已停止尚未开始的动作；已开始的操作及结果保留。"

abbrev limit_text : Text
limit_text = codes "后台工具轮数达到上限，任务未确认完成。"

-- An update of the job in hand that ends the lane.
unfoldable pub settle_work : Text → Text → Shop → Ending × Shop
settle_work status result s =
    let done = update_work (settled_fields status result true) s in
    elim done.0 [ err e ↦ (failed, done.1) | ok u ↦ (finished, done.1) ]

-- What follows the loop.
unfoldable pub conclude : Shop → Ending × Shop
conclude s = elim (get_job s.work.job.id s.jobs) [
  | none ↦ (finished, s)
  | some latest ↦
      if text_eq latest.status unknown
      then (finished, s)
      else if s.work.stop
      then settle_work (codes "cancelled") cancelled_text s
      else settle_work (codes "failed") limit_text s
]

-- How the wait for the delivery of a report ends; `dropped` leaves it for another round,
-- and `interrupted_wait` is a cancellation of the worker.
pub data Report : Type 0 where
  dropped stuck interrupted_wait deliver : Report

unfoldable pub wait_to_report : ℕ → Outside → Shop → Report × Shop
wait_to_report zero o s = (stuck, s)
wait_to_report (suc rounds) o s =
    let now = o.opened s in
    let later = wait_to_report rounds o now in
    if s.closing
    then (dropped, s)
    else if o.cut s
    then (interrupted_wait, now)
    else if now.closing || now.work.restart || now.work.stop
    then (dropped, now)
    else if now.is_pending || not now.allow_tools
    then later
    else (deliver, now)

-- A report that is not blank; `next` is the next round.
unfoldable pub take_report : ℕ → Surroundings → (Shop → Ending × Shop) → Text → Shop → Ending × Shop
take_report waits around next content s =
    let wait = wait_to_report waits around.outside s in
    elim wait.0 [
      | dropped ↦ next wait.1
      | stuck ↦ (waiting, wait.1)
      | interrupted_wait ↦ (cancelled, wait.1)
      | deliver ↦ settle_work (codes "completed") content wait.1
    ]

unfoldable pub take_calls :
    ℕ → Surroundings → (Shop → Ending × Shop) → List Call → Shop → Ending × Shop
take_calls waits around next calls s =
    let acted = run_calls waits around.outside calls (add_message (native calls) s) in
    elim acted.0 [
      | blocked ↦ (waiting, acted.1)
      | interrupted_action ↦ (cancelled, acted.1)
      | raised e ↦ (failed, acted.1)
      | answered text ↦ next acted.1
    ]

-- What a round does with what the model's task gave.
unfoldable pub take_answer :
    ℕ → Surroundings → (Shop → Ending × Shop) → ModelAnswer → Shop → Ending × Shop
unfolding take_report take_calls
take_answer waits around next interrupted s =
    if s.work.restart && not s.closing then next s else (cancelled, s)
take_answer waits around next broken s = (failed, s)
take_answer waits around next (reported content) s =
    if s.work.restart || s.work.stop
    then next s
    else if is_empty (strip content)
    then (failed, s)
    else take_report waits around next content s
take_answer waits around next (called call calls) s =
    if s.work.restart || s.work.stop then next s else take_calls waits around next (call ∷ calls) s

-- The loop of the lane: `steps` are the rounds that are left, of `max_worker_steps`.
unfoldable pub worker_lane : ℕ → ℕ → Surroundings → Shop → Ending × Shop
unfolding take_answer conclude
worker_lane waits zero around s = conclude s
worker_lane waits (suc steps) around s =
    if s.work.stop
    then conclude s
    else let asked = around.ask (supply s) in
      take_answer waits around (λ t. worker_lane waits steps around t) asked.0 asked.1

abbrev interrupted_text : Text
interrupted_text = codes "进程结束时任务尚未确认完成；未自动重做。"

-- The exception handlers of `_work_loop`, with the name of the exception's class.
unfoldable pub settle_job : Text → Text → Ending × Shop → Ending × Shop
settle_job id exception (finished, s) = (finished, s)
settle_job id exception (waiting, s) = (waiting, s)
settle_job id exception (cancelled, s) = (
  cancelled,
  record s { jobs = (update_job id (settled_fields unknown interrupted_text false) s.jobs).1 },
)
settle_job id exception (failed, s) = (
  finished,
  record s {
    jobs =
        (update_job id (settled_fields (codes "failed") (codes "后台任务失败：" ++ exception) false)
          s.jobs).1;
  },
)

-- `Work(job)`
abbrev pub new_work : BackgroundJob → Work
new_work job = record {
  job = job;
  model_task = no_task;
  restart = false;
  stop = false;
  failures = [];
}

-- What the lane starts from.
abbrev pub begin_work : Text → BackgroundJob → Shop → Shop
begin_work instructions job s = record s {
  work = new_work job;
  messages = prompt instructions ∷ prompt job.request ∷ [];
}

-- One round of `_work_loop` for a job that is running.
unfoldable pub work_round :
    ℕ → ℕ → Surroundings → Text → Text → BackgroundJob → Shop → Ending × Shop
work_round waits steps around exception instructions job s =
    settle_job job.id exception (worker_lane waits steps around (begin_work instructions job s))

-- `next(item for item in jobs if item.status == "queued")`
unfoldable pub first_queued : List BackgroundJob → Option BackgroundJob
first_queued [] = none
first_queued (j ∷ js) =
    let rest = first_queued js in if text_eq j.status queued then some j else rest

-- The choice of the next job: it is running from then on.
unfoldable pub take_job : Text → List JobRow → Option (Result JobError BackgroundJob × List JobRow)
unfolding first_queued
take_job conversation rows = elim (first_queued (list_jobs (some conversation) rows)) [
  | none ↦ none
  | some job ↦ some (update_job job.id (field (codes "status") (str running) end) rows)
]
