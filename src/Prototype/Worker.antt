-- ===== src/Prototype/Worker.antt =====
-- The background worker of archive/v3/src/mutsumi_sync/prototype/runtime.py: `_worker_action`, the
-- worker's lane of `pipeline`, and a round of `_work_loop`. What other tasks do while the worker
-- waits is a parameter, a function on the state that the worker sees.
pub mod Failures
pub mod Lane
pub mod Ends
use mutsumi_s_sync.Common.{
  ℕ, zero, suc, ◌+◌, Bool, true, false, not, ◌&&◌, ◌||◌, Option, none, some, List, [], ◌∷◌, ◌++◌,
}
use mutsumi_s_sync.Common.{
  Text, codes, text_eq, is_empty, any, strip, starts_with, leb, if◌then◌else◌, Result, ok, err,
  Dict, get, put, map,
}
use mutsumi_s_sync.Json.{Json, str, Fields, end, field}
use mutsumi_s_sync.Jobs.{
  BackgroundJob, JobRow, JobError, get_job, list_jobs, update_job, is_one_of, queued, running,
  unknown,
}
use mutsumi_s_sync.Jobs.Settling.{settled_fields}
use mutsumi_s_sync.Prototype.Chat.{ModelTask, no_task, active, cancelling}
use mutsumi_s_sync.Prototype.Tasks.{Work, Call}

-- A message of the worker's conversation with the model.
pub data Message : Type 0 where
  prompt : Text → Message
  supplement : List Text → Message
  native : List Call → Message
  tool_result : Text → Text → Message

-- `messages` is the worker's conversation with the model. `log` has the names of the tools that were started, the newest first (the records
-- `worker_tool_call`). `is_pending` and `allow_tools` are those of the conversation.
pub record Shop : Type 0 where
  pub closing : Bool
  pub is_pending : Bool
  pub allow_tools : Bool
  pub jobs : List JobRow
  pub work : Work
  pub log : List Text
  pub messages : List Message

abbrev pub forbidden_worker_tools : List Text
forbidden_worker_tools =
    codes "send" ∷ codes "status_update" ∷ codes "no_reply" ∷ codes "background_task" ∷ []

-- What the lock section of `_worker_action` decides; `go_round` goes round the loop.
pub data Gate : Type 0 where
  go_round skipped unavailable stopped_after_failures may_start : Gate

abbrev pub failures_of : Text → Work → ℕ
failures_of name w = elim (get name w.failures) [ none ↦ 0 | some n ↦ n ]

-- `has_tool` says whether the registry of worker tools has the name.
unfoldable pub worker_gate : (Text → Bool) → Text → Shop → Gate
unfolding get
worker_gate has_tool name s =
    if s.closing
    then skipped
    else if s.is_pending || not s.allow_tools
    then go_round
    else if s.work.stop || s.work.restart
    then skipped
    else if is_one_of forbidden_worker_tools name || not (has_tool name)
    then unavailable
    else if leb 3 (failures_of name s.work)
    then stopped_after_failures
    else may_start

-- What `execute` returned, or that it timed out.
pub data Executed : Type 0 where
  returned : Text → Executed
  timed_out : Executed

abbrev pub action_field : Text → Fields → Fields
action_field name rest = field (codes "active_action") (str name) rest

abbrev pub with_job : BackgroundJob → Work → Work
with_job job w = record w { job = job }

abbrev pub update_work : Fields → Shop → Result JobError (Unit {0}) × Shop
update_work fields s =
    let (changed, rows) = update_job s.work.job.id fields s.jobs in
    elim changed [
      | err e ↦ (err e, record s { jobs = rows })
      | ok job ↦ (ok tt, record s { jobs = rows; work = with_job job s.work })
    ]

unfoldable pub start_action : Call → Shop → Result JobError (Unit {0}) × Shop
start_action call s =
    let (done, after) = update_work (action_field (call.id ++ codes ":" ++ call.name) end) s in
    elim done [
      | err e ↦ (err e, after)
      | ok u ↦ (ok tt, record after { log = call.name ∷ after.log })
    ]

abbrev pub timeout_text : Text
timeout_text =
    codes "[Error: tool timed out; external outcome is unknown; do not repeat automatically]"

abbrev pub count_failure : Text → Text → Work → Work
count_failure name result w = record w {
  failures =
      put name (if starts_with result (codes "[Error:") then suc (failures_of name w) else 0)
        w.failures;
}

-- What follows `execute`.
unfoldable pub finish_action : Call → Executed → Shop → Result JobError Text × Shop
unfolding put get
finish_action call timed_out s =
    let stopped = record s { work = record (s.work) { stop = true } } in
    let (done, after) = update_work (settled_fields unknown timeout_text false) stopped in
    elim done [ err e ↦ (err e, after) | ok u ↦ (ok timeout_text, after) ]
finish_action call (returned result) s =
    let counted = record s { work = count_failure call.name result s.work } in
    let (done, after) = update_work (action_field [] end) counted in
    elim done [ err e ↦ (err e, after) | ok u ↦ (ok result, after) ]

-- The text that takes the place of a result.
abbrev pub gate_text : Gate → Text → Text
gate_text unavailable name =
    codes "[Error: tool " ++ name ++ codes " is unavailable to background work]"
gate_text stopped_after_failures name =
    codes "[Error: tool " ++ name ++ codes " stopped after three consecutive failures]"
gate_text _ name = codes "[Error: skipped before start because the user changed the task]"

-- What the rest of the program does while the worker waits: for `allow_tools` and the lock, and for
-- a tool to return. `cut` says whether the worker's task is cancelled in a wait that begins in the
-- state.
pub record Outside : Type 0 where
  pub has_tool : Text → Bool
  pub cut : Shop → Bool
  pub opened : Shop → Shop
  pub execute : Call → Shop → Executed × Shop

-- How the wait for `_worker_action` ends; `blocked` is a loop that has not ended after the rounds it
-- was given, `interrupted_action` a cancellation of the worker.
pub data Acted : Type 0 where
  blocked interrupted_action : Acted
  raised : JobError → Acted
  answered : Text → Acted

abbrev acted : Result JobError Text → Acted
acted (err e) = raised e
acted (ok text) = answered text

-- `_worker_action` from the start of the action on.
unfoldable pub run_action : Outside → Call → Shop → Acted × Shop
run_action o call s =
    let (done, started) = start_action call s in
    let (result, later) = o.execute call started in
    let (text, finished) = finish_action call result later in
    elim done [ err e ↦ (raised e, started) | ok u ↦ (acted text, finished) ]

-- `_worker_action`, with the number of times that its loop may take the lock.
unfoldable pub worker_action : ℕ → Outside → Call → Shop → Acted × Shop
worker_action zero o call s = (blocked, s)
worker_action (suc rounds) o call s =
    let now = o.opened s in
    let later = worker_action rounds o call now in
    elim (worker_gate o.has_tool call.name now) [
      | may_start ↦ run_action o call now
      | go_round ↦ later
      | skipped ↦ (answered (gate_text skipped call.name), now)
      | unavailable ↦ (answered (gate_text unavailable call.name), now)
      | stopped_after_failures ↦ (answered (gate_text stopped_after_failures call.name), now)
    ]

-- One call of an answer, whose text the model is shown. The action is shielded: when the worker is
-- cancelled it goes on to its end, which comes here before the worker settles the job.
unfoldable pub run_call : ℕ → Outside → Call → Shop → Acted × Shop
run_call rounds o call s =
    if s.work.restart || s.work.stop
    then (answered (gate_text skipped call.name), s)
    else let acted = worker_action rounds o call s in
      if o.cut s then (interrupted_action, acted.1) else acted

abbrev pub add_message : Message → Shop → Shop
add_message m s = record s { messages = s.messages ++ m ∷ [] }

-- The loop over the calls of an answer, up to the first exception.
unfoldable pub run_calls : ℕ → Outside → List Call → Shop → Acted × Shop
run_calls rounds o [] s = (answered [], s)
run_calls rounds o (call ∷ calls) s =
    let done = run_call rounds o call s in
    elim done.0 [
      | blocked ↦ (blocked, done.1)
      | interrupted_action ↦ (interrupted_action, done.1)
      | raised e ↦ (raised e, done.1)
      | answered text ↦ run_calls rounds o calls (add_message (tool_result call.id text) done.1)
    ]
