-- ===== src/Prototype/Tasks.antt =====
-- What a chat turn does to the durable jobs of its conversation
-- (archive/v3/src/mutsumi_sync/prototype/runtime.py): the `background_task` tool of `_manage_task`,
-- and the delivery of a reply and of job results in `_publish_reply`.
pub mod Managing
pub mod Publishing
use mutsumi_s_sync.Common.{
  ℕ, zero, suc, ◌+◌, Bool, true, false, not, ◌&&◌, ◌||◌, Option, none, some, List, [], ◌∷◌, ◌++◌,
  map,
}
use mutsumi_s_sync.Common.{
  Text, codes, text_eq, is_empty, any, strip, join, if◌then◌else◌, Result, ok, err, Dict,
}
use mutsumi_s_sync.Json.{
  Json, str, arr, obj, boolean, Fields, end, field, get_field, get_or_null, text_items,
}
use mutsumi_s_sync.Jobs.{
  BackgroundJob, JobRow, JobError, JobSource, create_job, list_jobs, update_job, is_one_of, queued,
  running,
}
use mutsumi_s_sync.Store.Journal.{JournalEntry, Journal, append_inner_journal}
use mutsumi_s_sync.Prototype.Chat.{ModelTask, Turn, Input, Chat, with_turn}
use mutsumi_s_sync.Prototype.Chat.Operations.{cancel}
use mutsumi_s_sync.Prototype.Protocol.{Reply}

-- What the worker of a conversation has in hand.
pub record Work : Type 0 where
  pub job : BackgroundJob
  pub model_task : ModelTask
  pub restart : Bool
  pub stop : Bool
  pub failures : Dict ℕ

pub record Call : Type 0 where
  pub id : Text
  pub name : Text
  pub arguments : Json

-- The result of the tool, of which the source writes the text.
pub data Answer : Type 0 where
  superseded_input only_background_task invalid_arguments update_requires_request invalid_action :
      Answer
  accepted stop_requested updated : Text → Answer
  report : List BackgroundJob → Answer

-- `answers` are the entries of `turn.tool_messages` that this tool adds, with the id of the call.
pub record TaskState : Type 0 where
  pub jobs : List JobRow
  pub work : Option Work
  pub worker : Bool
  pub answers : List (Text × Answer)

-- What the turn and its conversation say of themselves. `original` are the inputs as text.
pub record Asker : Type 0 where
  pub conversation_id : Text
  pub actor_id : Text
  pub peer_chat_type : ℕ
  pub peer_uid : Text
  pub input_event_ids : List Text
  pub original : Text

abbrev says : Text → Json → Bool
says word (str t) = text_eq t word
says word _ = false

-- `set(args) - {"action", "request"}` is empty.
unfoldable pub only_action_and_request : Fields → Bool
only_action_and_request end = true
only_action_and_request (field k v fs) =
    (text_eq k (codes "action") || text_eq k (codes "request")) && only_action_and_request fs

-- `args.get("request", "")`, when it is a string
unfoldable pub request_of : Fields → Option Text
unfolding get_field
request_of args = elim (get_field (codes "request") args) [
  | none ↦ some []
  | some (str t) ↦ some t
  | some _ ↦ none
]

abbrev is_active : BackgroundJob → Bool
is_active j = text_eq j.status running || text_eq j.status queued

-- `next(…, None)`
unfoldable pub first_active : List BackgroundJob → Option BackgroundJob
first_active [] = none
first_active (j ∷ js) = let rest = first_active js in if is_active j then some j else rest

-- `list(dict.fromkeys(…))`, with the values that were seen
unfoldable pub without_repeats : List Text → List Text → List Text
without_repeats seen [] = []
without_repeats seen (t ∷ ts) =
    if is_one_of seen t then without_repeats seen ts else t ∷ without_repeats (t ∷ seen) ts

abbrev pub start_source : Asker → Text → JobSource
start_source a request = record {
  conversation_id = a.conversation_id;
  actor_id = a.actor_id;
  peer_chat_type = a.peer_chat_type;
  peer_uid = a.peer_uid;
  request = request ++ codes "\n\n原始输入（保留完整要求）：\n" ++ a.original;
  input_event_ids = a.input_event_ids;
}

abbrev pub addition_of : Asker → Bool → Text → Text
addition_of a is_cancel request =
    (if is_cancel then codes "用户请求停止尚未开始的动作。" else request) ++ codes "\n原始补充输入：\n" ++ a.original

abbrev pub update_fields_of : Asker → Text → BackgroundJob → Fields
update_fields_of a addition j =
    field (codes "updates") (arr (text_items (j.updates ++ addition ∷ []))) (
      field (codes "input_event_ids")
        (arr (text_items (without_repeats [] (j.input_event_ids ++ a.input_event_ids)))) end)

abbrev pub cancelled_fields : Text → Fields
cancelled_fields addition =
    field (codes "status") (str (codes "cancelled")) (field (codes "result") (str addition) end)

abbrev pub is_in_hand : Text → Option Work → Bool
is_in_hand id none = false
is_in_hand id (some w) = text_eq w.job.id id

abbrev pub redirected : BackgroundJob → Bool → Work → Work
redirected job is_cancel w = record w {
  job = job;
  restart = true;
  stop = is_cancel;
  model_task = cancel w.model_task;
}

abbrev redirect : BackgroundJob → Bool → Option Work → Option Work
redirect job is_cancel none = none
redirect job is_cancel (some w) = some (redirected job is_cancel w)

abbrev pub answer_to : Bool → Text → Answer
answer_to is_cancel id = if is_cancel then stop_requested id else updated id

-- `update_job(job.id, status="cancelled", result=addition)` of a job that is not in hand.
unfoldable pub cancel_queued : Text → Text → TaskState → Result JobError Answer × TaskState
cancel_queued id addition s =
    let (done, rows) = update_job id (cancelled_fields addition) s.jobs in
    elim done [
      | err e ↦ (err e, record s { jobs = rows })
      | ok gone ↦ (ok (stop_requested id), record s { jobs = rows })
    ]

-- The branch of `update` and `cancel` for an active job.
unfoldable pub change_active :
    Asker → Bool → Text → BackgroundJob → TaskState → Result JobError Answer × TaskState
unfolding without_repeats cancel_queued
change_active a is_cancel request active s =
    let addition = addition_of a is_cancel request in
    let (changed, after) = update_job active.id (update_fields_of a addition active) s.jobs in
    elim changed [
      | err e ↦ (err e, record s { jobs = after })
      | ok job ↦
          if is_in_hand job.id s.work
          then (
            ok (answer_to is_cancel job.id),
            record s { jobs = after; work = redirect job is_cancel s.work },
          )
          else if is_cancel
          then cancel_queued job.id addition (record s { jobs = after })
          else (ok (updated job.id), record s { jobs = after })
    ]

abbrev is_blank : Text → Bool
is_blank t = is_empty (strip t)

-- The branch of `start`. `digest`, `fresh` and `now` are those of `create_job`.
unfoldable pub start_job :
    (Text → List Text → Text)
    → Text
    → ℕ
    → Bool
    → Asker
    → Text
    → TaskState
    → Result JobError Answer × TaskState
unfolding create_job
start_job digest fresh now closing a request s =
    let (made, rows) = create_job digest fresh now (start_source a request) s.jobs in
    elim made [
      | err e ↦ (err e, record s { jobs = rows })
      | ok job ↦ (ok (accepted job.id), record s { jobs = rows; worker = s.worker || not closing })
    ]

-- The branches for the other actions.
unfoldable pub manage_active : Asker → Json → Text → TaskState → Result JobError Answer × TaskState
unfolding change_active first_active list_jobs
manage_active a action request s =
    if says (codes "status") action
    then (ok (report (list_jobs (some a.conversation_id) s.jobs)), s)
    else elim (first_active (list_jobs (some a.conversation_id) s.jobs)) [
      | none ↦ (ok invalid_action, s)
      | some active ↦
          if says (codes "update") action && is_blank request
          then (ok update_requires_request, s)
          else if says (codes "update") action
          then change_active a false request active s
          else if says (codes "cancel") action
          then change_active a true request active s
          else (ok invalid_action, s)
    ]

-- What the tool does with its arguments.
unfoldable pub act :
    (Text → List Text → Text)
    → Text
    → ℕ
    → Bool
    → Asker
    → Fields
    → TaskState
    → Result JobError Answer × TaskState
unfolding request_of only_action_and_request start_job manage_active get_or_null
act digest fresh now closing a args s = elim (request_of args) [
  | none ↦ (ok invalid_arguments, s)
  | some request ↦
      if only_action_and_request args
      then (if says (codes "start") (get_or_null (codes "action") args) && not (is_blank request)
          then start_job digest fresh now closing a request s
          else manage_active a (get_or_null (codes "action") args) request s)
      else (ok invalid_arguments, s)
]

abbrev note_answer : Text → Result JobError Answer × TaskState → Result JobError Answer × TaskState
note_answer id (err e, s) = (err e, s)
note_answer id (ok x, s) = (ok x, record s { answers = s.answers ++ (id, x) ∷ [] })

-- `_manage_task`; `stale` is what the turn and the conversation say under the lock.
unfoldable pub manage_task :
    (Text → List Text → Text)
    → Text
    → ℕ
    → Bool
    → Bool
    → Asker
    → Call
    → TaskState
    → Result JobError Answer × TaskState
unfolding act
manage_task digest fresh now closing stale a call s =
    if stale
    then (ok superseded_input, s)
    else note_answer call.id (elim call.arguments [
      | obj args ↦
          if text_eq call.name (codes "background_task")
          then act digest fresh now closing a args s
          else (ok only_background_task, s)
      | _ ↦ (ok only_background_task, s)
    ])
