-- ===== src/Prototype/Chat.antt =====
-- One conversation of `PrototypeScheduler` (archive/v3/src/mutsumi_sync/prototype/runtime.py): its
-- inputs, its turns and what it sends. A function is what runs while `lock` is held, or between two
-- waits. Times are natural numbers of one unit, turns are numbered in the order of their creation
-- (a `uuid4` never repeats), and the log has what `_record` appends, the newest first.
pub mod Operations
pub mod Steps
pub mod Notices
pub mod Receipts
pub mod Superseded
pub mod Inputs
use mutsumi_s_sync.Common.{
  ℕ, zero, suc, ◌+◌, ◌==◌, Bool, true, false, not, ◌&&◌, ◌||◌, Option, none, some, List, [], ◌∷◌,
  ◌++◌,
}
use mutsumi_s_sync.Common.{
  Text, codes, text_eq, is_empty, any, filter, map, ltb, leb, if◌then◌else◌, Result, ok, err,
}
use mutsumi_s_sync.Json.{Json, null, str, obj, Fields, end, get_field, get_or_null}
use mutsumi_s_sync.Jobs.{BackgroundJob, JobRow, get_job, list_jobs, is_one_of, unknown}

pub record RuntimeSettings : Type 0 where
  pub wait_seconds : ℕ
  pub chat_timeout : ℕ
  pub send_timeout : ℕ
  pub worker_timeout : ℕ
  pub max_worker_steps : ℕ
  pub history_limit : ℕ

pub data SettingsError : Type 0 where
  timeouts_not_positive limits_not_positive : SettingsError

-- `RuntimeSettings.__post_init__`
unfoldable pub check_settings : RuntimeSettings → Result SettingsError (Unit {0})
check_settings s =
    if s.wait_seconds == 0 || s.chat_timeout == 0 || s.send_timeout == 0 || s.worker_timeout == 0
    then err timeouts_not_positive
    else if ltb s.max_worker_steps 1 || ltb s.history_limit 1
    then err limits_not_positive
    else ok tt

pub record Input : Type 0 where
  pub event_id : Text
  pub actor_id : Text
  pub text : Text
  pub received_at : ℕ
  pub notify : Bool

pub data ModelTask : Type 0 where
  no_task active cancelling : ModelTask

-- `timer` says that there is a task of `_wait_notice` that has not come to `_deliver` yet.
pub record Turn : Type 0 where
  pub inputs : List Input
  pub result_jobs : List Text
  pub received_at : ℕ
  pub notify : Bool
  pub actor_id : Text
  pub superseded : Bool
  pub finished : Bool
  pub expired : Bool
  pub silent : Bool
  pub output_started : Bool
  pub timer : Bool
  pub wait_claimed : Bool
  pub wait_sent : Bool
  pub wait_done : Bool
  pub model_task : ModelTask
  pub sent_count : ℕ
  pub send_failed : Bool
  pub valid : Bool

-- The `kind` of a send.
pub data SendKind : Type 0 where
  reply waiting error : SendKind

pub data Outcome : Type 0 where
  succeeded failed uncertain : Outcome

-- The `kind` of a record with its payload; `delivered` has the kind of the send.
pub data Body : Type 0 where
  send_started : SendKind → ℕ → Body
  send_result : SendKind → ℕ → Outcome → Json → Body
  delivered : SendKind → ℕ → Body
  reply_generated : List Text → Body

pub record Entry : Type 0 where
  pub turn : ℕ
  pub body : Body
  pub content : Text

-- A send that has begun and has no result yet; it holds `send_lock`.
pub record Flight : Type 0 where
  pub turn : ℕ
  pub kind : SendKind
  pub index : ℕ
  pub text : Text

-- `turn` is the one that `state.turn` refers to, `turns` the objects, also of earlier turns that
-- tasks still hold. `created` turns exist. `received` are the inputs that `submit` stored. `chat_task` says whether the task of the turn runs.
pub record Chat : Type 0 where
  pub closing : Bool
  pub received : List Input
  pub pending : List Input
  pub results : List Text
  pub actor_id : Text
  pub allow_tools : Bool
  pub turn : Option ℕ
  pub created : ℕ
  pub turns : ℕ → Turn
  pub chat_task : ModelTask
  pub controller : Bool
  pub sending : Option Flight
  pub log : List Entry
  pub jobs : List JobRow

abbrev pub set_turn : ℕ → Turn → (ℕ → Turn) → ℕ → Turn
set_turn t turn turns = λ u. if t == u then turn else turns u

abbrev pub with_turn : ℕ → Turn → Chat → Chat
with_turn t turn c = record c { turns = set_turn t turn c.turns }

-- `state.turn is turn`
abbrev pub is_current : ℕ → Chat → Bool
is_current t c = elim c.turn [ none ↦ false | some u ↦ t == u ]

-- `_record`
abbrev pub log_entry : ℕ → Body → Text → Chat → Chat
log_entry t body content c = record c {
  log = record { turn = t; body = body; content = content } ∷ c.log;
}

abbrev pub new_turn : List Input → List Text → ℕ → Bool → Text → Turn
new_turn inputs result_jobs received_at notify actor_id = record {
  inputs = inputs;
  result_jobs = result_jobs;
  received_at = received_at;
  notify = notify;
  actor_id = actor_id;
  superseded = false;
  finished = false;
  expired = false;
  silent = false;
  output_started = false;
  timer = notify;
  wait_claimed = false;
  wait_sent = false;
  wait_done = false;
  model_task = no_task;
  sent_count = 0;
  send_failed = false;
  valid = false;
}
