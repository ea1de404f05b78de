-- ===== src/Prototype/Chat/Operations.antt =====
-- The operations of archive/v3/src/mutsumi_sync/prototype/runtime.py on one conversation: `submit`,
-- the choice of a turn in `_chat_loop`, `_deliver`, the decision of `_publish_reply`, and `close`.
use mutsumi_s_sync.Common.{
  ℕ, suc, ◌+◌, ◌==◌, Bool, true, false, not, ◌&&◌, ◌||◌, Option, none, some, List, [], ◌∷◌, ◌++◌,
}
use mutsumi_s_sync.Common.{Text, codes, text_eq, is_empty, any, leb, if◌then◌else◌}
use mutsumi_s_sync.Json.{Json, null, str, obj, end, get_field, get_or_null}
use mutsumi_s_sync.Jobs.{BackgroundJob, get_job, list_jobs, is_one_of, unknown}
use mutsumi_s_sync.Prototype.Chat.{
  RuntimeSettings, Input, ModelTask, no_task, active, cancelling, Turn, SendKind, reply, waiting,
  error, Outcome, succeeded, failed, uncertain, send_started, send_result, delivered, Flight, Chat,
  set_turn, with_turn, is_current, log_entry, new_turn,
}

abbrev pub terminal : List Text
terminal = codes "completed" ∷ codes "failed" ∷ codes "cancelled" ∷ unknown ∷ []

-- The loop of `submit` over the jobs of the conversation.
unfoldable pub due_results : List BackgroundJob → List Text → List Text
due_results [] results = results
due_results (j ∷ js) results = due_results js (
    if is_one_of terminal j.status && not j.delivered && not (is_one_of results j.id)
    then results ++ j.id ∷ []
    else results)

-- `state.turn.superseded = True`
abbrev pub supersede : Option ℕ → (ℕ → Turn) → ℕ → Turn
supersede none turns = turns
supersede (some u) turns = set_turn u (record (turns u) { superseded = true }) turns

-- `_ensure_chat`
abbrev pub ensure_chat : Chat → Chat
ensure_chat c = if c.closing then c else record c { controller = true }

-- `task.cancel()` of a task that is not done
abbrev pub cancel : ModelTask → ModelTask
cancel no_task = no_task
cancel _ = cancelling

-- `state.turn is not None and state.turn.superseded`
abbrev already_cancelled : Chat → Bool
already_cancelled c = elim c.turn [ none ↦ false | some u ↦ (c.turns u).superseded ]

-- `submit`, after the store has given the event its id. `jobs` are those of the conversation.
unfoldable pub submit : Input → Chat → Bool × Chat
unfolding due_results list_jobs
submit event c = if c.closing then (false, c) else (
  true,
  ensure_chat (record c {
    received = c.received ++ event ∷ [];
    pending = c.pending ++ event ∷ [];
    actor_id = event.actor_id;
    allow_tools = false;
    turns = supersede c.turn c.turns;
    chat_task = if already_cancelled c then c.chat_task else cancel c.chat_task;
    results = due_results (list_jobs none c.jobs) c.results;
  }),
)

abbrev start_turn : Turn → Chat → Chat
start_turn turn c = record c {
  turns = set_turn c.created turn c.turns;
  turn = some c.created;
  created = suc c.created;
  chat_task = active;
}

abbrev last_actor : Input → List Input → Text
last_actor i [] = i.actor_id
last_actor i (j ∷ js) = last_actor j js

-- One round of `_chat_loop` under the lock: the pending inputs make a turn, else the first result
-- of a job that is not delivered, else the loop ends.
unfoldable pub next_turn : ℕ → Chat → Chat
unfolding get_job
next_turn now c = elim c.pending [
  | i ∷ is ↦
      start_turn
        (new_turn (i ∷ is) [] i.received_at (any (λ x. x.notify) (i ∷ is)) (last_actor i is))
        (record c { pending = [] })
  | [] ↦ elim c.results [
    | [] ↦ record c { controller = false }
    | id ∷ ids ↦
        let rest = record c { results = ids } in
        elim (get_job id c.jobs) [
          | none ↦ rest
          | some job ↦
              if job.delivered
              then rest
              else start_turn (new_turn [] (id ∷ []) now false job.actor_id) rest
        ]
  ]
]

-- The `finally` of a round.
unfoldable pub end_turn : ℕ → Chat → Chat
end_turn t c = record c {
  turns = set_turn t (record (c.turns t) { finished = true }) c.turns;
  turn = if is_current t c then none else c.turn;
  chat_task = no_task;
}

-- `closing or turn.superseded or state.turn is not turn or state.pending`
abbrev pub is_stale : ℕ → Chat → Bool
is_stale t c = (c.turns t).superseded || not (is_current t c) || not (is_empty c.pending)

abbrev is_reply_or_waiting : SendKind → Bool
is_reply_or_waiting error = false
is_reply_or_waiting _ = true

abbrev pub is_waiting : SendKind → Bool
is_waiting waiting = true
is_waiting _ = false

-- The three tests of `_deliver` that give the send up.
abbrev may_send : RuntimeSettings → ℕ → Flight → Chat → Bool
may_send settings now f c =
    let turn = c.turns f.turn in
    not c.closing
    && not (is_stale f.turn c)
    && not (
        is_reply_or_waiting f.kind
        && (turn.expired || turn.finished || leb (turn.received_at + settings.chat_timeout) now))
    && not (
        is_waiting f.kind
        && (turn.output_started || turn.silent || turn.wait_claimed || turn.finished))

abbrev claim : SendKind → Turn → Turn
claim waiting turn = record turn { timer = false; wait_claimed = true }
claim _ turn = turn

-- `_deliver` up to `sender.send`, with the `finally` of `_deliver_guard` when the send is given up.
unfoldable pub begin_send : RuntimeSettings → ℕ → Flight → Chat → Bool × Chat
begin_send settings now f c =
    let turn = c.turns f.turn in
    if may_send settings now f c
    then (
      true,
      log_entry f.turn (send_started f.kind f.index) f.text
          (record c { turns = set_turn f.turn (claim f.kind turn) c.turns; sending = some f }),
    )
    else (
      false,
      if is_waiting f.kind
          then with_turn f.turn (record turn { timer = false; wait_done = true }) c
          else c,
    )

abbrev is_object : Json → Bool
is_object (obj fs) = true
is_object _ = false

-- `send_succeeded` of a `dict`
abbrev says_ok : Json → Bool
says_ok (str t) = text_eq t (codes "ok")
says_ok _ = false

-- What the result of `sender.send` means, with `none` for an exception or a timeout.
unfoldable pub outcome_of : Option Json → Outcome
unfolding get_or_null get_field
outcome_of none = uncertain
outcome_of (some (obj fs)) =
    let data_field : Json = elim (get_field (codes "data") fs) [ none ↦ obj end | some v ↦ v ] in
    if is_object data_field && says_ok (get_or_null (codes "status") fs) then succeeded else failed
outcome_of (some v) = failed

unfoldable pub message_id_of : Option Json → Json
unfolding get_field get_or_null
message_id_of (some (obj fs)) = elim (get_field (codes "data") fs) [
  | none ↦ null
  | some v ↦ elim v [ obj gs ↦ get_or_null (codes "message_id") gs | _ ↦ null ]
]
message_id_of _ = null

abbrev count_sent : SendKind → Turn → Turn
count_sent reply turn = record turn { sent_count = suc turn.sent_count }
count_sent waiting turn = record turn { wait_sent = true; model_task = cancel turn.model_task }
count_sent error turn = turn

abbrev set_wait_done : SendKind → Turn → Turn
set_wait_done waiting turn = record turn { wait_done = true }
set_wait_done _ turn = turn

-- `_deliver` from the answer of `sender.send` on.
unfoldable pub finish_send : Flight → Option Json → Chat → Bool × Chat
unfolding outcome_of message_id_of
finish_send f answer c =
    let outcome = outcome_of answer in
    let told =
      log_entry f.turn (send_result f.kind f.index outcome (message_id_of answer)) f.text
        (record c { sending = none }) in
    let turn = c.turns f.turn in
    elim outcome [
      | succeeded ↦ (
        true,
        with_turn f.turn (set_wait_done f.kind (count_sent f.kind turn))
            (log_entry f.turn (delivered f.kind f.index) f.text told),
      )
      | failed ↦ (false, with_turn f.turn (set_wait_done f.kind turn) told)
      | uncertain ↦ (false, with_turn f.turn (set_wait_done f.kind turn) told)
    ]

pub data Disposition : Type 0 where
  stale retry must_wait publish : Disposition

-- One round of the loop of `_publish_reply`; `must_wait` waits for `wait_done` and goes round again.
unfoldable pub decide_reply : List Text → Bool → ℕ → Chat → Disposition × Chat
decide_reply messages saw_wait t c =
    let turn = c.turns t in
    if is_stale t c
    then (stale, c)
    else if turn.wait_claimed && not turn.wait_done
    then (must_wait, c)
    else if turn.wait_sent && not saw_wait
    then (retry, c)
    else (
      publish,
      with_turn t
          (record turn {
            output_started = not (is_empty messages);
            silent = is_empty messages;
            valid = true;
          })
          c,
    )

-- The exception handler of `_chat_turn`.
unfoldable pub expire : ℕ → Chat → Chat
expire t c = with_turn t (record (c.turns t) { expired = true }) c

-- The end of `_chat_turn` without an exception.
unfoldable pub turn_status : Turn → Text
turn_status turn =
    if turn.send_failed
    then codes "error"
    else if not (turn.sent_count == 0)
    then codes "responded"
    else if turn.valid && turn.silent
    then codes "no_reply"
    else codes "error"

unfoldable pub settle_turn : ℕ → Chat → Chat
unfolding turn_status
settle_turn t c =
    let turn = c.turns t in
    if turn.valid && not (text_eq (turn_status turn) (codes "error")) && not (is_stale t c)
    then record c { allow_tools = true }
    else c

-- `close`, of this conversation
unfoldable pub close : Chat → Chat
close c = record c {
  closing = true;
  allow_tools = true;
  turns = supersede c.turn c.turns;
  chat_task = cancel c.chat_task;
}
