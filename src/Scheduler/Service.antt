-- ===== src/Scheduler/Service.antt =====
-- The queues of service events and their workers: `dispatch_service_event`,
-- `_ensure_service_worker` and `_run_service_queue`. A step is what runs between two points at which
-- the event loop may switch tasks.
pub mod Parts
pub mod Stranding
pub mod Restoring
use mutsumi_s_sync.Common.{ℕ, Bool, true, false, not, ◌≡◌, Option, none, some, List, [], ◌∷◌, ◌++◌}
use mutsumi_s_sync.Common.{
  Text, text_eq, any, is_empty, filter, if◌then◌else◌, Result, ok, err, Dict, get, put, remove,
}
use mutsumi_s_sync.Message.{MessageEvent}
use mutsumi_s_sync.Ledger.{Ledger, cancelled, received, get_event, update_event_status}
use mutsumi_s_sync.Scheduler.Keys.{make_key}

pub data ShuttingDown : Type 0 where
  shutting_down_error : ShuttingDown

abbrev pub Queue : Type 0
Queue = List (MessageEvent × Text)

-- A worker is created and has not run yet, waits for an event, or runs the event with an id. One
-- that is cancelled before it runs is done without its `finally`, and its entry stays.
pub data Worker : Type 0 where
  created waiting lost : Worker
  running : Text → Worker

-- `user_keys` are the keys that have a window and a session, `episode_timers` those for which a
-- summary is due. `workers` is `_service_workers`.
pub record ServiceState : Type 0 where
  pub queues : Dict Queue
  pub workers : Dict Worker
  pub event_ids : List Text
  pub user_keys : List Text
  pub episode_timers : List Text
  pub shutting_down : Bool
  pub ledger : Ledger

abbrev pub queue_of : Text → ServiceState → Queue
queue_of key s = elim (get key s.queues) [ none ↦ [] | some q ↦ q ]

abbrev pub has_entry : Text → ServiceState → Bool
has_entry key s = elim (get key s.workers) [ none ↦ false | some w ↦ true ]

-- `not worker.done()`
abbrev pub is_live : Worker → Bool
is_live lost = false
is_live _ = true

abbrev pub has_worker : Text → ServiceState → Bool
has_worker key s = elim (get key s.workers) [ none ↦ false | some w ↦ is_live w ]

abbrev pub is_queued : Text → ServiceState → Bool
is_queued event_id s = any (λ id. text_eq id event_id) s.event_ids

abbrev pub discard : Text → List Text → List Text
discard event_id ids = filter (λ id. not (text_eq id event_id)) ids

-- `_ensure_user_state`
abbrev pub ensure_key : Text → List Text → List Text
ensure_key key keys = if any (λ k. text_eq k key) keys then keys else key ∷ keys

-- `_ensure_service_worker`
unfoldable pub ensure_worker : Text → ServiceState → ServiceState
unfolding get put
ensure_worker key s =
    if has_worker key s then s else record s { workers = put key created s.workers }

unfoldable pub dispatch_service_event :
    MessageEvent → Text → ServiceState → Result ShuttingDown (Unit {0}) × ServiceState
unfolding ensure_worker get put make_key
dispatch_service_event event event_id s =
    if s.shutting_down
    then (err shutting_down_error, s)
    else if is_queued event_id s
    then (ok tt, s)
    else let key = make_key event in
      (
        ok tt,
        ensure_worker key (record s {
          queues = put key (queue_of key s ++ (event, event_id) ∷ []) s.queues;
          event_ids = event_id ∷ s.event_ids;
          user_keys = ensure_key key s.user_keys;
        }),
      )

-- `queue.get()` of a worker: the event at the front becomes the running one, and
-- its run begins with the cancellation of a summary that is due.
unfoldable pub take_event : Text → Text → Queue → ServiceState → ServiceState
unfolding put
take_event key event_id rest s = record s {
  queues = put key rest s.queues;
  workers = put key (running event_id) s.workers;
  episode_timers = discard key s.episode_timers;
}

-- The end of a round in which the pipeline returned or raised; `after` is the ledger that it left.
-- With no event waiting, a summary of the episode becomes due.
unfoldable pub finish_event : Text → Text → Ledger → ServiceState → ServiceState
unfolding put
finish_event key event_id after s = record s {
  workers = put key waiting s.workers;
  event_ids = discard event_id s.event_ids;
  episode_timers =
      if is_empty (queue_of key s)
      then discard key s.episode_timers ++ key ∷ []
      else s.episode_timers;
  ledger = after;
}

-- The outer `finally` of a worker: it leaves, and a queue that is not empty gets a new worker.
unfoldable pub stop_worker : Text → ServiceState → ServiceState
unfolding ensure_worker get remove
stop_worker key s =
    let gone = record s { workers = remove key s.workers } in
    if is_empty (queue_of key s)
    then record gone { queues = remove key s.queues }
    else if s.shutting_down
    then gone
    else ensure_worker key gone

-- A cancelled event that its pipeline has marked so goes back to `received`.
unfoldable pub restore_cancelled : Text → Ledger → Ledger
unfolding get_event update_event_status
restore_cancelled event_id ledger = elim (get_event event_id ledger) [
  | none ↦ ledger
  | some row ↦
      if text_eq row.status cancelled
      then update_event_status event_id received none ledger
      else ledger
]

-- The worker is cancelled while it runs an event, whose pipeline left the ledger `after`.
unfoldable pub cancel_running : Text → Text → Ledger → ServiceState → ServiceState
unfolding stop_worker restore_cancelled
cancel_running key event_id after s = stop_worker key (record s {
  event_ids = discard event_id s.event_ids;
  ledger = restore_cancelled event_id after;
})

abbrev pub start_state : Ledger → ServiceState
start_state ledger = record {
  queues = [];
  workers = [];
  event_ids = [];
  user_keys = [];
  episode_timers = [];
  shutting_down = false;
  ledger = ledger;
}

-- What the event loop can do next. `lost_early` is the cancellation of a worker that has not run
-- yet. `idle` is a worker that waited for 60 seconds, or was cancelled
-- while it waited; the queue may have been filled by then.
pub data Step : ServiceState → ServiceState → Type 0 where
  dispatched :
      (event : MessageEvent) (event_id : Text) (s : ServiceState)
      → Step s (dispatch_service_event event event_id s).1
  first_run :
      (key : Text) (s : ServiceState)
      → get key s.workers ≡ some created
      → Step s (record s { workers = put key waiting s.workers })
  lost_early :
      (key : Text) (s : ServiceState)
      → get key s.workers ≡ some created
      → Step s (record s { workers = put key lost s.workers })
  taken :
      (key event_id : Text) (event : MessageEvent) (rest : Queue) (s : ServiceState)
      → get key s.workers ≡ some waiting
      → queue_of key s ≡ (event, event_id) ∷ rest
      → Step s (take_event key event_id rest s)
  finished :
      (key event_id : Text) (after : Ledger) (s : ServiceState)
      → get key s.workers ≡ some (running event_id)
      → Step s (finish_event key event_id after s)
  cancelled_running :
      (key event_id : Text) (after : Ledger) (s : ServiceState)
      → get key s.workers ≡ some (running event_id)
      → Step s (cancel_running key event_id after s)
  idle :
      (key : Text) (s : ServiceState)
      → get key s.workers ≡ some waiting
      → Step s (stop_worker key s)
  summarized :
      (key : Text) (s : ServiceState)
      → Step s (record s { episode_timers = discard key s.episode_timers })
  shut_down : (s : ServiceState) → Step s (record s { shutting_down = true })

pub data Reachable (ledger : Ledger) : ServiceState → Type 0 where
  started : Reachable ledger (start_state ledger)
  stepped : {s t : ServiceState} → Reachable ledger s → Step s t → Reachable ledger t
