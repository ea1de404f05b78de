-- ===== src/Scheduler/Service/Stranding.antt =====
-- No service event is left in a queue without a worker.
use mutsumi_s_sync.Common.{
  ◌≡◌, refl, subst, ap, ◌∙◌, Bool, true, false, ◌⊎◌, inl, inr, Option, none, some, List, [], ◌∷◌,
  ◌++◌, arith, Bool-cases, if_true, if_false, sym, if◌then◌else◌, Result,
}
use mutsumi_s_sync.Common.{Text, text_eq, text_eq_refl, is_empty, Dict, get, put, remove}
use mutsumi_s_sync.Message.{MessageEvent}
use mutsumi_s_sync.Ledger.{Ledger}
use mutsumi_s_sync.Scheduler.Keys.{make_key}
use mutsumi_s_sync.Scheduler.Service.{
  ShuttingDown, Queue, Worker, created, waiting, running, lost, ServiceState, queue_of, has_worker,
  has_entry, is_queued, first_run, lost_early, ensure_worker, dispatch_service_event, take_event,
  finish_event, stop_worker, cancel_running, Step, dispatched, taken, finished, cancelled_running,
  idle, summarized, shut_down, Reachable, started, stepped,
}
use mutsumi_s_sync.Scheduler.Service.Parts.{
  has_entry-put, has_entry-gone, ensure_worker-has_entry, ensure_worker-has_worker,
  ensure_worker-rest, queue_of-put, enqueued, dispatch-down, dispatch-known, dispatch-new, gone,
  queue_of-remove, ensure_worker-queue_of,
}

-- A queue with events in it has an entry in `_service_workers`, unless the scheduler is shutting
-- down.
abbrev IsAttended : ServiceState → Text → Type 0
IsAttended s key = (s.shutting_down ≡ true) ⊎ (queue_of key s ≡ []) ⊎ (has_entry key s ≡ true)

-- What decides whether a key is served.
IsAttended-of :
    (s : ServiceState) (key : Text) (down worker : Bool) (q : Queue)
    → s.shutting_down ≡ down
    → queue_of key s ≡ q
    → has_entry key s ≡ worker
    → (down ≡ true) ⊎ (q ≡ []) ⊎ (worker ≡ true)
    → IsAttended s key
IsAttended-of s key down worker q a b c (inl h) = inl (a ∙ h)
IsAttended-of s key down worker q a b c (inr (inl h)) = inr (inl (b ∙ h))
IsAttended-of s key down worker q a b c (inr (inr h)) = inr (inr (c ∙ h))

ensure_worker-IsAttended :
    (k key : Text) (s : ServiceState)
    → (text_eq k key ≡ true) ⊎ IsAttended s key
    → IsAttended (ensure_worker k s) key
ensure_worker-IsAttended k key s h =
    IsAttended-of (ensure_worker k s) key s.shutting_down
      (if text_eq k key then true else has_entry key s) (queue_of key s) (ensure_worker-rest k s).1
      (ap (λ (d : Dict Queue). elim (get key d) as (λ x. Queue) [ none ↦ [] | some q ↦ q ])
        (ensure_worker-rest k s).0)
      (ensure_worker-has_entry k key s) (cases h)
  where
    cases :
        (text_eq k key ≡ true) ⊎ IsAttended s key
        → (s.shutting_down ≡ true)
          ⊎ (queue_of key s ≡ [])
          ⊎ ((if text_eq k key then true else has_entry key s) ≡ true)
    cases (inl e) = inr (inr (rw e))
    cases (inr (inl d)) = inl d
    cases (inr (inr (inl q))) = inr (inl q)
    cases (inr (inr (inr w))) = inr (inr (ground arith))

enqueued-IsAttended :
    (event : MessageEvent) (event_id key : Text) (s : ServiceState)
    → text_eq (make_key event) key ≡ false
    → IsAttended s key
    → IsAttended (enqueued event event_id s) key
enqueued-IsAttended event event_id key s e h =
    IsAttended-of (enqueued event event_id s) key s.shutting_down (has_entry key s) (queue_of key s)
      refl
      (queue_of-put (make_key event) key (queue_of (make_key event) s ++ (event, event_id) ∷ []) s
        ∙ if_false _ _ _ e)
      refl h

dispatch-IsAttended :
    (event : MessageEvent) (event_id key : Text) (s : ServiceState)
    → IsAttended s key
    → IsAttended (dispatch_service_event event event_id s).1 key
dispatch-IsAttended event event_id key s h = elim (Bool-cases s.shutting_down) [
  | inl down ↦ subst (λ t. IsAttended t.1 key) (sym (dispatch-down event event_id s down)) h
  | inr up ↦ elim (Bool-cases (is_queued event_id s)) [
    | inl known ↦ subst (λ t. IsAttended t.1 key) (sym (dispatch-known event event_id s up known)) h
    | inr new ↦
        subst (λ t. IsAttended t.1 key) (sym (dispatch-new event event_id s up new))
          (ensure_worker-IsAttended (make_key event) key (enqueued event event_id s)
            (elim (Bool-cases (text_eq (make_key event) key)) [
              | inl e ↦ inl e
              | inr e ↦ inr (enqueued-IsAttended event event_id key s e h)
            ]))
  ]
]

gone-IsAttended :
    (k key : Text) (s : ServiceState)
    → text_eq k key ≡ false
    → IsAttended s key
    → IsAttended (gone k s) key
gone-IsAttended k key s e h =
    IsAttended-of (gone k s) key s.shutting_down (has_entry key s) (queue_of key s) refl refl
      (has_entry-gone k key s ∙ if_false _ _ _ e) h

closed-IsAttended :
    (k key : Text) (s : ServiceState)
    → IsAttended s key
    → IsAttended (record (gone k s) { queues = remove k s.queues }) key
closed-IsAttended k key s h = elim (Bool-cases (text_eq k key)) [
  | inl e ↦ inr (inl (queue_of-remove k key (gone k s) ∙ if_true _ _ _ e))
  | inr e ↦
      IsAttended-of (record (gone k s) { queues = remove k s.queues }) key s.shutting_down
        (has_entry key s) (queue_of key s) refl
        (queue_of-remove k key (gone k s) ∙ if_false _ _ _ e)
        (has_entry-gone k key s ∙ if_false _ _ _ e) h
]

stop_worker-IsAttended :
    (k key : Text) (s : ServiceState) → IsAttended s key → IsAttended (stop_worker k s) key
unfolding stop_worker
stop_worker-IsAttended k key s h = elim (Bool-cases (is_empty (queue_of k s))) [
  | inl e ↦ subst (λ t. IsAttended t key) (sym (if_true _ _ _ e)) (closed-IsAttended k key s h)
  | inr e ↦ elim (Bool-cases s.shutting_down) [
    | inl down ↦
        subst (λ t. IsAttended t key) (sym (if_false _ _ _ e ∙ if_true _ _ _ down)) (inl down)
    | inr up ↦
        subst (λ t. IsAttended t key) (sym (if_false _ _ _ e ∙ if_false _ _ _ up))
          (ensure_worker-IsAttended k key (gone k s) (elim (Bool-cases (text_eq k key)) [
            | inl f ↦ inl f
            | inr f ↦ inr (gone-IsAttended k key s f h)
          ]))
  ]
]

-- A step that leaves a worker at `k`, and every other queue as it was.
worker_at-IsAttended :
    (k key : Text) (w : Worker) (queues : Dict Queue) (ids timers : List Text) (ledger : Ledger)
    (s : ServiceState)
    → let after = record s {
      queues = queues;
      workers = put k w s.workers;
      event_ids = ids;
      episode_timers = timers;
      ledger = ledger;
    } in
      (text_eq k key ≡ true) ⊎ (queue_of key after ≡ queue_of key s)
      → IsAttended s key
      → IsAttended after key
worker_at-IsAttended k key w queues ids timers ledger s same h = elim (Bool-cases (text_eq k key)) [
  | inl e ↦ inr (inr (has_entry-put k key w s ∙ if_true _ _ _ e))
  | inr e ↦ elim same [
    | inl e' ↦ absurd (ground arith)
    | inr q ↦
        IsAttended-of
          (record s {
            queues = queues;
            workers = put k w s.workers;
            event_ids = ids;
            episode_timers = timers;
            ledger = ledger;
          })
          key s.shutting_down (has_entry key s) (queue_of key s) refl q
          (has_entry-put k key w s ∙ if_false _ _ _ e) h
  ]
]

take_event-IsAttended :
    (k event_id key : Text) (rest : Queue) (s : ServiceState)
    → IsAttended s key
    → IsAttended (take_event k event_id rest s) key
unfolding take_event
take_event-IsAttended k event_id key rest s h =
    worker_at-IsAttended k key (running event_id) (put k rest s.queues) s.event_ids
      (take_event k event_id rest s).episode_timers s.ledger s
      (elim (Bool-cases (text_eq k key)) [
        | inl e ↦ inl e
        | inr e ↦ inr (queue_of-put k key rest s ∙ if_false _ _ _ e)
      ])
      h

finish_event-IsAttended :
    (k event_id key : Text) (after : Ledger) (s : ServiceState)
    → IsAttended s key
    → IsAttended (finish_event k event_id after s) key
unfolding finish_event
finish_event-IsAttended k event_id key after s h =
    worker_at-IsAttended k key waiting s.queues (finish_event k event_id after s).event_ids
      (finish_event k event_id after s).episode_timers after s (inr refl) h

cancel_running-IsAttended :
    (k event_id key : Text) (after : Ledger) (s : ServiceState)
    → IsAttended s key
    → IsAttended (cancel_running k event_id after s) key
unfolding cancel_running
cancel_running-IsAttended k event_id key after s h = stop_worker-IsAttended k key _ h

Step-IsAttended : {s t : ServiceState} (key : Text) → Step s t → IsAttended s key → IsAttended t key
Step-IsAttended key (dispatched event event_id s) h = dispatch-IsAttended event event_id key s h
Step-IsAttended key (first_run k s w) h =
    worker_at-IsAttended k key waiting s.queues s.event_ids s.episode_timers s.ledger s (inr refl) h
Step-IsAttended key (lost_early k s w) h =
    worker_at-IsAttended k key lost s.queues s.event_ids s.episode_timers s.ledger s (inr refl) h
Step-IsAttended key (taken k event_id event rest s w q) h =
    take_event-IsAttended k event_id key rest s h
Step-IsAttended key (finished k event_id after s w) h =
    finish_event-IsAttended k event_id key after s h
Step-IsAttended key (cancelled_running k event_id after s w) h =
    cancel_running-IsAttended k event_id key after s h
Step-IsAttended key (idle k s w) h = stop_worker-IsAttended k key s h
Step-IsAttended key (summarized k s) h = h
Step-IsAttended key (shut_down s) h = inl refl

Reachable-IsAttended :
    (ledger : Ledger) (s : ServiceState) (key : Text) → Reachable ledger s → IsAttended s key
unfolding get
Reachable-IsAttended ledger s key started = inr (inl refl)
Reachable-IsAttended ledger s key (stepped r step) =
    Step-IsAttended key step (Reachable-IsAttended ledger _ key r)

-- A queue with events in it has a worker that is not done, or one that was cancelled before it ran,
-- unless the scheduler is shutting down.
abbrev pub IsServed : ServiceState → Text → Type 0
IsServed s key =
    (s.shutting_down ≡ true)
    ⊎ (queue_of key s ≡ [])
    ⊎ (has_worker key s ≡ true)
    ⊎ (get key s.workers ≡ some lost)

has_entry-cases :
    (s : ServiceState) (key : Text) (o : Option Worker)
    → get key s.workers ≡ o
    → has_entry key s ≡ true
    → (has_worker key s ≡ true) ⊎ (get key s.workers ≡ some lost)
has_entry-cases s key none e h = absurd (ground arith)
has_entry-cases s key (some lost) e h = inr e
has_entry-cases s key (some created) e h = inl (ground arith)
has_entry-cases s key (some waiting) e h = inl (ground arith)
has_entry-cases s key (some (running id)) e h = inl (ground arith)

-- In every state that the service queues can reach, by dispatches, by workers that start, take,
-- finish, idle out or are cancelled in any order, and by a shutdown, the queue of a key is empty or
-- has a worker that is not done, unless the scheduler is shutting down or the worker was cancelled
-- before it ran for the first time.
pub Reachable-IsServed :
    (ledger : Ledger) (s : ServiceState) (key : Text) → Reachable ledger s → IsServed s key
Reachable-IsServed ledger s key r = elim (Reachable-IsAttended ledger s key r) [
  | inl down ↦ inl down
  | inr (inl none_waits) ↦ inr (inl none_waits)
  | inr (inr entry) ↦ inr (inr (has_entry-cases s key (get key s.workers) refl entry))
]

-- Unless the scheduler is shutting down, dispatching an event whose id is queued or running changes
-- nothing; dispatching another one puts it behind the events of its service, notes its id, leaves a
-- worker there, and does not touch any other queue.
pub dispatch_service_event_lem :
    (event : MessageEvent) (event_id : Text) (s : ServiceState)
    → s.shutting_down ≡ false
    → let after = (dispatch_service_event event event_id s).1 in
      ((is_queued event_id s ≡ true) × (after ≡ s))
      ⊎ ((is_queued event_id s ≡ false)
          × (queue_of (make_key event) after
              ≡ queue_of (make_key event) s ++ (event, event_id) ∷ [])
          × (has_worker (make_key event) after ≡ true)
          × (after.event_ids ≡ event_id ∷ s.event_ids)
          × ((other : Text)
              → (text_eq (make_key event) other ≡ true)
                ⊎ (queue_of other after ≡ queue_of other s)))
dispatch_service_event_lem event event_id s up = elim (Bool-cases (is_queued event_id s)) [
  | inl known ↦ inl (
    known,
    ap (λ (x : Result ShuttingDown (Unit {0}) × ServiceState). x.1)
        (dispatch-known event event_id s up known),
  )
  | inr new ↦
      let key = make_key event in
      let queued = enqueued event event_id s in
      let queue = queue_of key s ++ (event, event_id) ∷ [] in
      let same : (dispatch_service_event event event_id s).1 ≡ ensure_worker key queued =
        ap (λ (x : Result ShuttingDown (Unit {0}) × ServiceState). x.1)
          (dispatch-new event event_id s up new) in
      inr (
        rw same (
          new,
          ensure_worker-queue_of key key queued
              ∙ (queue_of-put key key queue s ∙ if_true _ _ _ (text_eq_refl key)),
          ensure_worker-has_worker key key queued ∙ if_true _ _ _ (text_eq_refl key),
          (ensure_worker-rest key queued).2,
          λ other. elim (Bool-cases (text_eq key other)) [
            | inl e ↦ inl e
            | inr e ↦ inr (
                ensure_worker-queue_of key other queued
                ∙ (queue_of-put key other queue s ∙ if_false _ _ _ e))
          ],
        ))
]
