-- ===== src/Scheduler/Service/Parts.antt =====
-- What the operations on the service queues do to the queue and the worker of a key.
use mutsumi_s_sync.Common.{
  ◌≡◌, refl, subst, ap, ◌∙◌, true, false, inl, inr, none, some, [], ◌∷◌, ◌++◌, arith, Bool-cases,
  if_true, if_false, if◌then◌else◌, ok, err,
}
use mutsumi_s_sync.Common.{Text, text_eq, text_eq_iff, Dict, get, put, remove, get-put, get-remove}
use mutsumi_s_sync.Message.{MessageEvent}
use mutsumi_s_sync.Scheduler.Keys.{make_key}
use mutsumi_s_sync.Scheduler.Service.{
  ensure_key, shutting_down_error, Queue, Worker, created, is_live, ServiceState, queue_of,
  has_worker, has_entry, is_queued, ensure_worker, dispatch_service_event,
}

pub has_worker-put :
    (k j : Text) (w : Worker) (s : ServiceState)
    → has_worker j (record s { workers = put k w s.workers })
      ≡ (if text_eq k j then is_live w else has_worker j s)
has_worker-put k j w s = ground (arith, get-put k j w s.workers)

pub has_entry-put :
    (k j : Text) (w : Worker) (s : ServiceState)
    → has_entry j (record s { workers = put k w s.workers })
      ≡ (if text_eq k j then true else has_entry j s)
has_entry-put k j w s = ground (arith, get-put k j w s.workers)

-- A live worker is an entry.
has_worker-has_entry : (k : Text) (s : ServiceState) → has_worker k s ≡ true → has_entry k s ≡ true
has_worker-has_entry k s h = ground arith

pub ensure_worker-has_entry :
    (k j : Text) (s : ServiceState)
    → has_entry j (ensure_worker k s) ≡ (if text_eq k j then true else has_entry j s)
unfolding ensure_worker
ensure_worker-has_entry k j s = elim (Bool-cases (has_worker k s)) [
  | inl e ↦ elim (Bool-cases (text_eq k j)) [
    | inl f ↦
        let same : k ≡ j = (text_eq_iff k j).0 f in
        rw (e, f) (subst (λ x. has_entry x s ≡ true) same (has_worker-has_entry k s e))
    | inr f ↦ rw (e, f)
  ]
  | inr e ↦ rw e (has_entry-put k j created s)
]

pub ensure_worker-has_worker :
    (k j : Text) (s : ServiceState)
    → has_worker j (ensure_worker k s) ≡ (if text_eq k j then true else has_worker j s)
unfolding ensure_worker
ensure_worker-has_worker k j s = elim (Bool-cases (has_worker k s)) [
  | inl e ↦ elim (Bool-cases (text_eq k j)) [
    | inl f ↦
        let same : k ≡ j = (text_eq_iff k j).0 f in
        rw (e, f) (subst (λ x. has_worker x s ≡ true) same e)
    | inr f ↦ rw (e, f)
  ]
  | inr e ↦ rw e (has_worker-put k j created s)
]

pub ensure_worker-rest :
    (k : Text) (s : ServiceState)
    → ((ensure_worker k s).queues ≡ s.queues)
      × ((ensure_worker k s).shutting_down ≡ s.shutting_down)
      × ((ensure_worker k s).event_ids ≡ s.event_ids)
unfolding ensure_worker
ensure_worker-rest k s = elim (Bool-cases (has_worker k s)) [
  | inl e ↦ rw e (refl, refl, refl)
  | inr e ↦ rw e (refl, refl, refl)
]

pub queue_of-put :
    (k j : Text) (q : Queue) (s : ServiceState)
    → queue_of j (record s { queues = put k q s.queues })
      ≡ (if text_eq k j then q else queue_of j s)
queue_of-put k j q s = ground (arith, get-put k j q s.queues)

abbrev pub enqueued : MessageEvent → Text → ServiceState → ServiceState
enqueued event event_id s = record s {
  queues = put (make_key event) (queue_of (make_key event) s ++ (event, event_id) ∷ []) s.queues;
  event_ids = event_id ∷ s.event_ids;
  user_keys = ensure_key (make_key event) s.user_keys;
}

pub dispatch-down :
    (event : MessageEvent) (event_id : Text) (s : ServiceState)
    → s.shutting_down ≡ true
    → dispatch_service_event event event_id s ≡ (err shutting_down_error, s)
unfolding dispatch_service_event
dispatch-down event event_id s h = if_true s.shutting_down _ _ h

pub dispatch-known :
    (event : MessageEvent) (event_id : Text) (s : ServiceState)
    → s.shutting_down ≡ false
    → is_queued event_id s ≡ true
    → dispatch_service_event event event_id s ≡ (ok tt, s)
unfolding dispatch_service_event
dispatch-known event event_id s up known =
    if_false s.shutting_down _ _ up ∙ if_true (is_queued event_id s) _ _ known

pub dispatch-new :
    (event : MessageEvent) (event_id : Text) (s : ServiceState)
    → s.shutting_down ≡ false
    → is_queued event_id s ≡ false
    → dispatch_service_event event event_id s
      ≡ (ok tt, ensure_worker (make_key event) (enqueued event event_id s))
unfolding dispatch_service_event
dispatch-new event event_id s up new =
    if_false s.shutting_down _ _ up ∙ if_false (is_queued event_id s) _ _ new

abbrev pub gone : Text → ServiceState → ServiceState
gone k s = record s { workers = remove k s.workers }

pub has_entry-gone :
    (k j : Text) (s : ServiceState)
    → has_entry j (gone k s) ≡ (if text_eq k j then false else has_entry j s)
has_entry-gone k j s = ground (arith, get-remove k j s.workers)

pub queue_of-remove :
    (k j : Text) (s : ServiceState)
    → queue_of j (record s { queues = remove k s.queues })
      ≡ (if text_eq k j then [] else queue_of j s)
queue_of-remove k j s = ground (arith, get-remove k j s.queues)

pub ensure_worker-queue_of :
    (k key : Text) (s : ServiceState) → queue_of key (ensure_worker k s) ≡ queue_of key s
ensure_worker-queue_of k key s =
    ap (λ (d : Dict Queue). elim (get key d) as (λ x. Queue) [ none ↦ [] | some q ↦ q ])
      (ensure_worker-rest k s).0
