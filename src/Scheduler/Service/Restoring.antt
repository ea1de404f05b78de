-- ===== src/Scheduler/Service/Restoring.antt =====
-- A service event whose run is cancelled can be run again.
use mutsumi_s_sync.Common.{
  ◌≡◌, refl, sym, subst, ◌∙◌, false, none, some, List, [], ◌∷◌, arith, Bool-cases, if◌then◌else◌,
  if_true, if_false, inl, inr,
}
use mutsumi_s_sync.Common.{Text, text_eq, text_eq_refl, any, is_empty}
use mutsumi_s_sync.Ledger.{EventRecord, Ledger, cancelled, received, get_event}
use mutsumi_s_sync.Ledger.Status.{with_status, get_event-update_event_status}
use mutsumi_s_sync.Scheduler.Service.{
  ServiceState, is_queued, discard, queue_of, ensure_worker, stop_worker, restore_cancelled,
  cancel_running,
}
use mutsumi_s_sync.Scheduler.Service.Parts.{ensure_worker-rest, gone}

any-discard : (id : Text) (ids : List Text) → any (λ i. text_eq i id) (discard id ids) ≡ false
any-discard id [] = refl
any-discard id (i ∷ ids) = ground (arith, any-discard id ids)

ensure_worker-ledger : (key : Text) (s : ServiceState) → (ensure_worker key s).ledger ≡ s.ledger
unfolding ensure_worker
ensure_worker-ledger key s = ground arith

stop_worker-rest :
    (key : Text) (s : ServiceState)
    → ((stop_worker key s).ledger ≡ s.ledger) × ((stop_worker key s).event_ids ≡ s.event_ids)
unfolding stop_worker
stop_worker-rest key s = elim (Bool-cases (is_empty (queue_of key s))) [
  | inl e ↦
      subst (λ (t : ServiceState). (t.ledger ≡ s.ledger) × (t.event_ids ≡ s.event_ids))
        (sym (if_true _ _ _ e)) (refl, refl)
  | inr e ↦ elim (Bool-cases s.shutting_down) [
    | inl d ↦
        subst (λ (t : ServiceState). (t.ledger ≡ s.ledger) × (t.event_ids ≡ s.event_ids))
          (sym (if_false _ _ _ e ∙ if_true _ _ _ d)) (refl, refl)
    | inr d ↦
        subst (λ (t : ServiceState). (t.ledger ≡ s.ledger) × (t.event_ids ≡ s.event_ids))
          (sym (if_false _ _ _ e ∙ if_false _ _ _ d))
          (ensure_worker-ledger key (gone key s), (ensure_worker-rest key (gone key s)).2)
  ]
]

restore_cancelled-get_event :
    (event_id : Text) (ledger : Ledger) (row : EventRecord)
    → get_event event_id ledger ≡ some row
    → get_event event_id (restore_cancelled event_id ledger)
      ≡ some (if text_eq row.status cancelled then with_status received none row else row)
unfolding restore_cancelled
restore_cancelled-get_event event_id ledger row found =
    elim (Bool-cases (text_eq row.status cancelled)) [
      | inl e ↦
          rw (found, restore_cancelled)
            (rw e (
              get_event-update_event_status event_id received none event_id ledger
              ∙ rw (found, text_eq_refl event_id)))
      | inr e ↦ rw (found, restore_cancelled) (rw e found)
    ]

-- After the run of a stored service event was cancelled, its id is not queued, so that it can be
-- dispatched again, and its row is what the pipeline left, but received again if the pipeline had
-- marked it cancelled.
pub cancel_running_lem :
    (key event_id : Text) (after : Ledger) (s : ServiceState) (row : EventRecord)
    → get_event event_id after ≡ some row
    → let t = cancel_running key event_id after s in
      (is_queued event_id t ≡ false)
      × (get_event event_id t.ledger
          ≡ some (if text_eq row.status cancelled then with_status received none row else row))
unfolding cancel_running
cancel_running_lem key event_id after s row found =
    let restored = record s {
      event_ids = discard event_id s.event_ids;
      ledger = restore_cancelled event_id after;
    } in
    let (ledger, ids) = stop_worker-rest key restored in
    (
      subst (λ l. any (λ i. text_eq i event_id) l ≡ false) (sym ids)
          (any-discard event_id s.event_ids),
      subst
          (λ l.
            get_event event_id l
            ≡ some (if text_eq row.status cancelled then with_status received none row else row))
          (sym ledger) (restore_cancelled-get_event event_id after row found),
    )
