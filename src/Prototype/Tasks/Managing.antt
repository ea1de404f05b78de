-- ===== src/Prototype/Tasks/Managing.antt =====
-- What the `background_task` tool of archive/v3/src/mutsumi_sync/prototype/runtime.py does to the
-- jobs and to the work in hand.
use mutsumi_s_sync.Common.{ℕ, Bool, true, false, some, List, ◌≡◌, refl, arith, sym, subst, ◌∙◌}
use mutsumi_s_sync.Common.{Text, codes, text_eq, text_eq_iff, Result, ok, err}
use mutsumi_s_sync.Jobs.{BackgroundJob, JobRow, JobError, get_job, update_job, statuses, is_one_of}
use mutsumi_s_sync.Jobs.Updates.{update_job_lem}
use mutsumi_s_sync.Jobs.Settling.{settled_fields, settled_status, get_job-id}
use mutsumi_s_sync.Prototype.Tasks.{
  Work, Call, TaskState, Asker, superseded_input, stop_requested, manage_task, change_active,
  redirected, cancel_queued, is_in_hand, addition_of, update_fields_of,
}

-- A turn that a newer input has superseded starts no operation.
pub manage_task-stale :
    (digest : Text → List Text → Text) (fresh : Text) (now : ℕ) (closing : Bool) (a : Asker)
    (call : Call) (s : TaskState)
    → manage_task digest fresh now closing true a call s ≡ (ok superseded_input, s)
unfolding manage_task
manage_task-stale digest fresh now closing a call s = refl

module _ (a : Asker) (is_cancel : Bool) (request : Text) (active job : BackgroundJob)
    (s : TaskState) where
  abbrev first : Result JobError BackgroundJob × List JobRow
  first = update_job active.id (update_fields_of a (addition_of a is_cancel request) active) s.jobs

  updated_id : first.0 ≡ ok job → job.id ≡ active.id
  updated_id e =
      let (old, found, source, stored, others) = update_job_lem active.id _ s.jobs job e in
      source.same_id ∙ get_job-id active.id s.jobs old found

cancelled_known : is_one_of statuses (codes "cancelled") ≡ true
unfolding text_eq
cancelled_known = refl

-- A cancellation of the job that the worker has in hand, if it is answered, makes the worker stop
-- and start its round again, and keeps its count of failures.
pub cancel_in_hand :
    (a : Asker) (request : Text) (active : BackgroundJob) (s : TaskState) (w : Work) (id : Text)
    → s.work ≡ some w
    → w.job.id ≡ active.id
    → (change_active a true request active s).0 ≡ ok (stop_requested id)
    → (v : Work) × ((change_active a true request active s).1.work ≡ some v)
      × (v.stop ≡ true)
      × (v.restart ≡ true)
      × (v.failures ≡ w.failures)
unfolding change_active
cancel_in_hand a request active s w id in_hand same done =
    by_update (first a true request active active s).0 refl
  where
    by_update :
        (r : Result JobError BackgroundJob)
        → (first a true request active active s).0 ≡ r
        → (v : Work) × ((change_active a true request active s).1.work ≡ some v)
          × (v.stop ≡ true)
          × (v.restart ≡ true)
          × (v.failures ≡ w.failures)
    by_update (err x) e = absurd (ground arith)
    by_update (ok job) e =
        let is = updated_id a true request active job s e in
        let held : is_in_hand job.id s.work ≡ true =
          ground (arith, text_eq_iff w.job.id job.id, same ∙ sym is) in
        (redirected job true w, ground arith, refl, refl, refl)

-- A cancellation of a job that is not in hand, if it is answered, leaves the job cancelled.
pub cancel_waiting_job :
    (a : Asker) (request : Text) (active j : BackgroundJob) (s : TaskState) (id : Text)
    → is_in_hand active.id s.work ≡ false
    → (change_active a true request active s).0 ≡ ok (stop_requested id)
    → get_job active.id (change_active a true request active s).1.jobs ≡ some j
    → j.status ≡ codes "cancelled"
unfolding change_active cancel_queued
cancel_waiting_job a request active j s id idle done there =
    by_update (first a true request active active s).0 refl
  where
    by_update :
        (r : Result JobError BackgroundJob)
        → (first a true request active active s).0 ≡ r
        → j.status ≡ codes "cancelled"
    by_update (err x) e = absurd (ground arith)
    by_update (ok job) e =
        let is = updated_id a true request active job s e in
        let rows = (first a true request active active s).1 in
        let addition = addition_of a true request in
        let free : is_in_hand job.id s.work ≡ false =
          subst (λ x. is_in_hand x s.work ≡ false) (sym is) idle in
        let stored : get_job active.id
              (update_job job.id (settled_fields (codes "cancelled") addition false) rows).1
            ≡ some j =
          ground arith in
        settled_status active.id (codes "cancelled") addition false rows j cancelled_known (
          subst
            (λ x.
              get_job active.id
                (update_job x (settled_fields (codes "cancelled") addition false) rows).1
              ≡ some j)
            is stored)
