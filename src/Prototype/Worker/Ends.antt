-- ===== src/Prototype/Worker/Ends.antt =====
-- In which status a job is after the worker of archive/v3/src/mutsumi_sync/prototype/runtime.py has
-- worked on it.
use mutsumi_s_sync.Common.{
  ℕ, zero, suc, Bool, true, false, not, ◌&&◌, ◌||◌, Option, none, some, List, [], ◌∷◌, ◌≡◌, ◌≢◌,
  refl, ◌⊎◌, inl, inr, arith, ◌++◌, ap, sym, subst, ◌∙◌, is_empty, strip,
}
use mutsumi_s_sync.Common.{Text, codes, text_eq, text_eq_iff, Result, ok, err, if◌then◌else◌}
use mutsumi_s_sync.Json.{Fields, end}
use mutsumi_s_sync.Jobs.{JobError, BackgroundJob, get_job, update_job, is_one_of, unknown, statuses}
use mutsumi_s_sync.Jobs.Settling.{settled_fields, settled_status, get_job-id}
use mutsumi_s_sync.Jobs.Updates.{update_job_lem}
use mutsumi_s_sync.Prototype.Chat.Operations.{terminal}
use mutsumi_s_sync.Prototype.Tasks.{Call}
use mutsumi_s_sync.Prototype.Worker.{
  Shop, native, Outside, Executed, returned, timed_out, Acted, blocked, interrupted_action, raised,
  answered, start_action, update_work, count_failure, timeout_text, action_field, finish_action,
  run_action, worker_action, run_call, run_calls, add_message, tool_result,
}
use mutsumi_s_sync.Prototype.Worker.Lane.{
  Surroundings, ModelAnswer, interrupted, broken, reported, called, Ending, finished, failed,
  cancelled, waiting, supply, settle_work, conclude, Report, dropped, stuck, interrupted_wait,
  deliver, wait_to_report, worker_lane, settle_job, work_round, begin_work, take_report, take_calls,
  take_answer,
}

-- Whatever else happens while the worker waits, it has the same job in hand.
pub record KeepsJob (around : Surroundings) : Type 0 where
  pub opened_job : (s : Shop) → (around.outside.opened s).work.job.id ≡ s.work.job.id
  pub execute_job :
      (call : Call) (s : Shop) → (around.outside.execute call s).1.work.job.id ≡ s.work.job.id
  pub ask_job : (s : Shop) → (around.ask s).1.work.job.id ≡ s.work.job.id

update_work-id : (fields : Fields) (s : Shop) → (update_work fields s).1.work.job.id ≡ s.work.job.id
update_work-id fields s = by_update (update_job s.work.job.id fields s.jobs).0 refl
  where
    by_update :
        (r : Result JobError BackgroundJob)
        → (update_job s.work.job.id fields s.jobs).0 ≡ r
        → (update_work fields s).1.work.job.id ≡ s.work.job.id
    by_update (err x) e = rw (e, update_work) refl
    by_update (ok job) e =
        let (old, found, source, stored, others) =
          update_job_lem s.work.job.id fields s.jobs job e in
        rw (e, update_work) (source.same_id ∙ get_job-id s.work.job.id s.jobs old found)

start_action-id : (call : Call) (s : Shop) → (start_action call s).1.work.job.id ≡ s.work.job.id
unfolding start_action
start_action-id call s =
    ground (arith, update_work-id (action_field (call.id ++ codes ":" ++ call.name) end) s)

finish_action-id :
    (call : Call) (x : Executed) (s : Shop) → (finish_action call x s).1.work.job.id ≡ s.work.job.id
unfolding finish_action
finish_action-id call timed_out s = ground (
  arith,
  update_work-id (settled_fields unknown timeout_text false)
      (record s { work = record (s.work) { stop = true } }),
)
finish_action-id call (returned text) s = ground (
  arith,
  update_work-id (action_field [] end) (record s { work = count_failure call.name text s.work }),
)

abbrev IsEnd : Text → Type 0
IsEnd status = (is_one_of statuses status ≡ true) × (is_one_of terminal status ≡ true)

completed-IsEnd : IsEnd (codes "completed")
unfolding text_eq
completed-IsEnd = (refl, refl)

cancelled-IsEnd : IsEnd (codes "cancelled")
unfolding text_eq
cancelled-IsEnd = (refl, refl)

failed-IsEnd : IsEnd (codes "failed")
unfolding text_eq
failed-IsEnd = (refl, refl)

unknown-IsEnd : IsEnd unknown
unfolding text_eq
unknown-IsEnd = (refl, refl)

unknown-terminal : (t : Text) → text_eq t unknown ≡ true → is_one_of terminal t ≡ true
unknown-terminal t e =
    subst (λ x. is_one_of terminal x ≡ true) (sym ((text_eq_iff t unknown).0 e)) unknown-IsEnd.1

module _ (around : Surroundings) (keeps : KeepsJob around) where
  abbrev o : Outside
  o = around.outside

  run_action-id : (call : Call) (s : Shop) → (run_action o call s).1.work.job.id ≡ s.work.job.id
  unfolding run_action
  run_action-id call s =
      let begun = (start_action call s).1 in
      let ran = o.execute call begun in
      ground (
        arith,
        start_action-id call s,
        keeps.execute_job call begun,
        finish_action-id call ran.0 ran.1,
      )

  worker_action-id :
      (rounds : ℕ) (call : Call) (s : Shop)
      → (worker_action rounds o call s).1.work.job.id ≡ s.work.job.id
  unfolding worker_action
  worker_action-id zero call s = refl
  worker_action-id (suc rounds) call s =
      let now = o.opened s in
      ground (arith, keeps.opened_job s, run_action-id call now, worker_action-id rounds call now)

  run_call-id :
      (rounds : ℕ) (call : Call) (s : Shop)
      → (run_call rounds o call s).1.work.job.id ≡ s.work.job.id
  unfolding run_call
  run_call-id rounds call s = ground (arith, worker_action-id rounds call s)

  run_calls-id :
      (rounds : ℕ) (calls : List Call) (s : Shop)
      → (run_calls rounds o calls s).1.work.job.id ≡ s.work.job.id
  unfolding run_calls
  run_calls-id rounds [] s = refl
  run_calls-id rounds (call ∷ calls) s =
      by_done
        (λ text.
          run_calls-id rounds calls
            (add_message (tool_result call.id text) (run_call rounds o call s).1))
        (run_call rounds o call s).0 refl
    where
      by_done :
          ((text : Text)
            → (run_calls rounds o calls
                (add_message (tool_result call.id text) (run_call rounds o call s).1)).1.work.job.id
              ≡ (run_call rounds o call s).1.work.job.id)
          → (a : Acted) → (run_call rounds o call s).0 ≡ a
          → (run_calls rounds o (call ∷ calls) s).1.work.job.id ≡ s.work.job.id
      by_done ih blocked e = rw (e, run_calls) (run_call-id rounds call s)
      by_done ih interrupted_action e = rw (e, run_calls) (run_call-id rounds call s)
      by_done ih (raised x) e = rw (e, run_calls) (run_call-id rounds call s)
      by_done ih (answered text) e = rw (e, run_calls) (ih text ∙ run_call-id rounds call s)

  wait_to_report-id :
      (rounds : ℕ) (s : Shop) → (wait_to_report rounds o s).1.work.job.id ≡ s.work.job.id
  unfolding wait_to_report
  wait_to_report-id zero s = refl
  wait_to_report-id (suc rounds) s =
      ground (arith, keeps.opened_job s, wait_to_report-id rounds (o.opened s))

  -- A lane that ends without an exception leaves the job in a terminal status.
  abbrev Settled : Text → Ending × Shop → Type 0
  Settled id r =
      (j : BackgroundJob)
      → r.0 ≡ finished
      → get_job id r.1.jobs ≡ some j
      → is_one_of terminal j.status ≡ true

  settle_work-Settled :
      (id status result : Text) (s : Shop)
      → s.work.job.id ≡ id
      → is_one_of statuses status ≡ true
      → is_one_of terminal status ≡ true
      → Settled id (settle_work status result s)
  unfolding settle_work
  settle_work-Settled id status result s same known ends j e h =
      let stored : get_job id
            (update_job s.work.job.id (settled_fields status result true) s.jobs).1
          ≡ some j =
        ground arith in
      let there : get_job id (update_job id (settled_fields status result true) s.jobs).1 ≡ some j =
        subst (λ x. get_job id (update_job x (settled_fields status result true) s.jobs).1 ≡ some j)
          same stored in
      let is = settled_status id status result true s.jobs j known there in
      subst (λ x. is_one_of terminal x ≡ true) (sym is) ends

  if-Settled :
      (id : Text) (b : Bool) (x y : Ending × Shop)
      → (b ≡ true → Settled id x)
      → (b ≡ false → Settled id y)
      → Settled id (if b then x else y)
  if-Settled id true x y p q = p refl
  if-Settled id false x y p q = q refl

  conclude-Settled : (id : Text) (s : Shop) → s.work.job.id ≡ id → Settled id (conclude s)
  unfolding conclude
  conclude-Settled id s same = by_latest (get_job s.work.job.id s.jobs) refl
    where
      there :
          (j : BackgroundJob) → get_job id s.jobs ≡ some j → get_job s.work.job.id s.jobs ≡ some j
      there j h = ap (λ x. get_job x s.jobs) same ∙ h

      by_latest :
          (r : Option BackgroundJob) → get_job s.work.job.id s.jobs ≡ r → Settled id (conclude s)
      by_latest none e = rw (e, conclude) (λ j f h. ground (arith, there j))
      by_latest (some latest) e =
          rw (e, conclude)
            (if-Settled id (text_eq latest.status unknown) _ _
              (λ known j f h.
                let is : latest ≡ j = ground (arith, there j h) in
                subst (λ x. is_one_of terminal x.status ≡ true) is
                  (unknown-terminal latest.status known))
              (λ other.
                if-Settled id s.work.stop _ _
                  (λ stopped.
                    settle_work-Settled id (codes "cancelled") _ s same cancelled-IsEnd.0
                      cancelled-IsEnd.1)
                  (λ going.
                    settle_work-Settled id (codes "failed") _ s same failed-IsEnd.0
                      failed-IsEnd.1)))

  -- A lane that does not finish.
  other-Settled : (id : Text) (r : Ending × Shop) → r.0 ≢ finished → Settled id r
  other-Settled id r not_finished j e h = absurd (not_finished e)

  module _ (waits : ℕ) (id : Text) (next : Shop → Ending × Shop)
      (next_settles : (s : Shop) → s.work.job.id ≡ id → Settled id (next s)) where
    take_report-Settled :
        (content : Text) (s : Shop)
        → s.work.job.id ≡ id
        → Settled id (take_report waits around next content s)
    unfolding take_report
    take_report-Settled content s same = by_wait (wait_to_report waits o s).0 refl
      where
        later : (wait_to_report waits o s).1.work.job.id ≡ id
        later = wait_to_report-id waits s ∙ same

        by_wait :
            (r : Report)
            → (wait_to_report waits o s).0 ≡ r
            → Settled id (take_report waits around next content s)
        by_wait dropped e = rw (e, take_report) (next_settles (wait_to_report waits o s).1 later)
        by_wait stuck e =
            rw (e, take_report)
              (other-Settled id (waiting, (wait_to_report waits o s).1) (ground arith))
        by_wait interrupted_wait e =
            rw (e, take_report)
              (other-Settled id (cancelled, (wait_to_report waits o s).1) (ground arith))
        by_wait deliver e =
            rw (e, take_report)
              (settle_work-Settled id (codes "completed") content (wait_to_report waits o s).1 later
                completed-IsEnd.0 completed-IsEnd.1)

    take_calls-Settled :
        (calls : List Call) (s : Shop)
        → s.work.job.id ≡ id
        → Settled id (take_calls waits around next calls s)
    unfolding take_calls
    take_calls-Settled calls s same =
        by_acted (run_calls waits o calls (add_message (native calls) s)).0 refl
      where
        ran : Shop
        ran = (run_calls waits o calls (add_message (native calls) s)).1

        by_acted :
            (r : Acted)
            → (run_calls waits o calls (add_message (native calls) s)).0 ≡ r
            → Settled id (take_calls waits around next calls s)
        by_acted blocked e = rw (e, take_calls) (other-Settled id (waiting, ran) (ground arith))
        by_acted interrupted_action e =
            rw (e, take_calls) (other-Settled id (cancelled, ran) (ground arith))
        by_acted (raised x) e = rw (e, take_calls) (other-Settled id (failed, ran) (ground arith))
        by_acted (answered text) e =
            rw (e, take_calls)
              (next_settles ran (run_calls-id waits calls (add_message (native calls) s) ∙ same))

    take_answer-Settled :
        (a : ModelAnswer) (s : Shop)
        → s.work.job.id ≡ id
        → Settled id (take_answer waits around next a s)
    unfolding take_answer
    take_answer-Settled interrupted s same =
        if-Settled id (s.work.restart && not s.closing) _ _ (λ e. next_settles s same)
          (λ e. other-Settled id (cancelled, s) (ground arith))
    take_answer-Settled broken s same = other-Settled id (failed, s) (ground arith)
    take_answer-Settled (reported content) s same =
        if-Settled id (s.work.restart || s.work.stop) _ _ (λ e. next_settles s same)
          (λ e.
            if-Settled id (is_empty (strip content)) _ _
              (λ f. other-Settled id (failed, s) (ground arith))
              (λ f. take_report-Settled content s same))
    take_answer-Settled (called call calls) s same =
        if-Settled id (s.work.restart || s.work.stop) _ _ (λ e. next_settles s same)
          (λ e. take_calls-Settled (call ∷ calls) s same)

  supply-id : (s : Shop) → (supply s).work.job.id ≡ s.work.job.id
  unfolding supply
  supply-id s = ground arith

  worker_lane-Settled :
      (waits steps : ℕ) (id : Text) (s : Shop)
      → s.work.job.id ≡ id
      → Settled id (worker_lane waits steps around s)
  unfolding worker_lane
  worker_lane-Settled waits zero id s same = conclude-Settled id s same
  worker_lane-Settled waits (suc steps) id s same =
      if-Settled id s.work.stop _ _ (λ stopped. conclude-Settled id s same)
        (λ going.
          take_answer-Settled waits id (λ t. worker_lane waits steps around t)
            (worker_lane-Settled waits steps id) (around.ask (supply s)).0 (around.ask (supply s)).1
            (keeps.ask_job (supply s) ∙ supply-id s ∙ same))

  settle_job-terminal :
      (id exception : Text) (r : Ending × Shop) (j : BackgroundJob)
      → Settled id r
      → get_job id (settle_job id exception r).1.jobs ≡ some j
      → ((settle_job id exception r).0 ≡ waiting) ⊎ (is_one_of terminal j.status ≡ true)
  unfolding settle_job
  settle_job-terminal id exception (finished, s) j ends h = inr (ends j refl h)
  settle_job-terminal id exception (waiting, s) j ends h = inl refl
  settle_job-terminal id exception (cancelled, s) j ends h =
      let is = settled_status id unknown _ false s.jobs j unknown-IsEnd.0 h in
      inr (subst (λ x. is_one_of terminal x ≡ true) (sym is) unknown-IsEnd.1)
  settle_job-terminal id exception (failed, s) j ends h =
      let is = settled_status id (codes "failed") _ false s.jobs j failed-IsEnd.0 h in
      inr (subst (λ x. is_one_of terminal x ≡ true) (sym is) failed-IsEnd.1)

  -- After a round of the worker, whatever the model answers and whatever else happens meanwhile,
  -- the job it had in hand, if it is still stored, is completed, failed, cancelled or unknown,
  -- unless the round waits for the chat: given that the other tasks leave the worker the same job.
  pub work_round-terminal :
      (waits steps : ℕ) (exception instructions : Text) (job j : BackgroundJob) (s : Shop)
      → get_job job.id (work_round waits steps around exception instructions job s).1.jobs ≡ some j
      → ((work_round waits steps around exception instructions job s).0 ≡ waiting)
        ⊎ (is_one_of terminal j.status ≡ true)
  unfolding work_round
  work_round-terminal waits steps exception instructions job j s h =
      settle_job-terminal job.id exception
        (worker_lane waits steps around (begin_work instructions job s)) j
        (worker_lane-Settled waits steps job.id (begin_work instructions job s) refl) h
