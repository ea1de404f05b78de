-- ===== src/Tests/WorkerTests.antt =====
-- The prototype's worker and the tool of its chat on one job.
use mutsumi_s_sync.Common.{
  ◌+◌, ◌≡◌, ◌≤◌, refl, true, false, none, some, [], ◌∷◌, arith, codes, ok, text_eq, is_space, strip,
  lstrip, rstrip, starts_with, ◌⊎◌, get, put,
}
use mutsumi_s_sync.Json.{null}
use mutsumi_s_sync.Jobs.{
  BackgroundJob, get_job, update_job, create_job, check_source, insert_job, find_key, is_one_of,
}
use mutsumi_s_sync.Prototype.Chat.Operations.{terminal}
use mutsumi_s_sync.Prototype.Tasks.{
  Call, TaskState, Asker, change_active, without_repeats, stop_requested, cancel_queued,
}
use mutsumi_s_sync.Prototype.Worker.{
  Shop, Outside, returned, failures_of, run_calls, run_call, worker_action, worker_gate, run_action,
  start_action, finish_action,
}
use mutsumi_s_sync.Prototype.Worker.Failures.{
  LeavesAlone, AlwaysFails, count_starts, failing_tool_starts,
}
use mutsumi_s_sync.Prototype.Worker.Lane.{
  Surroundings, reported, waiting, work_round, new_work, worker_lane, supply, take_answer,
  take_report, wait_to_report, settle_work, settle_job,
}
use mutsumi_s_sync.Prototype.Worker.Ends.{KeepsJob, work_round-terminal}
use mutsumi_s_sync.Tests.JobTests.{one_job, first}

abbrev call : Call
call = record { id = codes "c1"; name = codes "search"; arguments = null }

abbrev outside : Outside
outside = record {
  has_tool = λ name. text_eq name (codes "search");
  cut = λ s. false;
  opened = λ s. s;
  execute = λ c s. (returned (codes "[Error: no network]"), s);
}

abbrev shop : Shop
shop = record {
  closing = false;
  is_pending = false;
  allow_tools = true;
  jobs = one_job;
  work = new_work first;
  log = [];
  messages = [];
}

abbrev alone : LeavesAlone outside
alone = record {
  opened_failures = λ s n. refl;
  opened_log = λ s. refl;
  execute_failures = λ c s n. refl;
  execute_log = λ c s. refl;
}

fails : AlwaysFails outside (codes "search")
unfolding starts_with
fails c s e = (codes "[Error: no network]", refl, refl)

none_failed : failures_of (codes "search") shop.work ≤ 3
unfolding get
none_failed = ground arith

failing_tool_starts_example :
    count_starts (codes "search") (run_calls 1 outside (call ∷ call ∷ call ∷ call ∷ []) shop).1.log
      + failures_of (codes "search") shop.work
    ≤ count_starts (codes "search") shop.log + 3
failing_tool_starts_example =
    failing_tool_starts outside alone (codes "search") 1 (call ∷ call ∷ call ∷ call ∷ []) shop fails
      none_failed

-- The fourth call is refused.
three_starts :
    count_starts (codes "search") (run_calls 1 outside (call ∷ call ∷ call ∷ call ∷ []) shop).1.log
    ≡ 3
unfolding run_calls run_call worker_action worker_gate run_action start_action finish_action get put
    update_job get_job create_job check_source insert_job find_key text_eq strip lstrip rstrip
    is_space starts_with
three_starts = refl

abbrev around : Surroundings
around = record { outside = outside; ask = λ s. (reported (codes "done"), s) }

abbrev keeps : KeepsJob around
keeps = record { opened_job = λ s. refl; execute_job = λ c s. refl; ask_job = λ s. refl }

abbrev done : BackgroundJob
done = record first { status = codes "completed"; result = codes "done" }

stored_result :
    get_job first.id (work_round 1 2 around (codes "Error") (codes "work") first shop).1.jobs
    ≡ some done
unfolding work_round settle_job worker_lane supply take_answer take_report wait_to_report
    settle_work update_job get_job create_job check_source insert_job find_key text_eq strip lstrip
    rstrip is_space
stored_result = refl

work_round-terminal_example :
    ((work_round 1 2 around (codes "Error") (codes "work") first shop).0 ≡ waiting)
    ⊎ (is_one_of terminal done.status ≡ true)
work_round-terminal_example =
    work_round-terminal around keeps 1 2 (codes "Error") (codes "work") first done shop
      stored_result

abbrev asker : Asker
asker = record {
  conversation_id = codes "private:1";
  actor_id = codes "qq:user:1";
  peer_chat_type = 1;
  peer_uid = codes "1";
  input_event_ids = codes "e2" ∷ [];
  original = codes "stop";
}

abbrev busy : TaskState
busy = record { jobs = one_job; work = some (new_work first); worker = true; answers = [] }

abbrev idle : TaskState
idle = record busy { work = none }

stops :
    ((change_active asker true [] first busy).0 ≡ ok (stop_requested (codes "j1")))
    × ((change_active asker true [] first idle).0 ≡ ok (stop_requested (codes "j1")))
unfolding change_active cancel_queued without_repeats update_job get_job create_job check_source
    insert_job find_key text_eq strip lstrip rstrip is_space
stops = (refl, refl)
