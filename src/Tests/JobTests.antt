-- ===== src/Tests/JobTests.antt =====
-- The job table on two jobs.
use mutsumi_s_sync.Common.{
  ◌≡◌, refl, true, false, ◌&&◌, ◌⊎◌, some, List, [], ◌∷◌, ◌++◌, map, Text, codes, text_eq, strip,
  lstrip, rstrip, is_space, ok, err, All,
}
use mutsumi_s_sync.Common.{not, ◌||◌}
use mutsumi_s_sync.Json.{Fields, field, end, str, boolean}
use mutsumi_s_sync.Jobs.{
  BackgroundJob, JobRow, JobSource, statuses, is_one_of, running, queued, check_source, create_job,
  new_row, find_key, insert_job, get_job, update_job, recover_jobs, job_of, bad_status,
  insert_created, order_created,
}
use mutsumi_s_sync.Jobs.Creation.{create_job_again}
use mutsumi_s_sync.Jobs.Updates.{HasSource, update_job_lem, update_job-refused}
use mutsumi_s_sync.Jobs.Recovery.{
  OrderedFrom, count, is_queued, recover_jobs-report, recover_jobs-stopped,
}

abbrev pub source : JobSource
source = record {
  conversation_id = codes "private:1";
  actor_id = codes "qq:user:1";
  peer_chat_type = 1;
  peer_uid = codes "1";
  request = codes "look it up";
  input_event_ids = codes "e1" ∷ [];
}

abbrev pub digest : Text → List Text → Text
digest conversation [] = conversation
digest conversation (id ∷ ids) = conversation ++ id

abbrev pub one_job : List JobRow
one_job = (create_job digest (codes "j1") 3 source []).1

abbrev pub first : BackgroundJob
first = (new_row (codes "j1") 3 (codes "private:1e1") source).job

created :
    (check_source source ≡ ok tt) × ((create_job digest (codes "j1") 3 source []).0 ≡ ok first)
unfolding check_source create_job insert_job find_key strip lstrip rstrip is_space text_eq
created = (refl, refl)

create_job_again_example : create_job digest (codes "j2") 4 source one_job ≡ (ok first, one_job)
create_job_again_example =
    create_job_again digest (codes "j1") (codes "j2") 3 4 source source [] first created.0 created.0
      refl refl refl created.1

abbrev to_running : Fields
to_running = field (codes "status") (str running) (field (codes "delivered") (boolean true) end)

abbrev bad : Fields
bad = field (codes "status") (str (codes "lost")) end

abbrev started : BackgroundJob
started = record first { status = running; delivered = true }

updated :
    ((update_job (codes "j1") to_running one_job).0 ≡ ok started)
    × ((update_job (codes "j1") bad one_job).0 ≡ err bad_status)
unfolding update_job get_job check_source create_job insert_job find_key strip lstrip rstrip
    is_space text_eq
updated = (refl, refl)

update_job_lem_example :
    let after = (update_job (codes "j1") to_running one_job).1 in
    (old : BackgroundJob) × (get_job (codes "j1") one_job ≡ some old)
    × HasSource started old
    × (get_job (codes "j1") after ≡ some started)
    × ((other : Text)
        → (text_eq (codes "j1") other ≡ true) ⊎ (get_job other after ≡ get_job other one_job))
update_job_lem_example = update_job_lem (codes "j1") to_running one_job started updated.0

update_job-refused_example : (update_job (codes "j1") bad one_job).1 ≡ one_job
update_job-refused_example = update_job-refused (codes "j1") bad one_job bad_status updated.1

one_job-statuses : All (λ r. is_one_of statuses r.job.status ≡ true) one_job
unfolding check_source create_job insert_job find_key strip lstrip rstrip is_space text_eq
one_job-statuses = (refl, tt)

abbrev two_jobs : List JobRow
two_jobs =
    record { job = started; request_key = codes "k1" }
    ∷ record { job = first; request_key = codes "k2" }
    ∷ []

recovered : (recover_jobs two_jobs).0 ≡ first ∷ []
unfolding recover_jobs order_created insert_created text_eq
recovered = refl

recover_jobs-report_example :
    OrderedFrom 0 (recover_jobs two_jobs).0
    × (count (λ j. j.delivered) (recover_jobs two_jobs).0
        ≡ count
            (λ j. (text_eq j.status queued || not j.delivered) && j.delivered)
            (map job_of (recover_jobs two_jobs).1))
recover_jobs-report_example = recover_jobs-report two_jobs (λ j. j.delivered)

recover_jobs-stopped_example :
    All (λ r. text_eq r.job.status running ≡ false) (recover_jobs two_jobs).1
    × (count is_queued (map job_of (recover_jobs two_jobs).1)
        ≡ count is_queued (map job_of two_jobs))
    × (recover_jobs (recover_jobs two_jobs).1 ≡ recover_jobs two_jobs)
recover_jobs-stopped_example = recover_jobs-stopped two_jobs
