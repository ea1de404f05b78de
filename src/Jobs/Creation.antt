-- ===== src/Jobs/Creation.antt =====
-- A request is turned into one job, however often it is submitted.
use mutsumi_s_sync.Common.{
  ℕ, ◌≡◌, false, ◌⊎◌, inl, inr, none, some, List, [], ◌∷◌, ◌++◌, arith, Option-cases, ok,
}
use mutsumi_s_sync.Common.{Text, text_eq_refl, is_empty}
use mutsumi_s_sync.Jobs.{
  BackgroundJob, JobRow, JobSource, check_source, request_key_of, new_row, find_key, insert_job,
  create_job,
}

find_key-snoc :
    (rows : List JobRow) (r : JobRow)
    → find_key r.request_key rows ≡ none
    → find_key r.request_key (rows ++ r ∷ []) ≡ some r.job
unfolding find_key
find_key-snoc [] r h = rw (text_eq_refl r.request_key)
find_key-snoc (x ∷ rows) r h = ground (arith, find_key-snoc rows r)

module _ (digest : Text → List Text → Text) (fresh : Text) (now : ℕ) (s : JobSource)
    (rows : List JobRow) (valid : check_source s ≡ ok tt) where
  abbrev key : Text
  key = request_key_of digest fresh s

  create_job-known :
      (job : BackgroundJob)
      → find_key key rows ≡ some job
      → create_job digest fresh now s rows ≡ (ok job, rows)
  unfolding create_job insert_job
  create_job-known job found = rw (valid, create_job) (rw (found, insert_job) (rw found))

  create_job-new :
      find_key key rows ≡ none
      → create_job digest fresh now s rows
        ≡ (ok (new_row fresh now key s).job, rows ++ new_row fresh now key s ∷ [])
  unfolding create_job insert_job
  create_job-new missing =
      rw (valid, create_job)
        (rw (missing, insert_job) (rw (find_key-snoc rows (new_row fresh now key s) missing)))

  -- For an admissible source: if its key is in the table, the job of that key is returned and the
  -- table stays; else one queued job is put at the end, and is returned. It never fails.
  pub create_job_lem :
      ((job : BackgroundJob) × (find_key key rows ≡ some job)
        × (create_job digest fresh now s rows ≡ (ok job, rows)))
      ⊎ ((find_key key rows ≡ none)
          × (create_job digest fresh now s rows
              ≡ (ok (new_row fresh now key s).job, rows ++ new_row fresh now key s ∷ [])))
  create_job_lem = elim (Option-cases (find_key key rows)) [
    | inl missing ↦ inr (missing, create_job-new missing)
    | inr (job, found) ↦ inl (job, found, create_job-known job found)
  ]

  create_job-key :
      (job : BackgroundJob)
      → (create_job digest fresh now s rows).0 ≡ ok job
      → find_key key (create_job digest fresh now s rows).1 ≡ some job
  create_job-key job h = elim (Option-cases (find_key key rows)) [
    | inl missing ↦ rw (create_job-new missing) (
        ground
          (arith, find_key-snoc rows (new_row fresh now key s) missing, create_job-new missing))
    | inr (known, found) ↦ ground (arith, create_job-known known found)
  ]

-- Creating a job a second time, from the same conversation and the same non-empty list of events
-- and from whatever else that is admissible, returns the job of the first time and adds nothing.
pub create_job_again :
    (digest : Text → List Text → Text) (fresh later : Text) (now then_ : ℕ) (s again : JobSource)
    (rows : List JobRow) (job : BackgroundJob)
    → check_source s ≡ ok tt
    → check_source again ≡ ok tt
    → again.conversation_id ≡ s.conversation_id
    → again.input_event_ids ≡ s.input_event_ids
    → is_empty s.input_event_ids ≡ false
    → (create_job digest fresh now s rows).0 ≡ ok job
    → create_job digest later then_ again (create_job digest fresh now s rows).1
      ≡ (ok job, (create_job digest fresh now s rows).1)
create_job_again digest fresh later now then_ s again rows job v w conversation ids some_ids h =
    let after = (create_job digest fresh now s rows).1 in
    let stored = create_job-key digest fresh now s rows v job h in
    let same : request_key_of digest later again ≡ request_key_of digest fresh s =
      rw (conversation, ids, some_ids) in
    create_job-known digest later then_ again after w job (rw same stored)
