-- ===== src/Jobs/Updates.antt =====
-- What an update of a job can change, and what it cannot.
use mutsumi_s_sync.Common.{
  ◌≡◌, refl, ap, subst, ◌∙◌, ok_injective, Bool, true, false, ◌⊎◌, inl, inr, Option, none, some,
  List, [], ◌∷◌, arith, Option-cases, Bool-cases, Result, ok, err, All,
}
use mutsumi_s_sync.Common.{Text, text_eq, text_eq_iff}
use mutsumi_s_sync.Json.{Json, Fields, end, field}
use mutsumi_s_sync.Jobs.{
  BackgroundJob, JobRow, JobError, statuses, is_one_of, assign, assignments, update_rows, get_job,
  ok_or, unknown_job, unsupported_field, update_job, has_only_update_fields,
}

-- The id, the source, the recipient and the time of the first are those of the second.
pub record HasSource (j k : BackgroundJob) : Type 0 where
  pub same_id : j.id ≡ k.id
  pub same_conversation : j.conversation_id ≡ k.conversation_id
  pub same_actor : j.actor_id ≡ k.actor_id
  pub same_chat_type : j.peer_chat_type ≡ k.peer_chat_type
  pub same_peer : j.peer_uid ≡ k.peer_uid
  pub same_request : j.request ≡ k.request
  pub same_time : j.created_at ≡ k.created_at

abbrev has_status : BackgroundJob → Bool
has_status j = is_one_of statuses j.status

record Keeps (f : BackgroundJob → BackgroundJob) : Type 0 where
  keeps_source : (j : BackgroundJob) → HasSource (f j) j
  keeps_status : (j : BackgroundJob) → has_status j ≡ true → has_status (f j) ≡ true

same : (j : BackgroundJob) → HasSource j j
same j = record {
  same_id = refl;
  same_conversation = refl;
  same_actor = refl;
  same_chat_type = refl;
  same_peer = refl;
  same_request = refl;
  same_time = refl;
}

assign-Keeps :
    (name : Text) (value : Json) (f : BackgroundJob → BackgroundJob)
    → assign name value ≡ ok f
    → Keeps f
unfolding assign
assign-Keeps name value f h = record {
  keeps_source = λ j. record {
    same_id = ground arith;
    same_conversation = ground arith;
    same_actor = ground arith;
    same_chat_type = ground arith;
    same_peer = ground arith;
    same_request = ground arith;
    same_time = ground arith;
  };
  keeps_status = λ j s. ground arith;
}

through : {j k l : BackgroundJob} → HasSource j k → HasSource k l → HasSource j l
through a b = record {
  same_id = a.same_id ∙ b.same_id;
  same_conversation = a.same_conversation ∙ b.same_conversation;
  same_actor = a.same_actor ∙ b.same_actor;
  same_chat_type = a.same_chat_type ∙ b.same_chat_type;
  same_peer = a.same_peer ∙ b.same_peer;
  same_request = a.same_request ∙ b.same_request;
  same_time = a.same_time ∙ b.same_time;
}

Keeps-then : (f g : BackgroundJob → BackgroundJob) → Keeps f → Keeps g → Keeps (λ j. g (f j))
Keeps-then f g a b = record {
  keeps_source = λ j. through (b.keeps_source (f j)) (a.keeps_source j);
  keeps_status = λ j s. b.keeps_status (f j) (a.keeps_status j s);
}

assignments-Keeps :
    (fields : Fields) (f : BackgroundJob → BackgroundJob) → assignments fields ≡ ok f → Keeps f
unfolding assignments
assignments-Keeps end f h =
    subst Keeps (ok_injective (assignments end) (λ j. j) f refl h)
      (record { keeps_source = same; keeps_status = λ j s. s })
assignments-Keeps (field name value rest) f h =
    by_assign (assign name value) (assignments rest) refl refl (assignments-Keeps rest)
  where
    by_assign :
        (a b : Result JobError (BackgroundJob → BackgroundJob))
        → assign name value ≡ a
        → assignments rest ≡ b
        → ((k : BackgroundJob → BackgroundJob) → assignments rest ≡ ok k → Keeps k)
        → Keeps f
    by_assign (err e) b p q later = absurd (ground arith)
    by_assign (ok g) (err e) p q later = absurd (ground arith)
    by_assign (ok g) (ok k) p q later =
        subst Keeps
          (ok_injective (assignments (field name value rest)) (λ j. k (g j)) f
            (rw (p, q, assignments)) h)
          (Keeps-then g k (assign-Keeps name value g p) (later k q))

module _ (id : Text) (f : BackgroundJob → BackgroundJob) (keeps : Keeps f) where
  updated_id : (r : JobRow) → text_eq r.job.id id ≡ true → text_eq (f r.job).id id ≡ true
  updated_id r e = rw (keeps.keeps_source r.job).same_id e

  get_job-updated :
      (rows : List JobRow) (job : BackgroundJob)
      → get_job id (update_rows id f rows) ≡ some job
      → (old : BackgroundJob) × (get_job id rows ≡ some old) × (job ≡ f old)
  unfolding get_job update_rows
  get_job-updated [] job h = absurd cc
  get_job-updated (r ∷ rows) job h = elim (Bool-cases (text_eq r.job.id id)) [
    | inl e ↦ (r.job, rw e, ground (arith, updated_id r e))
    | inr e ↦
        let (old, found, is) = get_job-updated rows job (ground arith) in (old, rw e found, is)
  ]

  get_job-others :
      (other : Text) (rows : List JobRow)
      → text_eq id other ≡ false
      → get_job other (update_rows id f rows) ≡ get_job other rows
  unfolding get_job update_rows
  get_job-others other [] ne = refl
  get_job-others other (r ∷ rows) ne = elim (Bool-cases (text_eq r.job.id id)) [
    | inl e ↦ ground (
      arith,
      get_job-others other rows ne,
      text_eq_iff r.job.id id,
      (keeps.keeps_source r.job).same_id,
    )
    | inr e ↦ rw e (ground (arith, get_job-others other rows ne))
  ]

  update_rows-missing :
      (rows : List JobRow)
      → get_job id (update_rows id f rows) ≡ none
      → update_rows id f rows ≡ rows
  unfolding get_job update_rows
  update_rows-missing [] h = refl
  update_rows-missing (r ∷ rows) h = elim (Bool-cases (text_eq r.job.id id)) [
    | inl e ↦ absurd (ground (arith, updated_id r e))
    | inr e ↦ rw e (ap (λ rest. r ∷ rest) (update_rows-missing rows (ground arith)))
  ]

  update_rows-statuses :
      (rows : List JobRow)
      → All (λ r. has_status r.job ≡ true) rows
      → All (λ r. has_status r.job ≡ true) (update_rows id f rows)
  unfolding update_rows
  update_rows-statuses [] h = tt
  update_rows-statuses (r ∷ rows) h = elim (Bool-cases (text_eq r.job.id id)) [
    | inl e ↦ rw e (keeps.keeps_status r.job h.0, update_rows-statuses rows h.1)
    | inr e ↦ rw e (h.0, update_rows-statuses rows h.1)
  ]

ok_or-ok :
    (e : JobError) (o : Option BackgroundJob) (job : BackgroundJob)
    → ok_or e o ≡ ok job
    → o ≡ some job
ok_or-ok e none job h = absurd (ground arith)
ok_or-ok e (some j) job h = ground arith

module _ (id : Text) (fields : Fields) (rows : List JobRow) where
  abbrev after : List JobRow
  after = (update_job id fields rows).1

  update_job-cases :
      ((e : JobError) × (update_job id fields rows ≡ (err e, rows)))
      ⊎ ((f : BackgroundJob → BackgroundJob) × Keeps f
          × (update_job id fields rows ≡ (
            ok_or (unknown_job id) (get_job id (update_rows id f rows)),
            update_rows id f rows,
          )))
  unfolding update_job
  update_job-cases = by_check (has_only_update_fields fields) (assignments fields) refl refl
    where
      by_check :
          (b : Bool) (a : Result JobError (BackgroundJob → BackgroundJob))
          → has_only_update_fields fields ≡ b
          → assignments fields ≡ a
          → ((e : JobError) × (update_job id fields rows ≡ (err e, rows)))
            ⊎ ((f : BackgroundJob → BackgroundJob) × Keeps f
                × (update_job id fields rows ≡ (
                  ok_or (unknown_job id) (get_job id (update_rows id f rows)),
                  update_rows id f rows,
                )))
      by_check false a p q = inl (unsupported_field, rw (p, update_job))
      by_check true (err e) p q = inl (e, rw (p, update_job) (rw q))
      by_check true (ok f) p q = inr (f, assignments-Keeps fields f q, rw (p, update_job) (rw q))

  -- An update that succeeds returns the stored job, which has the id, source, recipient, request
  -- and time of the job that was there, and leaves every other job as it was.
  pub update_job_lem :
      (job : BackgroundJob)
      → (update_job id fields rows).0 ≡ ok job
      → (old : BackgroundJob) × (get_job id rows ≡ some old)
        × HasSource job old
        × (get_job id after ≡ some job)
        × ((other : Text) → (text_eq id other ≡ true) ⊎ (get_job other after ≡ get_job other rows))
  update_job_lem job h = elim update_job-cases [
    | inl (e, refused) ↦ absurd (ground (arith, refused))
    | inr (f, keeps, done) ↦
        let found : get_job id (update_rows id f rows) ≡ some job =
          ok_or-ok (unknown_job id) (get_job id (update_rows id f rows)) job
            (ground (arith, done)) in
        let (old, was, is) = get_job-updated id f keeps rows job found in
        (
          old,
          was,
          rw is (keeps.keeps_source old),
          rw (done, after) found,
          λ other. elim (Bool-cases (text_eq id other)) [
            | inl e ↦ inl e
            | inr e ↦ inr (rw (done, after) (get_job-others id f keeps other rows e))
          ],
        )
  ]

  -- An update that is refused, for its fields or for an unknown id, changes nothing.
  pub update_job-refused : (e : JobError) → (update_job id fields rows).0 ≡ err e → after ≡ rows
  update_job-refused e h = elim update_job-cases [
    | inl (e', refused) ↦ rw (refused, after)
    | inr (f, keeps, done) ↦ elim (Option-cases (get_job id (update_rows id f rows))) [
      | inl missing ↦ rw (done, after) (update_rows-missing id f keeps rows missing)
      | inr (job, found) ↦ absurd (ground (arith, done))
    ]
  ]

  -- If every job has one of the six statuses that the table allows, that is still so after an
  -- update, whatever it is given.
  pub update_job-statuses :
      All (λ r. is_one_of statuses r.job.status ≡ true) rows
      → All (λ r. is_one_of statuses r.job.status ≡ true) after
  update_job-statuses valid = elim update_job-cases [
    | inl (e, refused) ↦ rw (refused, after) valid
    | inr (f, keeps, done) ↦ rw (done, after) (update_rows-statuses id f keeps rows valid)
  ]
