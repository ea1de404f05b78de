-- ===== src/Jobs/Recovery.antt =====
-- What a restart makes of the jobs.
use mutsumi_s_sync.Common.{
  ℕ, ◌+◌, ◌≤◌, ◌≡◌, refl, sym, ap, ◌∙◌, Bool, false, ◌&&◌, inl, inr, List, [], ◌∷◌, map, arith,
  Bool-cases, if◌then◌else◌, All, filter, length, leb,
}
use mutsumi_s_sync.Common.{text_eq, text_eq_iff, not, ◌||◌}
use mutsumi_s_sync.Jobs.{
  BackgroundJob, JobRow, running, queued, interrupt, job_of, needs_attention, insert_created,
  order_created, recover_jobs,
}

-- How many of the jobs pass a test.
abbrev pub count : (BackgroundJob → Bool) → List BackgroundJob → ℕ
count p js = length (filter p js)

count-at :
    (p : BackgroundJob → Bool) (j : BackgroundJob) (js : List BackgroundJob)
    → count p (j ∷ js) ≡ (if p j then 1 else 0) + count p js
count-at p j js = ground arith

count-insert_created :
    (p : BackgroundJob → Bool) (j : BackgroundJob) (js : List BackgroundJob)
    → count p (insert_created j js) ≡ (if p j then 1 else 0) + count p js
unfolding insert_created
count-insert_created p j [] = count-at p j []
count-insert_created p j (k ∷ ks) = elim (Bool-cases (leb j.created_at k.created_at)) [
  | inl e ↦ rw e (count-at p j (k ∷ ks))
  | inr e ↦ rw e (
      omega
        (arith, count-at p k ks, count-at p k (insert_created j ks), count-insert_created p j ks))
]

count-order_created :
    (p : BackgroundJob → Bool) (js : List BackgroundJob) → count p (order_created js) ≡ count p js
unfolding order_created
count-order_created p [] = refl
count-order_created p (j ∷ js) =
    omega (
      arith,
      count-insert_created p j (order_created js),
      count-at p j js,
      count-order_created p js,
    )

-- A list that begins no earlier than `time`, and is in the order of the times.
abbrev pub OrderedFrom : ℕ → List BackgroundJob → Type 0
OrderedFrom time [] = Unit
OrderedFrom time (j ∷ js) = (time ≤ j.created_at) × OrderedFrom j.created_at js

insert_created-OrderedFrom :
    (time : ℕ) (j : BackgroundJob) (js : List BackgroundJob)
    → time ≤ j.created_at
    → OrderedFrom time js
    → OrderedFrom time (insert_created j js)
unfolding insert_created
insert_created-OrderedFrom time j [] le h = (le, tt)
insert_created-OrderedFrom time j (k ∷ ks) le h =
    elim (Bool-cases (leb j.created_at k.created_at)) [
      | inl e ↦ rw e (le, (ground arith, h.1))
      | inr e ↦ rw e (h.0, insert_created-OrderedFrom k.created_at j ks (ground arith) h.1)
    ]

order_created-OrderedFrom : (js : List BackgroundJob) → OrderedFrom 0 (order_created js)
unfolding order_created
order_created-OrderedFrom [] = tt
order_created-OrderedFrom (j ∷ js) =
    insert_created-OrderedFrom 0 j (order_created js) (omega arith) (order_created-OrderedFrom js)

filter-filter :
    (p q : BackgroundJob → Bool) (js : List BackgroundJob)
    → filter p (filter q js) ≡ filter (λ j. q j && p j) js
filter-filter p q [] = refl
filter-filter p q (j ∷ js) = ground (arith, filter-filter p q js)

-- Recovery reports, ordered by time, exactly the jobs of the new table that are queued or not
-- delivered: for every test, as many reported jobs pass it as there are such jobs that do.
pub recover_jobs-report :
    (rows : List JobRow) (test : BackgroundJob → Bool)
    → OrderedFrom 0 (recover_jobs rows).0
      × (count test (recover_jobs rows).0
          ≡ count
              (λ j. (text_eq j.status queued || not j.delivered) && test j)
              (map job_of (recover_jobs rows).1))
unfolding recover_jobs
recover_jobs-report rows test =
    let jobs = filter needs_attention (map job_of (map interrupt rows)) in
    (
      order_created-OrderedFrom jobs,
      rw (count-order_created test jobs)
          (ap length (filter-filter test needs_attention (map job_of (map interrupt rows)))),
    )

interrupt-status :
    (r : JobRow)
    → (text_eq (interrupt r).job.status running ≡ false) × (interrupt (interrupt r) ≡ interrupt r)
unfolding text_eq
interrupt-status r = elim (Bool-cases (text_eq r.job.status running)) [
  | inl e ↦ rw e (refl, refl)
  | inr e ↦ rw e (e, rw e)
]

map-interrupt_status :
    (rows : List JobRow) → All (λ r. text_eq r.job.status running ≡ false) (map interrupt rows)
map-interrupt_status [] = tt
map-interrupt_status (r ∷ rows) = ((interrupt-status r).0, map-interrupt_status rows)

map-interrupt_twice : (rows : List JobRow) → map interrupt (map interrupt rows) ≡ map interrupt rows
map-interrupt_twice [] = refl
map-interrupt_twice (r ∷ rows) = rw ((interrupt-status r).1, map-interrupt_twice rows)

abbrev pub is_queued : BackgroundJob → Bool
is_queued j = text_eq j.status queued

interrupt-queued : (r : JobRow) → is_queued (interrupt r).job ≡ is_queued r.job
unfolding text_eq
interrupt-queued r = elim (Bool-cases (text_eq r.job.status running)) [
  | inl e ↦
      let same : r.job.status ≡ running = (text_eq_iff r.job.status running).0 e in rw e (rw same)
  | inr e ↦ rw e
]

map-interrupt_queued :
    (rows : List JobRow)
    → count is_queued (map job_of (map interrupt rows)) ≡ count is_queued (map job_of rows)
map-interrupt_queued [] = refl
map-interrupt_queued (r ∷ rows) =
    let now = count-at is_queued (interrupt r).job (map job_of (map interrupt rows)) in
    let before = count-at is_queued r.job (map job_of rows) in
    now ∙ (rw (interrupt-queued r, map-interrupt_queued rows) (sym before))

-- After recovery no job is running, and no more jobs are queued than before, so that work that was
-- interrupted is never replayed; recovering again changes and reports nothing else.
pub recover_jobs-stopped :
    (rows : List JobRow)
    → All (λ r. text_eq r.job.status running ≡ false) (recover_jobs rows).1
      × (count is_queued (map job_of (recover_jobs rows).1) ≡ count is_queued (map job_of rows))
      × (recover_jobs (recover_jobs rows).1 ≡ recover_jobs rows)
unfolding recover_jobs
recover_jobs-stopped rows =
    (map-interrupt_status rows, map-interrupt_queued rows, rw (map-interrupt_twice rows))
