-- ===== src/Jobs/Settling.antt =====
-- What an update of the status and the result does to a job
-- (archive/v3/src/mutsumi_sync/prototype/storage.py).
use mutsumi_s_sync.Common.{
  Bool, true, false, some, List, [], ◌∷◌, ◌≡◌, refl, inl, inr, arith, ap, sym, subst, ◌∙◌,
}
use mutsumi_s_sync.Common.{Text, codes, text_eq, text_eq_iff, if◌then◌else◌, ok, Bool-cases}
use mutsumi_s_sync.Json.{str, boolean, Fields, end, field}
use mutsumi_s_sync.Jobs.{
  BackgroundJob, JobRow, unknown_job, statuses, is_one_of, get_job, update_job, assign, assignments,
  has_only_update_fields, update_rows, ok_or,
}

-- The fields of an update of the status and the result, which may clear the action as well.
abbrev pub settled_fields : Text → Text → Bool → Fields
settled_fields status result clears = field (codes "status") (str status) (
    field (codes "result") (str result)
      (if clears then field (codes "active_action") (str []) end else end))

abbrev pub settle : Text → Text → Bool → BackgroundJob → BackgroundJob
settle status result clears j = record j {
  status = status;
  result = result;
  active_action = if clears then [] else j.active_action;
}

update_job-settled_fields :
    (id status result : Text) (clears : Bool) (rows : List JobRow)
    → is_one_of statuses status ≡ true
    → update_job id (settled_fields status result clears) rows ≡ (
      ok_or (unknown_job id) (get_job id (update_rows id (settle status result clears) rows)),
      update_rows id (settle status result clears) rows,
    )
unfolding update_job assignments assign has_only_update_fields text_eq
update_job-settled_fields id status result true rows known = rw known refl
update_job-settled_fields id status result false rows known = rw known refl

settle_rows-status :
    (id status result : Text) (clears : Bool) (rows : List JobRow) (j : BackgroundJob)
    → get_job id (update_rows id (settle status result clears) rows) ≡ some j
    → j.status ≡ status
unfolding get_job update_rows
settle_rows-status id status result clears [] j h = ground arith
settle_rows-status id status result clears (r ∷ rows) j h =
    elim (Bool-cases (text_eq r.job.id id)) [
      | inl e ↦ ground arith
      | inr e ↦ ground (arith, settle_rows-status id status result clears rows j)
    ]

-- After such an update the job under the id, if there is one, has the status.
pub settled_status :
    (id status result : Text) (clears : Bool) (rows : List JobRow) (j : BackgroundJob)
    → is_one_of statuses status ≡ true
    → get_job id (update_job id (settled_fields status result clears) rows).1 ≡ some j
    → j.status ≡ status
settled_status id status result clears rows j known h =
    let changed = update_job-settled_fields id status result clears rows known in
    settle_rows-status id status result clears rows j
      (ap (λ after. get_job id after.1) (sym changed) ∙ h)

abbrev pub mark_fields : Fields
mark_fields = field (codes "delivered") (boolean true) end

abbrev mark : BackgroundJob → BackgroundJob
mark j = record j { delivered = true }

update_job-mark_fields :
    (id : Text) (rows : List JobRow)
    → update_job id mark_fields rows
      ≡ (ok_or (unknown_job id) (get_job id (update_rows id mark rows)), update_rows id mark rows)
unfolding update_job assignments assign has_only_update_fields text_eq
update_job-mark_fields id rows = refl

abbrev pub IsDelivered : List JobRow → Text → Type 0
IsDelivered rows id = (j : BackgroundJob) × (get_job id rows ≡ some j) × (j.delivered ≡ true)

mark_rows-delivered :
    (id : Text) (rows : List JobRow) (j : BackgroundJob)
    → get_job id (update_rows id mark rows) ≡ some j
    → j.delivered ≡ true
unfolding get_job update_rows
mark_rows-delivered id [] j h = ground arith
mark_rows-delivered id (r ∷ rows) j h = elim (Bool-cases (text_eq r.job.id id)) [
  | inl e ↦ ground arith
  | inr e ↦ ground (arith, mark_rows-delivered id rows j)
]

mark_rows-IsDelivered :
    (id other : Text) (rows : List JobRow)
    → IsDelivered rows other
    → IsDelivered (update_rows id mark rows) other
unfolding get_job update_rows
mark_rows-IsDelivered id other [] (k, h, d) = absurd (ground arith)
mark_rows-IsDelivered id other (r ∷ rows) (k, h, d) = elim (Bool-cases (text_eq r.job.id other)) [
  | inl e ↦ (if text_eq r.job.id id then mark r.job else r.job, ground arith, ground arith)
  | inr e ↦
      let (j, found, is) = mark_rows-IsDelivered id other rows (k, ground arith, d) in
      (j, ground arith, is)
]

-- A job that was delivered still is after another is marked.
pub mark_fields-IsDelivered :
    (id other : Text) (rows : List JobRow)
    → IsDelivered rows other
    → IsDelivered (update_job id mark_fields rows).1 other
mark_fields-IsDelivered id other rows h =
    subst (λ r. IsDelivered r.1 other) (sym (update_job-mark_fields id rows))
      (mark_rows-IsDelivered id other rows h)

-- The job that is marked is delivered from then on.
pub mark_fields_lem :
    (id : Text) (rows : List JobRow) (job : BackgroundJob)
    → (update_job id mark_fields rows).0 ≡ ok job
    → IsDelivered (update_job id mark_fields rows).1 id
mark_fields_lem id rows job h =
    let changed = update_job-mark_fields id rows in
    let found : get_job id (update_rows id mark rows) ≡ some job = ground (arith, changed) in
    subst (λ r. IsDelivered r.1 id) (sym changed)
      (job, found, mark_rows-delivered id rows job found)

-- The job that is found under an id has it.
pub get_job-id :
    (id : Text) (rows : List JobRow) (j : BackgroundJob) → get_job id rows ≡ some j → j.id ≡ id
unfolding get_job
get_job-id id [] j h = ground arith
get_job-id id (r ∷ rows) j h = elim (Bool-cases (text_eq r.job.id id)) [
  | inl e ↦ ground (arith, text_eq_iff r.job.id id)
  | inr e ↦ get_job-id id rows j (ground arith)
]
