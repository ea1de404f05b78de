-- ===== src/Jobs.antt =====
-- The durable background jobs of the prototype (archive/v3/src/mutsumi_sync/prototype/storage.py).
-- The table is the list of its rows in the order of `rowid`. Times are natural numbers of one unit.
pub mod Creation
pub mod Updates
pub mod Settling
pub mod Recovery
use mutsumi_s_sync.Common.{
  ℕ, zero, suc, ◌+◌, ◌==◌, Bool, true, false, not, ◌&&◌, ◌||◌, Option, none, some, List, [], ◌∷◌,
  ◌++◌, map,
}
use mutsumi_s_sync.Common.{
  Text, codes, text_eq, strip, is_empty, any, all, leb, filter, if◌then◌else◌, Result, ok, err,
}
use mutsumi_s_sync.Json.{Json, Items, nil, cons, Fields, end, field, boolean, str, arr, as_str}

pub record BackgroundJob : Type 0 where
  pub id : Text
  pub conversation_id : Text
  pub actor_id : Text
  pub peer_chat_type : ℕ
  pub peer_uid : Text
  pub request : Text
  pub input_event_ids : List Text
  pub updates : List Text
  pub status : Text
  pub result : Text
  pub delivered : Bool
  pub created_at : ℕ
  pub active_action : Text

-- A row: the job, and the column that no reader sees.
pub record JobRow : Type 0 where
  pub job : BackgroundJob
  pub request_key : Text

-- The exceptions that the operations raise.
pub data JobError : Type 0 where
  blank_source bad_chat_type unreadable_job unsupported_field bad_status bad_delivered : JobError
  not_strings not_string unknown_job : Text → JobError

abbrev pub queued : Text
queued = codes "queued"

abbrev pub running : Text
running = codes "running"

abbrev pub unknown : Text
unknown = codes "unknown"

abbrev pub statuses : List Text
statuses = queued ∷ running ∷ codes "completed" ∷ codes "failed" ∷ codes "cancelled" ∷ unknown ∷ []

abbrev pub is_one_of : List Text → Text → Bool
is_one_of options value = any (λ option. text_eq option value) options

abbrev update_fields : List Text
update_fields =
    codes "input_event_ids"
    ∷ codes "updates"
    ∷ codes "status"
    ∷ codes "result"
    ∷ codes "delivered"
    ∷ codes "active_action"
    ∷ []

-- `SELECT * FROM prototype_jobs WHERE request_key = ?`
unfoldable pub find_key : Text → List JobRow → Option BackgroundJob
find_key key [] = none
find_key key (r ∷ rows) = if text_eq r.request_key key then some r.job else find_key key rows

unfoldable pub get_job : Text → List JobRow → Option BackgroundJob
get_job id [] = none
get_job id (r ∷ rows) = if text_eq r.job.id id then some r.job else get_job id rows

-- The keyword arguments of `create_job`, of the types that its signature gives them.
pub record JobSource : Type 0 where
  pub conversation_id : Text
  pub actor_id : Text
  pub peer_chat_type : ℕ
  pub peer_uid : Text
  pub request : Text
  pub input_event_ids : List Text

abbrev is_nonblank : Text → Bool
is_nonblank t = not (is_empty (strip t))

unfoldable pub check_source : JobSource → Result JobError (Unit {0})
check_source s =
    if all is_nonblank (s.conversation_id ∷ s.actor_id ∷ s.peer_uid ∷ s.request ∷ [])
    then (if s.peer_chat_type == 1 || s.peer_chat_type == 2 then ok tt else err bad_chat_type)
    else err blank_source

-- The row that `INSERT` writes, with the defaults of the table.
abbrev pub new_row : Text → ℕ → Text → JobSource → JobRow
new_row job_id now key s = record {
  job = record {
    id = job_id;
    conversation_id = s.conversation_id;
    actor_id = s.actor_id;
    peer_chat_type = s.peer_chat_type;
    peer_uid = s.peer_uid;
    request = s.request;
    input_event_ids = s.input_event_ids;
    updates = [];
    status = queued;
    result = [];
    delivered = false;
    created_at = now;
    active_action = [];
  };
  request_key = key;
}

-- `digest` is the SHA-256 of the JSON of the conversation and the input events.
abbrev pub request_key_of : (Text → List Text → Text) → Text → JobSource → Text
request_key_of digest job_id s =
    if is_empty s.input_event_ids then job_id else digest s.conversation_id s.input_event_ids

-- `ON CONFLICT(request_key) DO NOTHING`
unfoldable pub insert_job : JobRow → List JobRow → List JobRow
unfolding find_key
insert_job row rows = elim (find_key row.request_key rows) [
  | some taken ↦ rows
  | none ↦ rows ++ row ∷ []
]

abbrev pub ok_or : JobError → Option BackgroundJob → Result JobError BackgroundJob
ok_or e none = err e
ok_or e (some job) = ok job

-- `fresh` is a new `uuid4`, which no row has as its id.
unfoldable pub create_job :
    (Text → List Text → Text)
    → Text
    → ℕ
    → JobSource
    → List JobRow
    → Result JobError BackgroundJob × List JobRow
unfolding check_source insert_job find_key
create_job digest fresh now s rows = elim (check_source s) [
  | err e ↦ (err e, rows)
  | ok u ↦
      let key = request_key_of digest fresh s in
      let after = insert_job (new_row fresh now key s) rows in
      (ok_or unreadable_job (find_key key after), after)
]

-- `_string_list`, before it is encoded
string_list : Items → Option (List Text)
string_list nil = some []
string_list (cons x xs) =
    let rest = string_list xs in
    elim (as_str x) [ none ↦ none | some t ↦ elim rest [ none ↦ none | some ts ↦ some (t ∷ ts) ] ]

abbrev as_strings : Json → Option (List Text)
as_strings (arr xs) = string_list xs
as_strings _ = none

abbrev as_boolean : Json → Option Bool
as_boolean (boolean b) = some b
as_boolean _ = none

-- One field of the `UPDATE`: its check, and the column that it assigns.
assign : Text → Json → Result JobError (BackgroundJob → BackgroundJob)
unfolding string_list
assign name value =
    if text_eq name (codes "input_event_ids")
    then elim (as_strings value) [
      | none ↦ err (not_strings name)
      | some ids ↦ ok (λ j. record j { input_event_ids = ids })
    ]
    else if text_eq name (codes "updates")
    then elim (as_strings value) [
      | none ↦ err (not_strings name)
      | some texts ↦ ok (λ j. record j { updates = texts })
    ]
    else if text_eq name (codes "status")
    then elim (as_str value) [
      | none ↦ err bad_status
      | some s ↦ if is_one_of statuses s then ok (λ j. record j { status = s }) else err bad_status
    ]
    else if text_eq name (codes "delivered")
    then elim (as_boolean value) [
      | none ↦ err bad_delivered
      | some b ↦ ok (λ j. record j { delivered = b })
    ]
    else elim (as_str value) [
      | none ↦ err (not_string name)
      | some t ↦
          if text_eq name (codes "result")
          then ok (λ j. record j { result = t })
          else ok (λ j. record j { active_action = t })
    ]

-- The loop over the fields: the first bad value is refused before anything is written.
assignments : Fields → Result JobError (BackgroundJob → BackgroundJob)
unfolding assign
assignments end = ok (λ j. j)
assignments (field name value rest) =
    let later = assignments rest in
    elim (assign name value) [
      | err e ↦ err e
      | ok f ↦ elim later [ err e ↦ err e | ok g ↦ ok (λ j. g (f j)) ]
    ]

has_only_update_fields : Fields → Bool
has_only_update_fields end = true
has_only_update_fields (field name value rest) =
    is_one_of update_fields name && has_only_update_fields rest

-- `UPDATE prototype_jobs SET … WHERE id = ?`
update_rows : Text → (BackgroundJob → BackgroundJob) → List JobRow → List JobRow
update_rows id f [] = []
update_rows id f (r ∷ rows) =
    (if text_eq r.job.id id then record r { job = f r.job } else r) ∷ update_rows id f rows

unfoldable pub update_job :
    Text → Fields → List JobRow → Result JobError BackgroundJob × List JobRow
unfolding has_only_update_fields assignments update_rows get_job
update_job id fields rows =
    if has_only_update_fields fields
    then elim (assignments fields) [
      | err e ↦ (err e, rows)
      | ok f ↦
          let after = update_rows id f rows in (ok_or (unknown_job id) (get_job id after), after)
    ]
    else (err unsupported_field, rows)

-- `ORDER BY created_at, rowid` of rows that are in the order of `rowid`
unfoldable pub insert_created : BackgroundJob → List BackgroundJob → List BackgroundJob
insert_created j [] = j ∷ []
insert_created j (k ∷ ks) =
    let rest = insert_created j ks in if leb j.created_at k.created_at then j ∷ k ∷ ks else k ∷ rest

unfoldable pub order_created : List BackgroundJob → List BackgroundJob
unfolding insert_created
order_created [] = []
order_created (j ∷ js) = insert_created j (order_created js)

abbrev pub job_of : JobRow → BackgroundJob
job_of r = r.job

unfoldable pub list_jobs : Option Text → List JobRow → List BackgroundJob
unfolding order_created
list_jobs none rows = order_created (map job_of rows)
list_jobs (some c) rows =
    order_created (filter (λ j. text_eq j.conversation_id c) (map job_of rows))

abbrev pub interrupt : JobRow → JobRow
interrupt r =
    if text_eq r.job.status running
    then record r { job = record (r.job) { status = unknown } }
    else r

abbrev pub needs_attention : BackgroundJob → Bool
needs_attention j = text_eq j.status queued || not j.delivered

unfoldable pub recover_jobs : List JobRow → List BackgroundJob × List JobRow
unfolding order_created
recover_jobs rows =
    let after = map interrupt rows in
    (order_created (filter needs_attention (map job_of after)), after)
