-- ===== src/Ingress/Process.antt =====
-- `_process_request` and `_retry_received` of ingress.py. `S` is the state of the receiver that
-- `on_event` hands events to; `others` is what other tasks do to the ledger at the `await` between
-- the look-up of the event and its insertion.
pub mod Acceptance
use mutsumi_s_sync.Common.{
  ℕ, ◌==◌, Bool, true, false, not, ◌&&◌, Option, none, some, List, [], ◌∷◌, ◌++◌,
}
use mutsumi_s_sync.Common.{
  Text, codes, text_eq, strip, is_empty, if◌then◌else◌, Result, ok, err, partition_at, Dict, get,
}
use mutsumi_s_sync.Json.{Json, str, obj, null, Fields, get_or_null, truthy, as_obj}
use mutsumi_s_sync.Ledger.{
  EventRecord, ActorRecord, Ledger, StoreError, inbound, received, append_event, get_event,
  ensure_actor,
}
use mutsumi_s_sync.Ingress.Defs.{
  Failure, request_error, internal_error, ◌>>=◌, ◌>>◌, require, ServiceMessageEvent, Libraries,
  IngressConfig, lower, authorized, parse_event, text_from_segments, clean_actor_name,
}

pub record Request : Type 0 where
  pub method : Text
  pub path : Text
  pub headers : Dict Text
  pub body : Text

-- The body of a 202 response.
pub record Accepted : Type 0 where
  pub duplicate : Bool
  pub event_id : Text

abbrev pub header : Text → Dict Text → Text
header key headers = elim (get key headers) [ none ↦ [] | some value ↦ value ]

-- Lines 164 to 184, up to the event and its id.
unfoldable pub check_request :
    Libraries → IngressConfig → Request → Result Failure (Fields × ServiceMessageEvent × Text)
unfolding get partition_at lower authorized
check_request lib config request = do
  require (text_eq request.method (codes "POST")) 405 (codes "only POST is supported")
  require (text_eq (partition_at b'?' request.path).0 (codes "/v1/events")) 404
      (codes "unknown ingress path")
  allowed ← authorized config (header (codes "authorization") request.headers)
  require allowed 401 (codes "unauthorized")
  let content_type = (partition_at b';' (header (codes "content-type") request.headers)).0
  require (text_eq (lower (strip content_type)) (codes "application/json")) 415
      (codes "Content-Type must be application/json")
  value ← elim (lib.decode_json request.body) [
    | none ↦ err (request_error 400 (codes "body must be UTF-8 JSON"))
    | some value ↦ ok value
  ]
  payload ← elim (as_obj value) [
    | none ↦ err (request_error 400 (codes "body must be a JSON object"))
    | some payload ↦ ok payload
  ]
  event ← parse_event lib payload
  let message_id = strip event.message_id
  require (not (is_empty message_id)) 400 (codes "message_id is required")
  ok (
    payload,
    event,
    lib.uuid5 (codes "mutsumi-ingress:" ++ (event.user_id ++ (codes ":" ++ message_id))),
  )

-- `a or b` of JSON values
abbrev or_json : Json → Json → Json
or_json a b = if truthy a then a else b

abbrev actor_name_of : Libraries → ServiceMessageEvent → Text
actor_name_of lib event =
    clean_actor_name lib
      (or_json (get_or_null (codes "card") event.sender)
        (get_or_null (codes "nickname") event.sender))
      event.user_id

abbrev service_actor : Libraries → ServiceMessageEvent → ActorRecord
service_actor lib event = record {
  actor_id = codes "service:" ++ event.user_id;
  kind = codes "service";
  platform = codes "service";
  platform_subject_id = event.user_id;
  display_name = actor_name_of lib event;
  private_alias = [];
  relationship = [];
  updated_at = 0;
}

abbrev service_record :
    Libraries → IngressConfig → Fields → ServiceMessageEvent → Text → EventRecord
service_record lib config payload event event_id = record {
  conversation_id = codes "service:" ++ event.user_id;
  actor_id = codes "service:" ++ event.user_id;
  actor_kind = codes "service";
  event_type = inbound;
  content =
      if is_empty event.raw_message
      then text_from_segments lib event.message
      else event.raw_message;
  event_id = event_id;
  actor_name = actor_name_of lib event;
  audience = config.target_user_id;
  visibility = codes "private";
  media_ids = [];
  payload = payload;
  turn_id = [];
  pipeline_id = [];
  status = received;
  created_at = 0;
  sequence = 0;
}

module _ {S : Type 0} (lib : Libraries) (config : IngressConfig)
    (on_event : ServiceMessageEvent → Text → S → Result Failure (Unit {0}) × S)
    (others : Ledger → Ledger) where
  abbrev enqueue : ServiceMessageEvent → Text → S → Result Failure (Unit {0}) × S
  enqueue = on_event

  -- An event that is still `received` is handed over once more, from its stored payload.
  retry_received : EventRecord → Text → S → Result Failure (Unit {0}) × S
  retry_received row event_id s =
      if text_eq row.status received
      then elim (parse_event lib row.payload) [
        | err e ↦ (err e, s)
        | ok pending_event ↦ enqueue pending_event event_id s
      ]
      else (ok tt, s)

  duplicate_of : EventRecord → Text → Ledger → S → Result Failure Accepted × Ledger × S
  unfolding retry_received
  duplicate_of existing event_id ledger s =
      let (result, s') = retry_received existing event_id s in
      (result >>= λ _. ok (record { duplicate = true; event_id = event_id }), ledger, s')

  -- Lines 223 to 242, from what the insertion gave: the event is handed over, or another task was
  -- faster and the request is a duplicate.
  finish_insert :
      ServiceMessageEvent
      → Text
      → Result StoreError EventRecord × Ledger
      → S
      → Result Failure Accepted × Ledger × S
  unfolding duplicate_of
  finish_insert event event_id (ok row, after) s =
      let (result, s') = enqueue event event_id s in
      (result >>= λ _. ok (record { duplicate = false; event_id = event_id }), after, s')
  finish_insert event event_id (err e, after) s = elim (get_event event_id after) [
    | none ↦ (err internal_error, after, s)
    | some existing ↦ duplicate_of existing event_id after s
  ]

  -- Lines 195 to 222: the event was not in the ledger when it was looked up. Its id comes from
  -- `uuid5` and is never empty, so the insertion draws no fresh one.
  insert_event :
      ℕ → Fields → ServiceMessageEvent → Text → Ledger → S → Result Failure Accepted × Ledger × S
  unfolding finish_insert
  insert_event now payload event event_id ledger s =
      let known = (ensure_actor now (service_actor lib event) ledger).1 in
      finish_insert event event_id
        (append_event [] now (service_record lib config payload event event_id) (others known)) s

  unfoldable pub process_request : ℕ → Request → Ledger → S → Result Failure Accepted × Ledger × S
  unfolding insert_event duplicate_of
  process_request now request ledger s = elim (check_request lib config request) [
    | err e ↦ (err e, ledger, s)
    | ok (payload, event, event_id) ↦ elim (get_event event_id ledger) [
      | some existing ↦ duplicate_of existing event_id ledger s
      | none ↦ insert_event now payload event event_id ledger s
    ]
  ]
