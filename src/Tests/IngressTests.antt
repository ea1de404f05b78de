-- ===== src/Tests/IngressTests.antt =====
-- The ingress on one request, with small stand-ins for the libraries.
use mutsumi_s_sync.Common.{
  ◌≡◌, refl, false, some, List, [], ◌∷◌, Text, codes, Result, ok, get, text_eq, partition_at, strip,
  rstrip, lstrip, is_space, words, join,
}
use mutsumi_s_sync.Json.{Json, Fields, str, obj, end, field, get_field, get_or_null, truthy}
use mutsumi_s_sync.Ledger.{Ledger, empty, append_event, get_event, ensure_actor}
use mutsumi_s_sync.Ledger.Invariant.{IsValid, IsValid-empty}
use mutsumi_s_sync.Ingress.Defs.{
  Failure, ServiceMessageEvent, Libraries, IngressConfig, authorized, lower, is_service_id,
  validate_segments, parse_event, text_from_segments, clean_actor_name,
}
use mutsumi_s_sync.Ingress.Process.{Request, Accepted, check_request, process_request}
use mutsumi_s_sync.Ingress.Process.Acceptance.{
  Holds, Repeats, accepted-Holds, process_request_again,
}

abbrev payload : Fields
payload =
    field (codes "post_type") (str (codes "message"))
      (field (codes "message_type") (str (codes "private")) end)

abbrev segment : Json
segment = obj (
    field (codes "type") (str (codes "text"))
      (field (codes "data") (obj (field (codes "text") (str (codes "hi")) end)) end))

abbrev message : ServiceMessageEvent
message = record {
  user_id = codes "ci";
  message = segment ∷ [];
  raw_message = [];
  message_id = codes "m1";
  sender = end;
}

abbrev text_of : Json → Text
text_of (str t) = t
text_of _ = []

abbrev lib : Libraries
lib = record {
  to_str = text_of;
  urlparse = λ url. (codes "http", url);
  decode_json = λ body. some (obj payload);
  model_validate = λ fields. some message;
  uuid5 = λ name. name;
}

abbrev config : IngressConfig
config = record { token = codes "secret"; max_body_bytes = 1024; target_user_id = codes "1" }

abbrev request : Request
request = record {
  method = codes "POST";
  path = codes "/v1/events?x=1";
  headers =
      (codes "authorization", codes "Bearer secret")
      ∷ (codes "content-type", codes "application/json; charset=utf-8")
      ∷ [];
  body = [];
}

abbrev event_id : Text
event_id = codes "mutsumi-ingress:ci:m1"

-- A receiver that collects the ids it is handed.
abbrev on_event : ServiceMessageEvent → Text → List Text → Result Failure (Unit {0}) × List Text
on_event event id queue = (ok tt, id ∷ queue)

abbrev others : Ledger → Ledger
others ledger = ledger

abbrev first_run : Result Failure Accepted × Ledger × List Text
first_run = process_request lib config on_event others 5 request empty []

request_accepted :
    (first_run.0 ≡ ok (record { duplicate = false; event_id = event_id }))
    × (first_run.2 ≡ event_id ∷ [])
unfolding process_request check_request parse_event validate_segments is_service_id authorized lower
    partition_at strip get get_or_null get_field truthy text_eq append_event get_event ensure_actor
    text_from_segments clean_actor_name words join rstrip lstrip is_space
request_accepted = (refl, refl)

accepted-Holds_example : IsValid first_run.1 × Holds event_id first_run.1
accepted-Holds_example =
    accepted-Holds lib config on_event others (λ ledger v. v) 5 request empty [] IsValid-empty
      (record { duplicate = false; event_id = event_id }) request_accepted.0

process_request_again_example :
    let again = process_request lib config on_event others 8 request first_run.1 [] in
    (again.1 ≡ first_run.1) × Repeats again.0
process_request_again_example =
    process_request_again lib config on_event others (λ ledger v. v) 5 request empty []
      IsValid-empty 8 []
