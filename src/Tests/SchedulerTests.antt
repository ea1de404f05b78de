-- ===== src/Tests/SchedulerTests.antt =====
-- Classification, keys and the service queue on small events.
use mutsumi_s_sync.Common.{
  ◌≡◌, ◌⊎◌, inr, refl, true, false, none, some, [], ◌∷◌, ◌++◌, Text, codes, text_eq, contains, find,
  starts_with, get, put, ok,
}
use mutsumi_s_sync.Json.{Json, str, obj, Fields, field, end, get_field, get_or_null, truthy}
use mutsumi_s_sync.Ledger.{empty}
use mutsumi_s_sync.Common.{if◌then◌else◌}
use mutsumi_s_sync.Ledger.{EventRecord, Ledger, inbound, cancelled, received, get_event, find_event}
use mutsumi_s_sync.Ledger.Status.{with_status}
use mutsumi_s_sync.Scheduler.Service.{cancel_running}
use mutsumi_s_sync.Scheduler.Service.Restoring.{cancel_running_lem}
use mutsumi_s_sync.Tests.Samples.{event_of}
use mutsumi_s_sync.Message.{
  MessageEvent, ClassifiedMessage, image, segment_type, classify_message, lower_search,
}
use mutsumi_s_sync.Common.{all}
use mutsumi_s_sync.Message.Totality.{is_well_shaped, classify_message-total}
use mutsumi_s_sync.Scheduler.Keys.{
  group_of, make_key, make_peer, peer_from_key, storage_key, conversation_of_storage, make_key_lem,
}
use mutsumi_s_sync.Scheduler.Service.{
  ServiceState, start_state, queue_of, has_worker, is_queued, dispatch_service_event, ensure_worker,
  take_event, created, waiting, first_run, dispatched, taken, started, stepped,
}
use mutsumi_s_sync.Scheduler.Service.Stranding.{
  IsServed, Reachable-IsServed, dispatch_service_event_lem,
}

abbrev text_of : Json → Text
text_of (str t) = t
text_of _ = []

abbrev picture : Fields
picture =
    field (codes "type") (str (codes "image"))
      (field (codes "data") (obj (field (codes "url") (str (codes "http://x")) end)) end)

abbrev classified : ClassifiedMessage
classified = record {
  raw = codes "raw";
  msg_type = image;
  content = some [];
  image_file = none;
  image_url = some (codes "http://x");
  media_kind = codes "image";
}

seen_as_image : classify_message text_of (picture ∷ []) (codes "raw") ≡ ok classified
unfolding classify_message segment_type get_field get_or_null truthy lower_search contains find
    starts_with text_eq
seen_as_image = refl

abbrev group_event : MessageEvent
group_event = record {
  is_service = false;
  message_type = codes "group";
  user_id = codes "7";
  group_id = some (codes "42");
  message = [];
  raw_message = [];
  sender = end;
  time = 0;
}

in_group : group_of group_event ≡ some (codes "42")
unfolding group_of text_eq
in_group = refl

make_key_lem_example :
    (peer_from_key (make_key group_event) ≡ make_peer group_event)
    × (conversation_of_storage (storage_key group_event) ≡ make_key group_event)
make_key_lem_example = make_key_lem group_event (codes "42") refl refl refl (inr in_group)

abbrev report : MessageEvent
report = record group_event { is_service = true; user_id = codes "ci" }

abbrev queued_report : ServiceState
queued_report = (dispatch_service_event report (codes "e1") (start_state empty)).1

abbrev started_report : ServiceState
started_report = record queued_report {
  workers = put (codes "service:ci") waiting queued_report.workers;
}

report_waits :
    (get (codes "service:ci") queued_report.workers ≡ some created)
    × (get (codes "service:ci") started_report.workers ≡ some waiting)
    × (queue_of (codes "service:ci") started_report ≡ (report, codes "e1") ∷ [])
unfolding dispatch_service_event ensure_worker make_key get put text_eq
report_waits = (refl, refl, refl)

abbrev running_report : ServiceState
running_report = take_event (codes "service:ci") (codes "e1") [] started_report

Reachable-IsServed_example : IsServed running_report (codes "service:ci")
Reachable-IsServed_example = Reachable-IsServed empty running_report (codes "service:ci") (
    stepped
      (stepped (stepped started (dispatched report (codes "e1") (start_state empty)))
        (first_run (codes "service:ci") queued_report report_waits.0))
      (taken (codes "service:ci") (codes "e1") report [] started_report report_waits.1
        report_waits.2))

dispatch_service_event_lem_example :
    let after = (dispatch_service_event report (codes "e2") (start_state empty)).1 in
    ((is_queued (codes "e2") (start_state empty) ≡ true) × (after ≡ start_state empty))
    ⊎ ((is_queued (codes "e2") (start_state empty) ≡ false)
        × (queue_of (make_key report) after
            ≡ queue_of (make_key report) (start_state empty) ++ (report, codes "e2") ∷ [])
        × (has_worker (make_key report) after ≡ true)
        × (after.event_ids ≡ codes "e2" ∷ [])
        × ((other : Text)
            → (text_eq (make_key report) other ≡ true)
              ⊎ (queue_of other after ≡ queue_of other (start_state empty))))
dispatch_service_event_lem_example =
    dispatch_service_event_lem report (codes "e2") (start_state empty) refl

abbrev cancelled_row : EventRecord
cancelled_row = event_of (codes "e1") (codes "service:ci") inbound cancelled []

abbrev left_behind : Ledger
left_behind = record { events = cancelled_row ∷ []; last_sequence = 1; actors = [] }

row_found : get_event (codes "e1") left_behind ≡ some cancelled_row
unfolding get_event find_event text_eq
row_found = refl

cancel_running_lem_example :
    let t = cancel_running (codes "service:ci") (codes "e1") left_behind running_report in
    (is_queued (codes "e1") t ≡ false)
    × (get_event (codes "e1") t.ledger
        ≡ some (
            if text_eq cancelled_row.status cancelled
            then with_status received none cancelled_row
            else cancelled_row))
cancel_running_lem_example =
    cancel_running_lem (codes "service:ci") (codes "e1") left_behind running_report cancelled_row
      row_found

picture_is_fine : all is_well_shaped (picture ∷ []) ≡ true
unfolding get_field get_or_null text_eq
picture_is_fine = refl

classify_message-total_example :
    (c : ClassifiedMessage) × (classify_message text_of (picture ∷ []) (codes "raw") ≡ ok c)
classify_message-total_example =
    classify_message-total text_of (picture ∷ []) (codes "raw") picture_is_fine
