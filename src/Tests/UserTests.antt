-- ===== src/Tests/UserTests.antt =====
-- The tasks of the users, the scheduled tasks and the heartbeats on short runs.
use mutsumi_s_sync.Common.{
  ℕ, ◌+◌, ◌≡◌, ◌≤◌, ◌≢◌, refl, false, none, some, [], ◌∷◌, arith, Text, codes, text_eq, is_space,
  ◌&&◌, ◌==◌, map, strip, lstrip, rstrip, starts_with, length, get, put, filter, join, join,
}
use mutsumi_s_sync.Json.{Json, Fields, str, obj, field, end}
use mutsumi_s_sync.Message.{
  MessageEvent, short_text, ClassifiedMessage, classify_message, segment_type,
}
use mutsumi_s_sync.Scheduler.Keys.{make_key, group_of, Peer}
use mutsumi_s_sync.Scheduler.Users.{Launch, running, UserState, dispatch}
use mutsumi_s_sync.Scheduler.Users.Merging.{
  newline, IsText, has_many, spoken, line_of, debounce_expire, dispatch_all,
  debounce_expire-dispatch_all,
}
use mutsumi_s_sync.Scheduler.Users.Waiting.{rest, move, dispatched, no_users, waiting_text_timed}
use mutsumi_s_sync.Store.Tasks.{ScheduledTaskRecord, get_pending_scheduled_tasks}
use mutsumi_s_sync.Scheduler.Schedules.{
  ScheduleState, schedule_once, Ending, finished, cut_off, sleep_and_fire, sleep_and_fire-ended,
  sleep_and_fire-cut_off,
}
use mutsumi_s_sync.Ledger.{empty}
use mutsumi_s_sync.Common.{List}
use mutsumi_s_sync.Scheduler.Heartbeats.{Candidate, Clock, Heartbeat, World, going, heartbeat_delay}

abbrev to_str : Json → Text
to_str (str t) = t
to_str _ = []

abbrev segment : Text → Fields
segment t =
    field (codes "type") (str (codes "text"))
      (field (codes "data") (obj (field (codes "text") (str t) end)) end)

abbrev message : Text → MessageEvent
message t = record {
  is_service = false;
  message_type = codes "private";
  user_id = codes "1";
  group_id = none;
  message = segment t ∷ [];
  raw_message = t;
  sender = end;
  time = 4;
}

abbrev hi : MessageEvent × Text
hi = (message (codes "hi"), codes "hi")

abbrev key : Text
key = codes "private:1"

abbrev classified : Text → ClassifiedMessage
classified t = record {
  raw = t;
  msg_type = short_text;
  content = some t;
  image_file = none;
  image_url = none;
  media_kind = codes "image";
}

waits : IsText to_str key hi
unfolding make_key group_of classify_message segment_type text_eq strip lstrip rstrip is_space
waits = (refl, refl, (classified (codes "hi"), refl, refl, refl))

abbrev hello : MessageEvent × Text
hello = (message (codes "hello"), codes "hello")

waits_too : IsText to_str key hello
unfolding make_key group_of classify_message segment_type text_eq strip lstrip rstrip is_space
waits_too = (refl, refl, (classified (codes "hello"), refl, refl, refl))

none_waits : get key no_users.pending ≡ none
unfolding get
none_waits = refl

debounce_expire-dispatch_all_example :
    (l : Launch) × (get key
        (debounce_expire to_str key (dispatch_all to_str (hi.0 ∷ hello.0 ∷ []) no_users)).1.tasks
      ≡ some (running l))
    × (l.inbound_events ≡ map (line_of to_str) (hi ∷ hello ∷ []))
    × (l.conversation_id ≡ key)
    × (l.message
        ≡ join newline (
            map
              (spoken to_str (starts_with key (codes "group:") && has_many (hi ∷ hello ∷ [])))
              (hi ∷ hello ∷ [])))
debounce_expire-dispatch_all_example =
    debounce_expire-dispatch_all to_str key hi (hello ∷ []) no_users (ground (arith, none_waits))
      (waits, (waits_too, tt))

abbrev one_waits : UserState
one_waits = (dispatch to_str hi.0 no_users).1

stored_text : get key one_waits.pending ≡ some (hi.0 ∷ [])
unfolding dispatch make_key group_of classify_message segment_type text_eq strip lstrip rstrip
    is_space get put
stored_text = refl

waiting_text_timed_example : get key one_waits.timers ≡ some tt
waiting_text_timed_example =
    waiting_text_timed to_str one_waits key (hi.0 ∷ [])
      (move (rest no_users) (dispatched hi.0 no_users)) stored_text

abbrev peer : Peer
peer = record { chat_type = 1; peer_uid = codes "1" }

abbrev no_schedules : ScheduleState
no_schedules = record { tasks = record { rows = []; last_id = 0 }; sleeping = []; users = no_users }

abbrev scheduled : ScheduleState
scheduled = (schedule_once 3 9 (codes "water the plants") key peer no_schedules).1

abbrev reminder : ScheduledTaskRecord
reminder = record {
  id = 1;
  group_key = key;
  peer_chat_type = 1;
  peer_uid = codes "1";
  prompt = codes "water the plants";
  scheduled_at = 9;
  status = codes "pending";
  created_at = 3;
}

abbrev finishes : ScheduleState → Ending × ScheduleState
finishes s = (finished, s)

abbrev breaks_off : ScheduleState → Ending × ScheduleState
breaks_off s = (cut_off, s)

is_finished : finished ≢ cut_off
is_finished e = ground arith

sleep_and_fire-ended_example :
    length (
      filter
        (λ x. x.id == 1)
        (get_pending_scheduled_tasks (sleep_and_fire finishes reminder scheduled).tasks))
    ≡ 0
sleep_and_fire-ended_example = sleep_and_fire-ended finishes reminder scheduled is_finished

sleep_and_fire-cut_off_example :
    length (
      filter
        (λ x. x.id == 1)
        (get_pending_scheduled_tasks (sleep_and_fire breaks_off reminder scheduled).tasks))
    ≡ length (filter (λ x. x.id == 1) scheduled.tasks.rows)
sleep_and_fire-cut_off_example = sleep_and_fire-cut_off breaks_off reminder scheduled refl refl

abbrev candidate : Candidate
candidate = record { conversation_id = key; actor_id = codes "qq:user:1"; actor_name = codes "A" }

abbrev quiet : World ℕ
quiet = record { tasks = []; windows = []; ledger = empty; rest = 0 }

abbrev read_two : World ℕ → List Candidate × World ℕ
read_two w = (candidate ∷ candidate ∷ [], w)

-- A pipeline of a user starts during the first heartbeat.
abbrev start_user : Heartbeat → World ℕ → World ℕ
start_user beat w = record w { tasks = (key, some going) ∷ []; rest = w.rest + 1 }

abbrev clock : Clock
clock = record { next_private = 600; next_group = 900 }

slept : 0 + heartbeat_delay 0 clock ≤ 600
unfolding heartbeat_delay
slept = ground arith
