-- ===== src/Tests/ChatTests.antt =====
-- The prototype's chat on a short run: an input, its turn, a waiting notice, and a newer input.
use mutsumi_s_sync.Common.{
  ◌≤◌, ◌<◌, ◌≡◌, ◌⊎◌, refl, true, false, none, some, [], ◌++◌, ◌==◌, ◌&&◌, arith, codes, text_eq,
  Option,
}
use mutsumi_s_sync.Json.{Json, obj, str, field, end, get_field, get_or_null}
use mutsumi_s_sync.Jobs.{get_job, list_jobs, order_created}
use mutsumi_s_sync.Prototype.Chat.{RuntimeSettings, Input, reply, waiting, Flight, Chat}
use mutsumi_s_sync.Prototype.Chat.Operations.{
  submit, next_turn, begin_send, finish_send, due_results, outcome_of, is_waiting,
}
use mutsumi_s_sync.Prototype.Chat.Steps.{
  new_chat, Steps, stay, and_then, submitted, chosen, begun, answered,
}
use mutsumi_s_sync.Prototype.Chat.Notices.{
  count_notices, bit, IsNotice, notice_once, sending-IsNotice,
}
use mutsumi_s_sync.Prototype.Chat.Receipts.{SendTest}
use mutsumi_s_sync.Prototype.Chat.Superseded.{count_begun, no_send_after_submit}
use mutsumi_s_sync.Prototype.Chat.Inputs.{taken_inputs, inputs_in_order}

abbrev settings : RuntimeSettings
settings = record {
  wait_seconds = 3;
  chat_timeout = 8;
  send_timeout = 10;
  worker_timeout = 120;
  max_worker_steps = 10;
  history_limit = 100;
}

abbrev hello : Input
hello = record {
  event_id = codes "e1";
  actor_id = codes "u1";
  text = codes "hello";
  received_at = 5;
  notify = true;
}

abbrev second_input : Input
second_input = record {
  event_id = codes "e2";
  actor_id = codes "u1";
  text = codes "again";
  received_at = 9;
  notify = true;
}

abbrev notice : Flight
notice = record { turn = 0; kind = waiting; index = 0; text = codes "wait" }

abbrev late : Flight
late = record { turn = 0; kind = reply; index = 0; text = codes "late" }

abbrev answer : Option Json
answer = some (obj (field (codes "status") (str (codes "ok")) end))

abbrev asked : Chat
asked = (submit hello (new_chat [] [])).1

abbrev taken : Chat
taken = next_turn 6 asked

abbrev noticing : Chat
noticing = (begin_send settings 8 notice taken).1

abbrev noticed : Chat
noticed = (finish_send notice answer noticing).1

abbrev overtaken : Chat
overtaken = (submit second_input noticed).1

abbrev given_up : Chat
given_up = (begin_send settings 9 late overtaken).1

run_noticing : Steps settings (new_chat [] []) noticing
unfolding submit next_turn due_results list_jobs get_job order_created
run_noticing =
    and_then
      (and_then (and_then (stay (new_chat [] [])) (submitted hello (new_chat [] [])))
        (chosen 6 asked refl))
      (begun 8 notice taken (ground arith) refl refl)

sends : noticing.sending ≡ some notice
unfolding submit next_turn begin_send due_results list_jobs get_job order_created
sends = refl

run : Steps settings (new_chat [] []) overtaken
run =
    and_then (and_then run_noticing (answered notice answer noticing sends))
      (submitted second_input noticed)

facts :
    (noticed.turn ≡ some 0)
    × (noticed.created ≡ 1)
    × (noticed.closing ≡ false)
    × (overtaken.created ≡ 1)
    × (overtaken.sending ≡ none)
unfolding submit next_turn begin_send finish_send due_results list_jobs get_job order_created
    outcome_of text_eq get_field get_or_null
facts = (refl, refl, refl, refl, refl)

notice_once_example :
    (count_notices 0 overtaken.log ≡ bit (overtaken.turns 0).wait_claimed)
    × (count_notices 0 overtaken.log ≤ bit (overtaken.turns 0).notify)
    × ((count_notices 0 overtaken.log ≡ 0)
        ⊎ (is_waiting waiting ≡ false)
        ⊎ ((begin_send settings 9 notice overtaken).0 ≡ false))
notice_once_example = notice_once settings [] [] overtaken 9 notice run

sending-IsNotice_example : IsNotice (noticing.turns 0)
sending-IsNotice_example = sending-IsNotice settings [] [] noticing notice run_noticing sends refl

abbrev is_wait : SendTest
is_wait turn kind index text = turn == 0 && is_waiting kind && text_eq text (codes "wait")

inputs_in_order_example :
    overtaken.received ≡ taken_inputs overtaken.created overtaken.turns ++ overtaken.pending
inputs_in_order_example = inputs_in_order settings [] [] overtaken run

is_old : 0 < noticed.created
is_old = ground (arith, facts)

run_given_up : Steps settings overtaken given_up
run_given_up =
    and_then (stay overtaken) (begun 9 late overtaken (ground (arith, facts)) facts.4 refl)

no_send_after_submit_example : count_begun 0 given_up.log ≡ count_begun 0 noticed.log
no_send_after_submit_example =
    no_send_after_submit settings second_input 0 noticed given_up facts.0 is_old facts.2
      run_given_up
