-- ===== src/Tests/ReplyTests.antt =====
-- The prototype's reply protocol, and the settling of a reply, on one message.
use mutsumi_s_sync.Common.{
  ℕ, ◌≡◌, refl, true, false, some, Option, Bool, [], ◌∷◌, arith, All, Text, codes, ok, text_eq,
  is_space, strip, lstrip, rstrip, contains, find, starts_with, Result,
}
use mutsumi_s_sync.Json.{Json}
use mutsumi_s_sync.Envelope.{format_final_envelope}
use mutsumi_s_sync.Pipeline.Markdown.{unsupported_markdown_features}
use mutsumi_s_sync.Prototype.Protocol.{Reply, has_marker, parse_reply}
use mutsumi_s_sync.Prototype.Protocol.Acceptance.{
  IsSendable, payload_of, Accepted, parse_reply_sound, parse_reply-format,
}
use mutsumi_s_sync.Jobs.{
  JobError, get_job, update_job, create_job, check_source, insert_job, find_key,
}
use mutsumi_s_sync.Jobs.Settling.{IsDelivered}
use mutsumi_s_sync.Store.Journal.{Journal}
use mutsumi_s_sync.Prototype.Chat.{Chat}
use mutsumi_s_sync.Prototype.Chat.Operations.{next_turn}
use mutsumi_s_sync.Prototype.Chat.Steps.{new_chat}
use mutsumi_s_sync.Prototype.Tasks.Publishing.{
  mark_delivered, send_all, publish_messages, publish_messages-IsDelivered,
}
use mutsumi_s_sync.Tests.JobTests.{one_job}

abbrev loads : Text → Option Json
loads t = some (payload_of (codes "hi" ∷ []))

abbrev greeting : Reply
greeting = record { to_self = codes "note"; messages = codes "hi" ∷ [] }

abbrev content : Text
content = format_final_envelope (codes "note") (codes "{}")

sendable : All (IsSendable 500) (codes "hi" ∷ [])
unfolding strip lstrip rstrip is_space contains find starts_with unsupported_markdown_features
sendable = ((refl, ground arith, refl, refl), tt)

clean : (has_marker (strip (codes "note")) ≡ false) × (has_marker (strip (codes "{}")) ≡ false)
unfolding strip lstrip rstrip is_space contains find starts_with
clean = (refl, refl)

parse_reply-format_example :
    parse_reply loads content 4 500
    ≡ ok (record { to_self = strip (codes "note"); messages = codes "hi" ∷ [] })
parse_reply-format_example =
    parse_reply-format loads (codes "note") (codes "{}") 4 500 (codes "hi" ∷ []) (ground arith)
      (ground arith) clean.0 clean.1 refl sendable (ground arith)

parse_reply_sound_example :
    Accepted loads content 4 500
      (record { to_self = strip (codes "note"); messages = codes "hi" ∷ [] })
parse_reply_sound_example =
    parse_reply_sound loads content 4 500
      (record { to_self = strip (codes "note"); messages = codes "hi" ∷ [] })
      (parse_reply-format loads (codes "note") (codes "{}") 4 500 (codes "hi" ∷ []) (ground arith)
        (ground arith) clean.0 clean.1 refl sendable (ground arith))

abbrev reporting : Chat
reporting = next_turn 6 (new_chat one_job (codes "j1" ∷ []))

abbrev sends_all : ℕ → Text → Chat → Bool × Chat
sends_all index text c = (true, c)

abbrev sends_none : ℕ → Text → Chat → Bool × Chat
sends_none index text c = (false, c)

abbrev no_journal : Journal
no_journal = record { rows = []; last_id = 0 }

delivered_facts :
    ((send_all sends_all 0 greeting.messages reporting).0 ≡ true)
    × ((reporting.turns 0).superseded ≡ false)
    × ((reporting.turns 0).result_jobs ≡ codes "j1" ∷ [])
    × ((publish_messages sends_all 7
          (codes "private:1")
          (codes "t1")
          0
          greeting
          reporting
          no_journal).0
        ≡ ok tt)
unfolding send_all publish_messages mark_delivered next_turn get_job update_job create_job
    check_source insert_job find_key text_eq strip lstrip rstrip is_space
delivered_facts = (refl, refl, refl, refl)

sent_current : ((send_all sends_all 0 greeting.messages reporting).1.turns 0).superseded ≡ false
unfolding send_all next_turn get_job create_job check_source insert_job find_key text_eq strip
    lstrip rstrip is_space
sent_current = refl

publish_messages-IsDelivered_example :
    All
      (λ id.
        IsDelivered
          (publish_messages sends_all 7
            (codes "private:1")
            (codes "t1")
            0
            greeting
            reporting
            no_journal).1.jobs
          id)
      ((send_all sends_all 0 greeting.messages reporting).1.turns 0).result_jobs
publish_messages-IsDelivered_example =
    publish_messages-IsDelivered sends_all 7 (codes "private:1") (codes "t1") 0 greeting reporting
      no_journal delivered_facts.0 sent_current refl delivered_facts.3

abbrev kept : Result JobError (Unit {0}) × Chat × Journal
kept =
    publish_messages sends_none 7 (codes "private:1") (codes "t1") 0 greeting reporting no_journal

stopped : (send_all sends_none 0 greeting.messages reporting).0 ≡ false
unfolding send_all
stopped = refl
