-- ===== src/Tests/LedgerTests.antt =====
-- The ledger at a small table.
use mutsumi_s_sync.Common.{
  ◌≡◌, ◌≢◌, ◌⊎◌, ◌↔◌, refl, true, false, none, some, List, [], ◌++◌, Text, codes, text_eq,
  starts_with, length, if◌then◌else◌, Any, ok, err,
}
use Prim.Native.Nat.{min}
use mutsumi_s_sync.Tests.Samples.{event_of, actor_of}
use mutsumi_s_sync.Ledger.{
  EventRecord, ActorRecord, Ledger, EventQuery, empty, integrity_error, inbound, outbound,
  finalized, append_event, get_event, get_events, has_unanswered_proactive, ensure_actor,
}
use mutsumi_s_sync.Ledger.Invariant.{
  IsValid, IsValid-empty, new_row, appended, append_event_lem, append_event-IsValid,
}
use mutsumi_s_sync.Ledger.Queries.{
  matching, get_events_lem, Unanswered, has_unanswered_proactive_iff,
}

abbrev poke : EventRecord
poke = event_of (codes "e1") (codes "private:1") outbound finalized (codes "heartbeat:private:1:7")

abbrev reply : EventRecord
reply = event_of (codes "e2") (codes "private:1") inbound finalized []

abbrev one : Ledger
one = (append_event [] 5 poke empty).1

abbrev two : Ledger
two = (append_event [] 6 reply one).1

abbrev query : EventQuery
query = record {
  conversation_id = some (codes "private:1");
  exclude_conversation_id = none;
  visibility = none;
  after_sequence = 0;
  limit = 1;
  finalized_only = true;
  latest = true;
}

unanswered_then_answered :
    (has_unanswered_proactive (codes "private:1") one ≡ true)
    × (has_unanswered_proactive (codes "private:1") two ≡ false)
    × (length (get_events query two) ≡ 1)
    × ((append_event [] 9 reply two).0 ≡ err integrity_error)
unfolding append_event has_unanswered_proactive get_events text_eq starts_with
unanswered_then_answered = (refl, refl, refl, refl)

append_event-IsValid_example : IsValid one
append_event-IsValid_example = append_event-IsValid [] 5 poke empty IsValid-empty

two-IsValid : IsValid two
two-IsValid = append_event-IsValid [] 6 reply one append_event-IsValid_example

append_event_lem_example :
    ((get_event (codes "e2") one ≢ none)
      × (append_event [] 6 reply one ≡ (err integrity_error, one)))
    ⊎ ((get_event (codes "e2") one ≡ none)
        × (append_event [] 6 reply one
            ≡ (ok (new_row [] 6 reply one), appended (new_row [] 6 reply one) one))
        × ((id : Text)
            → get_event id (appended (new_row [] 6 reply one) one) ≡ (
                if text_eq (codes "e2") id
                then some (new_row [] 6 reply one)
                else get_event id one)))
append_event_lem_example = append_event_lem [] 6 reply one append_event-IsValid_example

get_events_lem_example :
    (others : List EventRecord) × (matching query two ≡ others ++ get_events query two)
    × (length (get_events query two) ≡ min 1 (length (matching query two)))
get_events_lem_example = get_events_lem query two

has_unanswered_proactive_iff_example :
    (has_unanswered_proactive (codes "private:1") two ≡ true)
    ↔ Any (Unanswered (codes "private:1") two.events) two.events
has_unanswered_proactive_iff_example =
    has_unanswered_proactive_iff (codes "private:1") two two-IsValid

abbrev alice : ActorRecord
alice = actor_of (codes "qq:user:1") (codes "Alice")

abbrev known : Ledger
known = (ensure_actor 7 alice two).1
