-- ===== src/Ledger.antt =====
-- The event ledger and the actor table of `MessageStore`
-- (archive/v3/src/mutsumi_sync/memory/store.py). A table is the list of its rows in the order of
-- its integer key. `now` stands for `strftime('%s', 'now')`, and `fresh` for a new `uuid4`.
pub mod Invariant
pub mod Status
pub mod Queries
pub mod Actors
use mutsumi_s_sync.Common.{
  ℕ, zero, suc, ◌+◌, ◌==◌, Bool, true, false, not, ◌&&◌, Option, none, some, List, [], ◌∷◌, ◌++◌,
  map,
}
use mutsumi_s_sync.Common.{
  Text, codes, text_eq, strip, is_empty, starts_with, take, any, ltb, leb, filter, if◌then◌else◌,
  Result, ok, err,
}
use mathlib.Core.List.{reverse}
use mutsumi_s_sync.Json.{Json, obj, Fields}

pub record EventRecord : Type 0 where
  pub conversation_id : Text
  pub actor_id : Text
  pub actor_kind : Text
  pub event_type : Text
  pub content : Text
  pub event_id : Text
  pub actor_name : Text
  pub audience : Text
  pub visibility : Text
  pub media_ids : List Text
  pub payload : Fields
  pub turn_id : Text
  pub pipeline_id : Text
  pub status : Text
  pub created_at : ℕ
  pub sequence : ℕ

pub record ActorRecord : Type 0 where
  pub actor_id : Text
  pub kind : Text
  pub platform : Text
  pub platform_subject_id : Text
  pub display_name : Text
  pub private_alias : Text
  pub relationship : Text
  pub updated_at : ℕ

-- `last_sequence` is what `AUTOINCREMENT` remembers of the keys that were given.
pub record Ledger : Type 0 where
  pub events : List EventRecord
  pub last_sequence : ℕ
  pub actors : List ActorRecord

abbrev pub empty : Ledger
empty = record { events = []; last_sequence = 0; actors = [] }

pub data StoreError : Type 0 where
  integrity_error row_unreadable : StoreError

abbrev pub inbound : Text
inbound = codes "inbound"

abbrev pub outbound : Text
outbound = codes "outbound"

abbrev pub finalized : Text
finalized = codes "finalized"

abbrev pub received : Text
received = codes "received"

abbrev pub cancelled : Text
cancelled = codes "cancelled"

unfoldable pub find_event : Text → List EventRecord → Option EventRecord
find_event id [] = none
find_event id (e ∷ es) = if text_eq e.event_id id then some e else find_event id es

find_sequence : ℕ → List EventRecord → Option EventRecord
find_sequence n [] = none
find_sequence n (e ∷ es) = if e.sequence == n then some e else find_sequence n es

-- `event.event_id or str(uuid.uuid4())`
abbrev pub id_or : Text → Text → Text
id_or [] fresh = fresh
id_or (c ∷ cs) fresh = c ∷ cs

-- The row that `to_insert_values` and the defaults of the table give.
abbrev pub insert_row : Text → ℕ → EventRecord → ℕ → EventRecord
insert_row fresh now event n = record event {
  event_id = id_or event.event_id fresh;
  created_at = now;
  sequence = n;
}

-- The `UNIQUE` constraint on `event_id` refuses the insert and leaves the table as it was.
unfoldable pub append_event :
    Text → ℕ → EventRecord → Ledger → Result StoreError EventRecord × Ledger
unfolding find_event find_sequence
append_event fresh now event ledger =
    let lastrowid = ledger.last_sequence + 1 in
    let row = insert_row fresh now event lastrowid in
    elim (find_event row.event_id ledger.events) [
      | some taken ↦ (err integrity_error, ledger)
      | none ↦
          let after = record ledger {
            events = ledger.events ++ row ∷ [];
            last_sequence = lastrowid;
          } in
          (
            elim (find_sequence lastrowid after.events) [
              | none ↦ err row_unreadable
              | some read ↦ ok read
            ],
            after,
          )
    ]

unfoldable pub get_event : Text → Ledger → Option EventRecord
get_event event_id ledger = find_event event_id ledger.events

is_pending_service : EventRecord → Bool
is_pending_service e =
    text_eq e.event_type inbound
    && (text_eq e.actor_kind (codes "service") && text_eq e.status received)

unfoldable pub get_pending_service_events : Ledger → List EventRecord
unfolding is_pending_service
get_pending_service_events ledger = filter is_pending_service ledger.events

set_status : Text → Text → Option Text → List EventRecord → List EventRecord
set_status event_id status content [] = []
set_status event_id status content (e ∷ es) =
    let rest = set_status event_id status content es in
    if text_eq e.event_id event_id
    then elim content [
      | none ↦ record e { status = status }
      | some text ↦ record e { status = status; content = text }
    ]
      ∷ rest
    else e ∷ rest

unfoldable pub update_event_status : Text → Text → Option Text → Ledger → Ledger
unfolding set_status
update_event_status event_id status content ledger = record ledger {
  events = set_status event_id status content ledger.events;
}

set_media_ids : Text → List Text → List EventRecord → List EventRecord
set_media_ids event_id media_ids [] = []
set_media_ids event_id media_ids (e ∷ es) =
    let rest = set_media_ids event_id media_ids es in
    if text_eq e.event_id event_id then record e { media_ids = media_ids } ∷ rest else e ∷ rest

unfoldable pub update_event_media_ids : Text → List Text → Ledger → Ledger
unfolding set_media_ids
update_event_media_ids event_id media_ids ledger = record ledger {
  events = set_media_ids event_id media_ids ledger.events;
}

-- The keyword arguments of `get_events`.
pub record EventQuery : Type 0 where
  pub conversation_id : Option Text
  pub exclude_conversation_id : Option Text
  pub visibility : Option Text
  pub after_sequence : ℕ
  pub limit : ℕ
  pub finalized_only : Bool
  pub latest : Bool

-- One condition of the `WHERE` clause, which is there only if the argument is given.
abbrev when_given : Option Text → (Text → Bool) → Bool
when_given none test = true
when_given (some x) test = test x

unfoldable pub matches : EventQuery → EventRecord → Bool
matches q e =
    ltb q.after_sequence e.sequence
    && (when_given q.conversation_id (λ c. text_eq e.conversation_id c)
        && (when_given q.exclude_conversation_id (λ c. not (text_eq e.conversation_id c))
            && (when_given q.visibility (λ v. text_eq e.visibility v)
                && (if q.finalized_only then text_eq e.status finalized else true))))

unfoldable pub get_events : EventQuery → Ledger → List EventRecord
unfolding matches
get_events q ledger =
    let rows = filter (matches q) ledger.events in
    if q.latest then reverse (take q.limit (reverse rows)) else take q.limit rows

in_range : ℕ → ℕ → Option Text → Bool → EventRecord → Bool
in_range first last conversation_id finalized_only e =
    leb first e.sequence
    && (leb e.sequence last
        && (when_given conversation_id (λ c. text_eq e.conversation_id c)
            && (if finalized_only then text_eq e.status finalized else true)))

unfoldable pub get_events_by_sequence : ℕ → ℕ → Option Text → Bool → Ledger → List EventRecord
unfolding in_range
get_events_by_sequence first last conversation_id finalized_only ledger =
    filter (in_range first last conversation_id finalized_only) ledger.events

-- `SELECT COALESCE(MAX(sequence), 0) … WHERE test`
max_sequence : (EventRecord → Bool) → List EventRecord → ℕ
max_sequence test [] = 0
max_sequence test (e ∷ es) =
    let later = max_sequence test es in
    if test e then (if leb later e.sequence then e.sequence else later) else later

-- `LIKE` does not tell apart the cases of ASCII letters.
ascii_lower : ℕ → ℕ
ascii_lower c = if leb b'A' c && leb c b'Z' then c + 32 else c

unfoldable pub is_proactive : Text → EventRecord → Bool
unfolding ascii_lower
is_proactive conversation_id e =
    text_eq e.conversation_id conversation_id
    && (text_eq e.event_type outbound
        && (text_eq e.status finalized
            && starts_with (map ascii_lower e.pipeline_id) (codes "heartbeat:")))

unfoldable pub is_real_inbound : Text → EventRecord → Bool
is_real_inbound conversation_id e =
    text_eq e.conversation_id conversation_id
    && (text_eq e.event_type inbound && not (text_eq e.status cancelled))

unfoldable pub has_unanswered_proactive : Text → Ledger → Bool
unfolding max_sequence is_proactive is_real_inbound
has_unanswered_proactive conversation_id ledger =
    let proactive_sequence = max_sequence (is_proactive conversation_id) ledger.events in
    if proactive_sequence == 0
    then false
    else ltb (max_sequence (is_real_inbound conversation_id) ledger.events) proactive_sequence

find_actor : Text → List ActorRecord → Option ActorRecord
find_actor id [] = none
find_actor id (a ∷ as') = if text_eq a.actor_id id then some a else find_actor id as'

unfoldable pub get_actor : Text → Ledger → Option ActorRecord
unfolding find_actor
get_actor actor_id ledger = find_actor actor_id ledger.actors

-- `INSERT … ON CONFLICT(actor_id) DO UPDATE`: an actor that is known keeps its alias and its
-- relationship.
upsert_actor : ℕ → ActorRecord → List ActorRecord → List ActorRecord
upsert_actor now actor [] = record actor { updated_at = now } ∷ []
upsert_actor now actor (a ∷ as') =
    if text_eq a.actor_id actor.actor_id
    then record a {
      kind = actor.kind;
      platform = actor.platform;
      platform_subject_id = actor.platform_subject_id;
      display_name = actor.display_name;
      updated_at = now;
    }
      ∷ as'
    else a ∷ upsert_actor now actor as'

unfoldable pub ensure_actor : ℕ → ActorRecord → Ledger → ActorRecord × Ledger
unfolding upsert_actor find_actor
ensure_actor now actor ledger =
    let after = record ledger { actors = upsert_actor now actor ledger.actors } in
    (elim (get_actor actor.actor_id after) [ none ↦ actor | some row ↦ row ], after)

-- A given argument is stored stripped; one that is not given leaves its column alone.
abbrev given_or : Option Text → Text → Text
given_or none old = old
given_or (some text) old = strip text

set_profile : ℕ → Text → Option Text → Option Text → List ActorRecord → List ActorRecord
set_profile now actor_id private_alias relationship [] = []
set_profile now actor_id private_alias relationship (a ∷ as') =
    let rest = set_profile now actor_id private_alias relationship as' in
    if text_eq a.actor_id actor_id
    then record a {
      private_alias = given_or private_alias a.private_alias;
      relationship = given_or relationship a.relationship;
      updated_at = now;
    }
      ∷ rest
    else a ∷ rest

abbrev is_none : Option Text → Bool
is_none none = true
is_none (some x) = false

unfoldable pub update_actor_profile :
    ℕ → Text → Option Text → Option Text → Ledger → Option ActorRecord × Ledger
unfolding set_profile find_actor
update_actor_profile now actor_id private_alias relationship ledger =
    if is_none private_alias && is_none relationship
    then (get_actor actor_id ledger, ledger)
    else let after = record ledger {
      actors = set_profile now actor_id private_alias relationship ledger.actors;
    } in
      (get_actor actor_id after, after)
