-- ===== src/Scheduler/Users.antt =====
-- The tasks of the users' conversations (archive/v3/src/mutsumi_sync/scheduler.py): `dispatch`, the
-- merge of the texts that wait in `_debounce_expire`, `_dispatch_direct` and `cancel_user`.
pub mod Merging
pub mod Waiting
use mutsumi_s_sync.Common.{
  ℕ, ◌+◌, ◌==◌, Bool, true, false, not, ◌&&◌, ◌||◌, Option, none, some, List, [], ◌∷◌, ◌++◌, map,
}
use mutsumi_s_sync.Common.{
  Text, codes, text_eq, any, is_empty, filter, length, leb, ltb, join, starts_with, if◌then◌else◌,
  Result, ok, err, Dict, get, put, remove,
}
use mutsumi_s_sync.Json.{Json}
use mutsumi_s_sync.Message.{
  MessageEvent, MessageType, short_text, long_text, image, media, ClassifiedMessage, Malformed,
  classify_message,
}
use mutsumi_s_sync.Scheduler.Keys.{Peer, make_key, actor_id, actor_name, storage_key, make_peer}

-- An entry of `inbound_events`; `created_at` is `none` where the source takes the current time.
pub record InboundLine : Type 0 where
  pub actor_id : Text
  pub actor_name : Text
  pub content : Text
  pub created_at : Option ℕ

-- What the pipeline of a conversation is called with.
pub record Launch : Type 0 where
  pub message : Text
  pub msg_type : MessageType
  pub image_file : Option Text
  pub image_url : Option Text
  pub media_kind : Text
  pub peer : Peer
  pub group_key : Text
  pub conversation_id : Text
  pub actor_id : Text
  pub actor_name : Text
  pub inbound_events : List InboundLine

-- A task of `_tasks`: it stays there when it has ended.
pub data UserTask : Type 0 where
  running : Launch → UserTask
  ended : UserTask

-- `windows` are the keys of `_windows` and of `_sessions`, `legacy_aliases` those that stand for
-- another one. `timers` and `episode_timers` are the keys whose timers sleep, and `heartbeats` the
-- scopes whose batches run.
pub record UserState : Type 0 where
  pub pending : Dict (List MessageEvent)
  pub timers : Dict (Unit {0})
  pub tasks : Dict UserTask
  pub windows : List Text
  pub legacy_aliases : List Text
  pub episode_timers : List Text
  pub heartbeats : List Text

abbrev pub has : Text → List Text → Bool
has key keys = any (λ k. text_eq k key) keys

abbrev pub add_key : Text → List Text → List Text
add_key key keys = if has key keys then keys else keys ++ key ∷ []

abbrev pub drop_key : Text → List Text → List Text
drop_key key keys = filter (λ k. not (text_eq k key)) keys

-- `_cleanup_debounce`
unfoldable pub cleanup_debounce : Text → UserState → UserState
cleanup_debounce key s = record s { timers = remove key s.timers; pending = remove key s.pending }

-- `cancel_user`: no task of the user and no heartbeat runs when it returns.
unfoldable pub cancel_user : Text → UserState → UserState
cancel_user key s =
    let clean = cleanup_debounce key s in
    record clean { heartbeats = []; tasks = remove key clean.tasks }

-- `_alias_legacy_group_state`
unfoldable pub alias_legacy : Text → Text → UserState → UserState
alias_legacy key storage s =
    if text_eq key storage || not (starts_with key (codes "group:")) then s else record s {
      windows = add_key storage s.windows;
      legacy_aliases = add_key storage s.legacy_aliases;
    }

-- What `_debounce_expire` and `_dispatch_direct` do with the arguments of the pipeline.
unfoldable pub launch : Launch → UserState → UserState
launch l s =
    let free = cancel_user l.conversation_id s in
    let known = record free { windows = add_key l.conversation_id free.windows } in
    let aliased = alias_legacy l.conversation_id l.group_key known in
    record aliased { tasks = put l.conversation_id (running l) aliased.tasks }

-- `_keys`
abbrev pub own_keys : UserState → List Text
own_keys s = filter (λ k. not (has k s.legacy_aliases)) s.windows

-- The loop of `shutdown` over the keys.
unfoldable pub cancel_keys : List Text → UserState → UserState
cancel_keys [] s = s
cancel_keys (key ∷ keys) s = cancel_keys keys (cancel_user key (cleanup_debounce key s))

-- What `shutdown` does to the users.
unfoldable pub shutdown_users : UserState → UserState
shutdown_users s =
    let quiet = record s { heartbeats = []; episode_timers = [] } in
    cancel_keys (own_keys quiet) quiet

-- The end of `_run`.
unfoldable pub end_task : Text → UserState → UserState
end_task key s = record s {
  tasks = put key ended s.tasks;
  episode_timers = add_key key s.episode_timers;
}

abbrev pub pending_of : Text → UserState → List MessageEvent
pending_of key s = elim (get key s.pending) [ none ↦ [] | some events ↦ events ]

abbrev pub is_direct : MessageType → Bool
is_direct image = true
is_direct media = true
is_direct _ = false

module _ (to_str : Json → Text) where
  -- `classified.content or ("[Image received]" if … else event.raw_message)`
  abbrev direct_message : MessageEvent → ClassifiedMessage → Text
  direct_message event c =
      let otherwise : Text = elim c.msg_type [
        | image ↦ codes "[Image received]"
        | media ↦ event.raw_message
        | short_text ↦ event.raw_message
        | long_text ↦ event.raw_message
      ] in
      elim c.content [ none ↦ otherwise | some text ↦ if is_empty text then otherwise else text ]

  unfoldable pub direct_launch : MessageEvent → ClassifiedMessage → Launch
  direct_launch event c = record {
    message = direct_message event c;
    msg_type = c.msg_type;
    image_file = c.image_file;
    image_url = c.image_url;
    media_kind = c.media_kind;
    peer = make_peer event;
    group_key = storage_key event;
    conversation_id = make_key event;
    actor_id = actor_id event;
    actor_name = actor_name to_str event;
    inbound_events = [];
  }

  -- `dispatch`
  unfoldable pub dispatch : MessageEvent → UserState → Result Malformed (Unit {0}) × UserState
  dispatch event s =
      let key = make_key event in
      let awake = record s { episode_timers = drop_key key s.episode_timers } in
      elim (classify_message to_str event.message event.raw_message) [
        | err e ↦ (err e, awake)
        | ok c ↦
            if is_direct c.msg_type
            then (ok tt, launch (direct_launch event c) (cleanup_debounce key awake))
            else (
              ok tt,
              record awake {
                pending = put key (pending_of key awake ++ event ∷ []) awake.pending;
                timers = put key tt awake.timers;
              },
            )
      ]
