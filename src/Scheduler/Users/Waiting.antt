-- ===== src/Scheduler/Users/Waiting.antt =====
-- A text that waits in a conversation has a timer that will take it
-- (archive/v3/src/mutsumi_sync/scheduler.py).
use mutsumi_s_sync.Common.{
  ◌≡◌, refl, ◌⊎◌, inl, inr, none, some, List, [], ◌∷◌, ◌++◌, arith, Text, Result, ok, err, get, put,
  remove, get-put, get-remove, Bool-cases,
}
use mutsumi_s_sync.Json.{Json}
use mutsumi_s_sync.Message.{MessageEvent, ClassifiedMessage, Malformed, classify_message}
use mutsumi_s_sync.Scheduler.Keys.{make_key}
use mutsumi_s_sync.Scheduler.Users.{
  Launch, UserState, pending_of, launch, direct_launch, dispatch, cancel_user, cleanup_debounce,
  alias_legacy, end_task, is_direct, drop_key,
}
use mutsumi_s_sync.Scheduler.Users.Merging.{
  Gathered, gather, nothing_gathered, merged_launch, debounce_expire,
}

-- What the event loop can do next; a timer expires only if it still sleeps.
module _ (to_str : Json → Text) where
  pub data Move : UserState → UserState → Type 0 where
    dispatched : (event : MessageEvent) (s : UserState) → Move s (dispatch to_str event s).1
    expired :
        (key : Text) (s : UserState)
        → get key s.timers ≡ some tt
        → Move s (debounce_expire to_str key s).1
    cancelled : (key : Text) (s : UserState) → Move s (cancel_user key s)
    completed : (key : Text) (s : UserState) → Move s (end_task key s)

  pub data Moves : UserState → UserState → Type 0 where
    rest : (s : UserState) → Moves s s
    move :
        {first middle last : UserState} → Moves first middle → Move middle last → Moves first last

-- Before the first message.
abbrev pub no_users : UserState
no_users = record {
  pending = [];
  timers = [];
  tasks = [];
  windows = [];
  legacy_aliases = [];
  episode_timers = [];
  heartbeats = [];
}

abbrev Timed : UserState → Type 0
Timed s = (k : Text) → (get k s.pending ≡ none) ⊎ (get k s.timers ≡ some tt)

cleanup-Timed : (key : Text) (s : UserState) → Timed s → Timed (cleanup_debounce key s)
unfolding cleanup_debounce
cleanup-Timed key s h k = ground (arith, get-remove key k s.pending, get-remove key k s.timers, h k)

-- Only the two tables matter.
same-Timed : (s t : UserState) → t.pending ≡ s.pending → t.timers ≡ s.timers → Timed s → Timed t
same-Timed s t p q h k = ground (arith, h k)

launch-Timed : (l : Launch) (s : UserState) → Timed s → Timed (launch l s)
unfolding launch cancel_user alias_legacy
launch-Timed l s h =
    same-Timed (cleanup_debounce l.conversation_id s) (launch l s) (ground arith) (ground arith)
      (cleanup-Timed l.conversation_id s h)

cancel-Timed : (key : Text) (s : UserState) → Timed s → Timed (cancel_user key s)
unfolding cancel_user
cancel-Timed key s h =
    same-Timed (cleanup_debounce key s) (cancel_user key s) refl refl (cleanup-Timed key s h)

end-Timed : (key : Text) (s : UserState) → Timed s → Timed (end_task key s)
unfolding end_task
end-Timed key s h = h

nothing_there : (k : Text) → get k no_users.pending ≡ none
unfolding get
nothing_there k = refl

module _ (to_str : Json → Text) where
  dispatch-Timed :
      (event : MessageEvent) (s : UserState) → Timed s → Timed (dispatch to_str event s).1
  unfolding dispatch
  dispatch-Timed event s h = by_class (classify_message to_str event.message event.raw_message) refl
    where
      key : Text
      key = make_key event

      awake : UserState
      awake = record s { episode_timers = drop_key key s.episode_timers }

      by_class :
          (r : Result Malformed ClassifiedMessage)
          → classify_message to_str event.message event.raw_message ≡ r
          → Timed (dispatch to_str event s).1
      by_class (err x) e = same-Timed s (dispatch to_str event s).1 (ground arith) (ground arith) h
      by_class (ok c) e = elim (Bool-cases (is_direct c.msg_type)) [
        | inl direct ↦
            let clean = cleanup_debounce key awake in
            let after = launch (direct_launch to_str event c) clean in
            same-Timed after (dispatch to_str event s).1 (ground arith) (ground arith)
              (launch-Timed (direct_launch to_str event c) clean (cleanup-Timed key awake h))
        | inr text ↦
            let events = pending_of key awake ++ event ∷ [] in
            let stored : (dispatch to_str event s).1.pending ≡ put key events s.pending =
              ground arith in
            let timed : (dispatch to_str event s).1.timers ≡ put key tt s.timers = ground arith in
            λ k. ground (arith, get-put key k events s.pending, get-put key k tt s.timers, h k)
      ]

  expire-Timed : (key : Text) (s : UserState) → Timed s → Timed (debounce_expire to_str key s).1
  unfolding debounce_expire remove cleanup_debounce
  expire-Timed key s h = by_pending (pending_of key s) refl
    where
      taken : UserState
      taken = record s { pending = remove key s.pending; timers = remove key s.timers }

      by_read :
          (first : MessageEvent) (events : List MessageEvent) (g : Result Malformed Gathered)
          → pending_of key s ≡ first ∷ events
          → gather to_str (first ∷ events) nothing_gathered ≡ g
          → Timed (debounce_expire to_str key s).1
      by_read first events (err x) e f =
          same-Timed taken (debounce_expire to_str key s).1 (ground arith) (ground arith)
            (cleanup-Timed key s h)
      by_read first events (ok g) e f =
          let l = merged_launch to_str key first g in
          same-Timed (launch l taken) (debounce_expire to_str key s).1 (ground arith) (ground arith)
            (launch-Timed l taken (cleanup-Timed key s h))

      by_pending :
          (events : List MessageEvent)
          → pending_of key s ≡ events
          → Timed (debounce_expire to_str key s).1
      by_pending [] e =
          same-Timed taken (debounce_expire to_str key s).1 (ground arith) (ground arith)
            (cleanup-Timed key s h)
      by_pending (first ∷ events) e =
          by_read first events (gather to_str (first ∷ events) nothing_gathered) e refl

  move-Timed : (s t : UserState) → Move to_str s t → Timed s → Timed t
  move-Timed s t (dispatched event x) h = dispatch-Timed event x h
  move-Timed s t (expired key x sleeps) h = expire-Timed key x h
  move-Timed s t (cancelled key x) h = cancel-Timed key x h
  move-Timed s t (completed key x) h = end-Timed key x h

  -- In every state that the users' tasks reach, by dispatches, timers, cancellations and ends in
  -- any order, texts that wait in a conversation have a sleeping timer that will take them.
  pub waiting_text_timed :
      (s : UserState) (k : Text) (events : List MessageEvent)
      → Moves to_str no_users s
      → get k s.pending ≡ some events
      → get k s.timers ≡ some tt
  waiting_text_timed s k events run waits = ground (arith, reached no_users s run start k)
    where
      start : Timed no_users
      start j = inl (nothing_there j)

      reached : (a b : UserState) → Moves to_str a b → Timed a → Timed b
      reached a b (rest x) h = h
      reached a b (move {first} {middle} {last} before step) h =
          move-Timed middle last step (reached first middle before h)
