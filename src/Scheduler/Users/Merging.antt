-- ===== src/Scheduler/Users/Merging.antt =====
-- The merge of the texts that wait in a conversation: `_debounce_expire` of
-- archive/v3/src/mutsumi_sync/scheduler.py.
use mutsumi_s_sync.Common.{
  ◌==◌, Bool, false, not, ◌&&◌, Option, none, some, List, [], ◌∷◌, ◌++◌, map, ◌≡◌, refl, arith, ap,
  sym, subst, ◌∙◌,
}
use mutsumi_s_sync.Common.{
  Text, codes, text_eq, any, is_empty, length, leb, join, starts_with, if◌then◌else◌, if_true,
  Result, ok, err, get, put, remove, get-put, text_eq_refl, append-nil, append_assoc, All,
}
use mutsumi_s_sync.Json.{Json}
use mutsumi_s_sync.Message.{
  MessageEvent, MessageType, short_text, long_text, image, media, ClassifiedMessage, Malformed,
  classify_message,
}
use mutsumi_s_sync.Scheduler.Keys.{make_key, actor_id, actor_name, storage_key, make_peer}
use mutsumi_s_sync.Scheduler.Users.{
  InboundLine, Launch, running, UserState, pending_of, launch, dispatch, is_direct,
}

-- `"\n".join`
abbrev pub newline : Text
newline = 10 ∷ []

-- What the loop of `_debounce_expire` has gathered.
pub record Gathered : Type 0 where
  pub text_events : List (MessageEvent × Text)
  pub final_type : MessageType
  pub final_image_file : Option Text
  pub final_image_url : Option Text

abbrev pub nothing_gathered : Gathered
nothing_gathered = record {
  text_events = [];
  final_type = short_text;
  final_image_file = none;
  final_image_url = none;
}

-- `c.image_file or final_image_file`
abbrev or_else : Option Text → Option Text → Option Text
or_else none old = old
or_else (some t) old = if is_empty t then old else some t

abbrev pub note_text :
    MessageEvent → Option Text → List (MessageEvent × Text) → List (MessageEvent × Text)
note_text event none found = found
note_text event (some text) found = if is_empty text then found else found ++ (event, text) ∷ []

unfoldable pub gather_one : MessageEvent → ClassifiedMessage → Gathered → Gathered
gather_one event c g =
    let noted = record g { text_events = note_text event c.content g.text_events } in
    elim c.msg_type [
      | image ↦ record noted {
        final_type = image;
        final_image_file = or_else c.image_file noted.final_image_file;
        final_image_url = or_else c.image_url noted.final_image_url;
      }
      | media ↦ noted
      | short_text ↦ noted
      | long_text ↦ noted
    ]

-- More than one actor, in the set of their ids
abbrev pub has_other : Text → List (MessageEvent × Text) → Bool
has_other id found = any (λ p. not (text_eq (actor_id p.0) id)) found

abbrev pub has_many : List (MessageEvent × Text) → Bool
has_many [] = false
has_many (p ∷ found) = has_other (actor_id p.0) found

gather_one-text :
    (p : MessageEvent × Text) (c : ClassifiedMessage) (g : Gathered)
    → is_empty p.1 ≡ false
    → is_direct c.msg_type ≡ false
    → c.content ≡ some p.1
    → gather_one p.0 c g ≡ record g { text_events = g.text_events ++ p ∷ [] }
unfolding gather_one
gather_one-text p c g n d t = ground arith

launch-task :
    (l : Launch) (s : UserState) → get l.conversation_id (launch l s).tasks ≡ some (running l)
unfolding launch
launch-task l s =
    get-put l.conversation_id l.conversation_id (running l) _
    ∙ if_true (text_eq l.conversation_id l.conversation_id) _ _ (text_eq_refl l.conversation_id)

module _ (to_str : Json → Text) where
  unfoldable pub gather : List MessageEvent → Gathered → Result Malformed Gathered
  unfolding gather_one
  gather [] g = ok g
  gather (event ∷ events) g = elim (classify_message to_str event.message event.raw_message) [
    | err e ↦ err e
    | ok c ↦ gather events (gather_one event c g)
  ]

  abbrev pub line_of : MessageEvent × Text → InboundLine
  line_of p = record {
    actor_id = actor_id p.0;
    actor_name = actor_name to_str p.0;
    content = p.1;
    created_at = if p.0.time == 0 then none else some p.0.time;
  }

  abbrev pub spoken : Bool → MessageEvent × Text → Text
  spoken many p =
      if many
      then codes "Speaker "
        ++ (actor_name to_str p.0 ++ (codes " (" ++ (actor_id p.0 ++ (codes "):\n" ++ p.1))))
      else p.1

  -- The arguments of the pipeline for the events that waited, the first of which is `first`.
  unfoldable pub merged_launch : Text → MessageEvent → Gathered → Launch
  merged_launch key first g =
      let many = starts_with key (codes "group:") && has_many g.text_events in
      let message = join newline (map (spoken many) g.text_events) in
      record {
        message = message;
        msg_type = if leb 50 (length message) then long_text else g.final_type;
        image_file = g.final_image_file;
        image_url = g.final_image_url;
        media_kind = codes "image";
        peer = make_peer first;
        group_key = storage_key first;
        conversation_id = key;
        actor_id = if many then codes "qq:group:multiple" else actor_id first;
        actor_name = if many then codes "Multiple group members" else actor_name to_str first;
        inbound_events = map line_of g.text_events;
      }

  -- `_debounce_expire`, when its timer has slept.
  unfoldable pub debounce_expire : Text → UserState → Result Malformed (Unit {0}) × UserState
  debounce_expire key s =
      let taken = record s { pending = remove key s.pending; timers = remove key s.timers } in
      elim (pending_of key s) [
        | [] ↦ (ok tt, taken)
        | first ∷ events ↦ elim (gather (first ∷ events) nothing_gathered) [
          | err e ↦ (err e, taken)
          | ok g ↦ (ok tt, launch (merged_launch key first g) taken)
        ]
      ]

  -- The dispatches of several events, up to the first that raises.
  abbrev pub dispatch_all : List MessageEvent → UserState → UserState
  dispatch_all [] s = s
  dispatch_all (event ∷ events) s = dispatch_all events (dispatch to_str event s).1

  -- An event of the conversation, with a text that waits for others.
  abbrev pub IsText : Text → MessageEvent × Text → Type 0
  IsText key p =
      (make_key p.0 ≡ key)
      × (is_empty p.1 ≡ false)
      × ((c : ClassifiedMessage) × (classify_message to_str p.0.message p.0.raw_message ≡ ok c)
          × (is_direct c.msg_type ≡ false)
          × (c.content ≡ some p.1))

  gather-texts :
      (key : Text) (found : List (MessageEvent × Text)) (g : Gathered)
      → All (IsText key) found
      → gather (map (λ p. p.0) found) g ≡ ok (record g { text_events = g.text_events ++ found })
  unfolding gather
  gather-texts key [] g h =
      ap (λ l. ok (record g { text_events = l })) (sym (append-nil g.text_events))
  gather-texts key (p ∷ found) g ((k, n, (c, e, d, t)), rest) =
      let one = gather_one-text p c g n d t in
      let later =
        gather-texts key found (record g { text_events = g.text_events ++ p ∷ [] }) rest in
      let step : gather (map (λ q. q.0) (p ∷ found)) g
          ≡ gather (map (λ q. q.0) found) (gather_one p.0 c g) =
        rw (e, gather) refl in
      step
      ∙ ap (λ x. gather (map (λ q. q.0) found) x) one
      ∙ later
      ∙ ap (λ l. ok (record g { text_events = l })) (append_assoc g.text_events (p ∷ []) found)

  dispatch-text :
      (key : Text) (p : MessageEvent × Text) (s : UserState)
      → IsText key p
      → pending_of key (dispatch to_str p.0 s).1 ≡ pending_of key s ++ p.0 ∷ []
  unfolding dispatch
  dispatch-text key p s (k, n, (c, e, d, t)) =
      let mine = make_key p.0 in
      let events = pending_of mine s ++ p.0 ∷ [] in
      let stored : (dispatch to_str p.0 s).1.pending ≡ put mine events s.pending = ground arith in
      let found : get mine (dispatch to_str p.0 s).1.pending ≡ some events =
        ap (λ x. get mine x) stored
        ∙ get-put mine mine events s.pending
        ∙ if_true (text_eq mine mine) _ _ (text_eq_refl mine) in
      let waits : pending_of mine (dispatch to_str p.0 s).1 ≡ events = ground (arith, found) in
      subst (λ x. pending_of x (dispatch to_str p.0 s).1 ≡ pending_of x s ++ p.0 ∷ []) k waits

  dispatch_all-pending :
      (key : Text) (found : List (MessageEvent × Text)) (s : UserState)
      → All (IsText key) found
      → pending_of key (dispatch_all (map (λ p. p.0) found) s)
        ≡ pending_of key s ++ map (λ p. p.0) found
  dispatch_all-pending key [] s h = sym (append-nil (pending_of key s))
  dispatch_all-pending key (p ∷ found) s (h, rest) =
      dispatch_all-pending key found (dispatch to_str p.0 s).1 rest
      ∙ ap (λ l. l ++ map (λ q. q.0) found) (dispatch-text key p s h)
      ∙ append_assoc (pending_of key s) (p.0 ∷ []) (map (λ q. q.0) found)

  expire-launch :
      (key : Text) (first : MessageEvent) (events : List MessageEvent) (g : Gathered)
      (s : UserState)
      → pending_of key s ≡ first ∷ events
      → gather (first ∷ events) nothing_gathered ≡ ok g
      → get key (debounce_expire key s).1.tasks ≡ some (running (merged_launch key first g))
  unfolding debounce_expire merged_launch
  expire-launch key first events g s waits read =
      let taken = record s { pending = remove key s.pending; timers = remove key s.timers } in
      let l = merged_launch key first g in
      let done : (debounce_expire key s).1 ≡ (launch l taken) =
        rw (waits, debounce_expire) (rw read refl) in
      ap (λ x. get key x.tasks) done ∙ launch-task l taken

  -- When texts of one conversation, which had nothing waiting, are dispatched one after another and
  -- the timer then expires, a pipeline runs for the conversation that is given every text, in
  -- order, with its actor: as one message of all the lines, which name their speakers if a group
  -- has several.
  pub debounce_expire-dispatch_all :
      (key : Text) (p : MessageEvent × Text) (found : List (MessageEvent × Text)) (s : UserState)
      → pending_of key s ≡ []
      → All (IsText key) (p ∷ found)
      → (l : Launch) × (get key
            (debounce_expire key (dispatch_all (map (λ q. q.0) (p ∷ found)) s)).1.tasks
          ≡ some (running l))
        × (l.inbound_events ≡ map line_of (p ∷ found))
        × (l.conversation_id ≡ key)
        × (l.message
            ≡ join newline (
                map
                  (spoken (starts_with key (codes "group:") && has_many (p ∷ found)))
                  (p ∷ found)))
  unfolding debounce_expire merged_launch
  debounce_expire-dispatch_all key p found s empty h =
      let events = map (λ q. q.0) (p ∷ found) in
      let waits : pending_of key (dispatch_all events s) ≡ events =
        dispatch_all-pending key (p ∷ found) s h ∙ ap (λ l. l ++ events) empty in
      let read = gather-texts key (p ∷ found) nothing_gathered h in
      let g : Gathered = record nothing_gathered { text_events = p ∷ found } in
      (
        merged_launch key p.0 g,
        expire-launch key p.0 (map (λ q. q.0) found) g (dispatch_all events s) waits read,
        refl,
        refl,
        refl,
      )
