-- ===== src/Prototype/Chat/Steps.antt =====
-- What can happen next to a conversation of archive/v3/src/mutsumi_sync/prototype/runtime.py: the
-- tasks of the scheduler run in any order, each from one wait to the next.
use mutsumi_s_sync.Common.{
  ℕ, ◌<◌, Bool, not, true, false, Option, none, some, List, [], ◌≡◌, Text, ◌&&◌,
}
use mutsumi_s_sync.Json.{Json}
use mutsumi_s_sync.Jobs.{JobRow}
use mutsumi_s_sync.Prototype.Chat.{RuntimeSettings, Input, no_task, Flight, Chat, new_turn}
use mutsumi_s_sync.Prototype.Chat.Operations.{
  submit, next_turn, end_turn, begin_send, finish_send, decide_reply, expire, settle_turn, close,
  is_waiting,
}

-- A conversation without inputs, with the jobs that the store has of it.
abbrev pub new_chat : List JobRow → List Text → Chat
new_chat jobs results = record {
  closing = false;
  received = [];
  pending = [];
  results = results;
  actor_id = [];
  allow_tools = true;
  turn = none;
  created = 0;
  turns = λ t. new_turn [] [] 0 false [];
  chat_task = no_task;
  controller = false;
  sending = none;
  log = [];
  jobs = jobs;
}

-- A send begins when no other holds `send_lock`, a notice by the task of `_wait_notice`. A turn decides once on a reply that it publishes.
module _ (settings : RuntimeSettings) where
  pub data Step : Chat → Chat → Type 0 where
    submitted : (event : Input) (c : Chat) → Step c (submit event c).1
    chosen : (now : ℕ) (c : Chat) → c.turn ≡ none → Step c (next_turn now c)
    begun :
        (now : ℕ) (f : Flight) (c : Chat)
        → f.turn < c.created
        → c.sending ≡ none
        → is_waiting f.kind && not (c.turns f.turn).timer ≡ false
        → Step c (begin_send settings now f c).1
    answered :
        (f : Flight) (answer : Option Json) (c : Chat)
        → c.sending ≡ some f
        → Step c (finish_send f answer c).1
    decided :
        (messages : List Text) (saw_wait : Bool) (t : ℕ) (c : Chat)
        → t < c.created
        → (c.turns t).valid ≡ false
        → Step c (decide_reply messages saw_wait t c).1
    expired : (t : ℕ) (c : Chat) → t < c.created → Step c (expire t c)
    settled : (t : ℕ) (c : Chat) → t < c.created → Step c (settle_turn t c)
    ended : (t : ℕ) (c : Chat) → t < c.created → Step c (end_turn t c)
    closed : (c : Chat) → Step c (close c)

  pub data Steps : Chat → Chat → Type 0 where
    stay : (c : Chat) → Steps c c
    and_then : {first middle last : Chat} → Steps first middle → Step middle last → Steps first last
