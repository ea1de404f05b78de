-- ===== src/Prototype/Chat/Superseded.antt =====
-- What a turn of archive/v3/src/mutsumi_sync/prototype/runtime.py may still send when a newer input
-- has superseded it.
use mutsumi_s_sync.Common.{
  ℕ, ◌+◌, ◌==◌, ◌<◌, Bool, true, false, ◌&&◌, Option, none, some, List, [], ◌∷◌, ◌≡◌, arith,
  if◌then◌else◌,
}
use mutsumi_s_sync.Common.{Text}
use mutsumi_s_sync.Json.{Json}
use mutsumi_s_sync.Prototype.Chat.{RuntimeSettings, Input, Body, send_started, Entry, Flight, Chat}
use mutsumi_s_sync.Prototype.Chat.Operations.{
  submit, next_turn, end_turn, begin_send, finish_send, decide_reply, expire, settle_turn, close,
}
use mutsumi_s_sync.Prototype.Chat.Steps.{
  Step, submitted, chosen, begun, answered, decided, expired, settled, ended, closed, Steps, stay,
  and_then,
}

abbrev starts_send : Body → Bool
starts_send (send_started kind index) = true
starts_send _ = false

-- The sends of a turn that began.
abbrev pub count_begun : ℕ → List Entry → ℕ
count_begun t [] = 0
count_begun t (e ∷ es) = (if e.turn == t && starts_send e.body then 1 else 0) + count_begun t es

-- Turn `a` is superseded, and has begun `n` sends.
record Silenced (a n : ℕ) (c : Chat) : Type 0 where
  old : a < c.created
  silent : (c.turns a).superseded ≡ true
  begun_before : count_begun a c.log ≡ n

submit-Silenced :
    (a n : ℕ) (event : Input) (c : Chat) → Silenced a n c → Silenced a n (submit event c).1
unfolding submit
submit-Silenced a n event c h = record {
  old = ground (arith, h.old);
  silent = ground (arith, h.old, h.silent);
  begun_before = ground (arith, h.begun_before);
}

next_turn-Silenced :
    (a n : ℕ) (now : ℕ) (c : Chat) → c.turn ≡ none → Silenced a n c → Silenced a n (next_turn now c)
unfolding next_turn
next_turn-Silenced a n now c idle h = record {
  old = ground (arith, h.old);
  silent = ground (arith, h.old, h.silent);
  begun_before = ground (arith, h.begun_before);
}

begin_send-Silenced :
    (a n : ℕ) (settings : RuntimeSettings) (now : ℕ) (g : Flight) (c : Chat)
    → g.turn < c.created
    → c.sending ≡ none
    → Silenced a n c
    → Silenced a n (begin_send settings now g c).1
unfolding begin_send
begin_send-Silenced a n settings now g c old free h = record {
  old = ground (arith, h.old);
  silent = ground (arith, h.old, h.silent);
  begun_before = ground (arith, h.begun_before, h.silent);
}

finish_send-Silenced :
    (a n : ℕ) (g : Flight) (answer : Option Json) (c : Chat)
    → c.sending ≡ some g
    → Silenced a n c
    → Silenced a n (finish_send g answer c).1
unfolding finish_send
finish_send-Silenced a n g answer c flies h = record {
  old = ground (arith, h.old);
  silent = ground (arith, h.old, h.silent);
  begun_before = ground (arith, h.begun_before);
}

end_turn-Silenced :
    (a n : ℕ) (t : ℕ) (c : Chat) → t < c.created → Silenced a n c → Silenced a n (end_turn t c)
unfolding end_turn
end_turn-Silenced a n t c old h = record {
  old = ground (arith, h.old);
  silent = ground (arith, h.old, h.silent);
  begun_before = ground (arith, h.begun_before);
}

expire-Silenced :
    (a n : ℕ) (t : ℕ) (c : Chat) → t < c.created → Silenced a n c → Silenced a n (expire t c)
unfolding expire
expire-Silenced a n t c old h = record {
  old = ground (arith, h.old);
  silent = ground (arith, h.old, h.silent);
  begun_before = ground (arith, h.begun_before);
}

settle_turn-Silenced :
    (a n : ℕ) (t : ℕ) (c : Chat) → t < c.created → Silenced a n c → Silenced a n (settle_turn t c)
unfolding settle_turn
settle_turn-Silenced a n t c old h = record {
  old = ground (arith, h.old);
  silent = ground (arith, h.old, h.silent);
  begun_before = ground (arith, h.begun_before);
}

decide_reply-Silenced :
    (a n : ℕ) (messages : List Text) (saw_wait : Bool) (t : ℕ) (c : Chat)
    → t < c.created
    → Silenced a n c
    → Silenced a n (decide_reply messages saw_wait t c).1
unfolding decide_reply
decide_reply-Silenced a n messages saw_wait t c old h = record {
  old = ground (arith, h.old);
  silent = ground (arith, h.old, h.silent);
  begun_before = ground (arith, h.begun_before);
}

close-Silenced : (a n : ℕ) (c : Chat) → Silenced a n c → Silenced a n (close c)
unfolding close
close-Silenced a n c h = record {
  old = ground (arith, h.old);
  silent = ground (arith, h.old, h.silent);
  begun_before = ground (arith, h.begun_before);
}

step-Silenced :
    (a n : ℕ) (settings : RuntimeSettings) (c d : Chat)
    → Step settings c d
    → Silenced a n c
    → Silenced a n d
step-Silenced a n settings c d (submitted event e) h = submit-Silenced a n event e h
step-Silenced a n settings c d (chosen now e idle) h = next_turn-Silenced a n now e idle h
step-Silenced a n settings c d (begun now f e old free once) h =
    begin_send-Silenced a n settings now f e old free h
step-Silenced a n settings c d (answered f answer e flies) h =
    finish_send-Silenced a n f answer e flies h
step-Silenced a n settings c d (ended t e old) h = end_turn-Silenced a n t e old h
step-Silenced a n settings c d (expired t e old) h = expire-Silenced a n t e old h
step-Silenced a n settings c d (settled t e old) h = settle_turn-Silenced a n t e old h
step-Silenced a n settings c d (decided messages saw_wait t e old new) h =
    decide_reply-Silenced a n messages saw_wait t e old h
step-Silenced a n settings c d (closed e) h = close-Silenced a n e h

reached-Silenced :
    (a n : ℕ) (settings : RuntimeSettings) (c d : Chat)
    → Steps settings c d
    → Silenced a n c
    → Silenced a n d
reached-Silenced a n settings c d (stay e) h = h
reached-Silenced a n settings c d (and_then {first} {middle} {last} before step) h =
    step-Silenced a n settings middle last step
      (reached-Silenced a n settings first middle before h)

-- Once a newer input has been submitted while a turn is current, no send of that turn begins any
-- more, in any state that the conversation reaches afterwards, by any tasks in any order.
pub no_send_after_submit :
    (settings : RuntimeSettings) (event : Input) (t : ℕ) (c d : Chat)
    → c.turn ≡ some t
    → t < c.created
    → c.closing ≡ false
    → Steps settings (submit event c).1 d
    → count_begun t d.log ≡ count_begun t c.log
unfolding submit
no_send_after_submit settings event t c d current old up run =
    let start : Silenced t (count_begun t c.log) (submit event c).1 = record {
      old = ground arith;
      silent = ground arith;
      begun_before = ground arith;
    } in
    let h = reached-Silenced t (count_begun t c.log) settings (submit event c).1 d run start in
    h.begun_before
