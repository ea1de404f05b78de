-- ===== src/Prototype/Chat/Notices.antt =====
-- The waiting notices of a turn, in every state that a conversation of
-- archive/v3/src/mutsumi_sync/prototype/runtime.py reaches.
use mutsumi_s_sync.Common.{
  ℕ, ◌+◌, ◌==◌, ◌<◌, ◌≤◌, Bool, true, false, not, ◌&&◌, Option, none, some, List, [], ◌∷◌, ◌≡◌,
  refl, arith, if◌then◌else◌,
}
use mutsumi_s_sync.Common.{Text, ◌⊎◌, inl, inr, Bool-cases}
use mutsumi_s_sync.Json.{Json}
use mutsumi_s_sync.Jobs.{JobRow}
use mutsumi_s_sync.Prototype.Chat.{
  RuntimeSettings, Input, Turn, waiting, Body, send_started, Entry, Flight, Chat,
}
use mutsumi_s_sync.Prototype.Chat.Operations.{
  submit, next_turn, end_turn, begin_send, finish_send, decide_reply, expire, settle_turn, close,
  is_waiting,
}
use mutsumi_s_sync.Prototype.Chat.Steps.{
  new_chat, Step, submitted, chosen, begun, answered, decided, expired, settled, ended, closed,
  Steps, stay, and_then,
}

abbrev starts_notice : Body → Bool
starts_notice (send_started waiting index) = true
starts_notice _ = false

-- The waiting notices of a turn that were begun.
abbrev pub count_notices : ℕ → List Entry → ℕ
count_notices t [] = 0
count_notices t (e ∷ es) =
    (if e.turn == t && starts_notice e.body then 1 else 0) + count_notices t es

abbrev pub bit : Bool → ℕ
bit true = 1
bit false = 0

-- A notice in flight is the one that its turn has claimed, before any output of the turn.
abbrev pub IsNotice : Turn → Type 0
IsNotice turn =
    (turn.wait_claimed ≡ true)
    × (turn.wait_done ≡ false)
    × (turn.output_started ≡ false)
    × (turn.silent ≡ false)

record Claimed (c : Chat) : Type 0 where
  counted : (t : ℕ) → count_notices t c.log ≡ bit (c.turns t).wait_claimed
  blank : (t : ℕ) → c.created ≤ t → (c.turns t).wait_claimed ≡ false
  flying : (f : Flight) → c.sending ≡ some f → f.kind ≡ waiting → IsNotice (c.turns f.turn)
  timed :
      (t : ℕ)
      → (c.turns t).timer ≡ true
      → ((c.turns t).wait_claimed ≡ false)
        × ((c.turns t).wait_done ≡ false)
        × ((c.turns t).notify ≡ true)
  notified : (t : ℕ) → (c.turns t).wait_claimed ≡ true → (c.turns t).notify ≡ true

submit-Claimed : (event : Input) (c : Chat) → Claimed c → Claimed (submit event c).1
unfolding submit
submit-Claimed event c h = record {
  counted = λ u. ground (arith, h.counted u, h.blank u);
  blank = λ u b. ground (arith, h.blank u);
  flying = λ f k w. ground (arith, h.flying f, h.blank f.turn);
  timed = λ u w. ground (arith, h.timed u, h.blank u);
  notified = λ u w. ground (arith, h.notified u, h.timed u, h.blank u);
}

next_turn-Claimed : (now : ℕ) (c : Chat) → Claimed c → Claimed (next_turn now c)
unfolding next_turn
next_turn-Claimed now c h = record {
  counted = λ u. ground (arith, h.counted u, h.blank u);
  blank = λ u b. ground (arith, h.blank u);
  flying = λ f k w. ground (arith, h.flying f, h.blank f.turn);
  timed = λ u w. ground (arith, h.timed u, h.blank u);
  notified = λ u w. ground (arith, h.notified u, h.timed u, h.blank u);
}

begin_send-Claimed :
    (settings : RuntimeSettings) (now : ℕ) (g : Flight) (c : Chat)
    → g.turn < c.created
    → c.sending ≡ none
    → is_waiting g.kind && not (c.turns g.turn).timer ≡ false
    → Claimed c
    → Claimed (begin_send settings now g c).1
unfolding begin_send
begin_send-Claimed settings now g c old free once h = record {
  counted = λ u. ground (arith, h.counted u, h.blank u);
  blank = λ u b. ground (arith, h.blank u);
  flying = λ f k w. ground (arith, h.flying f, h.blank f.turn, h.timed g.turn);
  timed = λ u w. ground (arith, h.timed u, h.blank u);
  notified = λ u w. ground (arith, h.notified u, h.timed u, h.blank u);
}

finish_send-Claimed :
    (g : Flight) (answer : Option Json) (c : Chat)
    → c.sending ≡ some g
    → Claimed c
    → Claimed (finish_send g answer c).1
unfolding finish_send
finish_send-Claimed g answer c old h = record {
  counted = λ u. ground (arith, h.counted u, h.blank u);
  blank = λ u b. ground (arith, h.blank u);
  flying = λ f k w. ground (arith, h.flying f, h.blank f.turn);
  timed = λ u w. ground (arith, h.timed u, h.flying g);
  notified = λ u w. ground (arith, h.notified u, h.timed u, h.blank u);
}

end_turn-Claimed : (t : ℕ) (c : Chat) → t < c.created → Claimed c → Claimed (end_turn t c)
unfolding end_turn
end_turn-Claimed t c old h = record {
  counted = λ u. ground (arith, h.counted u, h.blank u);
  blank = λ u b. ground (arith, h.blank u);
  flying = λ f k w. ground (arith, h.flying f, h.blank f.turn);
  timed = λ u w. ground (arith, h.timed u, h.blank u);
  notified = λ u w. ground (arith, h.notified u, h.timed u, h.blank u);
}

expire-Claimed : (t : ℕ) (c : Chat) → t < c.created → Claimed c → Claimed (expire t c)
unfolding expire
expire-Claimed t c old h = record {
  counted = λ u. ground (arith, h.counted u, h.blank u);
  blank = λ u b. ground (arith, h.blank u);
  flying = λ f k w. ground (arith, h.flying f, h.blank f.turn);
  timed = λ u w. ground (arith, h.timed u, h.blank u);
  notified = λ u w. ground (arith, h.notified u, h.timed u, h.blank u);
}

settle_turn-Claimed : (t : ℕ) (c : Chat) → t < c.created → Claimed c → Claimed (settle_turn t c)
unfolding settle_turn
settle_turn-Claimed t c old h = record {
  counted = λ u. ground (arith, h.counted u, h.blank u);
  blank = λ u b. ground (arith, h.blank u);
  flying = λ f k w. ground (arith, h.flying f, h.blank f.turn);
  timed = λ u w. ground (arith, h.timed u, h.blank u);
  notified = λ u w. ground (arith, h.notified u, h.timed u, h.blank u);
}

decide_reply-Claimed :
    (messages : List Text) (saw_wait : Bool) (t : ℕ) (c : Chat)
    → t < c.created
    → Claimed c
    → Claimed (decide_reply messages saw_wait t c).1
unfolding decide_reply
decide_reply-Claimed messages saw_wait t c old h = record {
  counted = λ u. ground (arith, h.counted u, h.blank u);
  blank = λ u b. ground (arith, h.blank u);
  flying = λ f k w. ground (arith, h.flying f, h.blank f.turn);
  timed = λ u w. ground (arith, h.timed u, h.blank u);
  notified = λ u w. ground (arith, h.notified u, h.timed u, h.blank u);
}

close-Claimed : (c : Chat) → Claimed c → Claimed (close c)
unfolding close
close-Claimed c h = record {
  counted = λ u. ground (arith, h.counted u, h.blank u);
  blank = λ u b. ground (arith, h.blank u);
  flying = λ f k w. ground (arith, h.flying f, h.blank f.turn);
  timed = λ u w. ground (arith, h.timed u, h.blank u);
  notified = λ u w. ground (arith, h.notified u, h.timed u, h.blank u);
}

step-Claimed : (settings : RuntimeSettings) (c d : Chat) → Step settings c d → Claimed c → Claimed d
step-Claimed settings c d (submitted event e) h = submit-Claimed event e h
step-Claimed settings c d (chosen now e idle) h = next_turn-Claimed now e h
step-Claimed settings c d (begun now f e old free once) h =
    begin_send-Claimed settings now f e old free once h
step-Claimed settings c d (answered f answer e flies) h = finish_send-Claimed f answer e flies h
step-Claimed settings c d (decided messages saw_wait t e old new) h =
    decide_reply-Claimed messages saw_wait t e old h
step-Claimed settings c d (expired t e old) h = expire-Claimed t e old h
step-Claimed settings c d (settled t e old) h = settle_turn-Claimed t e old h
step-Claimed settings c d (ended t e old) h = end_turn-Claimed t e old h
step-Claimed settings c d (closed e) h = close-Claimed e h

new_chat-Claimed : (jobs : List JobRow) (results : List Text) → Claimed (new_chat jobs results)
new_chat-Claimed jobs results = record {
  counted = λ t. refl;
  blank = λ t b. refl;
  flying = λ f k w. ground arith;
  timed = λ t w. ground arith;
  notified = λ t w. ground arith;
}

reached-Claimed :
    (settings : RuntimeSettings) (c d : Chat) → Steps settings c d → Claimed c → Claimed d
reached-Claimed settings c d (stay e) h = h
reached-Claimed settings c d (and_then {first} {middle} {last} before step) h =
    step-Claimed settings middle last step (reached-Claimed settings first middle before h)

-- A turn that has claimed its notice is refused another one.
begin_send-claimed :
    (settings : RuntimeSettings) (now : ℕ) (f : Flight) (c : Chat)
    → (c.turns f.turn).wait_claimed ≡ true
    → is_waiting f.kind ≡ true
    → (begin_send settings now f c).0 ≡ false
unfolding begin_send
begin_send-claimed settings now f c claimed is_notice = ground arith

-- In every state that a conversation reaches from its start, by inputs, turns, sends, decisions and
-- ends in any order, a turn that has claimed its waiting notice began exactly one, any other turn
-- began none, and no notice was begun for a turn that is not to be notified. Once a turn began one,
-- any further notice that is tried for the turn is refused, at any time and by any task.
pub notice_once :
    (settings : RuntimeSettings) (jobs : List JobRow) (results : List Text) (c : Chat) (now : ℕ)
    (f : Flight)
    → Steps settings (new_chat jobs results) c
    → (count_notices f.turn c.log ≡ bit (c.turns f.turn).wait_claimed)
      × (count_notices f.turn c.log ≤ bit (c.turns f.turn).notify)
      × ((count_notices f.turn c.log ≡ 0)
          ⊎ (is_waiting f.kind ≡ false)
          ⊎ ((begin_send settings now f c).0 ≡ false))
notice_once settings jobs results c now f run =
    let h =
      reached-Claimed settings (new_chat jobs results) c run (new_chat-Claimed jobs results) in
    let counted = h.counted f.turn in
    let bounded : count_notices f.turn c.log ≤ bit (c.turns f.turn).notify =
      ground (arith, h.notified f.turn) in
    let refused = begin_send-claimed settings now f c in
    (
      counted,
      bounded,
      elim (Bool-cases (c.turns f.turn).wait_claimed) [
        | inr free ↦ inl (ground arith)
        | inl claimed ↦ elim (Bool-cases (is_waiting f.kind)) [
          | inr other ↦ inr (inl other)
          | inl is_notice ↦ inr (inr (refused claimed is_notice))
        ]
      ],
    )

-- In every state that a conversation reaches from its start, a waiting notice in flight is one that
-- its turn has claimed and not ended, and the turn has neither output nor chosen silence.
pub sending-IsNotice :
    (settings : RuntimeSettings) (jobs : List JobRow) (results : List Text) (c : Chat) (f : Flight)
    → Steps settings (new_chat jobs results) c
    → c.sending ≡ some f
    → f.kind ≡ waiting
    → IsNotice (c.turns f.turn)
sending-IsNotice settings jobs results c f run flies is_notice =
    let h =
      reached-Claimed settings (new_chat jobs results) c run (new_chat-Claimed jobs results) in
    h.flying f flies is_notice
