-- ===== src/Prototype/Chat/Inputs.antt =====
-- What becomes of the inputs of archive/v3/src/mutsumi_sync/prototype/runtime.py, in every state
-- that a conversation reaches.
use mutsumi_s_sync.Common.{
  ℕ, zero, suc, ◌<◌, Bool, Option, none, some, List, [], ◌∷◌, ◌++◌, ◌≡◌, refl, sym, ap, ◌∙◌, inl,
  inr, arith, ◌⊎◌, Bool-cases, append_assoc, append-nil,
}
use mutsumi_s_sync.Common.{Text}
use mutsumi_s_sync.Json.{Json}
use mutsumi_s_sync.Jobs.{JobRow, BackgroundJob, get_job}
use mutsumi_s_sync.Prototype.Chat.{RuntimeSettings, Input, Turn, Flight, Chat}
use mutsumi_s_sync.Prototype.Chat.Operations.{
  submit, next_turn, end_turn, begin_send, finish_send, decide_reply, expire, settle_turn, close,
  supersede,
}
use mutsumi_s_sync.Prototype.Chat.Steps.{
  new_chat, Step, submitted, chosen, begun, answered, decided, expired, settled, ended, closed,
  Steps, stay, and_then,
}

-- The inputs of the first turns, in the order of the turns.
abbrev pub taken_inputs : ℕ → (ℕ → Turn) → List Input
taken_inputs zero turns = []
taken_inputs (suc n) turns = taken_inputs n turns ++ (turns n).inputs

taken_inputs-same :
    (n : ℕ) (f g : ℕ → Turn)
    → ((t : ℕ) → t < n → (g t).inputs ≡ (f t).inputs)
    → taken_inputs n g ≡ taken_inputs n f
taken_inputs-same zero f g h = refl
taken_inputs-same (suc n) f g h =
    λ i. taken_inputs-same n f g (λ t b. h t (ground arith)) i ++ h n (ground arith) i

-- No input is lost, given to two turns, or taken out of order.
abbrev Kept : Chat → Type 0
Kept c = c.received ≡ taken_inputs c.created c.turns ++ c.pending

-- A step that makes no turn and takes no input.
record Still (c d : Chat) : Type 0 where
  created : d.created ≡ c.created
  inputs : (t : ℕ) → (d.turns t).inputs ≡ (c.turns t).inputs
  received : d.received ≡ c.received
  pending : d.pending ≡ c.pending

Still-Kept : (c d : Chat) → Still c d → Kept c → Kept d
Still-Kept c d s h =
    s.received
    ∙ h
    ∙ (λ i.
        sym (taken_inputs-same c.created c.turns d.turns (λ t b. s.inputs t)) i ++ sym s.pending i)
    ∙ ap (λ n. taken_inputs n d.turns ++ d.pending) (sym s.created)

begin_send-Kept :
    (settings : RuntimeSettings) (now : ℕ) (g : Flight) (c : Chat)
    → Kept c
    → Kept (begin_send settings now g c).1
unfolding begin_send
begin_send-Kept settings now g c h =
    Still-Kept c (begin_send settings now g c).1
      (record {
        created = ground arith;
        inputs = λ t. ground arith;
        received = ground arith;
        pending = ground arith;
      })
      h

finish_send-Kept :
    (g : Flight) (answer : Option Json) (c : Chat) → Kept c → Kept (finish_send g answer c).1
unfolding finish_send
finish_send-Kept g answer c h =
    Still-Kept c (finish_send g answer c).1
      (record {
        created = ground arith;
        inputs = λ t. ground arith;
        received = ground arith;
        pending = ground arith;
      })
      h

decide_reply-Kept :
    (messages : List Text) (saw_wait : Bool) (t : ℕ) (c : Chat)
    → Kept c
    → Kept (decide_reply messages saw_wait t c).1
unfolding decide_reply
decide_reply-Kept messages saw_wait t c h =
    Still-Kept c (decide_reply messages saw_wait t c).1
      (record {
        created = ground arith;
        inputs = λ u. ground arith;
        received = ground arith;
        pending = ground arith;
      })
      h

turn_op-Kept :
    (t : ℕ) (c : Chat) → Kept c → Kept (expire t c) × Kept (settle_turn t c) × Kept (end_turn t c)
unfolding expire settle_turn end_turn
turn_op-Kept t c h = (
  Still-Kept c (expire t c)
      (record {
        created = ground arith;
        inputs = λ u. ground arith;
        received = ground arith;
        pending = ground arith;
      })
      h,
  Still-Kept c (settle_turn t c)
      (record {
        created = ground arith;
        inputs = λ u. ground arith;
        received = ground arith;
        pending = ground arith;
      })
      h,
  Still-Kept c (end_turn t c)
      (record {
        created = ground arith;
        inputs = λ u. ground arith;
        received = ground arith;
        pending = ground arith;
      })
      h,
)

close-Kept : (c : Chat) → Kept c → Kept (close c)
unfolding close
close-Kept c h =
    Still-Kept c (close c)
      (record {
        created = ground arith;
        inputs = λ u. ground arith;
        received = ground arith;
        pending = ground arith;
      })
      h

superseded_inputs :
    (o : Option ℕ) (turns : ℕ → Turn) (t : ℕ) → (supersede o turns t).inputs ≡ (turns t).inputs
superseded_inputs o turns t = ground arith

submit-Kept : (event : Input) (c : Chat) → Kept c → Kept (submit event c).1
unfolding submit
submit-Kept event c h = elim (Bool-cases c.closing) [
  | inl e ↦ rw e h
  | inr e ↦
      let same : taken_inputs c.created (supersede c.turn c.turns)
          ≡ taken_inputs c.created c.turns =
        taken_inputs-same c.created c.turns (supersede c.turn c.turns)
          (λ t b. superseded_inputs c.turn c.turns t) in
      let added : c.received ++ event ∷ []
          ≡ taken_inputs c.created c.turns ++ (c.pending ++ event ∷ []) =
        ap (λ l. l ++ event ∷ []) h
        ∙ append_assoc (taken_inputs c.created c.turns) c.pending (event ∷ []) in
      rw e (added ∙ ap (λ l. l ++ (c.pending ++ event ∷ [])) (sym same))
]

-- A step that makes a turn of the first inputs that wait.
record Turned (c d : Chat) : Type 0 where
  created : d.created ≡ suc c.created
  inputs : (t : ℕ) → t < c.created → (d.turns t).inputs ≡ (c.turns t).inputs
  received : d.received ≡ c.received
  taken : c.pending ≡ (d.turns c.created).inputs ++ d.pending

Turned-Kept : (c d : Chat) → Turned c d → Kept c → Kept d
Turned-Kept c d s h =
    let before = taken_inputs-same c.created c.turns d.turns s.inputs in
    s.received
    ∙ h
    ∙ (λ i. sym before i ++ s.taken i)
    ∙ sym (append_assoc (taken_inputs c.created d.turns) (d.turns c.created).inputs d.pending)
    ∙ ap (λ n. taken_inputs n d.turns ++ d.pending) (sym s.created)

next_turn-cases : (now : ℕ) (c : Chat) → Still c (next_turn now c) ⊎ Turned c (next_turn now c)
unfolding next_turn
next_turn-cases now c = by_pending c.pending refl
  where
    by_job :
        (id : Text) (ids : List Text) (o : Option BackgroundJob)
        → c.pending ≡ []
        → c.results ≡ id ∷ ids
        → get_job id c.jobs ≡ o
        → Still c (next_turn now c) ⊎ Turned c (next_turn now c)
    by_job id ids none e f g = inl (record {
      created = ground arith;
      inputs = λ u. ground arith;
      received = ground arith;
      pending = ground arith;
    })
    by_job id ids (some job) e f g = elim (Bool-cases job.delivered) [
      | inl b ↦ inl (record {
        created = ground arith;
        inputs = λ u. ground arith;
        received = ground arith;
        pending = ground arith;
      })
      | inr b ↦ inr (record {
        created = ground arith;
        inputs = λ u v. ground arith;
        received = ground arith;
        taken = ground arith;
      })
    ]

    by_results :
        (r : List Text)
        → c.pending ≡ []
        → c.results ≡ r
        → Still c (next_turn now c) ⊎ Turned c (next_turn now c)
    by_results [] e f = inl (record {
      created = ground arith;
      inputs = λ u. ground arith;
      received = ground arith;
      pending = ground arith;
    })
    by_results (id ∷ ids) e f = by_job id ids (get_job id c.jobs) e f refl

    by_pending :
        (p : List Input) → c.pending ≡ p → Still c (next_turn now c) ⊎ Turned c (next_turn now c)
    by_pending [] e = by_results c.results e refl
    by_pending (i ∷ is) e =
        let taken_now : ((next_turn now c).turns c.created).inputs ≡ i ∷ is = ground arith in
        let none_left : (next_turn now c).pending ≡ [] = ground arith in
        inr (record {
          created = ground arith;
          inputs = λ u v. ground arith;
          received = ground arith;
          taken = e ∙ sym (append-nil (i ∷ is)) ∙ (λ j. sym taken_now j ++ sym none_left j);
        })

next_turn-Kept : (now : ℕ) (c : Chat) → Kept c → Kept (next_turn now c)
next_turn-Kept now c h = elim (next_turn-cases now c) [
  | inl s ↦ Still-Kept c (next_turn now c) s h
  | inr s ↦ Turned-Kept c (next_turn now c) s h
]

step-Kept : (settings : RuntimeSettings) (c d : Chat) → Step settings c d → Kept c → Kept d
step-Kept settings c d (submitted event e) h = submit-Kept event e h
step-Kept settings c d (chosen now e idle) h = next_turn-Kept now e h
step-Kept settings c d (begun now f e old free once) h = begin_send-Kept settings now f e h
step-Kept settings c d (answered f answer e flies) h = finish_send-Kept f answer e h
step-Kept settings c d (decided messages saw_wait t e old new) h =
    decide_reply-Kept messages saw_wait t e h
step-Kept settings c d (expired t e old) h = (turn_op-Kept t e h).0
step-Kept settings c d (settled t e old) h = (turn_op-Kept t e h).1
step-Kept settings c d (ended t e old) h = (turn_op-Kept t e h).2
step-Kept settings c d (closed e) h = close-Kept e h

-- In every state that a conversation reaches from its start, the inputs that were received are
-- those of its turns, in the order of the turns, followed by those that wait: none is lost, doubled
-- or taken out of order.
pub inputs_in_order :
    (settings : RuntimeSettings) (jobs : List JobRow) (results : List Text) (c : Chat)
    → Steps settings (new_chat jobs results) c
    → c.received ≡ taken_inputs c.created c.turns ++ c.pending
inputs_in_order settings jobs results c run = reached (new_chat jobs results) c run refl
  where
    reached : (c d : Chat) → Steps settings c d → Kept c → Kept d
    reached c d (stay e) h = h
    reached c d (and_then {first} {middle} {last} before step) h =
        step-Kept settings middle last step (reached first middle before h)
