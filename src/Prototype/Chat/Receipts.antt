-- ===== src/Prototype/Chat/Receipts.antt =====
-- The receipts of the sends of archive/v3/src/mutsumi_sync/prototype/runtime.py, in every state
-- that a conversation reaches.
use mutsumi_s_sync.Common.{
  ℕ, ◌+◌, ◌==◌, ◌<◌, ◌≤◌, Bool, true, false, ◌&&◌, Option, none, some, List, [], ◌∷◌, ◌≡◌, ◌⊎◌,
  if◌then◌else◌,
}
use mutsumi_s_sync.Common.{Text}
use mutsumi_s_sync.Json.{Json}
use mutsumi_s_sync.Prototype.Chat.{
  SendKind, succeeded, reply, Body, send_started, send_result, delivered, Entry, Flight, Chat,
}
use mutsumi_s_sync.Prototype.Chat.Operations.{is_waiting}
use mutsumi_s_sync.Prototype.Chat.Steps.{Steps}

-- A test of the turn, the kind, the index and the text of a send.
abbrev pub SendTest : Type 0
SendTest = ℕ → SendKind → ℕ → Text → Bool

abbrev is_started : SendTest → Entry → Bool
is_started test e = elim e.body [
  | send_started kind index ↦ test e.turn kind index e.content
  | _ ↦ false
]

abbrev is_result : SendTest → Entry → Bool
is_result test e = elim e.body [
  | send_result kind index outcome id ↦ test e.turn kind index e.content
  | _ ↦ false
]

abbrev is_success : SendTest → Entry → Bool
is_success test e = elim e.body [
  | send_result kind index succeeded id ↦ test e.turn kind index e.content
  | _ ↦ false
]

abbrev is_delivered : SendTest → Entry → Bool
is_delivered test e = elim e.body [
  | delivered kind index ↦ test e.turn kind index e.content
  | _ ↦ false
]

abbrev pub count_entries : (Entry → Bool) → List Entry → ℕ
count_entries test [] = 0
count_entries test (e ∷ es) = (if test e then 1 else 0) + count_entries test es

-- The sends that began, their results, those of a success, and the records of a delivery.
abbrev pub count_started : SendTest → List Entry → ℕ
count_started test es = count_entries (is_started test) es

abbrev pub count_results : SendTest → List Entry → ℕ
count_results test es = count_entries (is_result test) es

abbrev pub count_successes : SendTest → List Entry → ℕ
count_successes test es = count_entries (is_success test) es

abbrev pub count_deliveries : SendTest → List Entry → ℕ
count_deliveries test es = count_entries (is_delivered test) es

abbrev pub in_flight : SendTest → Option Flight → ℕ
in_flight test none = 0
in_flight test (some f) = if test f.turn f.kind f.index f.text then 1 else 0

abbrev is_delivered_reply : Body → Bool
is_delivered_reply (delivered reply index) = true
is_delivered_reply _ = false

-- The messages of a turn that were delivered.
abbrev pub count_delivered : ℕ → List Entry → ℕ
count_delivered t [] = 0
count_delivered t (e ∷ es) =
    (if e.turn == t && is_delivered_reply e.body then 1 else 0) + count_delivered t es

record Receipted (c : Chat) : Type 0 where
  answered_once :
      (test : SendTest)
      → count_started test c.log ≡ count_results test c.log + in_flight test c.sending
  told : (test : SendTest) → count_successes test c.log ≡ count_deliveries test c.log
  counted : (t : ℕ) → count_delivered t c.log ≡ (c.turns t).sent_count
  blank : (t : ℕ) → c.created ≤ t → (c.turns t).sent_count ≡ 0
  noticed : (t : ℕ) → (c.turns t).wait_sent ≡ true → (c.turns t).wait_claimed ≡ true
  flying :
      (f : Flight)
      → c.sending ≡ some f
      → (f.turn < c.created)
        × ((is_waiting f.kind ≡ false) ⊎ ((c.turns f.turn).wait_claimed ≡ true))
  fresh : (t : ℕ) → c.created ≤ t → (c.turns t).wait_sent ≡ false
