-- ===== src/Ledger/Queries.antt =====
-- Which events the queries of the ledger return.
use mutsumi_s_sync.Common.{
  ℕ, ◌≤◌, ◌<◌, ◌≡◌, refl, ap, sym, ◌∙◌, Bool, true, false, inl, inr, ◌⊎◌, ◌↔◌, List, [], ◌∷◌, ◌++◌,
  arith, leb, Bool-cases, if◌then◌else◌,
}
use mutsumi_s_sync.Common.{
  Text, All, Any, Any-map, Any-pick, All-at, length, take, drop, filter, take-append-drop,
  length-append, length-take,
}
use Prim.Native.Nat.{min}
use mathlib.Core.List.{reverse, reverse-append, reverse-reverse}
use mutsumi_s_sync.Ledger.Invariant.{IsValid, Ordered}
use mutsumi_s_sync.Ledger.{
  EventRecord, Ledger, EventQuery, matches, get_events, max_sequence, is_proactive, is_real_inbound,
  has_unanswered_proactive,
}

-- The rows that meet the `WHERE` clause, in the order of their keys.
abbrev pub matching : EventQuery → Ledger → List EventRecord
matching q ledger = filter (matches q) ledger.events

length-reverse : (xs : List EventRecord) → length (reverse xs) ≡ length xs
length-reverse [] = refl
length-reverse (x ∷ xs) =
    rw (reverse-append (x ∷ []) xs)
      (omega (arith, length-append (reverse xs) (reverse (x ∷ [])), length-reverse xs))

-- With `latest` the result is the end of the matching rows, else their beginning; it is cut to the
-- limit, is never cut further, and is in the order of the keys either way.
pub get_events_lem :
    (q : EventQuery) (ledger : Ledger)
    → (others : List EventRecord) × (matching q ledger
        ≡ (if q.latest then others ++ get_events q ledger else get_events q ledger ++ others))
      × (length (get_events q ledger) ≡ min q.limit (length (matching q ledger)))
unfolding get_events
get_events_lem q ledger =
    let rows = matching q ledger in
    elim (Bool-cases q.latest) [
      | inr e ↦ (
        drop q.limit rows,
        rw e (sym (take-append-drop q.limit rows)),
        rw e (length-take q.limit rows),
      )
      | inl e ↦
          let back = reverse rows in
          let split : rows ≡ reverse (drop q.limit back) ++ reverse (take q.limit back) =
            sym (reverse-reverse rows)
            ∙ ap reverse (sym (take-append-drop q.limit back))
            ∙ reverse-append (take q.limit back) (drop q.limit back) in
          (
            reverse (drop q.limit back),
            rw e split,
            rw e (
                omega (
                  arith,
                  length-reverse (take q.limit back),
                  length-take q.limit back,
                  length-reverse rows,
                )),
          )
    ]

module _ (test : EventRecord → Bool) where
  max_sequence-upper :
      (n : ℕ) (es : List EventRecord)
      → max_sequence test es < n
      → All (λ e. (test e ≡ false) ⊎ (e.sequence < n)) es
  unfolding max_sequence
  max_sequence-upper n [] h = tt
  max_sequence-upper n (e ∷ es) h = elim (Bool-cases (test e)) [
    | inl t ↦ (inr (ground arith), max_sequence-upper n es (ground arith))
    | inr f ↦ (inl f, max_sequence-upper n es (ground arith))
  ]

  max_sequence-ge :
      (e : EventRecord) (es : List EventRecord)
      → test e ≡ true
      → Any (λ x. x ≡ e) es
      → e.sequence ≤ max_sequence test es
  unfolding max_sequence
  max_sequence-ge e [] t m = elim m [ ]
  max_sequence-ge e (x ∷ es) t (inl same) = rw same (rw t (ground arith))
  max_sequence-ge e (x ∷ es) t (inr m) = ground (arith, max_sequence-ge e es t m)

  max_sequence-reached :
      (n : ℕ) (es : List EventRecord)
      → 0 < n
      → max_sequence test es ≡ n
      → Any (λ e. (test e ≡ true) × (e.sequence ≡ n)) es
  unfolding max_sequence
  max_sequence-reached n [] lt h = omega arith
  max_sequence-reached n (e ∷ es) lt h = elim (Bool-cases (test e)) [
    | inr f ↦ inr (max_sequence-reached n es lt (ground arith))
    | inl t ↦ elim (Bool-cases (leb (max_sequence test es) e.sequence)) [
      | inl le ↦ inl (t, ground arith)
      | inr gt ↦ inr (max_sequence-reached n es lt (ground arith))
    ]
  ]

  max_sequence-lt :
      (n : ℕ) (es : List EventRecord)
      → 0 < n
      → All (λ e. (test e ≡ false) ⊎ (e.sequence < n)) es
      → max_sequence test es < n
  unfolding max_sequence
  max_sequence-lt n [] lt h = lt
  max_sequence-lt n (e ∷ es) lt h = elim (Bool-cases (test e)) [
    | inl t ↦ ground (arith, h.0, max_sequence-lt n es lt h.1)
    | inr f ↦ ground (arith, max_sequence-lt n es lt h.1)
  ]

-- Among the events of a conversation, this one is a heartbeat's output, and every real inbound
-- event is older.
abbrev pub Unanswered : Text → List EventRecord → EventRecord → Type 0
Unanswered conversation_id es e =
    (is_proactive conversation_id e ≡ true)
    × All (λ i. (is_real_inbound conversation_id i ≡ false) ⊎ (i.sequence < e.sequence)) es

has-Unanswered_sound :
    (conversation_id : Text) (ledger : Ledger)
    → has_unanswered_proactive conversation_id ledger ≡ true
    → Any (Unanswered conversation_id ledger.events) ledger.events
unfolding has_unanswered_proactive
has-Unanswered_sound c ledger h =
    let n = max_sequence (is_proactive c) ledger.events in
    let newer : max_sequence (is_real_inbound c) ledger.events < n = ground arith in
    Any-map {P = λ e. (is_proactive c e ≡ true) × (e.sequence ≡ n)} {Q = Unanswered c ledger.events}
      (λ e h. (
        h.0,
        max_sequence-upper (is_real_inbound c) e.sequence ledger.events (omega (arith, newer, h.1)),
      ))
      ledger.events (max_sequence-reached (is_proactive c) n ledger.events (omega arith) refl)

positive : (low : ℕ) (es : List EventRecord) → Ordered low es → All (λ e. 0 < e.sequence) es
positive low [] o = tt
positive low (e ∷ es) o = (omega (arith, o.0), positive e.sequence es o.1)

has-Unanswered_complete :
    (conversation_id : Text) (ledger : Ledger)
    → IsValid ledger
    → Any (Unanswered conversation_id ledger.events) ledger.events
    → has_unanswered_proactive conversation_id ledger ≡ true
unfolding has_unanswered_proactive
has-Unanswered_complete c ledger v h =
    let (e, (t, older), m) = Any-pick ledger.events h in
    let pos : 0 < e.sequence =
      All-at (λ x. 0 < x.sequence) ledger.events e (positive 0 ledger.events v.ordered) m in
    let reached : e.sequence ≤ max_sequence (is_proactive c) ledger.events =
      max_sequence-ge (is_proactive c) e ledger.events t m in
    let below : max_sequence (is_real_inbound c) ledger.events < e.sequence =
      max_sequence-lt (is_real_inbound c) e.sequence ledger.events pos older in
    ground arith

-- On a well-formed ledger, a heartbeat waits for an answer exactly if some finalized heartbeat
-- output of the conversation is younger than every inbound event of it that was not cancelled.
pub has_unanswered_proactive_iff :
    (conversation_id : Text) (ledger : Ledger)
    → IsValid ledger
    → (has_unanswered_proactive conversation_id ledger ≡ true)
      ↔ Any (Unanswered conversation_id ledger.events) ledger.events
has_unanswered_proactive_iff c ledger v =
    (has-Unanswered_sound c ledger, has-Unanswered_complete c ledger v)
