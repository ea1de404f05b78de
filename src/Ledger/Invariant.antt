-- ===== src/Ledger/Invariant.antt =====
-- Every operation keeps the table of events well formed.
use mutsumi_s_sync.Common.{
  ℕ, suc, ◌+◌, ◌≤◌, ◌<◌, ◌≡◌, ◌≢◌, ◌⊎◌, refl, none, some, inl, inr, List, [], ◌∷◌, ◌++◌, arith,
  Option-cases, if◌then◌else◌,
}
use mutsumi_s_sync.Common.{Text, All, text_eq, text_eq_iff, ok, err}
use mutsumi_s_sync.Ledger.{
  EventRecord, Ledger, empty, integrity_error, find_event, find_sequence, insert_row, append_event,
  get_event,
}

-- The keys rise from above `low`, and no two rows have one event id.
abbrev pub Ordered : ℕ → List EventRecord → Type 0
Ordered low [] = Unit
Ordered low (e ∷ es) = (low < e.sequence) × Ordered e.sequence es

abbrev pub Distinct : List EventRecord → Type 0
Distinct [] = Unit
Distinct (e ∷ es) = (find_event e.event_id es ≡ none) × Distinct es

pub record IsValid (ledger : Ledger) : Type 0 where
  pub ordered : Ordered 0 ledger.events
  pub bounded : All (λ e. e.sequence ≤ ledger.last_sequence) ledger.events
  pub distinct : Distinct ledger.events

pub IsValid-empty : IsValid empty
IsValid-empty = record { ordered = tt; bounded = tt; distinct = tt }

Ordered-snoc :
    (low n : ℕ) (es : List EventRecord) (row : EventRecord)
    → Ordered low es
    → All (λ e. e.sequence ≤ n) es
    → low ≤ n
    → row.sequence ≡ suc n
    → Ordered low (es ++ row ∷ [])
Ordered-snoc low n [] row o b le e = (omega arith, tt)
Ordered-snoc low n (x ∷ es) row o b le e = (o.0, Ordered-snoc x.sequence n es row o.1 b.1 b.0 e)

bounded-snoc :
    (n m : ℕ) (es : List EventRecord) (row : EventRecord)
    → All (λ e. e.sequence ≤ n) es
    → n ≤ m
    → row.sequence ≤ m
    → All (λ e. e.sequence ≤ m) (es ++ row ∷ [])
bounded-snoc n m [] row b le e = (e, tt)
bounded-snoc n m (x ∷ es) row b le e = (omega (arith, b.0), bounded-snoc n m es row b.1 le e)

pub find_event-snoc :
    (id : Text) (es : List EventRecord) (row : EventRecord)
    → find_event id (es ++ row ∷ []) ≡ elim (find_event id es) [
      | some e ↦ some e
      | none ↦ if text_eq row.event_id id then some row else none
    ]
unfolding find_event
find_event-snoc id [] row = refl
find_event-snoc id (x ∷ es) row = ground (arith, find_event-snoc id es row)

Distinct-snoc :
    (es : List EventRecord) (row : EventRecord)
    → Distinct es
    → find_event row.event_id es ≡ none
    → Distinct (es ++ row ∷ [])
unfolding find_event
Distinct-snoc [] row d h = (refl, tt)
Distinct-snoc (x ∷ es) row d h = (
  ground (
    arith,
    find_event-snoc x.event_id es row,
    d.0,
    text_eq_iff row.event_id x.event_id,
    text_eq_iff x.event_id row.event_id,
  ),
  Distinct-snoc es row d.1 (ground arith),
)

find_sequence-snoc :
    (n m : ℕ) (es : List EventRecord) (row : EventRecord)
    → All (λ e. e.sequence ≤ n) es
    → n < m
    → row.sequence ≡ m
    → find_sequence m (es ++ row ∷ []) ≡ some row
unfolding find_sequence
find_sequence-snoc n m [] row b lt e = ground arith
find_sequence-snoc n m (x ∷ es) row b lt e =
    ground (arith, b.0, find_sequence-snoc n m es row b.1 lt e)

abbrev pub new_row : Text → ℕ → EventRecord → Ledger → EventRecord
new_row fresh now event ledger = insert_row fresh now event (ledger.last_sequence + 1)

abbrev pub appended : EventRecord → Ledger → Ledger
appended row ledger = record ledger {
  events = ledger.events ++ row ∷ [];
  last_sequence = row.sequence;
}

module _ (fresh : Text) (now : ℕ) (event : EventRecord) (ledger : Ledger) where
  abbrev row : EventRecord
  row = new_row fresh now event ledger

  pub append_event-taken :
      (taken : EventRecord)
      → get_event row.event_id ledger ≡ some taken
      → append_event fresh now event ledger ≡ (err integrity_error, ledger)
  unfolding append_event get_event
  append_event-taken taken e = rw (e, append_event)

  pub append_event-new :
      IsValid ledger
      → get_event row.event_id ledger ≡ none
      → append_event fresh now event ledger ≡ (ok row, appended row ledger)
  unfolding append_event get_event
  append_event-new v e =
      rw (e, append_event)
        (rw (
          find_sequence-snoc ledger.last_sequence (ledger.last_sequence + 1) ledger.events row
            v.bounded (omega arith) refl))

  pub appended-IsValid :
      IsValid ledger → get_event row.event_id ledger ≡ none → IsValid (appended row ledger)
  unfolding get_event
  appended-IsValid v e = record {
    ordered =
        Ordered-snoc 0 ledger.last_sequence ledger.events row v.ordered v.bounded (omega arith)
          (omega arith);
    bounded =
        bounded-snoc ledger.last_sequence (ledger.last_sequence + 1) ledger.events row v.bounded
          (omega arith) (omega arith);
    distinct = Distinct-snoc ledger.events row v.distinct e;
  }

  pub get_event-appended :
      (id : Text)
      → get_event row.event_id ledger ≡ none
      → get_event id (appended row ledger)
        ≡ (if text_eq row.event_id id then some row else get_event id ledger)
  unfolding get_event
  get_event-appended id e =
      ground (arith, find_event-snoc id ledger.events row, text_eq_iff row.event_id id)

  -- Appending an event, refused or not, keeps a well-formed ledger well-formed: keys ascending and
  -- at most the last one given, ids distinct.
  pub append_event-IsValid : IsValid ledger → IsValid (append_event fresh now event ledger).1
  append_event-IsValid v = elim (Option-cases (get_event row.event_id ledger)) [
    | inr (taken, e) ↦ rw (append_event-taken taken e) v
    | inl e ↦ rw (append_event-new v e) (appended-IsValid v e)
  ]

  -- On a well-formed ledger, an append with a taken id is refused and changes nothing; else it
  -- returns the row with the next key, puts it at the end, and a look-up finds it under its id and
  -- every other id as before.
  pub append_event_lem :
      IsValid ledger
      → ((get_event row.event_id ledger ≢ none)
          × (append_event fresh now event ledger ≡ (err integrity_error, ledger)))
        ⊎ ((get_event row.event_id ledger ≡ none)
            × (append_event fresh now event ledger ≡ (ok row, appended row ledger))
            × ((id : Text)
                → get_event id (appended row ledger)
                  ≡ (if text_eq row.event_id id then some row else get_event id ledger)))
  append_event_lem v = elim (Option-cases (get_event row.event_id ledger)) [
    | inr (taken, e) ↦ inl (λ f. cc, append_event-taken taken e)
    | inl e ↦ inr (e, append_event-new v e, λ id. get_event-appended id e)
  ]
