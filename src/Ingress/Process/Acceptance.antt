-- ===== src/Ingress/Process/Acceptance.antt =====
-- What a sender may rely on after a request: one event in the ledger, however often it is sent.
use mutsumi_s_sync.Common.{
  ℕ, ◌≡◌, refl, ap, ◌∙◌, true, some, inl, inr, [], ◌∷◌, arith, Option-cases, Result, ok, err,
}
use mutsumi_s_sync.Common.{Text, text_eq_refl}
use mutsumi_s_sync.Json.{Fields}
use mutsumi_s_sync.Ledger.{
  EventRecord, ActorRecord, Ledger, StoreError, id_or, append_event, get_event, ensure_actor,
}
use mutsumi_s_sync.Ledger.Invariant.{
  IsValid, new_row, appended-IsValid, get_event-appended, append_event-taken, append_event-new,
}
use mutsumi_s_sync.Ingress.Defs.{Failure, ServiceMessageEvent, Libraries, IngressConfig}
use mutsumi_s_sync.Ingress.Process.{
  Request, Accepted, check_request, service_actor, service_record, duplicate_of, finish_insert,
  insert_event, process_request,
}

ensure_actor-IsValid :
    (now : ℕ) (actor : ActorRecord) (ledger : Ledger)
    → IsValid ledger
    → IsValid (ensure_actor now actor ledger).1
unfolding ensure_actor
ensure_actor-IsValid now actor ledger v = record {
  ordered = v.ordered;
  bounded = v.bounded;
  distinct = v.distinct;
}

-- The ledger holds an event under this id.
abbrev pub Holds : Text → Ledger → Type 0
Holds event_id ledger = (row : EventRecord) × (get_event event_id ledger ≡ some row)

id_or-nil : (t : Text) → id_or t [] ≡ t
id_or-nil [] = refl
id_or-nil (c ∷ t) = refl

-- An answer that says the event was there already, or an error.
abbrev pub Repeats : Result Failure Accepted → Type 0
Repeats (ok a) = a.duplicate ≡ true
Repeats (err e) = Unit

Repeats-ok :
    (r : Result Failure Accepted) → ((a : Accepted) → r ≡ ok a → a.duplicate ≡ true) → Repeats r
Repeats-ok (ok a) h = h a refl
Repeats-ok (err e) h = tt

module _ {S : Type 0} (lib : Libraries) (config : IngressConfig)
    (on_event : ServiceMessageEvent → Text → S → Result Failure (Unit {0}) × S)
    (others : Ledger → Ledger)
    (fair : (ledger : Ledger) → IsValid ledger → IsValid (others ledger)) where
  -- Handing over touches the receiver alone.
  finish_insert-ledger :
      (event : ServiceMessageEvent) (event_id : Text) (r : Result StoreError EventRecord)
      (after : Ledger) (s : S)
      → (finish_insert lib config on_event others event event_id (r, after) s).1 ≡ after
  unfolding finish_insert
  finish_insert-ledger event event_id (ok row) after s = refl
  finish_insert-ledger event event_id (err e) after s =
      elim (Option-cases (get_event event_id after)) [
        | inl missing ↦ rw (missing, finish_insert)
        | inr (row, found) ↦ rw (found, finish_insert)
      ]

  stored_by_append :
      (now : ℕ) (new : EventRecord) (before : Ledger)
      → IsValid before
      → IsValid (append_event [] now new before).1
        × Holds new.event_id (append_event [] now new before).1
  stored_by_append now new before valid =
      elim (Option-cases (get_event (id_or new.event_id []) before)) [
        | inr (row, taken) ↦
            let taken' : get_event new.event_id before ≡ some row = rw id_or-nil at taken in
            rw (append_event-taken [] now new before row taken) (valid, (row, taken'))
        | inl fresh ↦ rw (append_event-new [] now new before valid fresh) (
          appended-IsValid [] now new before valid fresh,
          (
            new_row [] now new before,
            get_event-appended [] now new before new.event_id fresh
                ∙ rw (id_or-nil new.event_id, text_eq_refl new.event_id),
          ),
        )
      ]

  insert_event-Holds :
      (now : ℕ) (payload : Fields) (event : ServiceMessageEvent) (event_id : Text) (ledger : Ledger)
      (s : S)
      → IsValid ledger
      → IsValid (insert_event lib config on_event others now payload event event_id ledger s).1
        × Holds event_id
            (insert_event lib config on_event others now payload event event_id ledger s).1
  unfolding insert_event
  insert_event-Holds now payload event event_id ledger s v =
      let known = (ensure_actor now (service_actor lib event) ledger).1 in
      let new = service_record lib config payload event event_id in
      let (inserted, after) = append_event [] now new (others known) in
      rw (finish_insert-ledger event event_id inserted after s) (
        stored_by_append now new (others known)
          (fair known (ensure_actor-IsValid now (service_actor lib event) ledger v)))

  duplicate_of-id :
      (row : EventRecord) (event_id : Text) (ledger : Ledger) (s : S) (a : Accepted)
      → (duplicate_of lib config on_event others row event_id ledger s).0 ≡ ok a
      → (a.event_id ≡ event_id) × (a.duplicate ≡ true)
  unfolding duplicate_of
  duplicate_of-id row event_id ledger s a h = ground arith

  finish_insert-id :
      (event : ServiceMessageEvent) (event_id : Text) (r : Result StoreError EventRecord)
      (after : Ledger) (s : S) (a : Accepted)
      → (finish_insert lib config on_event others event event_id (r, after) s).0 ≡ ok a
      → a.event_id ≡ event_id
  unfolding finish_insert
  finish_insert-id event event_id (ok row) after s a h = ground arith
  finish_insert-id event event_id (err e) after s a h =
      elim (Option-cases (get_event event_id after)) [
        | inl missing ↦ absurd (ground arith)
        | inr (row, found) ↦ (duplicate_of-id row event_id after s a (ground arith)).0
      ]

  process_request-known :
      (now : ℕ) (request : Request) (ledger : Ledger) (s : S) (payload : Fields)
      (event : ServiceMessageEvent) (event_id : Text) (row : EventRecord)
      → check_request lib config request ≡ ok (payload, event, event_id)
      → get_event event_id ledger ≡ some row
      → process_request lib config on_event others now request ledger s
        ≡ duplicate_of lib config on_event others row event_id ledger s
  unfolding process_request
  process_request-known now request ledger s payload event event_id row e found =
      rw (e, process_request) (rw found)

  process_request-refused :
      (now : ℕ) (request : Request) (ledger : Ledger) (s : S) (e : Failure)
      → check_request lib config request ≡ err e
      → process_request lib config on_event others now request ledger s ≡ (err e, ledger, s)
  unfolding process_request
  process_request-refused now request ledger s e h = rw (h, process_request)

  duplicate_of-ledger :
      (row : EventRecord) (event_id : Text) (ledger : Ledger) (s : S)
      → (duplicate_of lib config on_event others row event_id ledger s).1 ≡ ledger
  unfolding duplicate_of
  duplicate_of-ledger row event_id ledger s = refl

  module _ (now : ℕ) (request : Request) (ledger : Ledger) (s : S) (v : IsValid ledger) where
    abbrev outcome : Result Failure Accepted × Ledger × S
    outcome = process_request lib config on_event others now request ledger s

    -- Where the checks pass, the ledger holds the event afterwards, whatever the receiver answered,
    -- and whatever other tasks inserted between the look-up and the insertion.
    process_request-Holds :
        (payload : Fields) (event : ServiceMessageEvent) (event_id : Text)
        → check_request lib config request ≡ ok (payload, event, event_id)
        → IsValid outcome.1 × Holds event_id outcome.1
    unfolding process_request duplicate_of
    process_request-Holds payload event event_id e =
        elim (Option-cases (get_event event_id ledger)) [
          | inl new ↦
              rw (e, process_request)
                (rw new (insert_event-Holds now payload event event_id ledger s v))
          | inr (row, found) ↦ rw (e, process_request) (rw found (v, (row, found)))
        ]

    process_request-id :
        (payload : Fields) (event : ServiceMessageEvent) (event_id : Text) (a : Accepted)
        → check_request lib config request ≡ ok (payload, event, event_id)
        → outcome.0 ≡ ok a
        → a.event_id ≡ event_id
    unfolding process_request insert_event
    process_request-id payload event event_id a e h =
        elim (Option-cases (get_event event_id ledger)) [
          | inl new ↦
              let known = (ensure_actor now (service_actor lib event) ledger).1 in
              let (inserted, after) =
                append_event [] now (service_record lib config payload event event_id)
                  (others known) in
              finish_insert-id event event_id inserted after s a (ground arith)
          | inr (row, found) ↦ (duplicate_of-id row event_id ledger s a (ground arith)).0
        ]

    -- A request answered with 202 leaves a well-formed ledger that holds the event whose id is in
    -- the answer, also if another task inserted it between the look-up and the insertion, provided
    -- that the ledger was well-formed and other tasks keep it so.
    pub accepted-Holds :
        (a : Accepted) → outcome.0 ≡ ok a → IsValid outcome.1 × Holds a.event_id outcome.1
    accepted-Holds a h = by_check (check_request lib config request) refl
      where
        by_check :
            (c : Result Failure (Fields × ServiceMessageEvent × Text))
            → check_request lib config request ≡ c
            → IsValid outcome.1 × Holds a.event_id outcome.1
        by_check (err e) k =
            absurd (ground (arith, process_request-refused now request ledger s e k))
        by_check (ok (payload, event, event_id)) k =
            rw (process_request-id payload event event_id a k h)
              (process_request-Holds payload event event_id k)

    -- On a well-formed ledger that other tasks keep well-formed, sending a request a second time
    -- leaves the ledger as the first left it, and an answer to the second one is a duplicate.
    pub process_request_again :
        (later : ℕ) (s' : S)
        → let again = process_request lib config on_event others later request outcome.1 s' in
          (again.1 ≡ outcome.1) × Repeats again.0
    process_request_again later s' = by_check (check_request lib config request) refl
      where
        by_check :
            (c : Result Failure (Fields × ServiceMessageEvent × Text))
            → check_request lib config request ≡ c
            → let again = process_request lib config on_event others later request outcome.1 s' in
              (again.1 ≡ outcome.1) × Repeats again.0
        by_check (err e) k =
            let same : outcome.1 ≡ ledger =
              ap (λ (o : Result Failure Accepted × Ledger × S). o.1)
                (process_request-refused now request ledger s e k) in
            rw (process_request-refused later request outcome.1 s' e k) (refl, tt)
        by_check (ok (payload, event, event_id)) k =
            let (valid, (row, found)) = process_request-Holds payload event event_id k in
            rw (process_request-known later request outcome.1 s' payload event event_id row k found)
              (
                duplicate_of-ledger row event_id outcome.1 s',
                Repeats-ok (duplicate_of lib config on_event others row event_id outcome.1 s').0
                    (λ a h. (duplicate_of-id row event_id outcome.1 s' a h).1),
              )
