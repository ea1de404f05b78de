-- ===== src/Prototype/Tasks/Publishing.antt =====
-- The end of `_publish_reply` of archive/v3/src/mutsumi_sync/prototype/runtime.py: the messages are
-- sent in their order, and only then are the note and the results of the turn settled. What a send
-- does, with what happens meanwhile, is a parameter.
use mutsumi_s_sync.Common.{
  ℕ, suc, Bool, true, false, not, ◌&&◌, List, [], ◌∷◌, ◌≡◌, refl, ◌⊎◌, inl, inr, arith, sym, subst,
}
use mutsumi_s_sync.Common.{Text, codes, is_empty, map, if◌then◌else◌, Result, ok, err, All}
use mutsumi_s_sync.Jobs.{BackgroundJob, JobRow, JobError, update_job}
use mutsumi_s_sync.Jobs.Settling.{
  mark_fields, IsDelivered, mark_fields-IsDelivered, mark_fields_lem,
}
use mutsumi_s_sync.Store.Journal.{JournalEntry, Journal, append_inner_journal}
use mutsumi_s_sync.Prototype.Chat.{Turn, Chat, Input, with_turn}
use mutsumi_s_sync.Prototype.Protocol.{Reply}

-- `update_job(job_id, delivered=True)` for each, up to the first exception
unfoldable pub mark_delivered : List Text → List JobRow → Result JobError (Unit {0}) × List JobRow
mark_delivered [] rows = (ok tt, rows)
mark_delivered (id ∷ ids) rows =
    let changed = update_job id mark_fields rows in
    let rest = mark_delivered ids changed.1 in
    elim changed.0 [ err e ↦ (err e, changed.1) | ok job ↦ rest ]

abbrev pub event_id_of : Input → Text
event_id_of i = i.event_id

-- What `append_inner_journal` is called with; `turn_id` is the `uuid4` of the turn.
abbrev pub self_note : Text → Text → Text → Turn → JournalEntry
self_note conversation turn_id text turn = record {
  content = text;
  pipeline_id = turn_id;
  source_conversation_id = conversation;
  source_actor_id = turn.actor_id;
  source_event_ids = map event_id_of turn.inputs;
  status = codes "finalized";
}

-- What follows when every message was sent.
unfoldable pub settle_reply :
    ℕ → Text → Text → ℕ → Reply → Chat → Journal → Result JobError (Unit {0}) × Chat × Journal
unfolding mark_delivered
settle_reply now conversation turn_id t reply d journal =
    let note = self_note conversation turn_id reply.to_self (d.turns t) in
    let kept =
      if is_empty reply.to_self then journal else (append_inner_journal now note journal).1 in
    let ids = if is_empty reply.messages then [] else (d.turns t).result_jobs in
    let marked = mark_delivered ids d.jobs in (marked.0, record d { jobs = marked.1 }, kept)

module _ (send : ℕ → Text → Chat → Bool × Chat) where
  -- The loop over the messages, up to the first that is not sent.
  unfoldable pub send_all : ℕ → List Text → Chat → Bool × Chat
  send_all index [] c = (true, c)
  send_all index (text ∷ texts) c =
      let sent = send index text c in
      let rest = send_all (suc index) texts sent.1 in
      elim sent.0 [ true ↦ rest | false ↦ (false, sent.1) ]

  abbrev fail_send : ℕ → Bool → Chat → Chat
  fail_send t true c = c
  fail_send t false c = with_turn t (record (c.turns t) { send_failed = true }) c

  -- The part of `_publish_reply` that follows the record of the reply.
  unfoldable pub publish_messages :
      ℕ → Text → Text → ℕ → Reply → Chat → Journal → Result JobError (Unit {0}) × Chat × Journal
  unfolding send_all settle_reply
  publish_messages now conversation turn_id t reply c journal =
      let sent = send_all 0 reply.messages c in
      let d = fail_send t sent.0 sent.1 in
      if sent.0 && not (d.turns t).superseded
      then settle_reply now conversation turn_id t reply d journal
      else (ok tt, d, journal)

  -- If a message of a reply is not sent, or the turn is superseded meanwhile, no job is marked
  -- delivered and no note is kept beyond what the sends did.
  pub publish_messages-kept :
      (now : ℕ) (conversation turn_id : Text) (t : ℕ) (reply : Reply) (c : Chat) (journal : Journal)
      → let sent = send_all 0 reply.messages c in
        (sent.0 ≡ false) ⊎ ((sent.1.turns t).superseded ≡ true)
        → let r = publish_messages now conversation turn_id t reply c journal in
          (r.0 ≡ ok tt) × (r.1.jobs ≡ sent.1.jobs) × (r.2 ≡ journal)
  unfolding publish_messages
  publish_messages-kept now conversation turn_id t reply c journal (inl e) =
      (ground arith, ground arith, ground arith)
  publish_messages-kept now conversation turn_id t reply c journal (inr e) =
      (ground arith, ground arith, ground arith)

mark_delivered-IsDelivered :
    (ids : List Text) (other : Text) (rows : List JobRow)
    → IsDelivered rows other
    → IsDelivered (mark_delivered ids rows).1 other
unfolding mark_delivered
mark_delivered-IsDelivered [] other rows h = h
mark_delivered-IsDelivered (id ∷ ids) other rows h =
    by_update (update_job id mark_fields rows).0 refl
      (mark_delivered-IsDelivered ids other (update_job id mark_fields rows).1)
  where
    kept : IsDelivered (update_job id mark_fields rows).1 other
    kept = mark_fields-IsDelivered id other rows h

    by_update :
        (r : Result JobError BackgroundJob)
        → (update_job id mark_fields rows).0 ≡ r
        → (IsDelivered (update_job id mark_fields rows).1 other
            → IsDelivered (mark_delivered ids (update_job id mark_fields rows).1).1 other)
        → IsDelivered (mark_delivered (id ∷ ids) rows).1 other
    by_update (err x) e ih = rw (e, mark_delivered) kept
    by_update (ok job) e ih = rw (e, mark_delivered) (ih kept)

mark_delivered-All :
    (ids : List Text) (rows : List JobRow)
    → (mark_delivered ids rows).0 ≡ ok tt
    → All (λ id. IsDelivered (mark_delivered ids rows).1 id) ids
unfolding mark_delivered
mark_delivered-All [] rows h = tt
mark_delivered-All (id ∷ ids) rows h =
    by_update (update_job id mark_fields rows).0 refl (mark_delivered-All ids after)
  where
    after : List JobRow
    after = (update_job id mark_fields rows).1

    by_update :
        (r : Result JobError BackgroundJob)
        → (update_job id mark_fields rows).0 ≡ r
        → ((mark_delivered ids after).0 ≡ ok tt
            → All (λ x. IsDelivered (mark_delivered ids after).1 x) ids)
        → All (λ x. IsDelivered (mark_delivered (id ∷ ids) rows).1 x) (id ∷ ids)
    by_update (err x) e ih = absurd (ground arith)
    by_update (ok job) e ih =
        let same : (mark_delivered (id ∷ ids) rows).1 ≡ (mark_delivered ids after).1 =
          ground arith in
        let rest : (mark_delivered ids after).0 ≡ ok tt = ground arith in
        subst (λ r. All (λ x. IsDelivered r x) (id ∷ ids)) (sym same)
          (mark_delivered-IsDelivered ids id after (mark_fields_lem id rows job e), ih rest)

module _ (send : ℕ → Text → Chat → Bool × Chat) where
  -- If every message of a reply that has messages is sent, the turn is not superseded meanwhile and
  -- no update raises, every job result of the turn is marked delivered.
  pub publish_messages-IsDelivered :
      (now : ℕ) (conversation turn_id : Text) (t : ℕ) (reply : Reply) (c : Chat) (journal : Journal)
      → let sent = send_all send 0 reply.messages c in
        let r = publish_messages send now conversation turn_id t reply c journal in
        sent.0 ≡ true
        → (sent.1.turns t).superseded ≡ false
        → is_empty reply.messages ≡ false
        → r.0 ≡ ok tt
        → All (λ id. IsDelivered r.1.jobs id) (sent.1.turns t).result_jobs
  unfolding publish_messages
  publish_messages-IsDelivered now conversation turn_id t reply c journal all_sent current some_sent
        done =
      let sent = send_all send 0 reply.messages c in
      let r = publish_messages send now conversation turn_id t reply c journal in
      let ids = (sent.1.turns t).result_jobs in
      let marked : (mark_delivered ids sent.1.jobs).0 ≡ ok tt = ground arith in
      let stored : r.1.jobs ≡ (mark_delivered ids sent.1.jobs).1 = ground arith in
      subst (λ rows. All (λ id. IsDelivered rows id) ids) (sym stored)
        (mark_delivered-All ids sent.1.jobs marked)
