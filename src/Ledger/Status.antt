-- ===== src/Ledger/Status.antt =====
-- A status update changes its own event alone, and keeps the table well formed.
use mutsumi_s_sync.Common.{
  ℕ, ◌≤◌, ◌≡◌, refl, Option, none, some, List, [], ◌∷◌, arith, if◌then◌else◌,
}
use mutsumi_s_sync.Common.{Text, All, text_eq, text_eq_iff}
use mutsumi_s_sync.Ledger.{
  EventRecord, Ledger, find_event, get_event, set_status, update_event_status,
}
use mutsumi_s_sync.Ledger.Invariant.{IsValid, Ordered, Distinct}

-- What the `UPDATE` does to a row.
abbrev pub with_status : Text → Option Text → EventRecord → EventRecord
with_status status none e = record e { status = status }
with_status status (some text) e = record e { status = status; content = text }

abbrev pub map_some : (EventRecord → EventRecord) → Option EventRecord → Option EventRecord
map_some f none = none
map_some f (some e) = some (f e)

module _ (event_id status : Text) where
  set_status-find :
      (content : Option Text) (id : Text) (es : List EventRecord)
      → find_event id (set_status event_id status content es)
        ≡ map_some
            (λ e. if text_eq event_id id then with_status status content e else e)
            (find_event id es)
  unfolding find_event set_status
  set_status-find none id [] = refl
  set_status-find none id (e ∷ es) = ground (
    arith,
    set_status-find none id es,
    text_eq_iff e.event_id event_id,
    text_eq_iff e.event_id id,
    text_eq_iff event_id id,
  )
  set_status-find (some text) id [] = refl
  set_status-find (some text) id (e ∷ es) = ground (
    arith,
    set_status-find (some text) id es,
    text_eq_iff e.event_id event_id,
    text_eq_iff e.event_id id,
    text_eq_iff event_id id,
  )

  -- After a status update, a look-up under the updated id gives the row with the new status, and
  -- its new content if one is given; under every other id it gives what it gave before.
  pub get_event-update_event_status :
      (content : Option Text) (id : Text) (ledger : Ledger)
      → get_event id (update_event_status event_id status content ledger)
        ≡ map_some
            (λ e. if text_eq event_id id then with_status status content e else e)
            (get_event id ledger)
  unfolding get_event update_event_status
  get_event-update_event_status content id ledger = set_status-find content id ledger.events

  set_status-Ordered :
      (content : Option Text) (low : ℕ) (es : List EventRecord)
      → Ordered low es
      → Ordered low (set_status event_id status content es)
  unfolding set_status
  set_status-Ordered content low [] o = tt
  set_status-Ordered content low (e ∷ es) o =
      ground (arith, set_status-Ordered content e.sequence es o.1)

  set_status-bounded :
      (content : Option Text) (n : ℕ) (es : List EventRecord)
      → All (λ e. e.sequence ≤ n) es
      → All (λ e. e.sequence ≤ n) (set_status event_id status content es)
  unfolding set_status
  set_status-bounded content n [] b = tt
  set_status-bounded content n (e ∷ es) b = ground (arith, set_status-bounded content n es b.1)

  set_status-Distinct :
      (content : Option Text) (es : List EventRecord)
      → Distinct es
      → Distinct (set_status event_id status content es)
  unfolding set_status
  set_status-Distinct content [] d = tt
  set_status-Distinct content (e ∷ es) d =
      ground (arith, set_status-Distinct content es d.1, set_status-find content e.event_id es, d.0)

  -- A status update keeps a well-formed ledger well-formed.
  pub update_event_status-IsValid :
      (content : Option Text) (ledger : Ledger)
      → IsValid ledger
      → IsValid (update_event_status event_id status content ledger)
  unfolding update_event_status
  update_event_status-IsValid content ledger v = record {
    ordered = set_status-Ordered content 0 ledger.events v.ordered;
    bounded = set_status-bounded content ledger.last_sequence ledger.events v.bounded;
    distinct = set_status-Distinct content ledger.events v.distinct;
  }
