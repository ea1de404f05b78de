-- ===== src/Store/Journal.antt =====
-- The inner journal: what the bot notes for itself.
use mutsumi_s_sync.Common.{
  ℕ, ◌+◌, ◌≡◌, refl, Bool, true, false, inl, inr, Option, none, some, List, [], ◌∷◌, ◌++◌,
  Bool-cases,
}
use mutsumi_s_sync.Common.{
  Text, codes, text_eq, text_eq_refl, is_empty, words, join, leb, if◌then◌else◌,
}
use mathlib.Core.List.{reverse}
use mutsumi_s_sync.Store.Table.{Table, insert, newest}

pub record InnerJournalRecord : Type 0 where
  pub id : ℕ
  pub pipeline_id : Text
  pub source_conversation_id : Text
  pub source_actor_id : Text
  pub source_event_ids : List Text
  pub content : Text
  pub status : Text
  pub created_at : ℕ

-- The keyword arguments of `append_inner_journal`.
pub record JournalEntry : Type 0 where
  pub content : Text
  pub pipeline_id : Text
  pub source_conversation_id : Text
  pub source_actor_id : Text
  pub source_event_ids : List Text
  pub status : Text

abbrev pub Journal : Type 0
Journal = Table InnerJournalRecord

-- `" ".join(content.split())`
unfoldable pub normalized : Text → Text
unfolding words join
normalized content = join (codes " ") (words content)

-- `SELECT … ORDER BY id DESC LIMIT 1`
unfoldable pub latest : List InnerJournalRecord → Option InnerJournalRecord
latest [] = none
latest (r ∷ []) = some r
latest (r ∷ s ∷ rs) = latest (s ∷ rs)

abbrev pub repeats : Text → Option InnerJournalRecord → Bool
repeats content none = false
repeats content (some r) = text_eq (normalized r.content) (normalized content)

abbrev pub journal_row : ℕ → JournalEntry → ℕ → InnerJournalRecord
journal_row now entry n = record {
  id = n;
  pipeline_id = entry.pipeline_id;
  source_conversation_id = entry.source_conversation_id;
  source_actor_id = entry.source_actor_id;
  source_event_ids = entry.source_event_ids;
  content = entry.content;
  status = entry.status;
  created_at = now;
}

unfoldable pub append_inner_journal : ℕ → JournalEntry → Journal → Option ℕ × Journal
unfolding latest normalized
append_inner_journal now entry t =
    if is_empty (normalized entry.content)
    then (none, t)
    else if repeats entry.content (latest t.rows)
    then (none, t)
    else let (id, after) = insert (journal_row now entry) t in (some id, after)

unfoldable pub get_inner_journal : ℕ → Journal → List InnerJournalRecord
get_inner_journal limit t =
    reverse
      (newest (λ r. text_eq r.status (codes "finalized")) (if leb limit 1 then 1 else limit) t)

latest-snoc :
    (rs : List InnerJournalRecord) (r : InnerJournalRecord) → latest (rs ++ r ∷ []) ≡ some r
unfolding latest
latest-snoc [] r = refl
latest-snoc (x ∷ []) r = refl
latest-snoc (x ∷ y ∷ rs) r = latest-snoc (y ∷ rs) r

-- Neighbours in the journal differ by more than white space, and no entry is blank.
abbrev pub Varied : List InnerJournalRecord → Type 0
Varied [] = Unit
Varied (r ∷ []) = is_empty (normalized r.content) ≡ false
Varied (r ∷ s ∷ rs) =
    (is_empty (normalized r.content) ≡ false)
    × (text_eq (normalized r.content) (normalized s.content) ≡ false)
    × Varied (s ∷ rs)

Varied-snoc :
    (rs : List InnerJournalRecord) (r : InnerJournalRecord)
    → Varied rs
    → is_empty (normalized r.content) ≡ false
    → repeats r.content (latest rs) ≡ false
    → Varied (rs ++ r ∷ [])
unfolding latest
Varied-snoc [] r v blank new = blank
Varied-snoc (x ∷ []) r v blank new = (v, new, blank)
Varied-snoc (x ∷ y ∷ rs) r v blank new = (v.0, v.1, Varied-snoc (y ∷ rs) r v.2 blank new)

-- If no entry of the journal is blank and none repeats the one before it up to white space, that is
-- still so after an append.
pub append_inner_journal-Varied :
    (now : ℕ) (entry : JournalEntry) (t : Journal)
    → Varied t.rows
    → Varied (append_inner_journal now entry t).1.rows
unfolding append_inner_journal
append_inner_journal-Varied now entry t v =
    elim (Bool-cases (is_empty (normalized entry.content))) [
      | inl e ↦ rw e v
      | inr e ↦ elim (Bool-cases (repeats entry.content (latest t.rows))) [
        | inl d ↦ rw (e, d) v
        | inr d ↦ rw (e, d) (Varied-snoc t.rows (journal_row now entry (t.last_id + 1)) v e d)
      ]
    ]

append_inner_journal-skips :
    (now : ℕ) (entry : JournalEntry) (t : Journal)
    → repeats entry.content (latest t.rows) ≡ true
    → append_inner_journal now entry t ≡ (none, t)
unfolding append_inner_journal
append_inner_journal-skips now entry t d = elim (Bool-cases (is_empty (normalized entry.content))) [
  | inl e ↦ rw e
  | inr e ↦ rw (e, d)
]

append_inner_journal-adds :
    (now : ℕ) (entry : JournalEntry) (t : Journal)
    → is_empty (normalized entry.content) ≡ false
    → repeats entry.content (latest t.rows) ≡ false
    → append_inner_journal now entry t
      ≡ (some (t.last_id + 1), (insert (journal_row now entry) t).1)
unfolding append_inner_journal
append_inner_journal-adds now entry t e d = rw (e, d)

append_inner_journal-blank :
    (now : ℕ) (entry : JournalEntry) (t : Journal)
    → is_empty (normalized entry.content) ≡ true
    → append_inner_journal now entry t ≡ (none, t)
unfolding append_inner_journal
append_inner_journal-blank now entry t e = rw e

repeats-same :
    (c d : Text) (o : Option InnerJournalRecord)
    → normalized c ≡ normalized d
    → repeats c o ≡ repeats d o
repeats-same c d none e = refl
repeats-same c d (some r) e = rw e

-- Appending the same text again right afterwards appends nothing, and says so.
pub append_inner_journal_again :
    (now later : ℕ) (entry again : JournalEntry) (t : Journal)
    → normalized again.content ≡ normalized entry.content
    → append_inner_journal later again (append_inner_journal now entry t).1
      ≡ (none, (append_inner_journal now entry t).1)
append_inner_journal_again now later entry again t same =
    elim (Bool-cases (is_empty (normalized entry.content))) [
      | inl e ↦
          rw (append_inner_journal-blank now entry t e)
            (append_inner_journal-blank later again t (rw same e))
      | inr e ↦ elim (Bool-cases (repeats entry.content (latest t.rows))) [
        | inl d ↦ rw (append_inner_journal-skips now entry t d) (
            append_inner_journal-skips later again t
              (rw (repeats-same again.content entry.content (latest t.rows) same) d))
        | inr d ↦
            let row = journal_row now entry (t.last_id + 1) in
            rw (append_inner_journal-adds now entry t e d) (
              append_inner_journal-skips later again (insert (journal_row now entry) t).1
                (rw (latest-snoc t.rows row) (rw same (text_eq_refl (normalized entry.content)))))
      ]
    ]
