-- ===== src/Store/Messages/Notes.antt =====
-- A note that is written is the one that is read, and nobody else's note changes.
use mutsumi_s_sync.Common.{
  inl, inr, ℕ, ◌+◌, ◌≡◌, Bool, ◌&&◌, some, List, [], ◌∷◌, ◌++◌, arith, Bool-cases, filter,
  if◌then◌else◌,
}
use mutsumi_s_sync.Common.{Text, text_eq}
use mathlib.Core.List.{reverse-append}
use mutsumi_s_sync.Store.Messages.{StoredMessage, Messages, current_of, add_note}

filter-snoc :
    (test : StoredMessage → Bool) (ms : List StoredMessage) (m : StoredMessage)
    → filter test (ms ++ m ∷ []) ≡ (if test m then filter test ms ++ m ∷ [] else filter test ms)
filter-snoc test [] m = ground arith
filter-snoc test (x ∷ ms) m = ground (arith, filter-snoc test ms m)

abbrev pub note : Text → Text → ℕ → Text → Text → Messages → StoredMessage
note category today now group_key content t = record {
  date = today;
  group_key = group_key;
  category = category;
  content = content;
  id = t.last_id + 1;
  created_at = now;
}

-- Reading a note of any category and group after one was written gives the written one for its own
-- category and group, and for every other what was read before.
pub current_of-add_note :
    (category today : Text) (now : ℕ) (group_key content : Text) (t : Messages)
    (category' group_key' : Text)
    → current_of category' group_key' (add_note category today now group_key content t) ≡ (
        if text_eq group_key group_key' && text_eq category category'
        then some (note category today now group_key content t)
        else current_of category' group_key' t)
unfolding current_of add_note
current_of-add_note category today now group_key content t category' group_key' =
    let new = note category today now group_key content t in
    let test =
      λ (m : StoredMessage). text_eq m.group_key group_key' && text_eq m.category category' in
    elim (Bool-cases (text_eq group_key group_key' && text_eq category category')) [
      | inl e ↦
          rw (filter-snoc test t.rows new, e) (rw (reverse-append (filter test t.rows) (new ∷ [])))
      | inr e ↦ rw (filter-snoc test t.rows new, e)
    ]
