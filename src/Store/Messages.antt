-- ===== src/Store/Messages.antt =====
-- The table `messages`, and the notes that are kept in it.
pub mod Notes
use mutsumi_s_sync.Common.{
  ℕ, zero, suc, ◌+◌, ◌-◌, ◌==◌, Bool, true, false, not, ◌&&◌, ◌||◌, Option, none, some, List, [],
  ◌∷◌, ◌++◌, map,
}
use mutsumi_s_sync.Common.{
  Text, codes, text_eq, strip, is_empty, any, ltb, leb, take, drop, length, filter, if◌then◌else◌,
}
use mutsumi_s_sync.Json.{Json, Fields, get_field, as_str, as_obj}
use mutsumi_s_sync.Store.Table.{Table, insert, update, newest}
use mathlib.Core.List.{reverse}

pub record StoredMessage : Type 0 where
  pub date : Text
  pub group_key : Text
  pub category : Text
  pub content : Text
  pub id : ℕ
  pub created_at : ℕ

abbrev pub Messages : Type 0
Messages = Table StoredMessage

unfoldable pub save : ℕ → StoredMessage → Messages → ℕ × Messages
save now msg t = insert (λ n. record msg { id = n; created_at = now }) t

-- The order of SQLite's `TEXT`, which is that of the code points.
text_leb : Text → Text → Bool
text_leb [] t = true
text_leb (x ∷ s) [] = false
text_leb (x ∷ s) (y ∷ t) = let rest = text_leb s t in if x == y then rest else ltb x y

abbrev when_given : Option Text → (Text → Bool) → Bool
when_given none test = true
when_given (some x) test = test x

unfoldable pub get_messages :
    Option Text → Option Text → Option Text → Option Text → ℕ → ℕ → Messages → List StoredMessage
unfolding text_leb
get_messages group_key date_from date_to category limit offset t =
    let chosen : StoredMessage → Bool = λ m.
      when_given group_key (λ g. text_eq m.group_key g)
      && when_given date_from (λ d. text_leb d m.date)
      && when_given date_to (λ d. text_leb m.date d)
      && when_given category (λ c. text_eq m.category c) in
    take limit (drop offset (reverse (filter chosen t.rows)))

unfoldable pub get_context_for_group : Text → ℕ → Messages → List StoredMessage
unfolding get_messages
get_context_for_group group_key limit t = get_messages (some group_key) none none none limit 0 t

unfoldable pub count : Option Text → Messages → ℕ
count group_key t = length (
    filter
      (λ m. elim group_key [
        | none ↦ true
        | some g ↦ if is_empty g then true else text_eq m.group_key g
      ])
      t.rows)

unfoldable pub update_message_content : ℕ → Text → Messages → Messages
update_message_content msg_id content t =
    update (λ m. m.id == msg_id) (λ m. record m { content = content }) t

unfoldable pub get_messages_by_ids : List ℕ → Messages → List StoredMessage
get_messages_by_ids ids t = filter (λ m. any (λ n. n == m.id) ids) t.rows

unfoldable pub get_messages_after : Text → ℕ → ℕ → Messages → List StoredMessage
get_messages_after group_key after_id limit t =
    take limit (filter (λ m. text_eq m.group_key group_key && ltb after_id m.id) t.rows)

max_id : List StoredMessage → ℕ
max_id [] = 0
max_id (m ∷ ms) = let rest = max_id ms in if leb rest m.id then m.id else rest

unfoldable pub get_max_message_id : Text → Messages → ℕ
unfolding max_id
get_max_message_id group_key t = max_id (filter (λ m. text_eq m.group_key group_key) t.rows)

-- `json.loads(row["content"])` is `decode`, and `str` of a JSON value is `to_str`.
field_text : (Json → Text) → Text → Fields → Text
unfolding get_field
field_text to_str key fields = elim (get_field key fields) [
  | none ↦ []
  | some value ↦ strip (to_str value)
]

is_responded : Fields → Bool
unfolding get_field
is_responded fields = elim (get_field (codes "status") fields) [
  | none ↦ false
  | some value ↦ elim (as_str value) [ none ↦ false | some t ↦ text_eq t (codes "responded") ]
]

unfoldable pub is_restorable : (Text → Option Json) → (Json → Text) → StoredMessage → Bool
unfolding is_responded field_text
is_restorable decode to_str m = elim (decode m.content) [
  | none ↦ false
  | some value ↦ elim (as_obj value) [
    | none ↦ false
    | some fields ↦
        is_responded fields
        && (not (is_empty (field_text to_str (codes "user") fields))
            || not (is_empty (field_text to_str (codes "bot") fields)))
  ]
]

abbrev restorable_categories : List Text
restorable_categories =
    codes "short_text"
    ∷ codes "long_text"
    ∷ codes "image"
    ∷ codes "text"
    ∷ codes "mixed"
    ∷ codes "proactive"
    ∷ []

-- The loop stops behind the row that fills the limit, so that a limit of 0 still takes one.
take_rows : (StoredMessage → Bool) → ℕ → List StoredMessage → List StoredMessage
take_rows test left [] = []
take_rows test left (m ∷ ms) =
    let more = take_rows test (left - 1) ms in
    let same = take_rows test left ms in
    if test m then (if leb left 1 then m ∷ [] else m ∷ more) else same

unfoldable pub get_restorable_messages :
    (Text → Option Json) → (Json → Text) → Text → ℕ → ℕ → Messages → List StoredMessage
unfolding take_rows is_restorable
get_restorable_messages decode to_str group_key after_id limit t =
    let rows =
      filter
        (λ m.
          text_eq m.group_key group_key
          && ltb after_id m.id
          && any (λ c. text_eq c m.category) restorable_categories)
        t.rows in
    reverse (take_rows (is_restorable decode to_str) limit (reverse rows))

-- Notes: the newest message of a category is the current one.
abbrev pub first_of : List StoredMessage → Option StoredMessage
first_of [] = none
first_of (m ∷ ms) = some m

unfoldable pub current_of : Text → Text → Messages → Option StoredMessage
current_of category group_key t =
    first_of (newest (λ m. text_eq m.group_key group_key && text_eq m.category category) 1 t)

-- `today` is the date of the insertion.
unfoldable pub add_note : Text → Text → ℕ → Text → Text → Messages → Messages
add_note category today now group_key content t =
    (insert
      (λ n. record {
        date = today;
        group_key = group_key;
        category = category;
        content = content;
        id = n;
        created_at = now;
      })
      t).1

abbrev pub self_note : Text
self_note = codes "self_note"

abbrev pub priority_override : Text
priority_override = codes "priority_override"

abbrev pub get_current_self_note : Text → Messages → Option StoredMessage
get_current_self_note group_key t = current_of self_note group_key t

abbrev pub upsert_self_note : Text → ℕ → Text → Text → Messages → Messages
upsert_self_note today now group_key content t = add_note self_note today now group_key content t

abbrev pub get_current_priority_override : Text → Messages → Option StoredMessage
get_current_priority_override group_key t = current_of priority_override group_key t

abbrev pub upsert_priority_override : Text → ℕ → Text → Text → Messages → Messages
upsert_priority_override today now group_key content t =
    add_note priority_override today now group_key content t
