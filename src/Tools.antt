-- ===== src/Tools.antt =====
-- The note tools (archive/v3/src/mutsumi_sync/tools/self_note.py and priority_override.py), and the
-- stamp of an entry (memory/timestamps.py).
-- `str` of a JSON value that is not a text is a parameter, and so is what other tasks do to the
-- table between the reading of a note and the writing of the next one.
pub mod Isolation
use mutsumi_s_sync.Common.{
  ℕ, ◌==◌, true, false, not, ◌&&◌, ◌||◌, Bool, Option, none, some, [], ◌∷◌, ◌++◌, if◌then◌else◌,
  Text, codes, text_eq, strip, is_empty, starts_with, find, contains, slice, leb,
}
use mutsumi_s_sync.Json.{Json, str, Fields, get_field, as_str}
use mutsumi_s_sync.Store.Messages.{
  StoredMessage, Messages, get_current_self_note, upsert_self_note, get_current_priority_override,
  upsert_priority_override,
}
use mathlib.Core.List.{reverse}

unknown_time : Text
unknown_time = 0x5f88 ∷ 0x4e45 ∷ 0x4e4b ∷ 0x524d ∷ []

-- The characters that end a line for `str.splitlines`.
is_line_end : ℕ → Bool
is_line_end c =
    leb 10 c && leb c 13 || leb 28 c && leb c 30 || c == 0x85 || c == 0x2028 || c == 0x2029

-- `text.splitlines()[0]` of a text that is not empty
first_line : Text → Text
unfolding is_line_end
first_line [] = []
first_line (c ∷ t) = let rest = first_line t in if is_line_end c then [] else c ∷ rest

unfoldable pub has_timestamp_prefix : Text → Bool
unfolding unknown_time starts_with
has_timestamp_prefix line =
    let stripped = strip line in
    let stamped : ℕ → Bool = λ closing.
      let stamp = slice stripped 1 closing in
      text_eq stamp unknown_time
      || contains (codes "+08:00") stamp
      || starts_with (reverse stamp) (codes "Z") in
    starts_with stripped (codes "[") && elim (find (codes "]") stripped) [
      | none ↦ false
      | some closing ↦ not (leb closing 1) && stamped closing
    ]

-- `stamp` is the text of the current time.
unfoldable pub timestamp_memory_entry : Text → Text → Text
unfolding first_line has_timestamp_prefix
timestamp_memory_entry stamp content =
    let text = strip content in
    if is_empty text
    then []
    else if has_timestamp_prefix (first_line text)
    then text
    else codes "[" ++ (stamp ++ (codes "] " ++ text))

-- What a tool answers. `raised` is the AttributeError of `strip` on what is not a text.
pub data NoteReply : Type 0 where
  updated cleared content_required raised : NoteReply
  unknown_action : Json → NoteReply

unfoldable pub get_or : Text → Text → Fields → Json
get_or key default args = elim (get_field key args) [ none ↦ str default | some v ↦ v ]

unfoldable pub is_word : Text → Json → Bool
is_word word j = elim (as_str j) [ none ↦ false | some t ↦ text_eq t word ]

-- The clock, and the table between a read and a write.
pub record Moment : Type 0 where
  pub stamp : Text
  pub today : Text
  pub now : ℕ
  pub others : Messages → Messages

unfoldable pub joined_self : Option StoredMessage → Text → Text
joined_self none entry = entry
joined_self (some note) entry = note.content ++ (codes "\n" ++ entry)

unfoldable pub store_self_note : Moment → Json → Text → Text → Messages → NoteReply × Messages
unfolding is_word joined_self
store_self_note m action content group_key t =
    let entry = timestamp_memory_entry m.stamp content in
    if is_word (codes "add") action
    then (
      updated,
      upsert_self_note m.today m.now group_key
          (joined_self (get_current_self_note group_key t) entry) (m.others t),
    )
    else (updated, upsert_self_note m.today m.now group_key entry t)

unfoldable pub self_note_tool : Moment → Fields → Text → Messages → NoteReply × Messages
unfolding get_or is_word
self_note_tool m args group_key t =
    let action = get_or (codes "action") (codes "add") args in
    elim (as_str (get_or (codes "content") [] args)) [
      | none ↦ (raised, t)
      | some content ↦
          if is_empty (strip content)
          then (content_required, t)
          else if not (is_word (codes "add") action || is_word (codes "replace") action)
          then (unknown_action action, t)
          else store_self_note m action content group_key t
    ]

joined_override : Option StoredMessage → Text → Text
joined_override none entry = entry
joined_override (some note) entry =
    if is_empty note.content then entry else note.content ++ (codes "\n" ++ entry)

unfoldable pub store_priority_override :
    Moment → Json → Text → Text → Messages → NoteReply × Messages
unfolding is_word joined_override
store_priority_override m action content group_key t =
    let entry = timestamp_memory_entry m.stamp content in
    if is_word (codes "clear") action
    then (cleared, upsert_priority_override m.today m.now group_key [] t)
    else if is_word (codes "add") action
    then (
      updated,
      upsert_priority_override m.today m.now group_key
          (joined_override (get_current_priority_override group_key t) entry) (m.others t),
    )
    else (updated, upsert_priority_override m.today m.now group_key entry t)

-- `str(content)`
text_of : (Json → Text) → Json → Text
text_of str_of j = elim (as_str j) [ none ↦ str_of j | some t ↦ t ]

unfoldable pub priority_override_tool :
    (Json → Text) → Moment → Fields → Text → Messages → NoteReply × Messages
unfolding get_or is_word text_of
priority_override_tool str_of m args group_key t =
    let action = get_or (codes "action") (codes "add") args in
    let content = text_of str_of (get_or (codes "content") [] args) in
    if not (
      is_word (codes "add") action
      || is_word (codes "replace") action
      || is_word (codes "clear") action)
    then (unknown_action action, t)
    else if not (is_word (codes "clear") action) && is_empty (strip content)
    then (content_required, t)
    else store_priority_override m action content group_key t
