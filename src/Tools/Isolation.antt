-- ===== src/Tools/Isolation.antt =====
-- A note tool changes the note of its own conversation and category, and no other.
use mutsumi_s_sync.Common.{
  ◌≡◌, ◌∙◌, false, ◌&&◌, some, ◌++◌, Text, codes, text_eq, strip, is_empty, arith,
}
use mutsumi_s_sync.Json.{Json, str, Fields, get_field}
use mutsumi_s_sync.Store.Messages.{
  StoredMessage, Messages, current_of, add_note, self_note, priority_override,
}
use mutsumi_s_sync.Store.Messages.Notes.{current_of-add_note}
use mutsumi_s_sync.Tools.{
  Moment, get_or, is_word, joined_self, updated, timestamp_memory_entry, self_note_tool,
  store_self_note, priority_override_tool, store_priority_override,
}

module _ (m : Moment) (group_key category group : Text)
    (keeps : (t : Messages)
      → current_of category group (m.others t) ≡ current_of category group t) where
  -- A note that is written elsewhere.
  add_note-apart :
      (own content : Text) (t : Messages)
      → (text_eq group_key group && text_eq own category) ≡ false
      → current_of category group (add_note own m.today m.now group_key content t)
        ≡ current_of category group t
  add_note-apart own content t apart =
      current_of-add_note own m.today m.now group_key content t category group
      ∙ rw (apart) (λ i. current_of category group t)

  store_self_note-apart :
      (action : Json) (content : Text) (t : Messages)
      → (text_eq group_key group && text_eq self_note category) ≡ false
      → current_of category group (store_self_note m action content group_key t).1
        ≡ current_of category group t
  unfolding store_self_note
  store_self_note-apart action content t apart = grind (arith, add_note-apart self_note, keeps)

  pub self_note_tool-apart :
      (args : Fields) (t : Messages)
      → (text_eq group_key group && text_eq self_note category) ≡ false
      → current_of category group (self_note_tool m args group_key t).1
        ≡ current_of category group t
  unfolding self_note_tool
  self_note_tool-apart args t apart = grind (arith, store_self_note-apart)

  store_priority_override-apart :
      (action : Json) (content : Text) (t : Messages)
      → (text_eq group_key group && text_eq priority_override category) ≡ false
      → current_of category group (store_priority_override m action content group_key t).1
        ≡ current_of category group t
  unfolding store_priority_override
  store_priority_override-apart action content t apart =
      grind (arith, add_note-apart priority_override, keeps)

  pub priority_override_tool-apart :
      (str_of : Json → Text) (args : Fields) (t : Messages)
      → (text_eq group_key group && text_eq priority_override category) ≡ false
      → current_of category group (priority_override_tool str_of m args group_key t).1
        ≡ current_of category group t
  unfolding priority_override_tool
  priority_override_tool-apart str_of args t apart = grind (arith, store_priority_override-apart)

-- Whatever the arguments, and whether it answers with an error or not, the tool of the self note
-- leaves what is read as a note of any other conversation or category, and so does the tool of the
-- priority override, given that other tasks leave those notes alone between its read and its write.
pub note_tools-apart :
    (m : Moment) (str_of : Json → Text) (args : Fields) (t : Messages)
    (group_key group category category' : Text)
    → ((c : Text) (t' : Messages) → current_of c group (m.others t') ≡ current_of c group t')
    → (text_eq group_key group && text_eq self_note category) ≡ false
    → (text_eq group_key group && text_eq priority_override category') ≡ false
    → (current_of category group (self_note_tool m args group_key t).1
        ≡ current_of category group t)
      × (current_of category' group (priority_override_tool str_of m args group_key t).1
          ≡ current_of category' group t)
note_tools-apart m str_of args t group_key group category category' keeps apart apart' = (
  self_note_tool-apart m group_key category group (keeps category) args t apart,
  priority_override_tool-apart m group_key category' group (keeps category') str_of args t apart',
)

-- An addition of a text that is not blank keeps the note as it was when it was read, and puts the
-- stamped text on a line of its own behind it.
pub self_note_tool-adds :
    (m : Moment) (args : Fields) (content group_key : Text) (t : Messages) (old : StoredMessage)
    → get_field (codes "action") args ≡ some (str (codes "add"))
    → get_field (codes "content") args ≡ some (str content)
    → is_empty (strip content) ≡ false
    → current_of self_note group_key t ≡ some old
    → self_note_tool m args group_key t ≡ (
      updated,
      add_note self_note m.today m.now group_key
          (old.content ++ (codes "\n" ++ timestamp_memory_entry m.stamp content))
          (m.others t),
    )
unfolding self_note_tool store_self_note get_or is_word joined_self text_eq
self_note_tool-adds m args content group_key t old e f g h =
    rw (self_note_tool, f)
      (rw (g, get_or, e)
        (rw (store_self_note, h)
          (λ i. (
            updated,
            add_note self_note m.today m.now group_key
                (old.content ++ (codes "\n" ++ timestamp_memory_entry m.stamp content))
                (m.others t),
          ))))
