-- ===== src/Tests/ToolTests.antt =====
-- The note tools on one note.
use mutsumi_s_sync.Common.{◌≡◌, refl, [], codes, text_eq}
use mutsumi_s_sync.Json.{Fields, str, field, end}
use mutsumi_s_sync.Store.Table.{no_rows}
use mutsumi_s_sync.Store.Messages.{Messages, self_note, priority_override, add_note, current_of}
use mutsumi_s_sync.Tools.{Moment, self_note_tool, priority_override_tool}
use mutsumi_s_sync.Tools.Isolation.{note_tools-apart}

abbrev moment : Moment
moment = record {
  stamp = codes "2026-01-02T00:00:00+08:00";
  today = codes "2026-01-02";
  now = 6;
  others = λ t. t;
}

abbrev notes : Messages
notes = add_note self_note (codes "2026-01-01") 5 (codes "private:1") (codes "old") no_rows

abbrev arguments : Fields
arguments = field (codes "content") (str (codes "likes tea")) end

note_tools-apart_example :
    (current_of priority_override
        (codes "private:1")
        (self_note_tool moment arguments (codes "private:1") notes).1
      ≡ current_of priority_override (codes "private:1") notes)
    × (current_of self_note
          (codes "private:1")
          (priority_override_tool (λ j. []) moment arguments (codes "private:1") notes).1
        ≡ current_of self_note (codes "private:1") notes)
unfolding text_eq
note_tools-apart_example =
    note_tools-apart moment (λ j. []) arguments notes (codes "private:1") (codes "private:1")
      priority_override self_note (λ c t. refl) refl refl
