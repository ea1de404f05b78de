-- ===== src/Tests/PipelineTests.antt =====
-- The pipeline's compaction and its action ledger on small inputs.
use mutsumi_s_sync.Common.{ℕ, true, none, some, Option, Bool, List, [], ◌∷◌, ◌++◌, Text, codes}
use mutsumi_s_sync.Json.{Json, str, obj, field, end}
use mutsumi_s_sync.Pipeline.Compaction.{WindowItem, MessageWindow, compact_context}
use mutsumi_s_sync.Pipeline.Compaction.Planning.{IsCompacted, compact_context_lem}
use mutsumi_s_sync.Pipeline.Sanitizing.{sanitize, IsRedacted, sanitize-IsRedacted}

abbrev item : Text → Option ℕ → WindowItem
item text record_id = record {
  role = codes "user";
  content = text;
  user_id = codes "u1";
  actor_name = [];
  created_at = 3;
  record_id = record_id;
}

abbrev window : MessageWindow
window = record {
  window = item (codes "a long old text") (some 4) ∷ item (codes "new") (some 5) ∷ [];
  coverage_trusted = true;
}

-- The summary is saved, and another task adds an item meanwhile.
abbrev saves : Text → Option ℕ → MessageWindow → List Text → Bool × MessageWindow × List Text
saves text covered w log =
    (true, record w { window = w.window ++ item (codes "meanwhile") none ∷ [] }, text ∷ log)

compact_context_lem_example :
    IsCompacted 90 50 40 window saves [] (compact_context saves 90 50 40 window [])
compact_context_lem_example = compact_context_lem 90 50 40 window saves []

abbrev arguments : Json
arguments = obj (
    field (codes "Api_Key") (str (codes "sk-1"))
      (field (codes "value") (obj (field (codes "token") (str (codes "t")) end)) end))

abbrev hash : Text → Text
hash t = t

abbrev literal : ℕ → Text
literal n = codes "2"

sanitize-IsRedacted_example : IsRedacted (sanitize hash literal arguments)
sanitize-IsRedacted_example = sanitize-IsRedacted hash literal arguments
