-- ===== src/Tests/StoreTests.antt =====
-- The tables of the store on a few rows.
use mutsumi_s_sync.Common.{
  ℕ, ◌≡◌, ◌⊎◌, refl, none, some, List, [], Text, codes, text_eq, filter, ok,
}
use mutsumi_s_sync.Store.Table.{no_rows}
use mutsumi_s_sync.Store.Journal.{Journal, JournalEntry, append_inner_journal}
use mutsumi_s_sync.Store.Tasks.{Tasks, add_scheduled_task}
use mutsumi_s_sync.Store.State.{States, upsert_canonical_state}
use mutsumi_s_sync.Store.Summaries.{
  Summary, Summaries, add_summary, is_boundary, get_newest_compaction_summary,
}
use mutsumi_s_sync.Store.Summaries.Coverage.{IsGreatest, get_newest_compaction_summary_lem}
use mutsumi_s_sync.Store.Media.{
  MediaStore, MediaRecord, register_media, get_media, mark_media_used, insert_media, find_media,
  get_media_by_sha256, mime_for_extension, register_media_again,
}

abbrev entry_of : Text → JournalEntry
entry_of content = record {
  content = content;
  pipeline_id = [];
  source_conversation_id = [];
  source_actor_id = [];
  source_event_ids = [];
  status = codes "finalized";
}

abbrev journal : Journal
journal = (append_inner_journal 3 (entry_of (codes "a  thought")) no_rows).1

abbrev tasks : Tasks
tasks = (add_scheduled_task 1 (codes "private:1") 1 (codes "1") (codes "remind") 50 no_rows).1

abbrev states : States
states = (upsert_canonical_state 1 (codes "bot:self") (codes "calm") [] []).1

abbrev summaries : Summaries
summaries =
    (add_summary 1 (codes "g") (codes "src") (codes "text") 4 (codes "compaction") (some 4)
      no_rows).1

get_newest_compaction_summary_lem_example :
    ((get_newest_compaction_summary (codes "g") summaries ≡ none)
      × (filter (is_boundary (codes "g")) summaries.rows ≡ []))
    ⊎ ((top : Summary) × (get_newest_compaction_summary (codes "g") summaries ≡ some top)
        × IsGreatest top (filter (is_boundary (codes "g")) summaries.rows))
get_newest_compaction_summary_lem_example = get_newest_compaction_summary_lem (codes "g") summaries

abbrev digest : List ℕ → Text
digest bytes = bytes

abbrev no_media : MediaStore
no_media = record { rows = []; files = [] }

abbrev media_row : MediaRecord
media_row = record {
  media_id = codes "media_ab";
  sha256 = codes "ab";
  kind = codes "image";
  path = codes "m/images/ab.png";
  source_url = [];
  mime_type = codes "image/png";
  description = [];
  short_description = [];
  status = codes "active";
  created_at = 7;
  last_used_at = 7;
}

registered :
    (register_media digest (codes "m") 7 (codes "ab") (codes "image") (codes ".png") [] no_media).0
    ≡ ok media_row
unfolding register_media get_media insert_media find_media get_media_by_sha256 mime_for_extension
    text_eq
registered = refl

register_media_again_example :
    let after =
      (register_media digest
        (codes "m")
        7
        (codes "ab")
        (codes "image")
        (codes ".png")
        []
        no_media).1 in
    (stored : MediaRecord) × (get_media (codes "media_ab") after ≡ some stored)
    × (register_media digest (codes "m") 9 (codes "ab") (codes "other") [] [] after
        ≡ (ok stored, mark_media_used 9 (codes "media_ab") after))
register_media_again_example =
    register_media_again digest (codes "m") (codes "ab") 7 9 (codes "image") (codes "other")
      (codes ".png") [] [] [] no_media media_row registered
