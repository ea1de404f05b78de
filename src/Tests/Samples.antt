-- ===== src/Tests/Samples.antt =====
-- Values that the tests share.
use mutsumi_s_sync.Common.{Text, codes, []}
use mutsumi_s_sync.Json.{end}
use mutsumi_s_sync.Ledger.{EventRecord, ActorRecord}

abbrev pub event_of : Text → Text → Text → Text → Text → EventRecord
event_of id conversation event_type status pipeline = record {
  conversation_id = conversation;
  actor_id = codes "qq:user:1";
  actor_kind = codes "human";
  event_type = event_type;
  content = codes "hi";
  event_id = id;
  actor_name = codes "A";
  audience = codes "bot:self";
  visibility = codes "private";
  media_ids = [];
  payload = end;
  turn_id = [];
  pipeline_id = pipeline;
  status = status;
  created_at = 0;
  sequence = 0;
}

abbrev pub actor_of : Text → Text → ActorRecord
actor_of id name = record {
  actor_id = id;
  kind = codes "human";
  platform = codes "qq";
  platform_subject_id = codes "1";
  display_name = name;
  private_alias = [];
  relationship = [];
  updated_at = 0;
}
