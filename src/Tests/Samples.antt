-- ===== src/Tests/Samples.antt =====
-- A hub with three channels and one profile, and what answers it from outside.
use notify_hub.Base.{arith, ℕ, true, false, none, some, [], ◌∷◌, Text, lit, ◌++◌, decimal}
use notify_hub.Core.{Notification, ChannelInstance, ProfileRecord, DispatchJob, DeliveryJob, high}
use notify_hub.Db.Integrity.{IsConsistent}
use notify_hub.Db.{Db, ChannelRow, ProfileRow, ProfileChannel, empty_db}
use notify_hub.Ports.{Externals, World, ok}

-- Everything that is sent is answered with this status.
abbrev pub answering : ℕ → Externals
unfolding decimal
answering status = record {
  respond = λ w r. ok (record { status = status; body = lit "" });
  post = λ w m. ok tt;
  now = λ w. 1000;
  uuid = λ n. lit "id-" ++ decimal n;
  parse_json = λ s. none;
  search_params = λ m. lit "";
  is_letter_or_number = λ c. true;
  lower_case = λ s. s;
  upper_case = λ s. s;
}

abbrev pub chat_row : ChannelRow
chat_row = record {
  id = lit "chat";
  label = lit "Team chat";
  type = lit "slack";
  enabled = 1;
  config = (lit "SLACK_WEBHOOK_URL", lit "https://hooks.example/1") ∷ [];
  created_at = 10;
}

abbrev pub pager_row : ChannelRow
pager_row = record {
  id = lit "pager";
  label = lit "Pager";
  type = lit "slack";
  enabled = 0;
  config = [];
  created_at = 11;
}

abbrev pub odd_row : ChannelRow
odd_row = record {
  id = lit "odd";
  label = lit "Odd";
  type = lit "fax";
  enabled = 1;
  config = [];
  created_at = 12;
}

abbrev pub ops_row : ProfileRow
ops_row = record { id = lit "ops"; name = lit "Ops"; token = lit "t1"; created_at = 13 }

abbrev pub link : Text → ProfileChannel
link id = record { profile_id = lit "ops"; channel_id = id }

abbrev pub hub : Db
hub = record empty_db {
  channels = chat_row ∷ pager_row ∷ odd_row ∷ [];
  profiles = ops_row ∷ [];
  profile_channels = link (lit "chat") ∷ link (lit "pager") ∷ [];
}

abbrev pub start : World
start = record { db = hub; events = []; deliveries = []; uuids_drawn = 0 }

abbrev pub note : Notification
note = record {
  title = lit "Deploy";
  message = lit "done";
  priority = some high;
  tags = none;
  metadata = none;
}

abbrev pub to_channel : Text → DeliveryJob
to_channel id = record { notification = note; channel = id; dispatch_job_id = lit "id-1" }

abbrev pub for_ops : DispatchJob
for_ops = record {
  notification = note;
  profile_id = lit "ops";
  profile_name = none;
  requested_channels = none;
  dedup_key = none;
}

-- The instances that `get` reads.
abbrev pub chat : ChannelInstance
chat = record {
  id = lit "chat";
  label = lit "Team chat";
  type = lit "slack";
  enabled = true;
  config = (lit "SLACK_WEBHOOK_URL", lit "https://hooks.example/1") ∷ [];
}

abbrev pub pager : ChannelInstance
pager = record {
  id = lit "pager";
  label = lit "Pager";
  type = lit "slack";
  enabled = false;
  config = [];
}

abbrev pub odd : ChannelInstance
odd = record { id = lit "odd"; label = lit "Odd"; type = lit "fax"; enabled = true; config = [] }

abbrev pub ops : ProfileRecord
ops = record {
  id = lit "ops";
  name = lit "Ops";
  token = lit "t1";
  default_channels = lit "chat" ∷ lit "pager" ∷ [];
}

pub hub-IsConsistent : IsConsistent hub
unfolding lit
hub-IsConsistent = record {
  channel_ids = ground arith;
  profile_ids = ground arith;
  tokens = ground arith;
  links = ground arith;
  references = λ l m. ground arith;
}
