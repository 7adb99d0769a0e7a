-- ===== src/Db/Integrity/Reachable.antt =====
-- The databases that the operations of the two repositories in src/db reach from empty tables.
use notify_hub.Base.{ℕ, some, List, Text, ◌≡◌}
use notify_hub.Core.{ChannelInstance, ProfileRecord}
use notify_hub.Db.{Db, empty_db}
use notify_hub.Db.Channels
use notify_hub.Db.Profiles
use notify_hub.Db.Integrity.{IsConsistent, upsert_channel-IsConsistent, delete_channel-IsConsistent}
use notify_hub.Db.Integrity.Profiles.{
  upsert_profile-IsConsistent, set_default_channels-IsConsistent, delete_profile-IsConsistent,
}

-- One operation, at the time `now`, that did not throw.
pub data Step : Db → Db → Type 0 where
  put_channel :
      {db : Db} (now : ℕ) (channel : ChannelInstance) → Step db (Channels.upsert now channel db)
  drop_channel : {db : Db} (id : Text) → Step db (Channels.delete id db)
  put_profile :
      {db db' : Db} (now : ℕ) (profile : ProfileRecord)
      → Profiles.upsert now profile db ≡ some db'
      → Step db db'
  link_channels :
      {db db' : Db} (id : Text) (channels : List Text)
      → Profiles.set_default_channels id channels db ≡ some db'
      → Step db db'
  drop_profile : {db : Db} (id : Text) → Step db (Profiles.delete id db)

pub data Reach : Db → Type 0 where
  created : Reach empty_db
  then_step : {db db' : Db} → Reach db → Step db db' → Reach db'

Step-IsConsistent : {db db' : Db} → Step db db' → IsConsistent db → IsConsistent db'
Step-IsConsistent {db} (put_channel now channel) h = upsert_channel-IsConsistent now channel db h
Step-IsConsistent {db} (drop_channel id) h = delete_channel-IsConsistent id db h
Step-IsConsistent {db} {db'} (put_profile now profile e) h =
    upsert_profile-IsConsistent now profile db db' e h
Step-IsConsistent {db} {db'} (link_channels id channels e) h =
    set_default_channels-IsConsistent id channels db db' e h
Step-IsConsistent {db} (drop_profile id) h = delete_profile-IsConsistent id db h

-- In every database that upserts and deletes of channels and profiles and settings of default
-- channels reach from the empty tables, the operations that threw left out: no two channels have one
-- id, no two profiles one id or one token, no default channel stands twice for a profile, and each
-- names a profile and a channel that exist.
pub Reach-IsConsistent : {db : Db} → Reach db → IsConsistent db
Reach-IsConsistent created = record {
  channel_ids = tt;
  profile_ids = tt;
  tokens = tt;
  links = tt;
  references = λ l m. absurd m;
}
Reach-IsConsistent (then_step r step) = Step-IsConsistent step (Reach-IsConsistent r)
