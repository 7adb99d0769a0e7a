-- ===== src/Admin/Service.antt =====
-- src/admin/config-service.ts. An operation that throws is `none` in its first component; the tables are what it left.
pub mod Deleting
pub mod Upserted
pub mod Writing
pub mod Valid
use notify_hub.Base.{
  ℕ, Bool, true, false, Option, none, some, List, [], ◌∷◌, ◌++◌, map, filter, not, Text, lit, ◌==◌,
  has, if◌then◌else◌,
}
use notify_hub.Base.Map.{Map}
use notify_hub.Core.{ChannelInstance, ProfileRecord}
use notify_hub.Db.{Db}
use notify_hub.Db.Channels
use notify_hub.Db.Profiles
use notify_hub.Channels.Registry.{required_config_by_channel}
use notify_hub.Admin.Validation.{
  ConfigPayload, ConfigValidation, valid, invalid, validate_config_payload,
}

pub data EntityResult (A : Type 0) : Type 0 where
  done : A → EntityResult A
  refused : Text → EntityResult A

unfoldable pub get_full_config : Db → ConfigPayload
unfolding Channels.list Profiles.list
get_full_config db = record { channels = Channels.list db; profiles = Profiles.list db }

-- The first entry with the item's id is replaced in place, or the item is appended.
unfoldable pub upserted_by_id : {A : Type 0} → (A → Text) → List A → A → List A
upserted_by_id id [] item = item ∷ []
upserted_by_id id (entry ∷ list) item =
    let rest = upserted_by_id id list item in
    if id entry == id item then item ∷ list else entry ∷ rest

-- The state that writing the channel would give.
abbrev pub with_channel : Db → ChannelInstance → ConfigPayload
with_channel db channel = record {
  channels = upserted_by_id (λ c. c.id) (get_full_config db).channels channel;
  profiles = (get_full_config db).profiles;
}

abbrev pub with_profile : Db → ProfileRecord → ConfigPayload
with_profile db profile = record {
  channels = (get_full_config db).channels;
  profiles = upserted_by_id (λ p. p.id) (get_full_config db).profiles profile;
}

write_channel : ℕ → ChannelInstance → Db → ConfigValidation → EntityResult ChannelInstance × Db
unfolding Channels.upsert
write_channel now channel db (invalid error) = (refused error, db)
write_channel now channel db valid = (done channel, Channels.upsert now channel db)

-- `now` is the time that the statement writes.
unfoldable pub upsert_channel_entity : ℕ → ChannelInstance → Db → EntityResult ChannelInstance × Db
unfolding write_channel validate_config_payload
upsert_channel_entity now channel db =
    write_channel now channel db
      (validate_config_payload (with_channel db channel) required_config_by_channel)

-- The loop that takes the id out of the profiles' default channels.
prune : Text → List ProfileRecord → Db → Option (EntityResult (Unit {0})) × Db
prune id [] db = (some (done tt), db)
prune id (profile ∷ profiles) db = elim (has profile.default_channels id) [
  | false ↦ prune id profiles db
  | true ↦
      let kept = filter (λ channel_id. not (channel_id == id)) profile.default_channels in
      elim (Profiles.set_default_channels profile.id kept db) [
        | none ↦ (none, db)
        | some db' ↦ prune id profiles db'
      ]
]

delete_found : Text → Db → Option ChannelInstance → Option (EntityResult (Unit {0})) × Db
unfolding prune
delete_found id db none = (some (refused (lit "unknown channel \"" ++ (id ++ lit "\""))), db)
delete_found id db (some existing) =
    let deleted = Channels.delete id db in prune id (Profiles.list deleted) deleted

unfoldable pub delete_channel_entity : Text → Db → Option (EntityResult (Unit {0})) × Db
unfolding delete_found
delete_channel_entity id db = delete_found id db (Channels.get db id)

stored_profile : ProfileRecord → Db → Option Db → Option (EntityResult ProfileRecord) × Db
stored_profile profile db none = (none, db)
stored_profile profile db (some db') = (some (done profile), db')

write_profile : ℕ → ProfileRecord → Db → ConfigValidation → Option (EntityResult ProfileRecord) × Db
unfolding stored_profile
write_profile now profile db (invalid error) = (some (refused error), db)
write_profile now profile db valid = stored_profile profile db (Profiles.upsert now profile db)

unfoldable pub upsert_profile_entity :
    ℕ → ProfileRecord → Db → Option (EntityResult ProfileRecord) × Db
unfolding write_profile validate_config_payload
upsert_profile_entity now profile db =
    write_profile now profile db
      (validate_config_payload (with_profile db profile) required_config_by_channel)

delete_found_profile : Text → Db → Option ProfileRecord → EntityResult (Unit {0}) × Db
delete_found_profile id db none = (refused (lit "unknown profile \"" ++ (id ++ lit "\"")), db)
delete_found_profile id db (some existing) = (done tt, Profiles.delete id db)

unfoldable pub delete_profile_entity : Text → Db → EntityResult (Unit {0}) × Db
unfolding delete_found_profile
delete_profile_entity id db = delete_found_profile id db (Profiles.get db id)
