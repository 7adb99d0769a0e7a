-- ===== src/Admin/Replacing.antt =====
-- The handlers of src/admin/routes/config-routes.ts. `configPayloadSchema.safeParse` is a parameter:
-- `none` is a body that does not match the schema.
pub mod Laws
pub mod Written
pub mod Valid
pub mod Refusal
use notify_hub.Base.{ℕ, Option, none, some, List, [], ◌∷◌, map, filter, not, Text, lit, has}
use notify_hub.Core.{Value, ChannelInstance, ProfileRecord}
use notify_hub.Db.{Db}
use notify_hub.Db.Channels
use notify_hub.Db.Profiles
use notify_hub.Channels.Registry.{required_config_by_channel}
use notify_hub.Admin.Validation.{
  ConfigPayload, ConfigValidation, valid, invalid, validate_config_payload,
}
use notify_hub.Admin.Service.{get_full_config}

-- The reply of `PUT /api/config`: 200, 400 with its error, or what Fastify makes of a throw.
pub data Reply : Type 0 where
  saved : Reply
  bad_request : Text → Reply
  failed : Reply

unfoldable pub ids_to_delete : List Text → List Text → List Text
unfolding has
ids_to_delete existing payload_ids = filter (λ id. not (has payload_ids id)) existing

-- The four loops. `time` is the time that each statement writes, by the id of its row.
unfoldable pub upsert_channels : (Text → ℕ) → List ChannelInstance → Db → Db
unfolding Channels.upsert
upsert_channels time [] db = db
upsert_channels time (channel ∷ channels) db =
    upsert_channels time channels (Channels.upsert (time channel.id) channel db)

unfoldable pub delete_profiles : List Text → Db → Db
unfolding Profiles.delete
delete_profiles [] db = db
delete_profiles (id ∷ ids) db = delete_profiles ids (Profiles.delete id db)

unfoldable pub delete_channels : List Text → Db → Db
unfolding Channels.delete
delete_channels [] db = db
delete_channels (id ∷ ids) db = delete_channels ids (Channels.delete id db)

-- The statement that throws ends the loop, and the rows before it stay.
unfoldable pub upsert_profiles : (Text → ℕ) → List ProfileRecord → Db → Option (Unit {0}) × Db
unfolding Profiles.upsert
upsert_profiles time [] db = (some tt, db)
upsert_profiles time (profile ∷ profiles) db = elim (Profiles.upsert (time profile.id) profile db) [
  | none ↦ (none, db)
  | some db' ↦ upsert_profiles time profiles db'
]

-- What follows the loop over the profiles.
unfoldable pub finish : List Text → List Text → Option (Unit {0}) × Db → Reply × Db
unfolding delete_profiles delete_channels
finish profile_ids channel_ids (none, db) = (failed, db)
finish profile_ids channel_ids (some done, db) =
    (saved, delete_channels channel_ids (delete_profiles profile_ids db))

unfoldable pub apply_payload : (Text → ℕ) → (Text → ℕ) → ConfigPayload → Db → Reply × Db
unfolding ids_to_delete upsert_channels upsert_profiles finish Channels.list Profiles.list
apply_payload channel_time profile_time payload db =
    let existing_channels = map (λ (c : ChannelInstance). c.id) (Channels.list db) in
    let existing_profiles = map (λ (p : ProfileRecord). p.id) (Profiles.list db) in
    finish (ids_to_delete existing_profiles (map (λ (p : ProfileRecord). p.id) payload.profiles))
      (ids_to_delete existing_channels (map (λ (c : ChannelInstance). c.id) payload.channels))
      (upsert_profiles profile_time payload.profiles
        (upsert_channels channel_time payload.channels db))

put_valid : (Text → ℕ) → (Text → ℕ) → ConfigPayload → Db → ConfigValidation → Reply × Db
unfolding apply_payload
put_valid channel_time profile_time payload db (invalid error) = (bad_request error, db)
put_valid channel_time profile_time payload db valid =
    apply_payload channel_time profile_time payload db

put_parsed : (Text → ℕ) → (Text → ℕ) → Db → Option ConfigPayload → Reply × Db
unfolding put_valid validate_config_payload
put_parsed channel_time profile_time db none = (
  bad_request (
      lit
        "invalid request body: expected { channels: ChannelInstance[], profiles: ProfileRecord[] }"),
  db,
)
put_parsed channel_time profile_time db (some payload) =
    put_valid channel_time profile_time payload db
      (validate_config_payload payload required_config_by_channel)

-- `PUT /api/config`
unfoldable pub put_config :
    (Value → Option ConfigPayload) → (Text → ℕ) → (Text → ℕ) → Value → Db → Reply × Db
unfolding put_parsed
put_config safe_parse channel_time profile_time body db =
    put_parsed channel_time profile_time db (safe_parse body)
