-- ===== src/Admin/Replacing/Refusal.antt =====
-- The refusals of `PUT /api/config`: src/admin/routes/config-routes.ts
use notify_hub.Base.{ℕ, Option, none, some, List, map, Text, ◌≡◌, ◌≢◌, refl}
use notify_hub.Core.{Value, ChannelInstance, ProfileRecord}
use notify_hub.Db.{Db}
use notify_hub.Db.Channels
use notify_hub.Db.Profiles
use notify_hub.Admin.Validation.{ConfigPayload, ConfigValidation, valid, invalid}
use notify_hub.Admin.Replacing.{
  bad_request, ids_to_delete, upsert_channels, upsert_profiles, finish, apply_payload, put_valid,
  put_parsed, put_config,
}

finish-replies :
    (pids cids : List Text) (r : Option (Unit {0}) × Db) (message : Text)
    → (finish pids cids r).0 ≢ bad_request message
unfolding finish
finish-replies pids cids (none, db) message e = absurd (cc e)
finish-replies pids cids (some done, db) message e = absurd (cc e)

apply_payload-replies :
    (channel_time profile_time : Text → ℕ) (payload : ConfigPayload) (db : Db) (message : Text)
    → (apply_payload channel_time profile_time payload db).0 ≢ bad_request message
unfolding apply_payload
apply_payload-replies channel_time profile_time payload db message =
    finish-replies
      (ids_to_delete (map (λ (p : ProfileRecord). p.id) (Profiles.list db))
        (map (λ (p : ProfileRecord). p.id) payload.profiles))
      (ids_to_delete (map (λ (c : ChannelInstance). c.id) (Channels.list db))
        (map (λ (c : ChannelInstance). c.id) payload.channels))
      (upsert_profiles profile_time payload.profiles
        (upsert_channels channel_time payload.channels db))
      message

put_valid-refused :
    (channel_time profile_time : Text → ℕ) (payload : ConfigPayload) (db : Db)
    (v : ConfigValidation) (message : Text)
    → (put_valid channel_time profile_time payload db v).0 ≡ bad_request message
    → (put_valid channel_time profile_time payload db v).1 ≡ db
unfolding put_valid
put_valid-refused channel_time profile_time payload db (invalid error) message e = refl
put_valid-refused channel_time profile_time payload db valid message e =
    absurd (apply_payload-replies channel_time profile_time payload db message e)

put_parsed-refused :
    (channel_time profile_time : Text → ℕ) (db : Db) (o : Option ConfigPayload) (message : Text)
    → (put_parsed channel_time profile_time db o).0 ≡ bad_request message
    → (put_parsed channel_time profile_time db o).1 ≡ db
unfolding put_parsed
put_parsed-refused channel_time profile_time db none message e = refl
put_parsed-refused channel_time profile_time db (some payload) message e =
    put_valid-refused channel_time profile_time payload db _ message e

-- A PUT that is answered with 400, because of the schema or the validator, has written nothing.
pub put_config-refused :
    (safe_parse : Value → Option ConfigPayload) (channel_time profile_time : Text → ℕ)
    (body : Value) (db : Db) (message : Text)
    → (put_config safe_parse channel_time profile_time body db).0 ≡ bad_request message
    → (put_config safe_parse channel_time profile_time body db).1 ≡ db
unfolding put_config
put_config-refused safe_parse channel_time profile_time body db message e =
    put_parsed-refused channel_time profile_time db (safe_parse body) message e
