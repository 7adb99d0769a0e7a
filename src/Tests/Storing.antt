-- ===== src/Tests/Storing.antt =====
-- The theorems on the tables and on the validator, applied.
use notify_hub.Db.Integrity.Reachable.{
  created, then_step, put_channel, drop_profile, Reach-IsConsistent,
}
use notify_hub.Base.{
  is_empty, ◌==◌, true, some, [], ◌∷◌, List, Text, lit, ◌≡◌, ◌≢◌, refl, Mem, ◌↔◌, arith,
}
use notify_hub.Base.Map.{Map}
use notify_hub.Core.{ProfileRecord}
use notify_hub.Db.{empty_db, Db}
use notify_hub.Db.Channels
use notify_hub.Db.Profiles
use notify_hub.Db.Profiles.Rows.{resolve_by_token_sound}
use notify_hub.Db.Profiles.Laws.{get-upsert_self}
use notify_hub.Db.Integrity.{IsConsistent}
use notify_hub.Admin.Validation.{ConfigPayload, valid, validate_config_payload}
use notify_hub.Admin.Validation.Spec.{IsValidConfig}
use notify_hub.Admin.Validation.Decision.{validate_config_payload_iff}
use notify_hub.Tests.Samples.{hub, chat, pager, ops, link, ops_row}

-- The profile under a new name and token, with a default channel that does not exist.
abbrev renamed : ProfileRecord
renamed = record {
  id = lit "ops";
  name = lit "Operations";
  token = lit "t2";
  default_channels = lit "odd" ∷ lit "gone" ∷ [];
}

abbrev renamed_hub : Db
renamed_hub = record hub {
  profiles = record ops_row { name = lit "Operations"; token = lit "t2" } ∷ [];
  profile_channels = link (lit "odd") ∷ [];
}

written : Profiles.upsert 99 renamed hub ≡ some renamed_hub
unfolding Profiles.upsert ◌==◌ lit
written = refl

get-upsert_self_example :
    (r : ProfileRecord) × (Profiles.get renamed_hub (lit "ops") ≡ some r)
    × (r.id ≡ renamed.id)
    × (r.name ≡ renamed.name)
    × (r.token ≡ renamed.token)
    × ((cid : Text)
        → Mem cid r.default_channels
          ↔ (Mem cid renamed.default_channels × (Profiles.has_channel hub cid ≡ true)))
get-upsert_self_example = get-upsert_self 99 renamed hub renamed_hub written

other : lit "dev" ≢ lit "ops"
unfolding lit
other = λ e. ground arith

-- A second profile with the first one's token.
abbrev thief : ProfileRecord
thief = record { id = lit "dev"; name = lit "Dev"; token = lit "t1"; default_channels = [] }

resolved : Profiles.resolve_by_token hub (some (lit "t1")) ≡ some ops
unfolding Profiles.resolve_by_token ◌==◌ lit is_empty
resolved = refl

resolve_by_token_sound_example :
    (some (lit "t1") ≡ some ops.token) × (ops.token ≢ []) × Mem ops (Profiles.list hub)
resolve_by_token_sound_example = resolve_by_token_sound hub (some (lit "t1")) ops resolved

Reach-IsConsistent_example :
    IsConsistent (Profiles.delete (lit "ops") (Channels.upsert 99 pager empty_db))
Reach-IsConsistent_example =
    Reach-IsConsistent
      (then_step (then_step created (put_channel 99 pager)) (drop_profile (lit "ops")))

-- A configuration with a default channel that is disabled.
abbrev proposal : ConfigPayload
proposal = record { channels = chat ∷ pager ∷ []; profiles = ops ∷ [] }

abbrev required : Map (List Text)
required = (lit "slack", lit "SLACK_WEBHOOK_URL" ∷ []) ∷ []

validate_config_payload_iff_example :
    (validate_config_payload proposal required ≡ valid) ↔ IsValidConfig required proposal
validate_config_payload_iff_example = validate_config_payload_iff proposal required
