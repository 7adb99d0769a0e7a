-- ===== src/Tests/Editing.antt =====
-- The theorems on the admin service, the API, seeding and telemetry, applied.
use notify_hub.Base.{
  arith, drop_while, is_space, is_empty, trim, true, false, inl, ◌↔◌, ◌≢◌, if◌then◌else◌, has, ◌==◌,
  Option, none, some, [], ◌∷◌, Text, lit, ◌≡◌, refl, ◌⊎◌, ℤ, ℕ,
}
use notify_hub.Base.Map.{Map, lookup}
use notify_hub.Core.{
  ProfileRecord, Profile, ChannelInstance, AppConfig, Value, null, str, Fields, end, field,
}
use notify_hub.Db.{Db, empty_db}
use notify_hub.Db.Channels
use notify_hub.Db.Profiles
use notify_hub.Db.Integrity.{IsConsistent}
use notify_hub.Db.Seed.{seed_from_env_if_empty}
use notify_hub.Db.Seed.Written.{IsSeeded}
use notify_hub.Db.Seed.FirstBoot.{seed_from_env_if_empty_lem}
use notify_hub.Db.Seed.Tokens.{seed_from_env_if_empty-IsSeeded}
use notify_hub.Admin.Validation.Spec.{IsComplete}
use notify_hub.Ports.{ok, raise, QueuePort}
use notify_hub.Channels.Registry.{required_config_by_channel}
use notify_hub.Delivery.{failed_msg}
use notify_hub.Admin.Validation.{ConfigPayload, valid, validate_config_payload, channel_by_id}
use notify_hub.Admin.Service.{
  done, refused, with_profile, get_full_config, upserted_by_id, upsert_channel_entity,
  upsert_profile_entity, delete_channel_entity,
}
use notify_hub.Admin.Service.Deleting.{delete_channel_entity_lem}
use notify_hub.Db.InstallId.{get_or_create_install_id}
use notify_hub.Db.InstallId.Laws.{get_or_create_install_id_lem}
use notify_hub.Admin.Service.Writing.{IsValid, upsert_profile_entity_lem}
use notify_hub.Admin.Replacing.{put_config, saved}
use notify_hub.Admin.Replacing.Laws.{get-put_config}
use notify_hub.Admin.Replacing.Valid.{put_config-IsValid}
use notify_hub.Admin.WorkerLogs.{event_of, property, skipped}
use notify_hub.Admin.WorkerLogs.Failures.{event_of-failed}
use notify_hub.Api.AnyQueue.{IsRead, IsHandedOn, IsRefused, answered, post_notify-any_queue}
use notify_hub.Api.{
  post_notify, Reply, unavailable, NotifyBody, Parsed, success, unauthorized, bad_request,
}
use notify_hub.Api.Laws.{IsAccepted, IsNotified, notified, IsKnown, post_notify_lem}
use notify_hub.Tests.Samples.{answering, hub, hub-IsConsistent, start, chat, pager, ops, pager_row}

stored_chat : Channels.get hub (lit "chat") ≡ some chat
unfolding Channels.get ◌==◌ lit
stored_chat = refl

-- The channel table alone, where the disabled channel may be written again.
abbrev bare : Db
bare = record empty_db { channels = pager_row ∷ [] }

bare-IsConsistent : IsConsistent bare
unfolding lit
bare-IsConsistent = record {
  channel_ids = ground arith;
  profile_ids = tt;
  tokens = tt;
  links = tt;
  references = λ l m. absurd m;
}

rewritten : (upsert_channel_entity 99 pager bare).0 ≡ done pager
unfolding upsert_channel_entity required_config_by_channel upserted_by_id get_full_config has ◌==◌
    lit
rewritten = refl

upsert_profile_entity_lem_example :
    (IsValid (with_profile hub ops)
      × ((db' : Db) × (Profiles.upsert 99 ops hub ≡ some db')
          × (upsert_profile_entity 99 ops hub ≡ (some (done ops), db'))))
    ⊎ ((¬ IsValid (with_profile hub ops))
        × ((error : Text) × (upsert_profile_entity 99 ops hub ≡ (some (refused error), hub))))
upsert_profile_entity_lem_example = upsert_profile_entity_lem 99 ops hub hub-IsConsistent

abbrev wanted : ConfigPayload
wanted = record { channels = chat ∷ []; profiles = [] }

abbrev parse_wanted : Value → Option ConfigPayload
parse_wanted v = some wanted

abbrev noon : Text → ℕ
noon id = 1200

put_saved : (put_config parse_wanted noon noon null hub).0 ≡ saved
unfolding put_config required_config_by_channel ◌==◌ lit
put_saved = refl

get-put_config_example :
    (payload : ConfigPayload) × (parse_wanted null ≡ some payload)
    × (validate_config_payload payload required_config_by_channel ≡ valid)
    × (Channels.get (put_config parse_wanted noon noon null hub).1 (lit "odd")
        ≡ channel_by_id payload.channels (lit "odd"))
get-put_config_example =
    get-put_config parse_wanted noon noon null hub (lit "odd") hub-IsConsistent put_saved

put_config-IsValid_example :
    let after = (put_config parse_wanted noon noon null hub).1 in
    IsConsistent after × IsValid (get_full_config after)
put_config-IsValid_example =
    put_config-IsValid parse_wanted noon noon null hub hub-IsConsistent put_saved

abbrev parse_done : Value → Parsed
parse_done v = success (record {
  title = none;
  message = lit "done";
  channels = none;
  priority = none;
  tags = none;
  metadata = none;
})

post_notify_lem_example :
    ((profile : ProfileRecord) × (body : NotifyBody) × IsAccepted
        (answering 500)
        parse_done
        (some (lit "Bearer t1"))
        null
        start
        profile
        body
      × IsNotified (answering 500) parse_done (some (lit "Bearer t1")) null start profile body)
    ⊎ ((notified (answering 500) parse_done (some (lit "Bearer t1")) null start
          ≡ (ok unauthorized, start))
        ⊎ ((message : Text) × (notified
                (answering 500)
                parse_done
                (some (lit "Bearer t1"))
                null
                start
              ≡ (ok (bad_request message), start))))
post_notify_lem_example =
    post_notify_lem (answering 500) parse_done (some (lit "Bearer t1")) null start

abbrev no_times : ℤ → Option Text
no_times t = none

abbrev failure_fields : Fields
failure_fields =
    field (lit "msg") (str (failed_msg (lit "chat"))) (field (lit "channel") (str (lit "chat")) end)

failure_msg : property failure_fields (lit "msg") ≡ str (failed_msg (lit "chat"))
unfolding property ◌==◌ lit
failure_msg = refl

failure_channel : property failure_fields (lit "channel") ≡ str (lit "chat")
unfolding property ◌==◌ lit
failure_channel = refl

event_of-failed_example : event_of no_times (some failure_fields) ≡ skipped
event_of-failed_example =
    event_of-failed no_times failure_fields (lit "chat") (lit "chat") failure_msg failure_channel

abbrev legacy : AppConfig
legacy = record {
  port = 3000;
  redis_url = lit "redis";
  db_path = lit "hub.db";
  profiles =
      record { name = lit "Ops"; token = lit "t1"; default_channels = lit "slack" ∷ [] } ∷ [];
  channels_enabled = lit "slack" ∷ [];
  channel_config = [];
  retry = record { attempts = 5; backoff_ms = 2000 };
}

empty-IsConsistent : IsConsistent empty_db
empty-IsConsistent = record {
  channel_ids = tt;
  profile_ids = tt;
  tokens = tt;
  links = tt;
  references = λ l m. absurd m;
}

abbrev settings : Map Text
settings = (lit "TELEMETRY_ENABLED", lit "true") ∷ (lit "POSTHOG_API_KEY", lit "phc") ∷ []

-- A queue that cannot be reached.
abbrev unreachable : QueuePort
unreachable = record {
  enqueue_dispatch = λ job w. (raise (lit "ECONNREFUSED"), w);
  enqueue_delivery = λ job w. (raise (lit "ECONNREFUSED"), w);
  health = λ w. (ok false, w);
}

post_notify-any_queue_example :
    ((profile : ProfileRecord) × (body : NotifyBody) × IsRead unreachable parse_done
        (some (lit "Bearer t1"))
        null
        start
        profile
        body
      × IsKnown hub body.channels
      × IsHandedOn unreachable parse_done (some (lit "Bearer t1")) null start profile body)
    ⊎ ((reply : Reply) × IsRefused unreachable parse_done (some (lit "Bearer t1")) null start reply
        × (answered unreachable parse_done (some (lit "Bearer t1")) null start ≡ (ok reply, start)))
post_notify-any_queue_example =
    post_notify-any_queue unreachable parse_done (some (lit "Bearer t1")) null start

unreachable-unavailable :
    (answered unreachable parse_done (some (lit "Bearer t1")) null start).0 ≡ ok unavailable
unfolding post_notify drop_while is_space is_empty trim ◌==◌ lit
unreachable-unavailable = refl

slack_keys : lookup required_config_by_channel (lit "slack") ≡ some (lit "SLACK_WEBHOOK_URL" ∷ [])
unfolding required_config_by_channel lookup ◌==◌ lit
slack_keys = refl

seed_from_env_if_empty_lem_example :
    ((Channels.list empty_db ≢ [])
      × (seed_from_env_if_empty (answering 200) noon noon legacy empty_db ≡ (some false, empty_db)))
    ⊎ ((Channels.list empty_db ≡ [])
        × ((c : ChannelInstance) × (Channels.get
                (seed_from_env_if_empty (answering 200) noon noon legacy empty_db).1
                (lit "slack")
              ≡ (if has legacy.channels_enabled (lit "slack") then some c else none))
            × (c.type ≡ lit "slack")
            × (c.config ≡ [])
            × ((c.enabled ≡ true) ↔ IsComplete c (lit "SLACK_WEBHOOK_URL" ∷ []))))
unfolding lookup
seed_from_env_if_empty_lem_example =
    seed_from_env_if_empty_lem (answering 200) noon noon legacy empty_db (lit "slack")
      (lit "SLACK_WEBHOOK_URL" ∷ []) slack_keys

abbrev legacy_ops : Profile
legacy_ops = record { name = lit "Ops"; token = lit "t1"; default_channels = lit "slack" ∷ [] }

no_channels : Channels.list empty_db ≡ []
unfolding Channels.list
no_channels = refl

seed_from_env_if_empty-IsSeeded_example :
    let r = seed_from_env_if_empty (answering 200) noon noon legacy empty_db in
    (r.0 ≡ some true) × IsSeeded (answering 200) legacy legacy.channels_enabled r.1 legacy_ops
seed_from_env_if_empty-IsSeeded_example =
    seed_from_env_if_empty-IsSeeded (answering 200) noon noon legacy empty_db legacy_ops no_channels
      refl (λ m. m, tt) (λ m. m, tt) (inl refl)

delete_channel_entity_lem_example :
    delete_channel_entity (lit "chat") hub ≡ (some (done tt), Channels.delete (lit "chat") hub)
delete_channel_entity_lem_example = delete_channel_entity_lem (lit "chat") hub chat stored_chat

get_or_create_install_id_lem_example :
    get_or_create_install_id (lit "b") (get_or_create_install_id (lit "a") empty_db).1
    ≡ get_or_create_install_id (lit "a") empty_db
get_or_create_install_id_lem_example = get_or_create_install_id_lem (lit "a") (lit "b") empty_db
