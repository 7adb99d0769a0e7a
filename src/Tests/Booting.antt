-- ===== src/Tests/Booting.antt =====
-- A boot that reports, and the theorem applied to it.
use notify_hub.Base.{false, none, some, [], ◌∷◌, lit, ◌==◌, ◌≡◌, refl, ◌⊎◌}
use notify_hub.Core.{AppConfig}
use notify_hub.Db.Seed.{seed_from_env_if_empty}
use notify_hub.Ports.{ok}
use notify_hub.Telemetry.{build_telemetry_client, is_telemetry_enabled}
use notify_hub.Telemetry.Heartbeat.{PostHogSdk, Capture, Sent, send_heartbeat}
use notify_hub.Container.Boot.{Process, boot, channel_types_enabled}
use notify_hub.Container.Boot.Reported.{IsReport, boot-IsReport}
use notify_hub.Tests.Samples.{answering, hub}

abbrev working : PostHogSdk
working = record { create = λ key host. ok tt; capture = λ c. ok tt; shutdown = ok tt }

abbrev process : Process
process = record {
  externals = record (answering 200) { lower_case = λ s. s };
  env = (lit "TELEMETRY_ENABLED", lit "true") ∷ (lit "POSTHOG_API_KEY", lit "phc_1") ∷ [];
  version = lit "1.0.0";
  platform = lit "linux";
  uuid = lit "install-1";
  channel_time = λ id. 5;
  profile_time = λ id. 5;
}

abbrev config : AppConfig
config = record {
  port = 8080;
  redis_url = lit "redis://redis";
  db_path = lit "hub.db";
  profiles = [];
  channels_enabled = [];
  channel_config = [];
  retry = record { attempts = 3; backoff_ms = 1000 };
}

-- Two instances are enabled, of different types.
abbrev reported : Capture
reported = record {
  distinct_id = lit "install-1";
  event = lit "notify_hub_heartbeat";
  properties = record {
    version = lit "1.0.0";
    channel_types_enabled = lit "slack" ∷ lit "fax" ∷ [];
    platform = lit "linux";
    process_person_profile = false;
  };
}

abbrev sent : Sent
sent = record { captured = reported ∷ []; printed = none }

booted : (boot working process config hub).0 ≡ some sent
unfolding boot seed_from_env_if_empty send_heartbeat build_telemetry_client is_telemetry_enabled
    channel_types_enabled lit ◌==◌
booted = refl

boot-IsReport_example :
    (sent.captured ≡ [])
    ⊎ ((c : Capture) × (sent.captured ≡ c ∷ [])
        × IsReport process (boot working process config hub).1 c)
boot-IsReport_example = boot-IsReport working process config hub sent booted
