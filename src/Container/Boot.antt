-- ===== src/Container/Boot.antt =====
-- src/container.ts: what `buildContainer` does with the tables when no override is given, and the
-- heartbeat that it sends. The package's version and `process.platform` are parameters.
pub mod Reported
use notify_hub.Base.{ℕ, Bool, Option, none, some, List, [], ◌∷◌, map, filter, not, Text, ◌==◌}
use notify_hub.Base.Map.{Map}
use notify_hub.Core.{AppConfig, ChannelInstance}
use notify_hub.Db.{Db}
use notify_hub.Db.Channels
use notify_hub.Db.InstallId.{get_or_create_install_id}
use notify_hub.Db.Seed.{seed_from_env_if_empty}
use notify_hub.Ports.{Externals}
use notify_hub.Telemetry.{TelemetryClient, build_telemetry_client}
use notify_hub.Telemetry.Heartbeat.{HeartbeatProperties, PostHogSdk, Sent, send_heartbeat}

-- `[...new Set(xs)]`
unfoldable pub distinct : List Text → List Text
distinct [] = []
distinct (x ∷ xs) = x ∷ filter (λ y. not (y == x)) (distinct xs)

unfoldable pub channel_types_enabled : Db → List Text
unfolding distinct Channels.list_enabled
channel_types_enabled db =
    distinct (map (λ (c : ChannelInstance). c.type) (Channels.list_enabled db))

-- The process that boots.
pub record Process : Type 0 where
  pub externals : Externals
  pub env : Map Text
  pub version : Text
  pub platform : Text
  -- `randomUUID()`, and the times that the statements of the seeding write.
  pub uuid : Text
  pub channel_time : Text → ℕ
  pub profile_time : Text → ℕ

-- After the seeding: `none` is a throw of it, which ends the boot.
unfoldable pub after_seeding : PostHogSdk → Process → Option Bool × Db → Option Sent × Db
unfolding get_or_create_install_id build_telemetry_client send_heartbeat channel_types_enabled
after_seeding sdk process (none, db) = (none, db)
after_seeding sdk process (some seeded, db) =
    let (install_id, db') = get_or_create_install_id process.uuid db in
    (
      some (
          send_heartbeat sdk (build_telemetry_client process.externals process.env install_id)
            (record {
              version = process.version;
              channel_types_enabled = channel_types_enabled db';
              platform = process.platform;
            })),
      db',
    )

unfoldable pub boot : PostHogSdk → Process → AppConfig → Db → Option Sent × Db
unfolding after_seeding seed_from_env_if_empty
boot sdk process config db =
    after_seeding sdk process
      (seed_from_env_if_empty process.externals process.channel_time process.profile_time config db)
