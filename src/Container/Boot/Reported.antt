-- ===== src/Container/Boot/Reported.antt =====
-- What the heartbeat of src/container.ts can report.
use mathlib.Core.Path.{subst}
use mathlib.Core.Option.{some-injective}
use notify_hub.Base.{
  Bool, Option, none, some, List, [], ◌∷◌, not, Text, lit, ◌==◌, ==_iff, ◌≡◌, refl, ap, ◌∙◌, ◌↔◌,
  ◌⊎◌, inl, inr, Mem, Nodup, mem-filter, Nodup-filter, mem-map, exists_of_mem-map, arith,
}
use notify_hub.Base.Map.{lookup}
use notify_hub.Core.{AppConfig, ChannelInstance}
use notify_hub.Db.{Db}
use notify_hub.Db.Channels
use notify_hub.Db.InstallId.{get_or_create_install_id}
use notify_hub.Db.InstallId.Laws.{get_or_create_install_id_lem}
use notify_hub.Db.Seed.{seed_from_env_if_empty}
use notify_hub.Telemetry.{TelemetryClient, noop, posthog, build_telemetry_client}
use notify_hub.Telemetry.OptIn.{
  IsTrackable, IsOptedIn, build_telemetry_client_iff, build_telemetry_client-distinct_id,
}
use notify_hub.Telemetry.Heartbeat.{
  HeartbeatProperties, PostHogSdk, Capture, Sent, heartbeat_of, build_heartbeat_properties,
  send_heartbeat, send_heartbeat-posthog,
}
use notify_hub.Container.Boot.{distinct, channel_types_enabled, Process, after_seeding, boot}

mem-distinct : (x : Text) (xs : List Text) → Mem x (distinct xs) ↔ Mem x xs
unfolding distinct
mem-distinct x [] = ground arith
mem-distinct x (y ∷ xs) =
    ground (arith, mem-filter (λ z. not (z == y)) x (distinct xs), mem-distinct x xs, ==_iff x y)

Nodup-distinct : (xs : List Text) → Nodup (distinct xs)
unfolding distinct
Nodup-distinct [] = tt
Nodup-distinct (x ∷ xs) = (
  λ m. ground (arith, (mem-filter (λ z. not (z == x)) x (distinct xs)).0 m, ==_iff x x),
  Nodup-filter _ (distinct xs) (Nodup-distinct xs),
)

-- The type is that of some enabled instance.
abbrev pub IsEnabledType : Db → Text → Type 0
IsEnabledType db type = (c : ChannelInstance) × Mem c (Channels.list_enabled db) × (c.type ≡ type)

mem-channel_types_enabled :
    (db : Db) (type : Text) → Mem type (channel_types_enabled db) ↔ IsEnabledType db type
unfolding channel_types_enabled
mem-channel_types_enabled db type = (
  λ m.
      exists_of_mem-map (λ (c : ChannelInstance). c.type) type (Channels.list_enabled db)
        ((mem-distinct type _).0 m),
  λ (c, m, e). (mem-distinct type _).1 (rw (← e) (mem-map (λ (c : ChannelInstance). c.type) c _ m)),
)

TelemetryClient-cases :
    (client : TelemetryClient)
    → (client ≡ noop) ⊎ ((key : Text) × (id : Text) × (client ≡ posthog key id))
TelemetryClient-cases noop = inl refl
TelemetryClient-cases (posthog key id) = inr (key, id, refl)

send_heartbeat-noop :
    (sdk : PostHogSdk) (props : HeartbeatProperties) → (send_heartbeat sdk noop props).captured ≡ []
unfolding send_heartbeat
send_heartbeat-noop sdk props = refl

-- One event went out, of a process that opted in, with the install id of these tables and the types
-- of the enabled instances in them, each once.
abbrev pub IsReport : Process → Db → Capture → Type 0
IsReport process db c =
    IsTrackable (lookup process.env (lit "DO_NOT_TRACK"))
    × IsOptedIn process.externals (lookup process.env (lit "TELEMETRY_ENABLED"))
    × ((later : Text) → get_or_create_install_id later db ≡ (c.distinct_id, db))
    × Nodup c.properties.channel_types_enabled
    × ((type : Text) → Mem type c.properties.channel_types_enabled ↔ IsEnabledType db type)

heartbeat_of-IsReport :
    (process : Process) (db : Db) (key id : Text)
    → build_telemetry_client process.externals process.env id ≡ posthog key id
    → ((later : Text) → get_or_create_install_id later db ≡ (id, db))
    → IsReport process db (
        heartbeat_of id (record {
          version = process.version;
          channel_types_enabled = channel_types_enabled db;
          platform = process.platform;
        }))
unfolding heartbeat_of build_heartbeat_properties
heartbeat_of-IsReport process db key id built same =
    let (opted, _, _) = (build_telemetry_client_iff process.externals process.env key id).0 built in
    (
      opted.0,
      opted.1,
      same,
      unfold channel_types_enabled in Nodup-distinct _,
      mem-channel_types_enabled db,
    )

sent-IsReport :
    (sdk : PostHogSdk) (process : Process) (db : Db) (id : Text)
    → ((later : Text) → get_or_create_install_id later db ≡ (id, db))
    → let sent =
        send_heartbeat sdk (build_telemetry_client process.externals process.env id) (record {
          version = process.version;
          channel_types_enabled = channel_types_enabled db;
          platform = process.platform;
        }) in
      (sent.captured ≡ []) ⊎ ((c : Capture) × (sent.captured ≡ c ∷ []) × IsReport process db c)
sent-IsReport sdk process db id same =
    let props : HeartbeatProperties = record {
      version = process.version;
      channel_types_enabled = channel_types_enabled db;
      platform = process.platform;
    } in
    elim (TelemetryClient-cases (build_telemetry_client process.externals process.env id)) [
      | inl off ↦ inl (rw off (send_heartbeat-noop sdk props))
      | inr (key, id', built) ↦
          let own =
            build_telemetry_client-distinct_id process.externals process.env key id' id built in
          let built' = built ∙ ap (posthog key) own in
          elim (send_heartbeat-posthog sdk key id props) [
            | inl silent ↦ inl (ap (λ t. (send_heartbeat sdk t props).captured) built' ∙ silent)
            | inr one ↦ inr (
              heartbeat_of id props,
              ap (λ t. (send_heartbeat sdk t props).captured) built' ∙ one,
              heartbeat_of-IsReport process db key id built' same,
            )
          ]
    ]

after_seeding-IsReport :
    (sdk : PostHogSdk) (process : Process) (r : Option Bool × Db) (sent : Sent)
    → (after_seeding sdk process r).0 ≡ some sent
    → (sent.captured ≡ [])
      ⊎ ((c : Capture) × (sent.captured ≡ c ∷ [])
          × IsReport process (after_seeding sdk process r).1 c)
unfolding after_seeding
after_seeding-IsReport sdk process (none, db) sent e = absurd (cc e)
after_seeding-IsReport sdk process (some seeded, db) sent e =
    let (id, db') = get_or_create_install_id process.uuid db in
    subst
      (λ (s : Sent).
        (s.captured ≡ []) ⊎ ((c : Capture) × (s.captured ≡ c ∷ []) × IsReport process db' c))
      (some-injective _ sent e)
      (sent-IsReport sdk process db' id
        (λ later. get_or_create_install_id_lem process.uuid later db))

-- Whenever the boot does not throw, whatever the PostHog library does: either nothing was captured,
-- or one event was. Then DO_NOT_TRACK is absent or blank, TELEMETRY_ENABLED says so, the event's
-- distinct id is the install id that is stored, and it lists the types of the enabled instances of
-- the tables after the seeding, each once, and no other type.
pub boot-IsReport :
    (sdk : PostHogSdk) (process : Process) (config : AppConfig) (db : Db) (sent : Sent)
    → (boot sdk process config db).0 ≡ some sent
    → (sent.captured ≡ [])
      ⊎ ((c : Capture) × (sent.captured ≡ c ∷ [])
          × IsReport process (boot sdk process config db).1 c)
unfolding boot
boot-IsReport sdk process config db sent e =
    after_seeding-IsReport sdk process
      (seed_from_env_if_empty process.externals process.channel_time process.profile_time config db)
      sent e
