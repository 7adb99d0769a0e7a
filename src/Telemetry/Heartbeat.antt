-- ===== src/Telemetry/Heartbeat.antt =====
-- src/telemetry/posthog-telemetry-client.ts, heartbeat-properties.ts and noop-telemetry-client.ts. The
-- PostHog library is a parameter.
use notify_hub.Base.{
  Bool, false, Option, none, some, List, [], ◌∷◌, Text, lit, ◌≡◌, refl, ◌⊎◌, inl, inr,
}
use notify_hub.Ports.{Outcome, ok, raise}
use notify_hub.Telemetry.{TelemetryClient, noop, posthog}

pub record HeartbeatProperties : Type 0 where
  pub version : Text
  pub channel_types_enabled : List Text
  pub platform : Text

pub record PostHogHeartbeatPayload : Type 0 where
  pub version : Text
  pub channel_types_enabled : List Text
  pub platform : Text
  pub process_person_profile : Bool

unfoldable pub build_heartbeat_properties : HeartbeatProperties → PostHogHeartbeatPayload
build_heartbeat_properties props = record {
  version = props.version;
  channel_types_enabled = props.channel_types_enabled;
  platform = props.platform;
  process_person_profile = false;
}

-- What `capture` is called with.
pub record Capture : Type 0 where
  pub distinct_id : Text
  pub event : Text
  pub properties : PostHogHeartbeatPayload

-- `new PostHog(apiKey, { host })`, and the two calls of the client that are used.
pub record PostHogSdk : Type 0 where
  pub create : (api_key host : Text) → Outcome (Unit {0})
  pub capture : Capture → Outcome (Unit {0})
  pub shutdown : Outcome (Unit {0})

-- The calls of `capture`, and the error that was printed, if there was one.
pub record Sent : Type 0 where
  pub captured : List Capture
  pub printed : Option Text

-- The catch block.
ended : List Capture → Outcome (Unit {0}) → Sent
ended captured (ok done) = record { captured = captured; printed = none }
ended captured (raise e) = record { captured = captured; printed = some e }

after_capture : PostHogSdk → Capture → Outcome (Unit {0}) → Sent
unfolding ended
after_capture sdk c (ok done) = ended (c ∷ []) sdk.shutdown
after_capture sdk c (raise e) = ended (c ∷ []) (raise e)

after_create : PostHogSdk → Capture → Outcome (Unit {0}) → Sent
unfolding after_capture ended
after_create sdk c (ok done) = after_capture sdk c (sdk.capture c)
after_create sdk c (raise e) = ended [] (raise e)

unfoldable pub heartbeat_of : Text → HeartbeatProperties → Capture
unfolding build_heartbeat_properties
heartbeat_of distinct_id props = record {
  distinct_id = distinct_id;
  event = lit "notify_hub_heartbeat";
  properties = build_heartbeat_properties props;
}

-- `sendHeartbeat` of the two clients. It never rejects.
unfoldable pub send_heartbeat : PostHogSdk → TelemetryClient → HeartbeatProperties → Sent
unfolding after_create heartbeat_of
send_heartbeat sdk noop props = record { captured = []; printed = none }
send_heartbeat sdk (posthog api_key distinct_id) props =
    after_create sdk (heartbeat_of distinct_id props)
      (sdk.create api_key (lit "https://eu.i.posthog.com"))

ended-captured : (cs : List Capture) (o : Outcome (Unit {0})) → (ended cs o).captured ≡ cs
unfolding ended
ended-captured cs (ok done) = refl
ended-captured cs (raise e) = refl

after_capture-captured :
    (sdk : PostHogSdk) (c : Capture) (o : Outcome (Unit {0}))
    → (after_capture sdk c o).captured ≡ c ∷ []
unfolding after_capture
after_capture-captured sdk c (ok done) = ended-captured (c ∷ []) sdk.shutdown
after_capture-captured sdk c (raise e) = ended-captured (c ∷ []) (raise e)

after_create-captured :
    (sdk : PostHogSdk) (c : Capture) (o : Outcome (Unit {0}))
    → ((after_create sdk c o).captured ≡ []) ⊎ ((after_create sdk c o).captured ≡ c ∷ [])
unfolding after_create
after_create-captured sdk c (ok done) = inr (after_capture-captured sdk c (sdk.capture c))
after_create-captured sdk c (raise e) = inl (ended-captured [] (raise e))

-- At most one event, which is the heartbeat.
pub send_heartbeat-posthog :
    (sdk : PostHogSdk) (api_key distinct_id : Text) (props : HeartbeatProperties)
    → let captured = (send_heartbeat sdk (posthog api_key distinct_id) props).captured in
      (captured ≡ []) ⊎ (captured ≡ heartbeat_of distinct_id props ∷ [])
unfolding send_heartbeat
send_heartbeat-posthog sdk api_key distinct_id props =
    after_create-captured sdk (heartbeat_of distinct_id props) _
