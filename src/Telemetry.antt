-- ===== src/Telemetry.antt =====
-- src/telemetry/resolve-telemetry-enabled.ts and build-telemetry-client.ts
pub mod OptIn
pub mod Heartbeat
use notify_hub.Base.{
  Bool, true, false, ◌&&◌, ◌||◌, not, Option, none, some, Text, lit, ◌==◌, trim, is_empty,
  if◌then◌else◌,
}
use notify_hub.Base.Map.{Map, lookup}
use notify_hub.Ports.{Externals}

is_truthy_string : Externals → Option Text → Bool
is_truthy_string x none = false
is_truthy_string x (some value) =
    let v = x.lower_case (trim value) in v == lit "true" || v == lit "1"

is_do_not_track_set : Option Text → Bool
unfolding is_empty
is_do_not_track_set none = false
is_do_not_track_set (some value) = not (is_empty (trim value))

unfoldable pub is_telemetry_enabled : Externals → Map Text → Bool
unfolding is_truthy_string is_do_not_track_set lookup
is_telemetry_enabled x env =
    if is_do_not_track_set (lookup env (lit "DO_NOT_TRACK"))
    then false
    else is_truthy_string x (lookup env (lit "TELEMETRY_ENABLED"))

pub data TelemetryClient : Type 0 where
  noop : TelemetryClient
  posthog : Text → Text → TelemetryClient

client_with : Bool → Option Text → Text → TelemetryClient
unfolding is_empty
client_with enabled none distinct_id = noop
client_with enabled (some api_key) distinct_id =
    if not enabled || is_empty api_key then noop else posthog api_key distinct_id

unfoldable pub build_telemetry_client : Externals → Map Text → Text → TelemetryClient
unfolding is_telemetry_enabled client_with lookup
build_telemetry_client x env distinct_id =
    client_with (is_telemetry_enabled x env) (lookup env (lit "POSTHOG_API_KEY")) distinct_id
