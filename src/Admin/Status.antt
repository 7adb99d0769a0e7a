-- ===== src/Admin/Status.antt =====
-- src/admin/status-service.ts, with `fetchGatewayStatus` of src/admin/gateway-client.ts.
pub mod Gateway
use notify_hub.Base.{
  ℕ, Bool, true, false, ◌&&◌, Option, none, some, List, [], ◌∷◌, ◌++◌, filter, first, length, drop,
  Text, lit, ◌==◌, is_empty, eqb, ℤ, pos, negsuc, not, if◌then◌else◌,
}
use notify_hub.Core.{
  Value, undefined, null, bool, num, str, arr, obj, Items, nil, cons, Fields, end, field,
  ProfileRecord,
}
use notify_hub.Db.{Db}
use notify_hub.Db.Profiles
use notify_hub.Ports.{Outcome, ok, raise, HttpRequest, HttpResponse}
use notify_hub.Admin.WorkerLogs.{WorkerDeliveryEvent, property}
use notify_hub.Admin.TestSend.{
  Surroundings, CommandResult, base_url, auth_headers, token_of, fetch_worker_delivery_events,
}

-- A channel is the object that the gateway sent.
pub record GatewayStatus : Type 0 where
  pub up : Bool
  pub redis : Option Bool
  pub channels : List Value
  pub default_channels : List Value

unfoldable pub is_text : Value → Bool
is_text (str s) = true
is_text _ = false

is_bool : Value → Bool
is_bool (bool b) = true
is_bool _ = false

unfoldable pub is_gateway_channel_summary : Value → Bool
unfolding is_text is_bool property
is_gateway_channel_summary (obj fields) =
    is_text (property fields (lit "id"))
    && is_text (property fields (lit "label"))
    && is_text (property fields (lit "type"))
    && is_bool (property fields (lit "enabled"))
is_gateway_channel_summary _ = false

-- `Boolean(value)` of a property that is there; parsed JSON has no `undefined`.
to_bool : Value → Option Bool
unfolding is_empty
to_bool undefined = none
to_bool null = some false
to_bool (bool b) = some b
to_bool (num (pos n)) = some (not (eqb n 0))
to_bool (num (negsuc n)) = some true
to_bool (str s) = some (not (is_empty s))
to_bool (arr items) = some true
to_bool (obj fields) = some true

unfoldable pub redis_of : Option Value → Option Bool
unfolding to_bool property
redis_of (some (obj fields)) = to_bool (property fields (lit "redis"))
redis_of _ = none

-- The answer of /health: whether the gateway is up, and what it says of Redis.
unfoldable pub health_of : (Text → Option Value) → Outcome HttpResponse → Bool × Option Bool
unfolding redis_of
health_of parse_json (raise e) = (false, none)
health_of parse_json (ok response) =
    if eqb response.status 200 then (true, redis_of (parse_json response.body)) else (false, none)

unfoldable pub items_of : Items → List Value
items_of nil = []
items_of (cons v items) = v ∷ items_of items

-- `Array.isArray(value) ? value.filter(keep) : []`
unfoldable pub kept : (Value → Bool) → Value → List Value
unfolding items_of
kept keep (arr items) = filter keep (items_of items)
kept keep _ = []

-- The two lists in the answer of /channels.
unfoldable pub listed : Option Value → List Value × List Value
unfolding kept property is_gateway_channel_summary is_text
listed (some (obj fields)) = (
  kept is_gateway_channel_summary (property fields (lit "channels")),
  kept is_text (property fields (lit "defaultChannels")),
)
listed _ = ([], [])

unfoldable pub gateway_channels_of :
    (Text → Option Value) → Outcome HttpResponse → List Value × List Value
unfolding listed
gateway_channels_of parse_json (raise e) = ([], [])
gateway_channels_of parse_json (ok response) =
    if eqb response.status 200 then listed (parse_json response.body) else ([], [])

unfoldable pub get_request : Text → List (Text × Text) → HttpRequest
get_request url headers = record {
  method = lit "GET";
  url = some url;
  headers = headers;
  body = undefined;
}

unfoldable pub fetch_gateway_status :
    (Text → Option Value)
    → (HttpRequest → Outcome HttpResponse)
    → Text
    → Option Text
    → GatewayStatus
unfolding health_of gateway_channels_of get_request auth_headers
fetch_gateway_status parse_json http url token =
    let (up, redis) = health_of parse_json (http (get_request (url ++ lit "/health") [])) in
    let (channels, default_channels) =
      gateway_channels_of parse_json
        (http (get_request (url ++ lit "/channels") (auth_headers token))) in
    record { up = up; redis = redis; channels = channels; default_channels = default_channels }

-- Without an HttpClient.
abbrev pub down : GatewayStatus
down = record { up = false; redis = none; channels = []; default_channels = [] }

unfoldable pub gateway_status :
    (Text → Option Value)
    → Option (HttpRequest → Outcome HttpResponse)
    → Text
    → Option Text
    → GatewayStatus
unfolding fetch_gateway_status
gateway_status parse_json none url token = down
gateway_status parse_json (some http) url token = fetch_gateway_status parse_json http url token

unfoldable pub deliveries_with :
    Surroundings → Option (Outcome CommandResult) → Outcome (List WorkerDeliveryEvent)
unfolding fetch_worker_delivery_events
deliveries_with x none = ok []
deliveries_with x (some run) = fetch_worker_delivery_events x run

-- `redis` is shown only while the gateway is up.
pub record StatusSummary : Type 0 where
  pub gateway : GatewayStatus
  pub recent_deliveries : List WorkerDeliveryEvent

unfoldable pub get_status_summary :
    Surroundings
    → Option (HttpRequest → Outcome HttpResponse)
    → Option (Outcome CommandResult)
    → Db
    → Outcome StatusSummary
unfolding gateway_status deliveries_with base_url token_of Profiles.list
get_status_summary x http logs db =
    let gateway =
      gateway_status x.externals.parse_json http (base_url x.gateway_base_url)
        (token_of (first (Profiles.list db))) in
    elim (deliveries_with x logs) [
      | raise e ↦ raise e
      | ok events ↦ ok (record { gateway = gateway; recent_deliveries = events })
    ]
