-- ===== src/Tests/Fronting.antt =====
-- A gateway behind an HttpClient, with a printer and a parser of what it sends.
use notify_hub.Base.{
  Bool, true, false, Option, none, some, ◌++◌, map, first, Text, lit, ◌==◌, if◌then◌else◌, is_space,
  ◌≡◌, refl, ap, Option-cases, inl, join, inr, Mem, ◌⊎◌,
}
use notify_hub.Base.Map.{lookup}
use notify_hub.Core.{Value, str, bool, obj, end, field, ProfileRecord}
use notify_hub.Db.Channels
use notify_hub.Db.Profiles
use notify_hub.Db.Profiles.Rows.{resolve_by_token_sound}
use notify_hub.Ports.{
  Outcome, ok, raise, HttpRequest, HttpResponse, HttpReply, QueuePort, error_reply,
}
use notify_hub.Container.{registered_queue}
use notify_hub.Api.{extract_bearer_token}
use notify_hub.Api.Routes.{get_channels, channels_as, get_health, health_reply, summary_value}
use notify_hub.Api.Bearer.{IsToken}
use notify_hub.Admin.TestSend.{token_of}
use notify_hub.Admin.Status.{get_request, fetch_gateway_status}
use notify_hub.Admin.Status.Gateway.{served, IsGateway, fetch_gateway_status-gateway}
use notify_hub.Mcp.{text_result}
use notify_hub.Mcp.Sending.{list_channels, check_gateway_health, first_token, listing}
use notify_hub.Mcp.Sending.Listing.{parsed_value, fetch, summary_line, list_channels-gateway}
use notify_hub.Tests.Samples.{answering, start, hub, ops, hub-IsConsistent}

-- A printer that tells the three bodies of this gateway apart.
unfoldable print : Value → Text
print (obj (field _ (str s) (field _ (bool b) end))) = if b then lit "up" else lit "down"
print (obj (field _ (str s) end)) = lit "unauthorized"
print _ = lit "channels"

unfoldable parse : Text → Outcome Value
parse s =
    if s == lit "up"
    then ok (health_reply true).body
    else if s == lit "down"
    then ok (health_reply false).body
    else if s == lit "unauthorized"
    then ok (error_reply 401 (lit "unauthorized")).body
    else ok (channels_as hub (some ops)).body

abbrev parse_json : Text → Option Value
parse_json s = parsed_value (parse s)

abbrev queue : QueuePort
queue = registered_queue (answering 200)

is_health : Option Text → Bool
is_health none = false
is_health (some url) = url == lit "http://hub/health"

unfoldable site : HttpRequest → Outcome HttpResponse
unfolding is_health
site request =
    if is_health request.url
    then ok (served print (health_reply true))
    else ok (served print (get_channels (lookup request.headers (lit "authorization")) hub))

listed : (p : ProfileRecord) → Mem p (Profiles.list hub) → (p ≡ ops) ⊎ ⊥
unfolding Profiles.list ◌==◌ lit
listed p there = there

first_is : first (Profiles.list hub) ≡ some ops
unfolding Profiles.list ◌==◌ lit
first_is = refl

ops-IsToken : IsToken ops.token
unfolding is_space lit
ops-IsToken = (λ e. cc e, refl)

health_parsed :
    (redis : Bool) → parse_json (print (health_reply redis).body) ≡ some (health_reply redis).body
unfolding parse print lit ◌==◌
health_parsed true = refl
health_parsed false = refl

served_outcome : Outcome HttpReply → Outcome HttpResponse
served_outcome (ok r) = ok (served print r)
served_outcome (raise e) = raise e

health_served :
    (reply : HttpReply)
    → (get_health queue start).0 ≡ ok reply
    → ok (served print (health_reply true)) ≡ ok (served print reply)
unfolding get_health served_outcome registered_queue
health_served reply e = ap served_outcome e

resolves :
    (authorization : Option Text)
    → let sent = (get_channels authorization hub).body in parse_json (print sent) ≡ some sent
unfolding get_channels
resolves authorization =
    elim (Option-cases (Profiles.resolve_by_token hub (extract_bearer_token authorization))) [
      | inl nobody ↦ rw nobody (unfold channels_as print parse lit ◌==◌ in refl)
      | inr (p, found) ↦
          let there = (resolve_by_token_sound hub _ p found).2 in
          let same : p ≡ ops = elim (listed p there) [
            | inl e ↦ e
            | inr none_left ↦ absurd none_left
          ] in
          rw found (rw same (unfold channels_as print parse lit ◌==◌ in refl))
    ]

fronted : IsGateway print parse_json queue start (lit "http://hub") site
unfolding site get_request print parse lit ◌==◌ get_health
fronted = record {
  health_served = health_served;
  channels_served = λ headers. refl;
  health_parsed = health_parsed;
  channels_parsed = resolves;
}

fetch_gateway_status-gateway_example :
    fetch_gateway_status parse_json site (lit "http://hub") (token_of (first (Profiles.list hub)))
    ≡ record {
      up = true;
      redis = some true;
      channels = map summary_value (Channels.list hub);
      default_channels = map str ops.default_channels;
    }
unfolding registered_queue
fetch_gateway_status-gateway_example =
    fetch_gateway_status-gateway print parse_json queue start (lit "http://hub") site fronted true
      ops refl hub-IsConsistent first_is ops-IsToken

list_channels-gateway_example :
    (list_channels
        (fetch (λ n. lit "status") print parse queue start (lit "http://hub") site fronted)
        print
        parse
        (lit "http://hub")
        first_token
        hub
      ≡ some (
          text_result (
            listing (map summary_line (Channels.list hub)) (join ops.default_channels (lit ", ")))))
    × (check_gateway_health
          (fetch (λ n. lit "status") print parse queue start (lit "http://hub") site fronted)
          print
          parse
          (lit "http://hub")
          first_token
        ≡ some (
            text_result
              (lit "Gateway status: ok, redis: " ++ (if true then lit "true" else lit "false"))))
unfolding registered_queue
list_channels-gateway_example =
    list_channels-gateway (λ n. lit "status") print parse queue start (lit "http://hub") site
      fronted true ops refl hub-IsConsistent first_is ops-IsToken
