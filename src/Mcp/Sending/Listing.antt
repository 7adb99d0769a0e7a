-- ===== src/Mcp/Sending/Listing.antt =====
-- The tools that read, in front of the gateway's own routes: src/mcp/register-send-tools.ts
use notify_hub.Base.{
  ℕ, Bool, Option, none, some, List, [], ◌∷◌, ◌++◌, map, first, Text, lit, ◌==◌, join,
  if◌then◌else◌, ◌≡◌, refl, ap, ◌∙◌, Mem,
}
use notify_hub.Base.Map.{lookup}
use notify_hub.Core.{Value, str, arr, ChannelInstance, ProfileRecord}
use notify_hub.Db.{Db}
use notify_hub.Db.Channels
use notify_hub.Db.Profiles
use notify_hub.Db.Integrity.{IsConsistent}
use notify_hub.Ports.{
  Outcome, ok, raise, HttpRequest, HttpResponse, HttpReply, QueuePort, World, items,
}
use notify_hub.Api.Routes.{get_channels, channels_as, health_reply, summary_value}
use notify_hub.Api.Bearer.{IsToken}
use notify_hub.Admin.WorkerLogs.{property}
use notify_hub.Admin.TestSend.{auth_headers, token_of}
use notify_hub.Admin.Status.{get_request}
use notify_hub.Admin.Status.Gateway.{
  served, IsGateway, get_channels-mem, get_health-alive, channels_status, first-Mem,
}
use notify_hub.Mcp.{ToolResult, text_result}
use notify_hub.Mcp.Values.{to_text, join_items, property_of, is_truthy}
use notify_hub.Mcp.Sending.{
  Fetch, resolve_token, token_headers, parsed_body, is_ok, read_body, answer_with, text_at, line,
  channel_line, lines_of, channel_lines, joined, listing, show_channels, show_health, list_channels,
  check_gateway_health, sent_body, new_response, as_response, http_client_as_fetch, first_token,
}

-- The line of an instance.
abbrev pub summary_line : ChannelInstance → Text
summary_line channel = line channel.label channel.id channel.type channel.enabled

channel_line-summary_value :
    (c : ChannelInstance) → channel_line (summary_value c) ≡ some (summary_line c)
unfolding channel_line text_at property_of property to_text is_truthy lit ◌==◌
channel_line-summary_value c = refl

lines_of-items :
    (cs : List ChannelInstance)
    → lines_of (items (map summary_value cs)) ≡ some (map summary_line cs)
unfolding lines_of
lines_of-items [] = refl
lines_of-items (c ∷ cs) = rw (channel_line-summary_value c, lines_of-items cs) refl

join_items-items :
    (sep : Text) (ids : List Text) → join_items sep (items (map str ids)) ≡ some (join ids sep)
unfolding join_items join
join_items-items sep [] = refl
join_items-items sep (id ∷ []) = refl
join_items-items sep (id ∷ next ∷ ids) = rw (join_items-items sep (next ∷ ids)) refl

channels_as-channels :
    (db : Db) (p : ProfileRecord)
    → property_of (channels_as db (some p)).body (lit "channels")
      ≡ some (arr (items (map summary_value (Channels.list db))))
unfolding channels_as property_of property lit ◌==◌
channels_as-channels db p = refl

channels_as-default_channels :
    (db : Db) (p : ProfileRecord)
    → property_of (channels_as db (some p)).body (lit "defaultChannels")
      ≡ some (arr (items (map str p.default_channels)))
unfolding channels_as property_of property lit ◌==◌
channels_as-default_channels db p = refl

show_channels-channels_as :
    (db : Db) (p : ProfileRecord)
    → show_channels (channels_as db (some p)).body
      ≡ some (
          text_result
            (listing (map summary_line (Channels.list db)) (join p.default_channels (lit ", "))))
unfolding show_channels channel_lines joined
show_channels-channels_as db p =
    rw (channels_as-channels db p, lines_of-items (Channels.list db))
      (rw (channels_as-default_channels db p)
        (rw (join_items-items (lit ", ") p.default_channels) refl))

show_health-health_reply :
    (redis : Bool)
    → show_health (health_reply redis).body
      ≡ some (
          text_result
            (lit "Gateway status: ok, redis: " ++ (if redis then lit "true" else lit "false")))
unfolding show_health text_at property_of property to_text lit ◌==◌
show_health-health_reply redis = refl

-- What a tool makes of an answer that was sent with status 200.
answer_with-served :
    (refuse : ℕ → Text) (stringify : Value → Text) (parse : Text → Outcome Value)
    (show : Value → Option ToolResult) (reply : HttpReply)
    → reply.status ≡ 200
    → parse (stringify reply.body) ≡ ok reply.body
    → answer_with parse show (as_response refuse (ok (served stringify reply))) ≡ show reply.body
unfolding answer_with as_response new_response read_body is_ok parsed_body
answer_with-served refuse stringify parse show reply good parsed = rw good (rw parsed refl)

token_headers-auth_headers : (token : Option Text) → token_headers token ≡ auth_headers token
unfolding token_headers auth_headers
token_headers-auth_headers none = refl
token_headers-auth_headers (some token) = refl

-- `JSON.parse`, with its error forgotten.
abbrev pub parsed_value : Outcome Value → Option Value
parsed_value (ok v) = some v
parsed_value (raise e) = none

parsed_value-some : (o : Outcome Value) (v : Value) → parsed_value o ≡ some v → o ≡ ok v
parsed_value-some (ok u) v e = cc
parsed_value-some (raise m) v e = absurd (cc e)

module _ (refuse : ℕ → Text) (stringify : Value → Text) (parse : Text → Outcome Value)
    (queue : QueuePort) (w : World) (url : Text) (http : HttpRequest → Outcome HttpResponse)
    (gateway : IsGateway stringify (λ s. parsed_value (parse s)) queue w url http) where
  abbrev pub fetch : Fetch
  fetch = http_client_as_fetch refuse parse (some http)

  fetched :
      (target : Text) (headers : List (Text × Text))
      → fetch target (record { method = lit "GET"; headers = headers; body = none })
        ≡ as_response refuse (http (get_request target headers))
  unfolding http_client_as_fetch sent_body get_request
  fetched target headers = refl

  check_gateway_health-gateway :
      (redis : Bool)
      → (queue.health w).0 ≡ ok redis
      → check_gateway_health fetch stringify parse url first_token
        ≡ some (
            text_result
              (lit "Gateway status: ok, redis: " ++ (if redis then lit "true" else lit "false")))
  unfolding check_gateway_health
  check_gateway_health-gateway redis alive =
      let reply = health_reply redis in
      let answer = gateway.health_served reply (
        get_health-alive stringify (λ s. parsed_value (parse s)) queue w url http gateway redis
          alive) in
      ap (answer_with parse show_health)
        (fetched (url ++ lit "/health") [] ∙ ap (as_response refuse) answer)
      ∙ answer_with-served refuse stringify parse show_health reply refl
          (parsed_value-some _ _ (gateway.health_parsed redis))
      ∙ show_health-health_reply redis

  list_channels-sent :
      (p : ProfileRecord)
      → IsConsistent w.db
      → Mem p (Profiles.list w.db)
      → IsToken p.token
      → answer_with parse show_channels (
          fetch
            (url ++ lit "/channels")
            (record { method = lit "GET"; headers = token_headers (some p.token); body = none }))
        ≡ some (
            text_result (
              listing (map summary_line (Channels.list w.db)) (join p.default_channels (lit ", "))))
  list_channels-sent p consistent there token =
      let headers = auth_headers (some p.token) in
      let sent = get_channels-mem w.db p consistent there token in
      let authorization = lookup headers (lit "authorization") in
      ap
        (λ hs. answer_with parse show_channels (
          fetch (url ++ lit "/channels")
            (record { method = lit "GET"; headers = hs; body = none })))
        (token_headers-auth_headers (some p.token))
      ∙ ap (answer_with parse show_channels) (
          fetched (url ++ lit "/channels") headers
          ∙ ap (as_response refuse) (gateway.channels_served headers))
      ∙ answer_with-served refuse stringify parse show_channels (get_channels authorization w.db)
          (ap (λ (r : HttpReply). r.status) sent ∙ channels_status w.db p)
          (parsed_value-some _ _ (gateway.channels_parsed authorization))
      ∙ ap (λ (r : HttpReply). show_channels r.body) sent
      ∙ show_channels-channels_as w.db p

  -- The server of src/admin/routes/mcp-route.ts in front of a gateway that answers: where the queue's
  -- health resolves, and the consistent database has a first profile with a token that is not empty
  -- and has no white space, `list_channels` shows one line for every channel instance of the
  -- repository, in order, and the profile's default channels, and `check_gateway_health` shows what
  -- the queue says of Redis. Neither throws nor is an error.
  pub list_channels-gateway :
      (redis : Bool) (p : ProfileRecord)
      → (queue.health w).0 ≡ ok redis
      → IsConsistent w.db
      → first (Profiles.list w.db) ≡ some p
      → IsToken p.token
      → (list_channels fetch stringify parse url first_token w.db
          ≡ some (
              text_result (
                listing
                  (map summary_line (Channels.list w.db))
                  (join p.default_channels (lit ", ")))))
        × (check_gateway_health fetch stringify parse url first_token
            ≡ some (
                text_result (
                  lit "Gateway status: ok, redis: "
                  ++ (if redis then lit "true" else lit "false"))))
  unfolding list_channels resolve_token first_token token_of
  list_channels-gateway redis p alive consistent e token = (
    rw e (list_channels-sent p consistent (first-Mem _ p e) token),
    check_gateway_health-gateway redis alive,
  )
