-- ===== src/Admin/Status/Gateway.antt =====
-- The status view of src/admin/status-service.ts in front of the gateway's own routes.
use notify_hub.Base.{
  Bool, true, Option, some, List, [], ◌∷◌, ◌++◌, map, filter, first, Text, lit, ◌==◌, ◌≡◌, refl, ap,
  ◌∙◌, Mem, inl, ==_refl, is_empty, arith,
}
use notify_hub.Base.Map.{lookup}
use notify_hub.Core.{Value, str, ChannelInstance, ProfileRecord}
use notify_hub.Db.{Db}
use notify_hub.Db.Channels
use notify_hub.Db.Profiles
use notify_hub.Db.Integrity.{IsConsistent}
use notify_hub.Ports.{Outcome, ok, HttpRequest, HttpResponse, HttpReply, QueuePort, World, items}
use notify_hub.Api.Routes.{get_channels, channels_as, get_health, health_reply, summary_value}
use notify_hub.Api.Bearer.{IsToken, extract_bearer_token-bearer, resolve_by_token-mem}
use notify_hub.Admin.WorkerLogs.{property}
use notify_hub.Admin.TestSend.{auth_headers, token_of}
use notify_hub.Admin.Status.{
  get_request, is_gateway_channel_summary, is_text, kept, listed, items_of, gateway_channels_of,
  health_of, redis_of, to_bool, fetch_gateway_status,
}

-- The answer that carries a reply, its body as `JSON.stringify` prints it.
abbrev pub served : (Value → Text) → HttpReply → HttpResponse
served stringify reply = record { status = reply.status; body = stringify reply.body }

-- The HttpClient reaches, at this URL, a gateway in this state, and what the gateway sends is parsed
-- back.
pub record IsGateway (stringify : Value → Text) (parse_json : Text → Option Value)
    (queue : QueuePort) (w : World) (url : Text) (http : HttpRequest → Outcome HttpResponse)
    : Type 0 where
  pub health_served :
      (reply : HttpReply)
      → (get_health queue w).0 ≡ ok reply
      → http (get_request (url ++ lit "/health") []) ≡ ok (served stringify reply)
  pub channels_served :
      (headers : List (Text × Text))
      → http (get_request (url ++ lit "/channels") headers)
        ≡ ok (served stringify (get_channels (lookup headers (lit "authorization")) w.db))
  pub health_parsed :
      (redis : Bool)
      → parse_json (stringify (health_reply redis).body) ≡ some (health_reply redis).body
  pub channels_parsed :
      (authorization : Option Text)
      → let sent = (get_channels authorization w.db).body in parse_json (stringify sent) ≡ some sent

pub items_of-items : (vs : List Value) → items_of (items vs) ≡ vs
unfolding items_of
items_of-items [] = refl
items_of-items (v ∷ vs) = ap (λ r. v ∷ r) (items_of-items vs)

filter-summary_value :
    (channels : List ChannelInstance)
    → filter is_gateway_channel_summary (map summary_value channels) ≡ map summary_value channels
unfolding is_gateway_channel_summary is_text property lit ◌==◌
filter-summary_value [] = refl
filter-summary_value (c ∷ channels) = ap (λ r. summary_value c ∷ r) (filter-summary_value channels)

filter-is_text : (ids : List Text) → filter is_text (map str ids) ≡ map str ids
unfolding is_text
filter-is_text [] = refl
filter-is_text (id ∷ ids) = ap (λ r. str id ∷ r) (filter-is_text ids)

listed-channels_as :
    (db : Db) (p : ProfileRecord)
    → listed (some (channels_as db (some p)).body)
      ≡ (map summary_value (Channels.list db), map str p.default_channels)
unfolding channels_as listed kept property lit ◌==◌
listed-channels_as db p =
    let cs = map summary_value (Channels.list db) in
    let ds = map str p.default_channels in
    rw (items_of-items cs, items_of-items ds)
      (rw (filter-summary_value (Channels.list db), filter-is_text p.default_channels) refl)

pub first-Mem : {A : Type 0} (xs : List A) (x : A) → first xs ≡ some x → Mem x xs
first-Mem [] x h = cc
first-Mem (y ∷ xs) x h = inl (ground arith)

pub channels_status : (db : Db) (p : ProfileRecord) → (channels_as db (some p)).status ≡ 200
unfolding channels_as
channels_status db p = refl

redis_of-health_reply : (redis : Bool) → redis_of (some (health_reply redis).body) ≡ some redis
unfolding redis_of to_bool property lit ◌==◌
redis_of-health_reply redis = refl

lookup-auth_headers :
    (t : Text)
    → IsToken t
    → lookup (auth_headers (some t)) (lit "authorization") ≡ some (lit "Bearer " ++ t)
unfolding auth_headers is_empty lookup
lookup-auth_headers [] (nonempty, h) = absurd (nonempty refl)
lookup-auth_headers (c ∷ t) h = rw (==_refl (lit "authorization")) refl

pub get_channels-mem :
    (db : Db) (p : ProfileRecord)
    → IsConsistent db
    → Mem p (Profiles.list db)
    → IsToken p.token
    → get_channels (lookup (auth_headers (some p.token)) (lit "authorization")) db
      ≡ channels_as db (some p)
unfolding get_channels
get_channels-mem db p consistent there token = rw (lookup-auth_headers p.token token) (
    rw (extract_bearer_token-bearer p.token token)
      (rw (resolve_by_token-mem db p consistent there token.0) refl))

module _ (stringify : Value → Text) (parse_json : Text → Option Value) (queue : QueuePort)
    (w : World) (url : Text) (http : HttpRequest → Outcome HttpResponse)
    (gateway : IsGateway stringify parse_json queue w url http) where
  pub get_health-alive :
      (redis : Bool)
      → (queue.health w).0 ≡ ok redis
      → (get_health queue w).0 ≡ ok (health_reply redis)
  unfolding get_health
  get_health-alive redis alive = rw alive refl

  health_of-gateway :
      (redis : Bool)
      → (queue.health w).0 ≡ ok redis
      → health_of parse_json (http (get_request (url ++ lit "/health") [])) ≡ (true, some redis)
  unfolding health_of
  health_of-gateway redis alive =
      rw (gateway.health_served (health_reply redis) (get_health-alive redis alive))
        (rw (gateway.health_parsed redis) (ap (λ r. (true, r)) (redis_of-health_reply redis)))

  -- What the gateway answers to a request with the profile's token.
  gateway_channels_of-sent :
      (reply : HttpReply) (out : List Value × List Value)
      → reply.status ≡ 200
      → parse_json (stringify reply.body) ≡ some reply.body
      → listed (some reply.body) ≡ out
      → gateway_channels_of parse_json (ok (served stringify reply)) ≡ out
  unfolding gateway_channels_of
  gateway_channels_of-sent reply out good parsed e = rw (good, parsed) e

  gateway_channels_of-gateway :
      (p : ProfileRecord)
      → IsConsistent w.db
      → Mem p (Profiles.list w.db)
      → IsToken p.token
      → gateway_channels_of parse_json
          (http (get_request (url ++ lit "/channels") (auth_headers (some p.token))))
        ≡ (map summary_value (Channels.list w.db), map str p.default_channels)
  gateway_channels_of-gateway p consistent there token =
      let sent = get_channels-mem w.db p consistent there token in
      let authorization = lookup (auth_headers (some p.token)) (lit "authorization") in
      ap (gateway_channels_of parse_json) (gateway.channels_served (auth_headers (some p.token)))
      ∙ gateway_channels_of-sent (get_channels authorization w.db)
          (map summary_value (Channels.list w.db), map str p.default_channels)
          (ap (λ (r : HttpReply). r.status) sent ∙ channels_status w.db p)
          (gateway.channels_parsed authorization)
          (ap (λ (r : HttpReply). listed (some r.body)) sent ∙ listed-channels_as w.db p)

  -- In front of a gateway that answers, whose queue's health resolves, and whose consistent database
  -- has a first profile with a token that is not empty and has no white space: the status view shows
  -- the gateway as up, what the queue says of Redis, every channel instance of the repository in
  -- order, none left out, and the profile's default channels.
  pub fetch_gateway_status-gateway :
      (redis : Bool) (p : ProfileRecord)
      → (queue.health w).0 ≡ ok redis
      → IsConsistent w.db
      → first (Profiles.list w.db) ≡ some p
      → IsToken p.token
      → fetch_gateway_status parse_json http url (token_of (first (Profiles.list w.db))) ≡ record {
        up = true;
        redis = some redis;
        channels = map summary_value (Channels.list w.db);
        default_channels = map str p.default_channels;
      }
  unfolding fetch_gateway_status token_of
  fetch_gateway_status-gateway redis p alive consistent e token =
      let shown : gateway_channels_of parse_json
            (http (get_request (url ++ lit "/channels") (auth_headers (token_of (some p)))))
          ≡ (map summary_value (Channels.list w.db), map str p.default_channels) =
        gateway_channels_of-gateway p consistent (first-Mem _ p e) token in
      rw e (rw (health_of-gateway redis alive) (rw shown refl))
