-- ===== src/Api/Routes.antt =====
-- src/api/routes/channels.ts and src/api/routes/health.ts
use notify_hub.Base.{Bool, Option, none, some, [], ◌∷◌, map, Text, lit}
use notify_hub.Core.{Value, str, bool, arr, obj, ChannelInstance, ProfileRecord}
use notify_hub.Db.{Db}
use notify_hub.Db.Channels
use notify_hub.Db.Profiles
use notify_hub.Ports.{Io, ◌>>=◌, pure, HttpReply, reply, error_reply, object, items, QueuePort}
use notify_hub.Api.{Reply, accepted, bad_request, unauthorized, unavailable, extract_bearer_token}

-- What the list shows of an instance: nothing of its configuration.
abbrev pub summary_value : ChannelInstance → Value
summary_value channel = obj (
    object (
      (lit "id", str channel.id)
      ∷ (lit "label", str channel.label)
      ∷ (lit "type", str channel.type)
      ∷ (lit "enabled", bool channel.enabled)
      ∷ []))

-- The route after its `preHandler`, which replies 401 when no profile has the token.
unfoldable pub channels_as : Db → Option ProfileRecord → HttpReply
unfolding Channels.list
channels_as db none = error_reply 401 (lit "unauthorized")
channels_as db (some profile) = reply 200 (
    (lit "channels", arr (items (map summary_value (Channels.list db))))
    ∷ (lit "defaultChannels", arr (items (map str profile.default_channels)))
    ∷ [])

-- `GET /channels` with this `Authorization` header.
unfoldable pub get_channels : Option Text → Db → HttpReply
unfolding channels_as extract_bearer_token Profiles.resolve_by_token
get_channels authorization db =
    channels_as db (Profiles.resolve_by_token db (extract_bearer_token authorization))

abbrev pub health_reply : Bool → HttpReply
health_reply redis = reply 200 ((lit "status", str (lit "ok")) ∷ (lit "redis", bool redis) ∷ [])

-- `GET /health`
unfoldable pub get_health : QueuePort → Io HttpReply
get_health queue = queue.health >>= λ redis. pure (health_reply redis)

-- The statuses and bodies of `POST /notify`.
unfoldable pub notify_reply : Reply → HttpReply
notify_reply (accepted job_id) = reply 202 ((lit "jobId", str job_id) ∷ [])
notify_reply (bad_request error) = error_reply 400 error
notify_reply unauthorized = error_reply 401 (lit "unauthorized")
notify_reply unavailable = error_reply 503 (lit "notification queue unavailable")
