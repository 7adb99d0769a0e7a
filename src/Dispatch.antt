-- ===== src/Dispatch.antt =====
-- src/dispatch/dispatch-service.ts
pub mod Resolve
pub mod FanOut
pub mod Targets
use notify_hub.Base.{
  Bool, ◌&&◌, not, Option, none, some, List, [], ◌∷◌, ◌++◌, map, Text, lit, has, if◌then◌else◌,
}
use notify_hub.Core.{ProfileRecord, DispatchJob, DeliveryJob, Value, undefined, str, arr, Items}
use notify_hub.Db.{Db}
use notify_hub.Db.Channels
use notify_hub.Ports.{
  Externals, Io, ◌>>=◌, ◌>>◌, pure, log, warn, object, value_of, random_uuid, QueuePort, World,
}
use notify_hub.Channels.Adapters.Publish.{items}

-- The loop of `resolveChannels`, with its set `seen` and its array `resolved`.
resolve_loop : List Text → List Text → List Text → List Text → List Text
resolve_loop enabled [] seen resolved = resolved
resolve_loop enabled (channel ∷ source) seen resolved =
    let fresh = has enabled channel && not (has seen channel) in
    resolve_loop enabled source (if fresh then channel ∷ seen else seen)
      (if fresh then resolved ++ channel ∷ [] else resolved)

abbrev pub source_of : List Text → Option (List Text) → List Text
source_of default_channels none = default_channels
source_of default_channels (some requested) = requested

unfoldable pub resolve_channels : List Text → Option (List Text) → List Text → List Text
unfolding resolve_loop
resolve_channels default_channels requested enabled =
    resolve_loop enabled (source_of default_channels requested) [] []

-- `this.deps.profileRepo?.get(id)?.defaultChannels ?? []`
default_channels_of : Option (Db → Text → Option ProfileRecord) → Db → Text → List Text
default_channels_of none db profile_id = []
default_channels_of (some get) db profile_id = elim (get db profile_id) [
  | none ↦ []
  | some profile ↦ profile.default_channels
]

-- `job.requestedChannels ? [] : …`; an empty array of requested channels is truthy.
unless_requested : Option (List Text) → List Text → List Text
unless_requested none default_channels = default_channels
unless_requested (some requested) default_channels = []

-- The ids that a job fans out to, with the tables as they are at dispatch time.
unfoldable pub targets : Option (Db → Text → Option ProfileRecord) → Db → DispatchJob → List Text
unfolding default_channels_of unless_requested resolve_channels
targets profile_repo db job =
    let enabled = map (λ c. c.id) (Channels.list_enabled db) in
    let default_channels =
      unless_requested job.requested_channels
        (default_channels_of profile_repo db job.profile_id) in
    resolve_channels default_channels job.requested_channels enabled

-- The loop that enqueues, one delivery after the other; a failure ends it.
unfoldable pub enqueue_each : QueuePort → DispatchJob → Text → List Text → Io (Unit {0})
enqueue_each queue job dispatch_job_id [] = pure tt
enqueue_each queue job dispatch_job_id (channel ∷ channels) = do
  queue.enqueue_delivery (record {
    notification = job.notification;
    channel = channel;
    dispatch_job_id = dispatch_job_id;
  })
  enqueue_each queue job dispatch_job_id channels

abbrev requested_value : Option (List Text) → Value
requested_value none = undefined
requested_value (some ids) = arr (items ids)

-- Nothing to do, or one correlation id for all deliveries.
fan_out : Externals → QueuePort → DispatchJob → List Text → Io (Unit {0})
unfolding enqueue_each
fan_out x queue job [] =
    log warn
      (object (
        (lit "profileId", str job.profile_id)
        ∷ (lit "profileName", value_of job.profile_name)
        ∷ (lit "requestedChannels", requested_value job.requested_channels)
        ∷ []))
      (lit "dispatch resolved to zero enabled instances; completing as a no-op")
fan_out x queue job (channel ∷ channels) = do
  dispatch_job_id ← random_uuid x
  enqueue_each queue job dispatch_job_id (channel ∷ channels)

unfoldable pub handle_dispatch :
    Externals → QueuePort → Option (Db → Text → Option ProfileRecord) → DispatchJob → Io (Unit {0})
unfolding targets fan_out
handle_dispatch x queue profile_repo job w = fan_out x queue job (targets profile_repo w.db job) w
