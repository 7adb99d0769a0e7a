-- ===== src/Channels/Decorators.antt =====
-- src/channels/decorators and src/channels/build-instance.ts
pub mod Laws
use notify_hub.Base.{
  ℕ, zero, suc, ◌-◌, ◌++◌, [], ◌∷◌, List, Option, none, some, Text, lit, take, length, leb,
  if◌then◌else◌,
}
use notify_hub.Base.Map.{Map, lookup}
use notify_hub.Core.{Notification, ChannelInstance, str}
use notify_hub.Ports.{
  Externals, Io, ◌>>=◌, ◌>>◌, throw, try_catch, log, info, error, object, NotificationChannel,
  Outcome, ok, raise,
}
use notify_hub.Channels.Registry.{ChannelRegistryEntry, channel_registry}

-- `s.slice(0, limit - 1)`: at limit 0 the end is -1, which counts from the end.
unfoldable pub slice_before : ℕ → Text → Text
slice_before zero s = take (length s - 1) s
slice_before (suc n) s = take n s

-- What TruncatingChannel sends: `none` is no limit.
unfoldable pub truncated : Option ℕ → Text → Text
unfolding slice_before
truncated none message = message
truncated (some limit) message =
    if leb (length message) limit then message else slice_before limit message ++ lit "…"

unfoldable pub truncating_channel : NotificationChannel → Option ℕ → NotificationChannel
unfolding truncated
truncating_channel inner limit = record {
  name = inner.name;
  send = λ n. inner.send (record n { message = truncated limit n.message });
}

unfoldable pub logging_channel : NotificationChannel → Text → NotificationChannel
logging_channel inner name = record {
  name = name;
  send = λ n. do
    log info (object ((lit "channel", str name) ∷ [])) (lit "sending notification")
    try_catch (inner.send n)
        (λ _. log info (object ((lit "channel", str name) ∷ [])) (lit "notification sent"))
        (λ e. do
          log error (object ((lit "channel", str name) ∷ (lit "error", str e) ∷ []))
              (lit "notification send failed")
          throw e);
}

-- The channel of an entry under its decorators, logged under the instance's id.
unfoldable pub wrap : Externals → ChannelInstance → ChannelRegistryEntry → NotificationChannel
unfolding logging_channel truncating_channel
wrap x instance' entry =
    logging_channel (truncating_channel (entry.factory x instance'.config) entry.max_length)
      instance'.id

unfoldable pub build_entry :
    Externals → ChannelInstance → Option ChannelRegistryEntry → Outcome NotificationChannel
unfolding wrap
build_entry x instance' none = raise (
    lit "Unknown channel type \""
    ++ (instance'.type ++ (lit "\" for instance \"" ++ (instance'.id ++ lit "\""))))
build_entry x instance' (some entry) = ok (wrap x instance' entry)

unfoldable pub build_instance :
    Externals → Map ChannelRegistryEntry → ChannelInstance → Outcome NotificationChannel
unfolding lookup build_entry
build_instance x registry instance' = build_entry x instance' (lookup registry instance'.type)
