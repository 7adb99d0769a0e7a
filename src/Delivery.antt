-- ===== src/Delivery.antt =====
-- src/delivery/delivery-service.ts
pub mod Laws
pub mod Decision
use notify_hub.Base.{
  Bool, true, false, not, Option, none, some, [], ◌∷◌, ◌++◌, Text, lit, ℤ, pos, sub_ℕ,
  if◌then◌else◌,
}
use notify_hub.Base.Map.{Map}
use notify_hub.Core.{ChannelInstance, DeliveryJob, DeliveryResult, str, bool, num}
use notify_hub.Db.Channels
use notify_hub.Channels.Registry.{ChannelRegistryEntry}
use notify_hub.Channels.Decorators.{build_instance}
use notify_hub.Ports.{
  Externals, Io, ◌>>=◌, ◌>>◌, pure, throw, try_catch, log, warn, error, object, now,
  NotificationChannel, World, Outcome, ok, raise,
}

-- A missing or disabled instance: a warning and a result with no attempt.
unfoldable pub skip : DeliveryJob → Text → Io DeliveryResult
skip job reason = do
  log warn (object ((lit "channel", str job.channel) ∷ (lit "reason", str reason) ∷ []))
      (lit "delivery skipped for instance \"" ++ (job.channel ++ lit "\" (missing or disabled)"))
  pure
      (record { channel = job.channel; ok = true; error = none; attempts = 0; duration_ms = pos 0 })

abbrev pub failed_msg : Text → Text
failed_msg channel = lit "delivery failed for instance \"" ++ (channel ++ lit "\"")

-- The `catch`: the failing result is logged, and the error is thrown again.
unfoldable pub fail : DeliveryJob → ℤ → Text → Io DeliveryResult
fail job duration_ms message = do
  log error
      (object (
        (lit "channel", str job.channel)
        ∷ (lit "ok", bool false)
        ∷ (lit "error", str message)
        ∷ (lit "attempts", num (pos 1))
        ∷ (lit "durationMs", num duration_ms)
        ∷ []))
      (failed_msg job.channel)
  throw message

-- The timed send through the channel that was built.
unfoldable pub timed_send : Externals → DeliveryJob → NotificationChannel → Io DeliveryResult
unfolding fail
timed_send x job channel = do
  start ← now x
  try_catch (channel.send job.notification)
      (λ _. do
        end' ← now x
        pure (record {
          channel = job.channel;
          ok = true;
          error = none;
          attempts = 1;
          duration_ms = sub_ℕ end' start;
        }))
      (λ message. do end' ← now x; fail job (sub_ℕ end' start) message)

-- `buildInstance` stands outside the `try`: its error is not logged here.
unfoldable pub send_built :
    Externals → DeliveryJob → Outcome NotificationChannel → Io DeliveryResult
unfolding timed_send
send_built x job (ok channel) = timed_send x job channel
send_built x job (raise e) = throw e

unfoldable pub deliver_to :
    Externals → Map ChannelRegistryEntry → DeliveryJob → Option ChannelInstance → Io DeliveryResult
unfolding skip send_built
deliver_to x registry job none = skip job (lit "not-found")
deliver_to x registry job (some instance') =
    if instance'.enabled
    then send_built x job (build_instance x registry instance')
    else skip job (lit "disabled")

-- The instance is read at delivery time.
unfoldable pub deliver : Externals → Map ChannelRegistryEntry → DeliveryJob → Io DeliveryResult
unfolding deliver_to
deliver x registry job w = deliver_to x registry job (Channels.get w.db job.channel) w
