-- ===== src/Delivery/Laws.antt =====
-- The branches of `deliver`, and what it leaves alone.
use notify_hub.Base.{
  true, false, ◌++◌, [], ◌∷◌, Option, none, some, Text, lit, ◌≡◌, refl, ◌∙◌, arith, pos, ℤ, sub_ℕ,
  ◌⊎◌, Bool-cases, inl, inr,
}
use notify_hub.Base.Map.{Map, lookup}
use notify_hub.Core.{str, bool, num, ChannelInstance, DeliveryJob}
use notify_hub.Db.Channels
use notify_hub.Ports.{
  Externals, Outcome, ok, raise, World, NotificationChannel, logged, warn, info, error, object,
  LogLine,
}
use notify_hub.Ports.Keeps.{Keeps}
use notify_hub.Channels.Registry.{ChannelRegistryEntry, channel_registry}
use notify_hub.Channels.Decorators.{
  build_entry, build_instance, wrap, logging_channel, truncating_channel, truncated,
}
use notify_hub.Channels.Decorators.Laws.{registry-SendKeeps, wrap-Keeps, sending}
use notify_hub.Delivery.{skip, fail, timed_send, send_built, deliver_to, deliver, failed_msg}

skip-Keeps : (job : DeliveryJob) (reason : Text) → Keeps (skip job reason)
unfolding skip
skip-Keeps job reason = record { db = λ w. refl; deliveries = λ w. refl }

timed_send-Keeps :
    (x : Externals) (job : DeliveryJob) (channel : NotificationChannel)
    → Keeps (channel.send job.notification)
    → Keeps (timed_send x job channel)
unfolding timed_send
timed_send-Keeps x job channel k = record {
  db = λ w. ground (arith, k.db w);
  deliveries = λ w. ground (arith, k.deliveries w);
}

send_built-Keeps :
    (x : Externals) (job : DeliveryJob) (i : ChannelInstance) (found : Option ChannelRegistryEntry)
    → lookup channel_registry i.type ≡ found
    → Keeps (send_built x job (build_entry x i found))
unfolding send_built build_entry
send_built-Keeps x job i none e = record { db = λ w. refl; deliveries = λ w. refl }
send_built-Keeps x job i (some entry) e =
    timed_send-Keeps x job (wrap x i entry)
      (wrap-Keeps x i entry (registry-SendKeeps x i.type entry e) job.notification)

deliver_to-Keeps :
    (x : Externals) (job : DeliveryJob) (o : Option ChannelInstance)
    → Keeps (deliver_to x channel_registry job o)
unfolding deliver_to build_instance
deliver_to-Keeps x job none = skip-Keeps job (lit "not-found")
deliver_to-Keeps x job (some i) = elim (Bool-cases i.enabled) [
  | inl on ↦ rw on (send_built-Keeps x job i _ refl)
  | inr off ↦ rw off (skip-Keeps job (lit "disabled"))
]

-- A delivery changes no table and records no outcome of its own, whatever its result.
pub deliver-Keeps : (x : Externals) (job : DeliveryJob) → Keeps (deliver x channel_registry job)
unfolding deliver
deliver-Keeps x job = record {
  db = λ w. (deliver_to-Keeps x job (Channels.get w.db job.channel)).db w;
  deliveries = λ w. (deliver_to-Keeps x job (Channels.get w.db job.channel)).deliveries w;
}

-- The log lines of one delivery.
abbrev pub sent_line : Text → LogLine
sent_line id = record {
  level = info;
  fields = object ((lit "channel", str id) ∷ []);
  msg = lit "notification sent";
}

abbrev pub send_failed_line : Text → Text → LogLine
send_failed_line id message = record {
  level = error;
  fields = object ((lit "channel", str id) ∷ (lit "error", str message) ∷ []);
  msg = lit "notification send failed";
}

abbrev pub failed_line : Text → Text → ℤ → LogLine
failed_line channel message ms = record {
  level = error;
  fields = object (
      (lit "channel", str channel)
      ∷ (lit "ok", bool false)
      ∷ (lit "error", str message)
      ∷ (lit "attempts", num (pos 1))
      ∷ (lit "durationMs", num ms)
      ∷ []);
  msg = failed_msg channel;
}

module _ (x : Externals) (registry : Map ChannelRegistryEntry) (job : DeliveryJob) (w : World) where
  -- The promise resolves with no attempt made, and the only effect is one warning.
  abbrev pub IsSkipped : Text → Type 0
  IsSkipped reason = deliver x registry job w ≡ (
    ok (record {
      channel = job.channel;
      ok = true;
      error = none;
      attempts = 0;
      duration_ms = pos 0;
    }),
    record w {
      events =
          w.events
          ++ logged (record {
            level = warn;
            fields = object ((lit "channel", str job.channel) ∷ (lit "reason", str reason) ∷ []);
            msg =
                lit "delivery skipped for instance \""
                ++ (job.channel ++ lit "\" (missing or disabled)");
          })
            ∷ [];
    },
  )

  -- The instance is missing or disabled, and the reason that is given for it.
  abbrev pub IsUnavailable : Text → Type 0
  IsUnavailable reason =
      ((Channels.get w.db job.channel ≡ none) × (reason ≡ lit "not-found"))
      ⊎ ((i : ChannelInstance) × (Channels.get w.db job.channel ≡ some i)
          × (i.enabled ≡ false)
          × (reason ≡ lit "disabled"))

  -- The delivery to a missing or disabled instance is skipped: it resolves with no attempt made, and
  -- its only effect is one warning with the reason.
  pub deliver-skips : (reason : Text) → IsUnavailable reason → IsSkipped reason
  unfolding deliver skip
  deliver-skips reason (inl (e, r)) = rw e (rw r refl)
  deliver-skips reason (inr (i, e, off, r)) = rw e (rw off (rw r refl))

  -- The adapter's own send of an enabled instance: the result, and the world that it leaves. It
  -- gets the truncated message, after the channel's first log line.
  abbrev pub attempt : ChannelInstance → ChannelRegistryEntry → Outcome (Unit {0}) × World
  attempt i entry =
      (entry.factory x i.config).send
        (record job.notification { message = truncated entry.max_length job.notification.message })
        (sending i.id w)

  abbrev pub logging : LogLine → World → World
  logging line w' = record w' { events = w'.events ++ logged line ∷ [] }

  -- The milliseconds since the delivery began, on the clock.
  abbrev pub elapsed : World → ℤ
  elapsed later = sub_ℕ (x.now later) (x.now w)

  module _ (i : ChannelInstance) (entry : ChannelRegistryEntry) (on : i.enabled ≡ true)
      (stored : Channels.get w.db job.channel ≡ some i)
      (known : lookup registry i.type ≡ some entry) where
    deliver-eq-timed_send : deliver x registry job w ≡ timed_send x job (wrap x i entry) w
    unfolding deliver build_instance
    deliver-eq-timed_send = rw stored (rw on (rw known))

    -- To an enabled instance of a known type, a send that succeeds: one attempt, no error, and one "notification sent" line after what the
    -- adapter did.
    pub deliver-sent :
        (attempt i entry).0 ≡ ok tt
        → let after = logging (sent_line i.id) (attempt i entry).1 in
          deliver x registry job w ≡ (
            ok (record {
              channel = job.channel;
              ok = true;
              error = none;
              attempts = 1;
              duration_ms = elapsed after;
            }),
            after,
          )
    unfolding timed_send wrap logging_channel truncating_channel
    deliver-sent e = deliver-eq-timed_send ∙ ground arith

    -- To an enabled instance of a known type, a send that fails: the error is thrown on to the queue, after the line of the channel and the
    -- line of the service, which holds the failing result.
    pub deliver-failed :
        (message : Text)
        → (attempt i entry).0 ≡ raise message
        → let after = logging (send_failed_line i.id message) (attempt i entry).1 in
          deliver x registry job w
          ≡ (raise message, logging (failed_line job.channel message (elapsed after)) after)
    unfolding timed_send fail wrap logging_channel truncating_channel
    deliver-failed message e = deliver-eq-timed_send ∙ ground arith

  -- An enabled instance of a type that the registry lacks fails with an error that names
  -- both, before anything is sent or logged.
  pub deliver-unknown_type :
      (i : ChannelInstance)
      → Channels.get w.db job.channel ≡ some i
      → i.enabled ≡ true
      → lookup registry i.type ≡ none
      → deliver x registry job w ≡ (
        raise (
            lit "Unknown channel type \""
            ++ (i.type ++ (lit "\" for instance \"" ++ (i.id ++ lit "\"")))),
        w,
      )
  unfolding deliver build_instance
  deliver-unknown_type i stored on unknown = rw stored (rw on (rw unknown refl))
