-- ===== src/Tests/Delivering.antt =====
-- The theorems on dispatch and delivery, applied.
use notify_hub.Base.{
  includes, false, ◌==◌, decimal, ◌++◌, lit, true, Option, none, some, [], ◌∷◌, List, Text, ◌≡◌,
  refl, take, Nodup, Mem, ◌↔◌, length, arith, inr, ◌⊎◌, ◌≤◌, ◌<◌, ◌-◌,
}
use notify_hub.Base.Map.{lookup}
use notify_hub.Core.{ChannelInstance}
use notify_hub.Db.Channels
use notify_hub.Db.Profiles
use notify_hub.Ports.{ok, raise}
use notify_hub.Channels.Registry.{ChannelRegistryEntry, channel_registry}
use notify_hub.Channels.Adapters.Chat.{slack_channel}
use notify_hub.Channels.Sanitize.{sanitize_whatsapp, sanitize_voicemonkey}
use notify_hub.Channels.Sanitize.Redaction.{Avoids, includes-sanitize}
use notify_hub.Channels.Decorators.{truncated}
use notify_hub.Channels.Decorators.Laws.{truncated_lem}
use notify_hub.Dispatch.{targets}
use notify_hub.Dispatch.FanOut.{channels_of}
use notify_hub.Dispatch.Targets.{targets_iff, IsAskedFor}
use notify_hub.Delivery.{deliver}
use notify_hub.Delivery.Laws.{attempt, IsUnavailable}
use notify_hub.Delivery.Decision.{IsFailure, IsResolved, IsSent, deliver_iff}
use notify_hub.Container.{registered_queue}
use notify_hub.Container.Pipeline.{registered_queue-fan_out}
use notify_hub.Tests.Samples.{
  hub-IsConsistent, answering, hub, start, to_channel, for_ops, chat, pager, odd,
}

registered_queue-fan_out_example :
    let r = (registered_queue (answering 500)).enqueue_dispatch for_ops start in
    (r.0 ≡ ok ((answering 500).uuid 0))
    × (channels_of r.1.deliveries ≡ [] ++ targets (some Profiles.get) hub for_ops)
    × (r.1.db ≡ hub)
registered_queue-fan_out_example = registered_queue-fan_out (answering 500) for_ops start

targets_iff_example :
    (Mem (lit "chat") (targets (some Profiles.get) hub for_ops) ↔ (
      IsAskedFor hub for_ops none (lit "chat")
      × ((c : ChannelInstance) × (Channels.get hub (lit "chat") ≡ some c) × (c.enabled ≡ true))))
    × Nodup (targets (some Profiles.get) hub for_ops)
targets_iff_example = targets_iff hub for_ops (lit "chat") hub-IsConsistent

abbrev slack_entry : ChannelRegistryEntry
slack_entry = record {
  factory = slack_channel;
  required_config = lit "SLACK_WEBHOOK_URL" ∷ [];
  max_length = none;
}

stored : Channels.get hub (lit "chat") ≡ some chat
unfolding Channels.get ◌==◌ lit
stored = refl

known : lookup channel_registry (lit "slack") ≡ some slack_entry
unfolding channel_registry lookup ◌==◌ lit
known = refl

accepted :
    (attempt (answering 200) channel_registry (to_channel (lit "chat")) start chat slack_entry).0
    ≡ ok tt
unfolding slack_channel truncated
accepted = refl

abbrev reply : Text
reply = lit "slack channel: webhook request failed with status 500"

refused :
    (attempt (answering 500) channel_registry (to_channel (lit "chat")) start chat slack_entry).0
    ≡ raise reply
unfolding slack_channel truncated decimal lit
refused = refl

stored_pager : Channels.get hub (lit "pager") ≡ some pager
unfolding Channels.get ◌==◌ lit
stored_pager = refl

stored_odd : Channels.get hub (lit "odd") ≡ some odd
unfolding Channels.get ◌==◌ lit
stored_odd = refl

unknown : lookup channel_registry (lit "fax") ≡ none
unfolding channel_registry lookup ◌==◌ lit
unknown = refl

abbrev wanted : Option (List Text)
wanted = some (lit "odd" ∷ lit "pager" ∷ lit "odd" ∷ lit "chat" ∷ [])

truncated_lem_example :
    (length (truncated (some 4) (lit "deploy")) ≤ 4)
    × ((truncated (some 4) (lit "deploy") ≡ lit "deploy")
        ⊎ ((4 < length (lit "deploy"))
            × (length (truncated (some 4) (lit "deploy")) ≡ 4)
            × (truncated (some 4) (lit "deploy") ≡ take (4 - 1) (lit "deploy") ++ lit "…")))
truncated_lem_example = truncated_lem 4 (lit "deploy") (omega arith)

phone-Avoids : Avoids (lit "55")
unfolding lit
phone-Avoids = (refl, (refl, tt))

includes-sanitize_example :
    ((includes (sanitize_whatsapp (some (lit "55")) none (lit "to 55")) (lit "55") ≡ false)
      × (includes (sanitize_whatsapp none (some (lit "55")) (lit "to 55")) (lit "55") ≡ false))
    × ((includes (sanitize_voicemonkey (some (lit "55")) none (lit "to 55")) (lit "55") ≡ false)
        × (includes (sanitize_voicemonkey none (some (lit "55")) (lit "to 55")) (lit "55") ≡ false))
unfolding lit
includes-sanitize_example = includes-sanitize 53 (53 ∷ []) none (lit "to 55") phone-Avoids

deliver_iff_example :
    let x = answering 500 in
    let job = to_channel (lit "chat") in
    ((message : Text)
      → ((deliver x channel_registry job start).0 ≡ raise message)
        ↔ IsFailure x channel_registry job start message)
    × ((IsResolved x channel_registry job start 1 ↔ IsSent x channel_registry job start)
        × ((IsResolved x channel_registry job start 0
              ↔ ((reason : Text) × IsUnavailable x channel_registry job start reason))
            × (IsResolved x channel_registry job start 0
                ⊎ (IsResolved x channel_registry job start 1
                    ⊎ ((message : Text) × ((deliver x channel_registry job start).0
                          ≡ raise message))))))
deliver_iff_example = deliver_iff (answering 500) channel_registry (to_channel (lit "chat")) start

-- Both sides of the first equivalence: this delivery is thrown back to the queue.
chat_fails : IsFailure (answering 500) channel_registry (to_channel (lit "chat")) start reply
chat_fails = (chat, (stored, refl), inr (slack_entry, known, refused))

chat_raises :
    (deliver (answering 500) channel_registry (to_channel (lit "chat")) start).0 ≡ raise reply
chat_raises = (deliver_iff_example.0 reply).1 chat_fails
