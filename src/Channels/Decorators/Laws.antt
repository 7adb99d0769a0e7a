-- ===== src/Channels/Decorators/Laws.antt =====
-- Truncation, and what building an instance keeps.
use notify_hub.Base.{
  ℕ, zero, suc, ◌-◌, ◌≤◌, ◌<◌, ◌++◌, [], ◌∷◌, some, Text, lit, take, length, leb, length-append,
  length-take, ◌≡◌, refl, arith, Bool-cases, inl, inr, leb→le, All, ◌⊎◌,
}
use notify_hub.Base.Map.{Map, lookup, lookup-All}
use notify_hub.Core.{str, Notification, ChannelInstance}
use notify_hub.Ports.{Externals, NotificationChannel, World, object, logged, info}
use notify_hub.Ports.Keeps.{Keeps}
use notify_hub.Channels.Registry.{ChannelRegistryEntry, channel_registry}
use notify_hub.Channels.Adapters.Frame
use notify_hub.Channels.Decorators.{truncated, truncating_channel, logging_channel, wrap}

-- With a limit of at least one, the message that TruncatingChannel hands to the adapter fits it, in
-- UTF-16 units and without the title, which some adapters put before it: it is the message as it is,
-- or the message is too long, and all but one of the limit's units are kept, with an ellipsis after
-- them.
pub truncated_lem :
    (limit : ℕ) (message : Text)
    → 1 ≤ limit
    → (length (truncated (some limit) message) ≤ limit)
      × ((truncated (some limit) message ≡ message)
          ⊎ ((limit < length message)
              × (length (truncated (some limit) message) ≡ limit)
              × (truncated (some limit) message ≡ take (limit - 1) message ++ lit "…")))
unfolding truncated lit
truncated_lem zero message h = absurd (omega arith)
truncated_lem (suc n) message h = elim (Bool-cases (leb (length message) (suc n))) [
  | inl fits ↦ rw fits (leb→le _ _ fits, inl refl)
  | inr long ↦
      let longer : suc n < length message = ground (arith, long) in
      let cut = length-take n message (omega arith) in
      let added = length-append (take n message) (lit "…") in
      let exact : length (take n message ++ lit "…") ≡ suc n = ground (arith, cut, added) in
      rw long (omega arith, inr (longer, exact, ground arith))
]

-- Every channel of the registry sends without touching the tables or the recorded deliveries.
abbrev pub SendKeeps : Externals → ChannelRegistryEntry → Type 0
SendKeeps x entry = (cfg : Map Text) (n : Notification) → Keeps ((entry.factory x cfg).send n)

registry-All-SendKeeps : (x : Externals) → All (λ e. SendKeeps x e.1) channel_registry
unfolding channel_registry
registry-All-SendKeeps x = (
  Frame.ntfy-Keeps x,
  (
    Frame.telegram-Keeps x,
    (
      Frame.email-Keeps x,
      (
        Frame.slack-Keeps x,
        (
          Frame.discord-Keeps x,
          (
            Frame.whatsapp-Keeps x,
            (Frame.voicemonkey-Keeps x, (Frame.webhook-Keeps x, (Frame.local_tts-Keeps x, tt))),
          ),
        ),
      ),
    ),
  ),
)

pub registry-SendKeeps :
    (x : Externals) (type : Text) (entry : ChannelRegistryEntry)
    → lookup channel_registry type ≡ some entry
    → SendKeeps x entry
registry-SendKeeps x type entry e =
    lookup-All (SendKeeps x) channel_registry type entry e (registry-All-SendKeeps x)

-- The world after a channel's first log line.
abbrev pub sending : Text → World → World
sending name w = record w {
  events =
      w.events
      ++ logged (record {
        level = info;
        fields = object ((lit "channel", str name) ∷ []);
        msg = lit "sending notification";
      })
        ∷ [];
}

pub logging_channel-Keeps :
    (inner : NotificationChannel) (name : Text) (n : Notification)
    → Keeps (inner.send n)
    → Keeps ((logging_channel inner name).send n)
unfolding logging_channel
logging_channel-Keeps inner name n k = record {
  db = λ w. ground (arith, k.db (sending name w));
  deliveries = λ w. ground (arith, k.deliveries (sending name w));
}

pub wrap-Keeps :
    (x : Externals) (i : ChannelInstance) (entry : ChannelRegistryEntry)
    → SendKeeps x entry
    → (n : Notification) → Keeps ((wrap x i entry).send n)
unfolding wrap truncating_channel
wrap-Keeps x i entry k n =
    logging_channel-Keeps (truncating_channel (entry.factory x i.config) entry.max_length) i.id n
      (k i.config (record n { message = truncated entry.max_length n.message }))
