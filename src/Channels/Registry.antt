-- ===== src/Channels/Registry.antt =====
-- src/channels/channel-registry.ts and the `…RegistryEntry` of each adapter.
use notify_hub.Base.{ℕ, [], ◌∷◌, List, Option, none, some, Text, lit, map}
use notify_hub.Base.Map.{Map}
use notify_hub.Ports.{Externals, NotificationChannel}
use notify_hub.Channels.Adapters.Chat.{discord_channel, slack_channel, telegram_channel}
use notify_hub.Channels.Adapters.Publish.{ntfy_channel, webhook_channel}
use notify_hub.Channels.Adapters.Voice.{local_tts_channel, voicemonkey_channel}
use notify_hub.Channels.Adapters.Direct.{email_channel, whatsapp_channel}

pub record ChannelRegistryEntry : Type 0 where
  pub factory : Externals → Map Text → NotificationChannel
  pub required_config : List Text
  pub max_length : Option ℕ

abbrev entry :
    (Externals → Map Text → NotificationChannel) → List Text → Option ℕ → ChannelRegistryEntry
entry factory keys max = record { factory = factory; required_config = keys; max_length = max }

unfoldable pub channel_registry : Map ChannelRegistryEntry
channel_registry =
    (lit "ntfy", entry ntfy_channel (lit "NTFY_URL" ∷ lit "NTFY_TOPIC" ∷ []) none)
    ∷ (
      lit "telegram",
      entry telegram_channel (lit "TELEGRAM_BOT_TOKEN" ∷ lit "TELEGRAM_CHAT_ID" ∷ []) (some 4096),
    )
    ∷ (
      lit "email",
      entry email_channel
          (lit "SMTP_HOST"
            ∷ lit "SMTP_PORT"
            ∷ lit "SMTP_USER"
            ∷ lit "SMTP_PASS"
            ∷ lit "EMAIL_TO"
            ∷ [])
          none,
    )
    ∷ (lit "slack", entry slack_channel (lit "SLACK_WEBHOOK_URL" ∷ []) none)
    ∷ (lit "discord", entry discord_channel (lit "DISCORD_WEBHOOK_URL" ∷ []) (some 2000))
    ∷ (
      lit "whatsapp",
      entry whatsapp_channel (lit "WHATSAPP_PHONE" ∷ lit "WHATSAPP_APIKEY" ∷ []) (some 1000),
    )
    ∷ (
      lit "voicemonkey",
      entry voicemonkey_channel (lit "VOICEMONKEY_TOKEN" ∷ lit "VOICEMONKEY_DEVICE" ∷ []) none,
    )
    ∷ (lit "webhook", entry webhook_channel (lit "WEBHOOK_URL" ∷ []) none)
    ∷ (
      lit "local-tts",
      entry local_tts_channel (lit "LOCAL_TTS_URL" ∷ lit "LOCAL_TTS_VOICE" ∷ []) none,
    )
    ∷ []

unfoldable pub required_config_by_channel : Map (List Text)
unfolding channel_registry
required_config_by_channel = map (λ e. (e.0, (e.1).required_config)) channel_registry
