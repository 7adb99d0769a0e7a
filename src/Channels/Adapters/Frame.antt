-- ===== src/Channels/Adapters/Frame.antt =====
-- No adapter touches the tables or the recorded deliveries.
use notify_hub.Base.{arith}
use notify_hub.Base.Map.{Map}
use notify_hub.Base.{Text}
use notify_hub.Core.{Notification}
use notify_hub.Ports.{Externals}
use notify_hub.Ports.Keeps.{Keeps}
use notify_hub.Channels.Adapters.Chat.{discord_channel, slack_channel, telegram_channel}
use notify_hub.Channels.Adapters.Publish.{ntfy_channel, webhook_channel}
use notify_hub.Channels.Adapters.Voice.{local_tts_channel, voicemonkey_channel}
use notify_hub.Channels.Adapters.Direct.{email_channel, whatsapp_channel}

module _ (x : Externals) (cfg : Map Text) (n : Notification) where
  pub discord-Keeps : Keeps ((discord_channel x cfg).send n)
  unfolding discord_channel
  discord-Keeps = record { db = λ w. ground arith; deliveries = λ w. ground arith }

  pub slack-Keeps : Keeps ((slack_channel x cfg).send n)
  unfolding slack_channel
  slack-Keeps = record { db = λ w. ground arith; deliveries = λ w. ground arith }

  pub telegram-Keeps : Keeps ((telegram_channel x cfg).send n)
  unfolding telegram_channel
  telegram-Keeps = record { db = λ w. ground arith; deliveries = λ w. ground arith }

  pub ntfy-Keeps : Keeps ((ntfy_channel x cfg).send n)
  unfolding ntfy_channel
  ntfy-Keeps = record { db = λ w. ground arith; deliveries = λ w. ground arith }

  pub webhook-Keeps : Keeps ((webhook_channel x cfg).send n)
  unfolding webhook_channel
  webhook-Keeps = record { db = λ w. ground arith; deliveries = λ w. ground arith }

  pub local_tts-Keeps : Keeps ((local_tts_channel x cfg).send n)
  unfolding local_tts_channel
  local_tts-Keeps = record { db = λ w. ground arith; deliveries = λ w. ground arith }

  pub voicemonkey-Keeps : Keeps ((voicemonkey_channel x cfg).send n)
  unfolding voicemonkey_channel
  voicemonkey-Keeps = record { db = λ w. ground arith; deliveries = λ w. ground arith }

  pub email-Keeps : Keeps ((email_channel x cfg).send n)
  unfolding email_channel
  email-Keeps = record { db = λ w. ground arith; deliveries = λ w. ground arith }

  pub whatsapp-Keeps : Keeps ((whatsapp_channel x cfg).send n)
  unfolding whatsapp_channel
  whatsapp-Keeps = record { db = λ w. ground arith; deliveries = λ w. ground arith }
