-- ===== src/Channels/Adapters/Chat.antt =====
-- src/channels/adapters/discord-channel.ts, slack-channel.ts and telegram-channel.ts
use notify_hub.Base.{◌++◌, [], ◌∷◌, some, Text, lit}
use notify_hub.Base.Map.{Map, lookup}
use notify_hub.Core.{Notification, str}
use notify_hub.Ports.{Externals, ◌>>=◌, request, template, value_of, NotificationChannel}
use notify_hub.Channels.Adapters.{post_json, expect_success}

-- `**title**\nmessage`
unfoldable pub discord_content : Notification → Text
discord_content n = lit "**" ++ (n.title ++ (lit "**\n" ++ n.message))

unfoldable pub discord_channel : Externals → Map Text → NotificationChannel
unfolding discord_content expect_success lookup
discord_channel x cfg = record {
  name = lit "discord";
  send = λ n. do
    let url = lookup cfg (lit "DISCORD_WEBHOOK_URL")
    response ← request x (post_json url ((lit "content", str (discord_content n)) ∷ []))
    expect_success (lit "discord channel: webhook request failed with status ") response;
}

-- `*title*\nmessage`
unfoldable pub slack_text : Notification → Text
slack_text n = lit "*" ++ (n.title ++ (lit "*\n" ++ n.message))

unfoldable pub slack_channel : Externals → Map Text → NotificationChannel
unfolding slack_text expect_success lookup
slack_channel x cfg = record {
  name = lit "slack";
  send = λ n. do
    let url = lookup cfg (lit "SLACK_WEBHOOK_URL")
    response ← request x (post_json url ((lit "text", str (slack_text n)) ∷ []))
    expect_success (lit "slack channel: webhook request failed with status ") response;
}

-- `title\nmessage`
unfoldable pub telegram_text : Notification → Text
telegram_text n = n.title ++ (lit "\n" ++ n.message)

unfoldable pub telegram_channel : Externals → Map Text → NotificationChannel
unfolding telegram_text expect_success lookup
telegram_channel x cfg = record {
  name = lit "telegram";
  send = λ n. do
    let token = template (lookup cfg (lit "TELEGRAM_BOT_TOKEN"))
    let url = lit "https://api.telegram.org/bot" ++ (token ++ lit "/sendMessage")
    let chat_id = value_of (lookup cfg (lit "TELEGRAM_CHAT_ID"))
    let body = (lit "chat_id", chat_id) ∷ (lit "text", str (telegram_text n)) ∷ []
    response ← request x (post_json (some url) body)
    expect_success (lit "telegram channel: sendMessage request failed with status ") response;
}
