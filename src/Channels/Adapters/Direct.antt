-- ===== src/Channels/Adapters/Direct.antt =====
-- src/channels/adapters/whatsapp-channel.ts and email-channel.ts
use notify_hub.Base.{
  ℕ, ◌+◌, Bool, ◌&&◌, ◌++◌, [], ◌∷◌, map, some, Text, lit, leb, includes, decimal, if◌then◌else◌,
}
use notify_hub.Base.Map.{Map, lookup}
use notify_hub.Core.{Notification, undefined}
use notify_hub.Ports.{
  Externals, ◌>>=◌, pure, throw, request, send_mail, template, NotificationChannel,
}
use notify_hub.Channels.Adapters.{is_rejected}
use notify_hub.Channels.Sanitize.{sanitize_whatsapp}

unfoldable pub email_channel : Externals → Map Text → NotificationChannel
unfolding lookup
email_channel x cfg = record {
  name = lit "email";
  send = λ n.
      send_mail x
        (record { to = lookup cfg (lit "EMAIL_TO"); subject = n.title; text = n.message });
}

abbrev callmebot_url : Text
callmebot_url = lit "https://api.callmebot.com/whatsapp.php"

unfoldable pub lower_ascii : ℕ → ℕ
lower_ascii c = if leb b'A' c && leb c b'Z' then c + 32 else c

-- `/message queued/i.test(body)`
unfoldable pub is_queued : Text → Bool
unfolding lower_ascii includes
is_queued body = includes (map lower_ascii body) (lit "message queued")

unfoldable pub whatsapp_text : Notification → Text
whatsapp_text n = n.title ++ (lit "\n" ++ n.message)

unfoldable pub whatsapp_channel : Externals → Map Text → NotificationChannel
unfolding whatsapp_text is_queued is_rejected sanitize_whatsapp lookup decimal
whatsapp_channel x cfg = record {
  name = lit "whatsapp";
  send = λ n. do
    let phone = lookup cfg (lit "WHATSAPP_PHONE")
    let apikey = lookup cfg (lit "WHATSAPP_APIKEY")
    let params =
        (lit "phone", template phone)
        ∷ (lit "text", whatsapp_text n)
        ∷ (lit "apikey", template apikey)
        ∷ []
    let url = callmebot_url ++ (lit "?" ++ x.search_params params)
    response ←
        request x (record { method = lit "GET"; url = some url; headers = []; body = undefined })
    if is_rejected response.status
        then throw (
            lit "whatsapp channel: request to "
            ++ (callmebot_url ++ (lit " failed with status " ++ decimal response.status)))
        else if is_queued response.body
        then pure tt
        else throw (
            lit "whatsapp channel: CallMeBot reported an error (status "
            ++ (decimal response.status
                ++ (lit "): " ++ sanitize_whatsapp phone apikey response.body)));
}
