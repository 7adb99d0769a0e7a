-- ===== src/Channels/Adapters/Voice.antt =====
-- src/channels/adapters/local-tts-channel.ts and voicemonkey-channel.ts
use notify_hub.Base.{
  ◌++◌, [], ◌∷◌, List, Option, some, Text, lit, ◌==◌, join, decimal, is_empty, pos, negsuc, suc,
  if◌then◌else◌,
}
use notify_hub.Base.Map.{Map, lookup}
use notify_hub.Core.{
  Value, undefined, null, bool, num, str, arr, obj, Items, nil, cons, Fields, end, field,
}
use notify_hub.Ports.{
  Externals, ◌>>=◌, pure, throw, request, template, value_of, NotificationChannel,
}
use notify_hub.Channels.Adapters.{post_json, expect_success, is_rejected}
use notify_hub.Channels.Sanitize.{sanitize_voicemonkey}
use notify_hub.Channels.Spoken.{spoken_summary}

unfoldable pub local_tts_channel : Externals → Map Text → NotificationChannel
unfolding expect_success lookup spoken_summary
local_tts_channel x cfg = record {
  name = lit "local-tts";
  send = λ n. do
    let url = template (lookup cfg (lit "LOCAL_TTS_URL")) ++ lit "/speak"
    let voice = value_of (lookup cfg (lit "LOCAL_TTS_VOICE"))
    let body = (lit "voice", voice) ∷ (lit "text", str (spoken_summary x n)) ∷ []
    response ← request x (post_json (some url) body)
    expect_success (lit "local-tts channel: player request failed with status ") response;
}

-- `String(value)`; in an array, null and undefined are empty.
mutual
  to_string : Value → Text
  to_string undefined = lit "undefined"
  to_string null = lit "null"
  to_string (bool b) = if b then lit "true" else lit "false"
  to_string (num (pos n)) = decimal n
  to_string (num (negsuc n)) = lit "-" ++ decimal (suc n)
  to_string (str s) = s
  to_string (arr xs) = join (item_strings xs) (lit ",")
  to_string (obj fs) = lit "[object Object]"

  item_strings : Items → List Text
  item_strings nil = []
  item_strings (cons undefined xs) = [] ∷ item_strings xs
  item_strings (cons null xs) = [] ∷ item_strings xs
  item_strings (cons v xs) = to_string v ∷ item_strings xs

-- `parsed.error`
error_field : Fields → Value
error_field end = undefined
error_field (field k v fs) = if k == lit "error" then v else error_field fs

extra_parts : Fields → List Text
unfolding to_string
extra_parts end = []
extra_parts (field k v fs) =
    let rest = extra_parts fs in
    if k == lit "error" then rest else (k ++ (lit "=" ++ to_string v)) ∷ rest

with_extra : Text → Text → Text
with_extra code extra = if is_empty extra then code else code ++ (lit " (" ++ (extra ++ lit ")"))

sanitized : Map Text → Text → Text
unfolding sanitize_voicemonkey lookup
sanitized cfg body =
    sanitize_voicemonkey (lookup cfg (lit "VOICEMONKEY_TOKEN"))
      (lookup cfg (lit "VOICEMONKEY_DEVICE")) body

-- `typeof parsed.error === 'string'`
describe_code : Map Text → Text → Fields → Value → Text
unfolding extra_parts with_extra sanitized
describe_code cfg body fs (str code) = with_extra code (join (extra_parts fs) (lit " "))
describe_code cfg body fs _ = sanitized cfg body

-- Reading a property of null throws inside the `try`, as a syntax error does.
describe_parsed : Map Text → Text → Option Value → Text
unfolding error_field describe_code sanitized
describe_parsed cfg body (some (obj fs)) = describe_code cfg body fs (error_field fs)
describe_parsed cfg body _ = sanitized cfg body

unfoldable pub describe_error : Externals → Map Text → Text → Text
unfolding describe_parsed
describe_error x cfg body = describe_parsed cfg body (x.parse_json body)

unfoldable pub voicemonkey_channel : Externals → Map Text → NotificationChannel
unfolding describe_error is_rejected lookup spoken_summary
voicemonkey_channel x cfg = record {
  name = lit "voicemonkey";
  send = λ n. do
    let body =
        (lit "token", value_of (lookup cfg (lit "VOICEMONKEY_TOKEN")))
        ∷ (lit "device", value_of (lookup cfg (lit "VOICEMONKEY_DEVICE")))
        ∷ (lit "speech", str (spoken_summary x n))
        ∷ []
    response ← request x (post_json (some (lit "https://api-v3.voicemonkey.io/announce")) body)
    if is_rejected response.status
        then throw (
            lit "voicemonkey channel: announce request failed with status "
            ++ (decimal response.status ++ (lit ": " ++ describe_error x cfg response.body)))
        else pure tt;
}
