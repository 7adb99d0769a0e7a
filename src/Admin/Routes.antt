-- ===== src/Admin/Routes.antt =====
-- The thin routes of src/admin/routes: local-tts-voices-route.ts, test-send-route.ts and
-- channel-types-route.ts. `JSON.parse` is a parameter, with `none` for a SyntaxError.
pub mod Voices
use notify_hub.Base.{
  ℕ, Bool, true, false, ◌&&◌, ◌||◌, Option, none, some, List, [], ◌∷◌, ◌++◌, map, filter, Text, lit,
  ◌==◌, trim, is_empty, leb, ltb, if◌then◌else◌, ◌⊎◌, inl, inr,
}
use notify_hub.Base.Map.{Map}
use notify_hub.Core.{Value, undefined, null, bool, num, str, arr, obj, Items, Fields}
use notify_hub.Db.{Db}
use notify_hub.Channels.Registry.{required_config_by_channel}
use notify_hub.Ports.{
  Outcome, ok, raise, HttpRequest, HttpResponse, HttpReply, reply, error_reply, object, items,
}
use notify_hub.Admin.WorkerLogs.{property}
use notify_hub.Admin.Status.{get_request, is_text, kept}
use notify_hub.Admin.TestSend.{
  Surroundings, TestSendOutcome, not_found, disabled, misconfigured, result, run_test_send,
}

unfoldable pub is_local_tts_voice : Value → Bool
unfolding is_text property
is_local_tts_voice (obj fields) =
    is_text (property fields (lit "name"))
    && is_text (property fields (lit "locale"))
    && is_text (property fields (lit "sample"))
is_local_tts_voice _ = false

abbrev pub voices_reply : List Value → Bool → HttpReply
voices_reply voices reachable =
    reply 200 ((lit "voices", arr (items voices)) ∷ (lit "reachable", bool reachable) ∷ [])

-- UNREACHABLE
abbrev pub unreachable : HttpReply
unreachable = voices_reply [] false

unfoldable pub parsed_voices : Option Value → HttpReply
unfolding kept is_local_tts_voice
parsed_voices none = unreachable
parsed_voices (some parsed) = voices_reply (kept is_local_tts_voice parsed) true

-- The outcome of the request to the player.
unfoldable pub voices_of : (Text → Option Value) → Outcome HttpResponse → HttpReply
unfolding parsed_voices
voices_of parse_json (raise e) = unreachable
voices_of parse_json (ok response) =
    if ltb response.status 200 || leb 300 response.status
    then unreachable
    else parsed_voices (parse_json response.body)

-- `query.url` is a text, or it is not.
unfoldable pub url_of : Value → Text
unfolding trim
url_of (str s) = trim s
url_of _ = []

unfoldable pub ask_player :
    (Text → Option Value) → Option (HttpRequest → Outcome HttpResponse) → Text → HttpReply
unfolding voices_of get_request
ask_player parse_json none url = unreachable
ask_player parse_json (some http) url =
    voices_of parse_json (http (get_request (url ++ lit "/voices") []))

-- `GET /api/local-tts/voices?url=…`
unfoldable pub get_voices :
    (Text → Option Value) → Option (HttpRequest → Outcome HttpResponse) → Value → HttpReply
unfolding ask_player url_of is_empty
get_voices parse_json http query_url =
    if is_empty (url_of query_url)
    then error_reply 400 (lit "url query parameter is required")
    else ask_player parse_json http (url_of query_url)

-- The status of each kind of outcome. `none` is a rejection, which Fastify answers.
unfoldable pub test_reply : Outcome TestSendOutcome → Option HttpReply
test_reply (raise e) = none
test_reply (ok (not_found message)) = some (error_reply 400 message)
test_reply (ok (disabled message)) = some (error_reply 400 message)
test_reply (ok misconfigured) =
    some (error_reply 500 (lit "admin server misconfigured: no HttpClient provided"))
test_reply (ok (result good detail)) =
    some (reply 200 ((lit "ok", bool good) ∷ (lit "detail", str detail) ∷ []))

first_issue : Option Text → Text
first_issue none = lit "invalid request body"
first_issue (some message) = message

-- `POST /api/test-send`: the body's channel id, or the first issue that the schema finds.
unfoldable pub post_test_send : Surroundings → Db → Text ⊎ Option Text → Option HttpReply
unfolding test_reply first_issue run_test_send
post_test_send x db (inl channel_id) = test_reply (run_test_send x db channel_id).0
post_test_send x db (inr issue) = some (error_reply 400 (first_issue issue))

abbrev channel_type : Text × List Text → Value
channel_type (type, required_config) = obj (
    object
      ((lit "type", str type) ∷ (lit "requiredConfig", arr (items (map str required_config))) ∷ []))

-- `GET /api/channel-types`
unfoldable pub get_channel_types : HttpReply
unfolding required_config_by_channel
get_channel_types =
    reply 200 ((lit "types", arr (items (map channel_type required_config_by_channel))) ∷ [])
