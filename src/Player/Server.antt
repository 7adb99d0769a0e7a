-- ===== src/Player/Server.antt =====
-- The requests that local-tts-server.mjs of clients/local-tts-player answers, and its settings.
use notify_hub.Base.{
  Bool, true, [], ◌∷◌, map, ◌&&◌, Option, none, some, List, Text, lit, ◌==◌, trim, is_empty, ℤ, pos,
  if◌then◌else◌,
}
use notify_hub.Base.Map.{Map, lookup}
use notify_hub.Core.{Value, bool, str, arr, obj, end}
use notify_hub.Ports.{Outcome, ok, raise, HttpReply, reply, error_reply, object, items}
use notify_hub.Player.Speech.{Queue, Say, SpeakReply, text_required, speaking, speak}
use notify_hub.Player.Voices.{Voice, parse_voices_output}

-- The body is the text that was read, or the error of its stream.
pub record Request : Type 0 where
  pub method : Text
  pub url : Text
  pub raw : Outcome Text

pub data Reply : Type 0 where
  voices : List Voice → Reply
  spoken : SpeakReply → Reply
  malformed : Reply
  not_found : Reply
  failed : Text → Reply

-- What `sendJson` is called with.
abbrev pub voice_value : Voice → Value
voice_value voice = obj (
    object (
      (lit "name", str voice.name)
      ∷ (lit "locale", str voice.locale)
      ∷ (lit "sample", str voice.sample)
      ∷ []))

unfoldable pub sent_json : Reply → HttpReply
sent_json (voices listed) = record { status = 200; body = arr (items (map voice_value listed)) }
sent_json (spoken text_required) = error_reply 400 (lit "text is required")
sent_json (spoken (speaking voice)) =
    reply 202 ((lit "ok", bool true) ∷ (lit "voice", str voice) ∷ [])
sent_json malformed = error_reply 400 (lit "malformed JSON body")
sent_json not_found = error_reply 404 (lit "not found")
sent_json (failed message) = error_reply 500 message

-- `readJsonBody`, with `none` for a rejection.
unfoldable pub read_json_body : (Text → Option Value) → Outcome Text → Option Value
unfolding trim is_empty
read_json_body parse_json (raise e) = none
read_json_body parse_json (ok raw) = if is_empty (trim raw) then some (obj end) else parse_json raw

unfoldable pub list_reply : Outcome Text → Reply
unfolding parse_voices_output
list_reply (raise e) = failed e
list_reply (ok stdout) = voices (parse_voices_output stdout)

module _ (throws : Say → Bool) (parse_json : Text → Option Value) (default_voice : Text) where
  speak_reply : Option Value → Queue throws → Reply × Queue throws
  unfolding speak
  speak_reply none q = (malformed, q)
  speak_reply (some body) q =
      let (reply, q') = speak throws default_voice body q in (spoken reply, q')

  -- `requestHandler`: `listed` is what `say -v ?` answers.
  unfoldable pub request_handler : Outcome Text → Request → Queue throws → Reply × Queue throws
  unfolding speak_reply list_reply read_json_body ◌==◌
  request_handler listed request q =
      if (request.method == lit "GET") && (request.url == lit "/voices")
      then (list_reply listed, q)
      else if (request.method == lit "POST") && (request.url == lit "/speak")
      then speak_reply (read_json_body parse_json request.raw) q
      else (not_found, q)

-- DEFAULT_PORT is 8082; `number` reads what is finite.
port_of : Option ℤ → ℤ
port_of none = pos 8082
port_of (some port) = port

port_text : (Text → Option ℤ) → Option Text → ℤ
unfolding port_of is_empty
port_text number none = pos 8082
port_text number (some s) = if is_empty s then pos 8082 else port_of (number s)

unfoldable pub resolve_port : (Text → Option ℤ) → Map Text → ℤ
unfolding port_text lookup
resolve_port number env = port_text number (lookup env (lit "PORT"))

voice_text : Option Text → Text
unfolding trim is_empty
voice_text none = lit "Luciana"
voice_text (some s) = if is_empty (trim s) then lit "Luciana" else s

-- DEFAULT_VOICE is "Luciana".
unfoldable pub resolve_default_voice : Map Text → Text
unfolding voice_text lookup
resolve_default_voice env = voice_text (lookup env (lit "DEFAULT_VOICE"))
