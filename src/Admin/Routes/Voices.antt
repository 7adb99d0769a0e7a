-- ===== src/Admin/Routes/Voices.antt =====
-- The route of src/admin/routes/local-tts-voices-route.ts in front of the player of
-- clients/local-tts-player.
use notify_hub.Base.{
  Bool, true, Option, some, List, [], ◌∷◌, ◌++◌, map, filter, Text, lit, ◌==◌, ==_refl, trim,
  is_empty, if◌then◌else◌, ◌≡◌, ◌≢◌, refl, ap, ◌∙◌,
}
use notify_hub.Core.{Value, str}
use notify_hub.Ports.{Outcome, ok, raise, HttpRequest, HttpResponse, HttpReply, error_reply}
use notify_hub.Admin.WorkerLogs.{property}
use notify_hub.Admin.Status.{get_request, is_text, kept}
use notify_hub.Admin.Status.Gateway.{served, items_of-items}
use notify_hub.Admin.Routes.{
  is_local_tts_voice, voices_reply, unreachable, parsed_voices, voices_of, url_of, ask_player,
  get_voices,
}
use notify_hub.Player.Speech.{Queue, Say}
use notify_hub.Player.Voices.{Voice, parse_voices_output}
use notify_hub.Player.Server.{Request, voices, voice_value, sent_json, list_reply, request_handler}

-- What the route shows of what `say -v ?` answered.
abbrev pub shown : Outcome Text → HttpReply
shown (raise e) = unreachable
shown (ok stdout) = voices_reply (map voice_value (parse_voices_output stdout)) true

filter-voice_value :
    (vs : List Voice) → filter is_local_tts_voice (map voice_value vs) ≡ map voice_value vs
unfolding is_local_tts_voice is_text property lit ◌==◌
filter-voice_value [] = refl
filter-voice_value (v ∷ vs) = ap (λ r. voice_value v ∷ r) (filter-voice_value vs)

voices_of-listed :
    (stringify : Value → Text) (parse_json : Text → Option Value) (vs : List Voice)
    → (let sent = (sent_json (voices vs)).body in parse_json (stringify sent) ≡ some sent)
    → voices_of parse_json (ok (served stringify (sent_json (voices vs))))
      ≡ voices_reply (map voice_value vs) true
unfolding voices_of parsed_voices sent_json kept
voices_of-listed stringify parse_json vs parsed = rw parsed (
    ap (λ list. voices_reply (filter is_local_tts_voice list) true)
      (items_of-items (map voice_value vs))
    ∙ ap (λ list. voices_reply list true) (filter-voice_value vs))

-- The answer to a request for the voices.
player_reply-listed :
    (throws : Say → Bool) (player_json : Text → Option Value) (default_voice : Text)
    (listed : Outcome Text) (q : Queue throws)
    → let request : Request = record { method = lit "GET"; url = lit "/voices"; raw = ok [] } in
      (request_handler throws player_json default_voice listed request q).0 ≡ list_reply listed
unfolding request_handler
player_reply-listed throws player_json default_voice listed q =
    rw (==_refl (lit "GET"), ==_refl (lit "/voices")) refl

voices_of-player :
    (stringify : Value → Text) (parse_json : Text → Option Value) (listed : Outcome Text)
    → (let sent = (sent_json (list_reply listed)).body in parse_json (stringify sent) ≡ some sent)
    → voices_of parse_json (ok (served stringify (sent_json (list_reply listed)))) ≡ shown listed
unfolding list_reply
voices_of-player stringify parse_json (ok stdout) parsed =
    voices_of-listed stringify parse_json (parse_voices_output stdout) parsed
voices_of-player stringify parse_json (raise e) parsed = unfold voices_of sent_json in refl

ask_player-url :
    (parse_json : Text → Option Value) (http : HttpRequest → Outcome HttpResponse) (url : Text)
    → (trim url ≢ [])
    → get_voices parse_json (some http) (str url)
      ≡ voices_of parse_json (http (get_request (trim url ++ lit "/voices") []))
unfolding get_voices ask_player url_of is_empty
ask_player-url parse_json http url nonempty = from (trim url) nonempty
  where
    from :
        (t : Text)
        → (t ≢ [])
        → (if is_empty t
            then error_reply 400 (lit "url query parameter is required")
            else voices_of parse_json (http (get_request (t ++ lit "/voices") [])))
          ≡ voices_of parse_json (http (get_request (t ++ lit "/voices") []))
    from [] nonempty = absurd (nonempty refl)
    from (c ∷ t) nonempty = refl

-- In front of a player that answers, with a url that is not blank: when `say -v ?` answers, the
-- route lists exactly the voices that the player parses from the answer, in order, and the player is
-- reachable; when `say` fails, there are no voices and the player is not reachable.
pub get_voices-player :
    (stringify : Value → Text) (parse_json : Text → Option Value)
    (http : HttpRequest → Outcome HttpResponse) (url : Text) (throws : Say → Bool)
    (player_json : Text → Option Value) (default_voice : Text) (listed : Outcome Text)
    (q : Queue throws)
    → (trim url ≢ [])
    → (let request : Request = record { method = lit "GET"; url = lit "/voices"; raw = ok [] } in
        http (get_request (trim url ++ lit "/voices") [])
        ≡ ok (
            served stringify
              (sent_json (request_handler throws player_json default_voice listed request q).0)))
    → (let sent = (sent_json (list_reply listed)).body in parse_json (stringify sent) ≡ some sent)
    → get_voices parse_json (some http) (str url) ≡ shown listed
get_voices-player stringify parse_json http url throws player_json default_voice listed q nonempty
      reached parsed =
    ask_player-url parse_json http url nonempty
    ∙ ap (voices_of parse_json) (
        reached
        ∙ ap (λ r. ok (served stringify (sent_json r)))
            (player_reply-listed throws player_json default_voice listed q))
    ∙ voices_of-player stringify parse_json listed parsed
