-- ===== src/Tests/Routes.antt =====
-- The admin routes in front of a player and of a directory, and the theorems applied to them.
use notify_hub.Base.{
  Bool, false, Option, none, some, [], ◌∷◌, Text, lit, trim, is_space, drop_while, drop_while_end,
  ◌≡◌, ◌≢◌, refl, ◌⊎◌, All,
}
use notify_hub.Core.{Value, str}
use notify_hub.Ports.{Outcome, ok, raise, HttpRequest, HttpResponse}
use notify_hub.Admin.Status.Gateway.{served}
use notify_hub.Admin.Routes.{get_voices}
use notify_hub.Admin.Routes.Voices.{shown, get_voices-player}
use notify_hub.Player.Speech.{Queue, Say, new_queue}
use notify_hub.Player.Server.{Request, sent_json, list_reply, request_handler}
use notify_hub.Admin.UiFiles.{forbidden, resolve, relative_of, path_text, file_reply, get_ui_file}
use notify_hub.Admin.UiFiles.Segments.{IsSegment}
use notify_hub.Admin.UiFiles.Inside.{IsUnder, get_ui_file_lem}

-- A player with two voices.
abbrev said : Text
said = lit "Luciana  pt_BR  # Ola\nAlex  en_US  # Hello"

never : Say → Bool
never say = false

abbrev player_json : Text → Option Value
player_json text = none

abbrev idle : Queue never
idle = new_queue never

abbrev list_request : Request
list_request = record { method = lit "GET"; url = lit "/voices"; raw = ok [] }

abbrev spelled : Value → Text
spelled v = lit "[]"

abbrev read_back : Text → Option Value
read_back text = some (sent_json (list_reply (ok said))).body

abbrev player_site : HttpRequest → Outcome HttpResponse
player_site request = ok (
    served spelled
      (sent_json (request_handler never player_json (lit "Luciana") (ok said) list_request idle).0))

blank_not : trim (lit " http://player ") ≢ []
unfolding trim drop_while drop_while_end is_space lit
blank_not e = cc e

get_voices-player_example :
    get_voices read_back (some player_site) (str (lit " http://player ")) ≡ shown (ok said)
get_voices-player_example =
    get_voices-player spelled read_back player_site (lit " http://player ") never player_json
      (lit "Luciana") (ok said) idle blank_not refl refl

-- The directory /app/ui, and a request that climbs out of it.
ui_segments : All IsSegment (lit "app" ∷ lit "ui" ∷ [])
unfolding lit
ui_segments = (((λ e. cc e), refl), (((λ e. cc e), refl), tt))

get_ui_file_lem_example :
    let root = lit "app" ∷ lit "ui" ∷ [] in
    let file = resolve root (relative_of (lit "../ui-secret/key")) in
    let reply =
      get_ui_file
        (λ path. lit ".js")
        (λ path. raise (lit "ENOENT"))
        root
        (lit "../ui-secret/key") in
    (IsUnder root file
      × (reply ≡ file_reply (λ path. lit ".js") (path_text file) (raise (lit "ENOENT"))))
    ⊎ ((¬ IsUnder root file) × (reply ≡ forbidden))
get_ui_file_lem_example =
    get_ui_file_lem (λ path. lit ".js") (λ path. raise (lit "ENOENT")) (lit "app") (lit "ui" ∷ [])
      (lit "../ui-secret/key") ui_segments
