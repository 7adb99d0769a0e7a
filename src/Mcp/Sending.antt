-- ===== src/Mcp/Sending.antt =====
-- src/mcp/register-send-tools.ts, with `httpClientAsFetch` of src/mcp/build-admin-mcp-server.ts.
-- `fetch`, `JSON.stringify` and `JSON.parse` are parameters; a handler that throws is `none`.
pub mod Listing
pub mod EndToEnd
use notify_hub.Base.{
  ℕ, Bool, true, false, ◌&&◌, ◌||◌, Option, none, some, List, [], ◌∷◌, ◌++◌, map, first, Text, lit,
  is_empty, decimal, join, eqb, ltb, leb, not, if◌then◌else◌,
}
use notify_hub.Base.Map.{Map}
use notify_hub.Core.{Value, undefined, null, bool, num, str, arr, obj, Items, nil, cons, Fields}
use notify_hub.Db.{Db}
use notify_hub.Db.Profiles
use notify_hub.Ports.{Outcome, ok, raise, HttpRequest, HttpResponse}
use notify_hub.Admin.TestSend.{base_url, token_of}
use notify_hub.Mcp.{ToolResult, text_result, error_result}
use notify_hub.Mcp.Values.{◌>>=◌, to_text, join_items, property_of, is_truthy}

-- The part of `RequestInit` and of `Response` that the tools use; reading the body may fail.
pub record FetchInit : Type 0 where
  pub method : Text
  pub headers : Map Text
  pub body : Option Text

pub record FetchResponse : Type 0 where
  pub status : ℕ
  pub text : Outcome Text

abbrev pub Fetch : Type 0
Fetch = Text → FetchInit → Outcome FetchResponse

-- `token: string | (() => string | undefined)`, where the resolver reads the database.
pub data TokenSource : Type 0 where
  fixed : Text → TokenSource
  resolver : (Db → Option Text) → TokenSource

unfoldable pub resolve_token : TokenSource → Db → Option Text
resolve_token (fixed token) db = some token
resolve_token (resolver f) db = f db

-- `authHeaders`: the empty token is as none.
unfoldable pub token_headers : Option Text → Map Text
unfolding is_empty
token_headers none = []
token_headers (some token) =
    if is_empty token then [] else (lit "authorization", lit "Bearer " ++ token) ∷ []

-- `parseGatewayBody`, and what the tool makes of the value.
unfoldable pub parsed_body : (Value → Option ToolResult) → Outcome Value → Option ToolResult
parsed_body show (raise e) =
    some (error_result (lit "Gateway returned an unparseable response: " ++ e))
parsed_body show (ok value) = show value

unfoldable pub is_ok : ℕ → Bool
is_ok status = leb 200 status && ltb status 300

-- After `await response.text()`.
unfoldable pub read_body :
    (Text → Outcome Value) → (Value → Option ToolResult) → ℕ → Outcome Text → Option ToolResult
unfolding parsed_body is_ok decimal
read_body parse show status (raise e) = none
read_body parse show status (ok body) =
    if is_ok status
    then parsed_body show (parse body)
    else some (error_result (lit "Gateway returned " ++ (decimal status ++ (lit ": " ++ body))))

-- What each handler does with the outcome of its `fetch`.
unfoldable pub answer_with :
    (Text → Outcome Value) → (Value → Option ToolResult) → Outcome FetchResponse → Option ToolResult
unfolding read_body
answer_with parse show (raise e) =
    some (error_result (lit "Failed to reach notify-hub gateway: " ++ e))
answer_with parse show (ok response) = read_body parse show response.status response.text

-- `${parsed.value.jobId ?? 'unknown'}`
unfoldable pub job_text : Value → Option Text
unfolding to_text
job_text undefined = some (lit "unknown")
job_text null = some (lit "unknown")
job_text v = to_text v

unfoldable pub show_queued : Value → Option ToolResult
unfolding job_text property_of
show_queued value = do
  id ← property_of value (lit "jobId")
  text ← job_text id
  some (text_result (lit "Notification queued (jobId: " ++ (text ++ lit ")")))

-- `${value.key}`
unfoldable pub text_at : Value → Text → Option Text
unfolding property_of to_text
text_at value key = property_of value key >>= to_text

abbrev pub line : (label id type : Text) → Bool → Text
line label id type enabled =
    lit "- "
    ++ (label
        ++ (lit " ("
            ++ (id
                ++ (lit ") ["
                    ++ (type
                        ++ (lit "] " ++ (if enabled then lit "enabled" else lit "disabled")))))))

unfoldable pub channel_line : Value → Option Text
unfolding text_at is_truthy
channel_line c = do
  label ← text_at c (lit "label")
  id ← text_at c (lit "id")
  type ← text_at c (lit "type")
  enabled ← property_of c (lit "enabled")
  some (line label id type (is_truthy enabled))

unfoldable pub lines_of : Items → Option (List Text)
unfolding channel_line
lines_of nil = some []
lines_of (cons c items) = do head ← channel_line c; rest ← lines_of items; some (head ∷ rest)

-- `value.map(…)` and `value.join(', ')`, which only an array has.
unfoldable pub channel_lines : Value → Option (List Text)
unfolding lines_of
channel_lines (arr items) = lines_of items
channel_lines _ = none

unfoldable pub joined : Value → Option Text
unfolding join_items
joined (arr items) = join_items (lit ", ") items
joined _ = none

unfoldable pub list_text : List Text → Text
unfolding join
list_text [] = lit " (none configured)"
list_text (head ∷ rest) = lit "\n" ++ join (head ∷ rest) (lit "\n")

abbrev pub listing : List Text → Text → Text
listing lines defaults =
    lit "Channel instances:"
    ++ (list_text lines ++ (lit "\nDefault channels for this token: " ++ defaults))

unfoldable pub show_channels : Value → Option ToolResult
unfolding channel_lines joined list_text
show_channels value = do
  channels ← property_of value (lit "channels")
  lines ← channel_lines channels
  default_channels ← property_of value (lit "defaultChannels")
  defaults ← joined default_channels
  some (text_result (listing lines defaults))

unfoldable pub show_health : Value → Option ToolResult
unfolding text_at
show_health value = do
  status ← text_at value (lit "status")
  redis ← text_at value (lit "redis")
  some (text_result (lit "Gateway status: " ++ (status ++ (lit ", redis: " ++ redis))))

-- The three handlers. The arguments of `send_notification` are the fields of the call.
module _ (fetch : Fetch) (stringify : Value → Text) (parse : Text → Outcome Value)
    (gateway_url : Text) (source : TokenSource) where
  unfoldable pub send_notification : Fields → Db → Option ToolResult
  unfolding answer_with token_headers resolve_token show_queued
  send_notification args db = answer_with parse show_queued (
      fetch (gateway_url ++ lit "/notify") (record {
        method = lit "POST";
        headers =
            (lit "content-type", lit "application/json") ∷ token_headers (resolve_token source db);
        body = some (stringify (obj args));
      }))

  unfoldable pub list_channels : Db → Option ToolResult
  unfolding answer_with token_headers resolve_token show_channels
  list_channels db = answer_with parse show_channels (
      fetch (gateway_url ++ lit "/channels") (record {
        method = lit "GET";
        headers = token_headers (resolve_token source db);
        body = none;
      }))

  unfoldable pub check_gateway_health : Option ToolResult
  unfolding answer_with show_health
  check_gateway_health = answer_with parse show_health (
      fetch (gateway_url ++ lit "/health")
        (record { method = lit "GET"; headers = []; body = none }))

-- `typeof init.body === 'string'`: the parsed body, or the text that does not parse.
sent_body : (Text → Outcome Value) → Option Text → Value
sent_body parse none = undefined
sent_body parse (some text) = elim (parse text) [ ok v ↦ v | raise e ↦ str text ]

-- `new Response(body, { status })`, which refuses a status out of 200 to 599 and one that has no body.
unfoldable pub new_response : (ℕ → Text) → HttpResponse → Outcome FetchResponse
new_response refuse response =
    if leb 200 response.status
      && ltb response.status 600
      && not (eqb response.status 204 || eqb response.status 205 || eqb response.status 304)
    then ok (record { status = response.status; text = ok response.body })
    else raise (refuse response.status)

unfoldable pub as_response : (ℕ → Text) → Outcome HttpResponse → Outcome FetchResponse
unfolding new_response
as_response refuse (raise e) = raise e
as_response refuse (ok response) = new_response refuse response

unfoldable pub http_client_as_fetch :
    (ℕ → Text) → (Text → Outcome Value) → Option (HttpRequest → Outcome HttpResponse) → Fetch
unfolding as_response sent_body
http_client_as_fetch refuse parse none url init =
    raise (lit "admin server misconfigured: no HttpClient provided")
http_client_as_fetch refuse parse (some http) url init = as_response refuse (
    http (record {
      method = init.method;
      url = some url;
      headers = init.headers;
      body = sent_body parse init.body;
    }))

-- `() => deps.profileRepo.list()[0]?.token`
unfoldable pub first_token : TokenSource
unfolding token_of Profiles.list
first_token = resolver (λ db. token_of (first (Profiles.list db)))
