-- ===== src/Mcp/Sending/EndToEnd.antt =====
-- `send_notification` of src/mcp/register-send-tools.ts in front of the gateway's `POST /notify`.
use notify_hub.Base.{
  ℕ, Option, some, ◌∷◌, ◌++◌, Text, lit, ◌==◌, ◌≡◌, refl, ap, ◌∙◌, ◌⊎◌, inl, inr, decimal,
}
use notify_hub.Base.Map.{Map, lookup}
use notify_hub.Core.{Value, obj, Fields, ProfileRecord}
use notify_hub.Ports.{Outcome, ok, HttpRequest, HttpResponse, Externals, World}
use notify_hub.Api.{NotifyBody, Parsed, Reply, accepted, bad_request, unauthorized}
use notify_hub.Api.Laws.{IsAccepted, IsNotified, notified, post_notify_lem}
use notify_hub.Api.Routes.{notify_reply}
use notify_hub.Admin.WorkerLogs.{property}
use notify_hub.Admin.Status.Gateway.{served}
use notify_hub.Mcp.{ToolResult, text_result, error_result}
use notify_hub.Mcp.Values.{to_text, property_of}
use notify_hub.Mcp.Sending.{
  TokenSource, resolve_token, token_headers, parsed_body, is_ok, read_body, answer_with, job_text,
  show_queued, send_notification, sent_body, new_response, as_response, http_client_as_fetch,
}

-- The headers of the tool's request.
abbrev pub sent_headers : Option Text → Map Text
sent_headers token = (lit "content-type", lit "application/json") ∷ token_headers token

abbrev pub notify_request : Text → Option Text → Fields → HttpRequest
notify_request url token args = record {
  method = lit "POST";
  url = some (url ++ lit "/notify");
  headers = sent_headers token;
  body = obj args;
}

abbrev pub queued_text : Text → Text
queued_text id = lit "Notification queued (jobId: " ++ (id ++ lit ")")

abbrev refused_text : ℕ → Text → Text
refused_text status body = lit "Gateway returned " ++ (decimal status ++ (lit ": " ++ body))

show_queued-accepted :
    (id : Text)
    → show_queued (notify_reply (accepted id)).body ≡ some (text_result (queued_text id))
unfolding show_queued notify_reply property_of property job_text to_text lit ◌==◌
show_queued-accepted id = refl

sent_body-parsed :
    (parse : Text → Outcome Value) (text : Text) (v : Value)
    → parse text ≡ ok v
    → sent_body parse (some text) ≡ v
unfolding sent_body
sent_body-parsed parse text v e = rw (e, sent_body) refl

module _ (refuse : ℕ → Text) (stringify : Value → Text) (parse : Text → Outcome Value)
    (http : HttpRequest → Outcome HttpResponse) (url : Text) (source : TokenSource) (args : Fields)
    (x : Externals) (safe_parse : Value → Parsed) (w : World) where
  -- The `Authorization` header that the gateway receives, and what it answers.
  abbrev pub authorization : Option Text
  authorization = lookup (sent_headers (resolve_token source w.db)) (lit "authorization")

  abbrev pub at_gateway : Outcome Reply × World
  at_gateway = notified x safe_parse authorization (obj args) w

  -- The HttpClient brings the request to the gateway and its reply back, and what is sent either way is
  -- parsed back.
  pub record IsRelayed : Type 0 where
    pub relayed :
        (reply : Reply)
        → at_gateway.0 ≡ ok reply
        → http (notify_request url (resolve_token source w.db) args)
          ≡ ok (served stringify (notify_reply reply))
    pub args_parsed : parse (stringify (obj args)) ≡ ok (obj args)
    pub reply_parsed :
        (id : Text)
        → let body = (notify_reply (accepted id)).body in parse (stringify body) ≡ ok body

  abbrev pub sent : Option ToolResult
  sent =
      send_notification (http_client_as_fetch refuse parse (some http)) stringify parse url source
        args w.db

  sent-reply :
      (reply : Reply)
      → IsRelayed
      → at_gateway.0 ≡ ok reply
      → sent
        ≡ answer_with parse show_queued
            (as_response refuse (ok (served stringify (notify_reply reply))))
  unfolding send_notification http_client_as_fetch
  sent-reply reply relay e =
      ap
        (λ body. answer_with parse show_queued (
          as_response refuse
            (http (record (notify_request url (resolve_token source w.db) args) { body = body }))))
        (sent_body-parsed parse _ (obj args) relay.args_parsed)
      ∙ ap (λ r. answer_with parse show_queued (as_response refuse r)) (relay.relayed reply e)

  sent-accepted :
      (id : Text)
      → IsRelayed
      → at_gateway.0 ≡ ok (accepted id)
      → sent ≡ some (text_result (queued_text id))
  unfolding answer_with as_response new_response read_body is_ok parsed_body notify_reply
  sent-accepted id relay e =
      sent-reply (accepted id) relay e ∙ rw (relay.reply_parsed id) (show_queued-accepted id)

  -- A reply that is no acceptance.
  sent-unauthorized :
      IsRelayed
      → at_gateway.0 ≡ ok unauthorized
      → (error : Text) × (sent ≡ some (error_result error))
  unfolding answer_with as_response new_response read_body is_ok notify_reply
  sent-unauthorized relay e = (
    refused_text 401 (stringify (notify_reply unauthorized).body),
    sent-reply unauthorized relay e,
  )

  sent-bad_request :
      (message : Text)
      → IsRelayed
      → at_gateway.0 ≡ ok (bad_request message)
      → (error : Text) × (sent ≡ some (error_result error))
  unfolding answer_with as_response new_response read_body is_ok notify_reply
  sent-bad_request message relay e = (
    refused_text 400 (stringify (notify_reply (bad_request message)).body),
    sent-reply (bad_request message) relay e,
  )

  -- In front of a gateway whose queue is the in-memory one, and which the HttpClient reaches, the
  -- tool never throws. Either the gateway accepted the message for the profile of the token: then the
  -- result is the id of its job, and every target of the job has exactly one new outcome, in order.
  -- Or the result is an error, and nothing at all has changed at the gateway.
  pub send_notification-gateway :
      IsRelayed
      → ((profile : ProfileRecord) × (body : NotifyBody) × IsAccepted x safe_parse authorization
            (obj args)
            w
            profile
            body
          × IsNotified x safe_parse authorization (obj args) w profile body
          × (sent ≡ some (text_result (queued_text (x.uuid w.uuids_drawn)))))
        ⊎ ((error : Text) × (sent ≡ some (error_result error)) × (at_gateway.1 ≡ w))
  send_notification-gateway relay = elim (post_notify_lem x safe_parse authorization (obj args) w) [
    | inl (profile, body, met, done) ↦
        inl (profile, body, met, done, sent-accepted (x.uuid w.uuids_drawn) relay done.0)
    | inr (inl nobody) ↦
        let (error, e) = sent-unauthorized relay (ap (λ (r : Outcome Reply × World). r.0) nobody) in
        inr (error, e, ap (λ (r : Outcome Reply × World). r.1) nobody)
    | inr (inr (message, bad)) ↦
        let (error, e) =
          sent-bad_request message relay (ap (λ (r : Outcome Reply × World). r.0) bad) in
        inr (error, e, ap (λ (r : Outcome Reply × World). r.1) bad)
  ]
