-- ===== src/Admin/TestSend.antt =====
-- src/admin/test-send-service.ts, with `sendTestNotification` of src/admin/gateway-client.ts and
-- src/admin/worker-logs.ts. What answers from outside is the `Surroundings`.
pub mod Polling
pub mod Success
use notify_hub.Base.{
  ℕ, zero, suc, ◌+◌, Bool, true, false, ◌&&◌, ◌||◌, Option, none, some, List, [], ◌∷◌, ◌++◌, filter,
  first, last, Text, lit, ◌==◌, trim, is_empty, decimal, eqb, ltb, leb, ℤ, pos, gt_ℤ, not,
  if◌then◌else◌,
}
use notify_hub.Core.{
  Value, str, arr, cons, nil, Fields, end, field, obj, ChannelInstance, ProfileRecord,
}
use notify_hub.Db.{Db}
use notify_hub.Db.Channels
use notify_hub.Db.Profiles
use notify_hub.Ports.{Outcome, ok, raise, HttpRequest, Externals}
use notify_hub.Admin.WorkerLogs.{WorkerDeliveryEvent, parse_worker_delivery_logs}

pub record CommandResult : Type 0 where
  pub code : ℕ
  pub stdout : Text
  pub stderr : Text

pub record Surroundings : Type 0 where
  pub externals : Externals
  -- `toISOString` of a time in milliseconds, and `Date.parse`, with `none` for NaN.
  pub iso : ℤ → Option Text
  pub date_parse : Text → Option ℤ
  -- The status of the answer to a request, if there is an HttpClient.
  pub http : Option (HttpRequest → Outcome ℕ)
  -- What `docker compose logs worker` gives at the n-th attempt, if there is a CommandRunner.
  pub logs : Option (ℕ → Outcome CommandResult)
  pub gateway_base_url : Option Text
  pub poll_attempts : Option ℕ
  pub sent_at : ℕ

pub data TestSendOutcome : Type 0 where
  not_found : Text → TestSendOutcome
  disabled : Text → TestSendOutcome
  misconfigured : TestSendOutcome
  result : Bool → Text → TestSendOutcome

-- What a run did: the requests, and how often it ran the command and waited.
pub record Trace : Type 0 where
  pub requests : List HttpRequest
  pub commands : ℕ
  pub delays : ℕ

unfoldable pub base_url : Option Text → Text
unfolding trim is_empty
base_url none = lit "http://localhost:8080"
base_url (some url) = if is_empty (trim url) then lit "http://localhost:8080" else trim url

-- `authHeaders`: no header without a token, and none for an empty one.
unfoldable pub auth_headers : Option Text → List (Text × Text)
unfolding is_empty
auth_headers none = []
auth_headers (some token) =
    if is_empty token then [] else (lit "authorization", lit "Bearer " ++ token) ∷ []

unfoldable pub test_request : Option Text → Option Text → Text → HttpRequest
unfolding base_url auth_headers
test_request url token channel_id = record {
  method = lit "POST";
  url = some (base_url url ++ lit "/notify");
  headers = (lit "content-type", lit "application/json") ∷ auth_headers token;
  body = obj (
      field (lit "title") (str (lit "notify-hub admin")) (
        field (lit "message") (str (lit "Test from the admin panel"))
          (field (lit "channels") (arr (cons (str channel_id) nil)) end)));
}

-- `sendTestNotification`: the error message, or `none` when the gateway accepted.
unfoldable pub refusal : Outcome ℕ → Option Text
unfolding decimal
refusal (raise e) = some e
refusal (ok status) =
    if ltb status 200 || leb 300 status
    then some (lit "gateway rejected the test notification (status " ++ (decimal status ++ lit ")"))
    else none

unfoldable pub parsed_events :
    Option (List WorkerDeliveryEvent) → Outcome (List WorkerDeliveryEvent)
parsed_events none = raise (lit "Invalid time value")
parsed_events (some events) = ok events

-- `fetchWorkerDeliveryEvents`: a command that fails has no events.
unfoldable pub fetch_worker_delivery_events :
    Surroundings → Outcome CommandResult → Outcome (List WorkerDeliveryEvent)
unfolding parsed_events parse_worker_delivery_logs
fetch_worker_delivery_events x (raise e) = raise e
fetch_worker_delivery_events x (ok run) =
    if not (eqb run.code 0)
    then ok []
    else parsed_events
        (parse_worker_delivery_logs x.externals x.iso (run.stdout ++ (lit "\n" ++ run.stderr)))

-- `Date.parse(time) >= sentAt`, which is false of NaN.
since : ℕ → Option ℤ → Bool
since sent_at none = false
since sent_at (some time) = not (gt_ℤ (pos sent_at) time)

recent : Surroundings → Option Text → Bool
unfolding since is_empty
recent x none = true
recent x (some time) = is_empty time || since x.sent_at (x.date_parse time)

unfoldable pub is_match : Surroundings → Text → WorkerDeliveryEvent → Bool
unfolding recent
is_match x channel_id event = (event.channel == channel_id) && recent x event.time

error_or_default : Option Text → Text
error_or_default none = lit "delivery failed"
error_or_default (some error) = error

unfoldable pub match_outcome : WorkerDeliveryEvent → TestSendOutcome
unfolding error_or_default
match_outcome event =
    result event.ok (if event.ok then lit "sent" else error_or_default event.error)

unfoldable pub waited : ℕ → Trace → Trace
waited zero trace = trace
waited (suc remaining) trace = record trace { delays = suc trace.delays }

abbrev pub ran : Trace → Trace
ran trace = record trace { commands = suc trace.commands }

-- One attempt: the last match decides, and without one the loop goes on with `rest`.
unfoldable pub picked :
    Option WorkerDeliveryEvent
    → Trace
    → Outcome TestSendOutcome × Trace
    → Outcome TestSendOutcome × Trace
unfolding match_outcome
picked none trace rest = rest
picked (some event) trace rest = (ok (match_outcome event), trace)

unfoldable pub attempted :
    Surroundings
    → Text
    → Outcome (List WorkerDeliveryEvent)
    → Trace
    → Outcome TestSendOutcome × Trace
    → Outcome TestSendOutcome × Trace
unfolding picked is_match
attempted x channel_id (raise e) trace rest = (raise e, trace)
attempted x channel_id (ok events) trace rest =
    picked (last (filter (is_match x channel_id) events)) trace rest

-- The loop, with `remaining` attempts to go.
unfoldable pub poll :
    Surroundings
    → (ℕ → Outcome CommandResult)
    → Text
    → (remaining attempt : ℕ) → Trace
    → Outcome TestSendOutcome × Trace
unfolding fetch_worker_delivery_events attempted waited
poll x logs channel_id zero attempt trace =
    (ok (result false (lit "no delivery result observed within timeout")), trace)
poll x logs channel_id (suc remaining) attempt trace =
    attempted x channel_id (fetch_worker_delivery_events x (logs attempt)) (ran trace)
      (poll x logs channel_id remaining (suc attempt) (waited remaining (ran trace)))

-- `testSendPollAttempts ?? DEFAULT_POLL_ATTEMPTS`
unfoldable pub attempts_of : Option ℕ → ℕ
attempts_of none = 10
attempts_of (some attempts) = attempts

abbrev pub no_trace : Trace
no_trace = record { requests = []; commands = 0; delays = 0 }

unfoldable pub observe :
    Surroundings
    → Option (ℕ → Outcome CommandResult)
    → Text
    → Trace
    → Outcome TestSendOutcome × Trace
unfolding poll attempts_of
observe x none channel_id trace =
    (ok (result false (lit "no CommandRunner configured to observe the delivery outcome")), trace)
observe x (some logs) channel_id trace =
    poll x logs channel_id (attempts_of x.poll_attempts) 0 trace

unfoldable pub after_request :
    Surroundings → Option Text → Text → Trace → Outcome TestSendOutcome × Trace
unfolding observe
after_request x (some error) channel_id trace =
    (ok (result false (lit "gateway unreachable: " ++ error)), trace)
after_request x none channel_id trace = observe x x.logs channel_id trace

unfoldable pub token_of : Option ProfileRecord → Option Text
token_of none = none
token_of (some profile) = some profile.token

unfoldable pub send_with :
    Surroundings → Option (HttpRequest → Outcome ℕ) → Db → Text → Outcome TestSendOutcome × Trace
unfolding after_request test_request token_of refusal Profiles.list
send_with x none db channel_id = (ok misconfigured, no_trace)
send_with x (some http) db channel_id =
    let request =
      test_request x.gateway_base_url (token_of (first (Profiles.list db))) channel_id in
    after_request x (refusal (http request)) channel_id
      (record no_trace { requests = request ∷ [] })

unfoldable pub run_for :
    Surroundings → Db → Text → Option ChannelInstance → Outcome TestSendOutcome × Trace
unfolding send_with
run_for x db channel_id none =
    (ok (not_found (lit "unknown channel \"" ++ (channel_id ++ lit "\""))), no_trace)
run_for x db channel_id (some channel) =
    if not channel.enabled
    then (ok (disabled (lit "channel \"" ++ (channel_id ++ lit "\" is not enabled"))), no_trace)
    else send_with x x.http db channel_id

unfoldable pub run_test_send : Surroundings → Db → Text → Outcome TestSendOutcome × Trace
unfolding run_for Channels.get
run_test_send x db channel_id = run_for x db channel_id (Channels.get db channel_id)
