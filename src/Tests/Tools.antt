-- ===== src/Tests/Tools.antt =====
-- Calls of the tools of src/mcp, and the theorems applied to them.
use notify_hub.Base.{
  arith, Option, none, some, List, [], ◌∷◌, ◌++◌, Text, lit, ◌==◌, if◌then◌else◌, ◌≡◌, refl, sym,
  ap, ◌∙◌, All, ◌⊎◌, trim, drop_while, is_space, has, drop,
}
use notify_hub.Base.Map.{lookup}
use notify_hub.Core.{Value, str, obj, Fields, end, field, ProfileRecord}
use notify_hub.Db.{Db, empty_db}
use notify_hub.Db.Channels
use notify_hub.Db.Integrity.{IsConsistent}
use notify_hub.Channels.Registry.{required_config_by_channel, channel_registry}
use notify_hub.Channels.Decorators.{build_instance}
use notify_hub.Channels.Adapters.Chat.{slack_channel}
use notify_hub.Dispatch.{handle_dispatch}
use notify_hub.Delivery.{deliver}
use notify_hub.Ports.{Outcome, ok, raise, HttpRequest, HttpResponse}
use notify_hub.Admin.Status.Gateway.{served}
use notify_hub.Admin.Validation.{validate_config_payload, valid}
use notify_hub.Admin.Validation.Decision.{validate_config_payload_iff}
use notify_hub.Admin.Service.{get_full_config}
use notify_hub.Mcp.Config.{
  Outside, ToolCall, upsert_channel, delete_channel, delete_profile, test_channel, run_tools,
}
use notify_hub.Mcp.Config.Laws.{IsSound, IsFailure, run_tools-IsSound}
use notify_hub.Mcp.{ToolResult, text_result, error_result}
use notify_hub.Mcp.Sending.{fixed, token_headers, resolve_token}
use notify_hub.Mcp.Sending.EndToEnd.{
  IsRelayed, at_gateway, sent, authorization, queued_text, send_notification-gateway,
}
use notify_hub.Api.{NotifyBody, Parsed, success, accepted, Reply, post_notify, extract_bearer_token}
use notify_hub.Api.Laws.{IsAccepted, IsNotified, notified}
use notify_hub.Api.Routes.{notify_reply}
use notify_hub.Container.{registered_queue}
use notify_hub.Tests.Samples.{chat_row, pager, ops_row, link, answering, start}
use notify_hub.Tests.Sending.{desk}

-- A valid configuration: one channel, and the profile that it belongs to.
abbrev pub team : Db
team = record empty_db {
  channels = chat_row ∷ [];
  profiles = ops_row ∷ [];
  profile_channels = link (lit "chat") ∷ [];
}

team-IsConsistent : IsConsistent team
unfolding lit
team-IsConsistent = record {
  channel_ids = ground arith;
  profile_ids = ground arith;
  tokens = ground arith;
  links = ground arith;
  references = λ l m. ground arith;
}

accepted_team : validate_config_payload (get_full_config team) required_config_by_channel ≡ valid
unfolding validate_config_payload get_full_config required_config_by_channel ◌==◌ lit has
accepted_team = refl

pub team-IsSound : IsSound team
team-IsSound = (
  team-IsConsistent,
  (validate_config_payload_iff (get_full_config team) required_config_by_channel).0 accepted_team,
)

abbrev outside : Outside
outside = record {
  print_config = λ config. lit "{}";
  print_status = λ status. lit "{}";
  surroundings = desk;
  http = none;
  logs = none;
}

-- A channel is added, a profile that is not there is deleted, and a channel is tried and deleted.
abbrev calls : List (Outside × ToolCall)
calls =
    (outside, upsert_channel 99 pager)
    ∷ (outside, delete_profile (lit "nobody"))
    ∷ (outside, test_channel (lit "chat"))
    ∷ (outside, delete_channel (lit "chat"))
    ∷ []

run_tools-IsSound_example :
    IsSound (run_tools calls team).1
    × (All IsFailure (run_tools calls team).0 → (run_tools calls team).1 ≡ team)
run_tools-IsSound_example = run_tools-IsSound calls team team-IsSound

-- A message to one channel, and an HttpClient that asks the gateway with the token t1.
abbrev message : Fields
message = field (lit "message") (str (lit "done")) end

abbrev one_channel : NotifyBody
one_channel = record {
  title = none;
  message = lit "done";
  channels = some (lit "chat" ∷ []);
  priority = none;
  tags = none;
  metadata = none;
}

abbrev reading : Value → Parsed
reading v = success one_channel

print_job : Value → Text
print_job (obj (field key (str s) end)) = key ++ s
print_job _ = []

-- The gateway's reply with a job id, or the call's own arguments.
parse_job : Text → Outcome Value
parse_job s =
    if s == lit "messagedone"
    then ok (obj message)
    else ok (obj (field (lit "jobId") (str (drop 5 s)) end))

abbrev job_site : HttpRequest → Outcome HttpResponse
job_site request =
    ok (record { status = 202; body = print_job (notify_reply (accepted (lit "id-0"))).body })

first_reply :
    (at_gateway
      (λ n. lit "status")
      print_job
      parse_job
      job_site
      (lit "http://hub")
      (fixed (lit "t1"))
      message
      (answering 200)
      reading
      start).0
    ≡ ok (accepted (lit "id-0"))
unfolding post_notify registered_queue token_headers resolve_token extract_bearer_token lookup ◌==◌
    lit drop_while is_space trim handle_dispatch has Channels.list_enabled deliver build_instance
    channel_registry slack_channel
first_reply = refl

served_outcome : Outcome Reply → Outcome HttpResponse
served_outcome (ok r) = ok (served print_job (notify_reply r))
served_outcome (raise e) = raise e

relayed :
    (reply : Reply)
    → (at_gateway
        (λ n. lit "status")
        print_job
        parse_job
        job_site
        (lit "http://hub")
        (fixed (lit "t1"))
        message
        (answering 200)
        reading
        start).0
      ≡ ok reply
    → ok (served print_job (notify_reply (accepted (lit "id-0"))))
      ≡ ok (served print_job (notify_reply reply))
unfolding served_outcome
relayed reply e = ap served_outcome (sym first_reply ∙ e)

job_parsed :
    (id : Text)
    → parse_job (print_job (notify_reply (accepted id)).body) ≡ ok (notify_reply (accepted id)).body
unfolding parse_job print_job notify_reply lit ◌==◌
job_parsed id = refl

message_parsed : parse_job (print_job (obj message)) ≡ ok (obj message)
unfolding parse_job print_job lit ◌==◌
message_parsed = refl

is_relayed :
    IsRelayed
      (λ n. lit "status")
      print_job
      parse_job
      job_site
      (lit "http://hub")
      (fixed (lit "t1"))
      message
      (answering 200)
      reading
      start
unfolding notify_reply
is_relayed = record { relayed = relayed; args_parsed = message_parsed; reply_parsed = job_parsed }

abbrev bearer : Option Text
bearer =
    authorization (λ n. lit "status") print_job parse_job job_site (lit "http://hub")
      (fixed (lit "t1")) message (answering 200) reading start

abbrev told : Option ToolResult
told =
    sent (λ n. lit "status") print_job parse_job job_site (lit "http://hub") (fixed (lit "t1"))
      message (answering 200) reading start

send_notification-gateway_example :
    ((profile : ProfileRecord) × (body : NotifyBody) × IsAccepted
        (answering 200)
        reading
        bearer
        (obj message)
        start
        profile
        body
      × IsNotified (answering 200) reading bearer (obj message) start profile body
      × (told ≡ some (text_result (queued_text ((answering 200).uuid start.uuids_drawn)))))
    ⊎ ((error : Text) × (told ≡ some (error_result error))
        × (notified (answering 200) reading bearer (obj message) start).1 ≡ start)
send_notification-gateway_example =
    send_notification-gateway (λ n. lit "status") print_job parse_job job_site (lit "http://hub")
      (fixed (lit "t1")) message (answering 200) reading start is_relayed
