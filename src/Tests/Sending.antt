-- ===== src/Tests/Sending.antt =====
-- A test send whose delivery is seen at the second attempt, and the theorems applied.
use notify_hub.Base.{
  ℕ, zero, suc, ◌-◌, true, none, some, lit, ◌≡◌, refl, ◌==◌, split, starts_with, is_empty, trim,
}
use notify_hub.Core.{ChannelInstance, Value, obj, str, field, end}
use notify_hub.Db.Channels
use notify_hub.Ports.{Outcome, ok}
use notify_hub.Admin.WorkerLogs.{
  parse_worker_delivery_logs, collect, event_of, extract_json_object, property,
}
use notify_hub.Admin.TestSend.{
  Surroundings, CommandResult, run_test_send, refusal, fetch_worker_delivery_events, attempted,
  poll, attempts_of, is_match, match_outcome, waited,
}
use notify_hub.Admin.TestSend.Polling.{IsWithin, run_test_send-IsWithin}
use notify_hub.Admin.TestSend.Success.{IsSuccess, IsDelivered, run_test_send_sound}
use notify_hub.Tests.Samples.{answering, hub}

abbrev sent_line : Value
sent_line = obj (
    field (lit "msg") (str (lit "notification sent"))
      (field (lit "channel") (str (lit "chat")) end))

abbrev worker_log : ℕ → Outcome CommandResult
worker_log zero = ok (record { code = 1; stdout = lit ""; stderr = lit "" })
worker_log (suc n) = ok (record { code = 0; stdout = lit "worker | {}"; stderr = lit "" })

abbrev pub desk : Surroundings
desk = record {
  externals = record (answering 200) { parse_json = λ s. some sent_line };
  iso = λ time. none;
  date_parse = λ text. none;
  http = some (λ request. ok 202);
  logs = some worker_log;
  gateway_base_url = none;
  poll_attempts = none;
  sent_at = 1000;
}

arrived : IsSuccess (run_test_send desk hub (lit "chat")).0
unfolding run_test_send Channels.get refusal fetch_worker_delivery_events attempted poll attempts_of
    is_match match_outcome waited parse_worker_delivery_logs collect event_of extract_json_object
    property split starts_with is_empty trim ◌==◌ lit
arrived = refl

run_test_send_sound_example :
    (channel : ChannelInstance) × (Channels.get hub (lit "chat") ≡ some channel)
    × (channel.enabled ≡ true)
    × IsDelivered desk hub (lit "chat")
run_test_send_sound_example = run_test_send_sound desk hub (lit "chat") arrived

run_test_send-IsWithin_example :
    IsWithin
      (attempts_of desk.poll_attempts)
      (attempts_of desk.poll_attempts - 1)
      (run_test_send desk hub (lit "chat")).1
run_test_send-IsWithin_example = run_test_send-IsWithin desk hub (lit "chat")
