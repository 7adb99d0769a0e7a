-- ===== src/Admin/TestSend/Polling.antt =====
-- How long a test send polls.
use notify_hub.Base.{
  ℕ, zero, suc, ◌+◌, ◌-◌, ◌≤◌, Option, none, some, List, [], ◌∷◌, filter, first, last, Text, inl,
  inr, Bool-cases, arith,
}
use notify_hub.Core.{ChannelInstance}
use notify_hub.Db.{Db}
use notify_hub.Db.Channels
use notify_hub.Db.Profiles
use notify_hub.Ports.{Outcome, ok, raise, HttpRequest}
use notify_hub.Admin.WorkerLogs.{WorkerDeliveryEvent}
use notify_hub.Admin.TestSend.{
  CommandResult, Surroundings, TestSendOutcome, Trace, test_request, refusal,
  fetch_worker_delivery_events, is_match, waited, ran, picked, attempted, poll, attempts_of,
  no_trace, observe, after_request, token_of, send_with, run_for, run_test_send,
}

-- At most this many commands and waits.
abbrev pub IsWithin : (commands delays : ℕ) → Trace → Type 0
IsWithin commands delays trace = (trace.commands ≤ commands) × (trace.delays ≤ delays)

picked-IsWithin :
    (o : Option WorkerDeliveryEvent) (trace : Trace) (rest : Outcome TestSendOutcome × Trace)
    (c d : ℕ)
    → IsWithin c d trace
    → IsWithin c d rest.1
    → IsWithin c d (picked o trace rest).1
unfolding picked
picked-IsWithin none trace rest c d now later = later
picked-IsWithin (some event) trace rest c d now later = now

attempted-IsWithin :
    (x : Surroundings) (channel_id : Text) (read : Outcome (List WorkerDeliveryEvent))
    (trace : Trace) (rest : Outcome TestSendOutcome × Trace) (c d : ℕ)
    → IsWithin c d trace
    → IsWithin c d rest.1
    → IsWithin c d (attempted x channel_id read trace rest).1
unfolding attempted
attempted-IsWithin x channel_id (raise e) trace rest c d now later = now
attempted-IsWithin x channel_id (ok events) trace rest c d now later =
    picked-IsWithin (last (filter (is_match x channel_id) events)) trace rest c d now later

waited_commands :
    (remaining : ℕ) (trace : Trace)
    → (waited remaining trace).commands + remaining ≤ trace.commands + remaining
unfolding waited
waited_commands zero trace = omega arith
waited_commands (suc remaining) trace = omega arith

waited_delays :
    (remaining : ℕ) (trace : Trace)
    → (waited remaining trace).delays + (remaining - 1) ≤ trace.delays + remaining
unfolding waited
waited_delays zero trace = omega arith
waited_delays (suc remaining) trace = omega arith

IsWithin-le :
    {c d c' d' : ℕ} (trace : Trace) → c ≤ c' → d ≤ d' → IsWithin c d trace → IsWithin c' d' trace
IsWithin-le trace a b h = (omega (arith, h.0, a), omega (arith, h.1, b))

poll-IsWithin :
    (x : Surroundings) (logs : ℕ → Outcome CommandResult) (channel_id : Text)
    (remaining attempt : ℕ) (trace : Trace)
    → IsWithin
        (trace.commands + remaining)
        (trace.delays + (remaining - 1))
        (poll x logs channel_id remaining attempt trace).1
unfolding poll
poll-IsWithin x logs channel_id zero attempt trace = (omega arith, omega arith)
poll-IsWithin x logs channel_id (suc remaining) attempt trace =
    let later =
      poll-IsWithin x logs channel_id remaining (suc attempt) (waited remaining (ran trace)) in
    let rest = poll x logs channel_id remaining (suc attempt) (waited remaining (ran trace)) in
    attempted-IsWithin x channel_id (fetch_worker_delivery_events x (logs attempt)) (ran trace) rest
      (trace.commands + suc remaining) (trace.delays + (suc remaining - 1))
      (omega arith, omega arith)
      (IsWithin-le rest.1 (omega (arith, waited_commands remaining (ran trace)))
        (omega (arith, waited_delays remaining (ran trace))) later)

module _ (x : Surroundings) (db : Db) (channel_id : Text) where
  observe-IsWithin :
      (o : Option (ℕ → Outcome CommandResult)) (requests : List HttpRequest)
      → let attempts = attempts_of x.poll_attempts in
        IsWithin attempts
          (attempts - 1)
          (observe x o channel_id (record no_trace { requests = requests })).1
  unfolding observe
  observe-IsWithin none requests = (omega arith, omega arith)
  observe-IsWithin (some logs) requests =
      let attempts = attempts_of x.poll_attempts in
      let trace = record no_trace { requests = requests } in
      IsWithin-le (poll x logs channel_id attempts 0 trace).1 (omega arith) (omega arith)
        (poll-IsWithin x logs channel_id attempts 0 trace)

  after_request-IsWithin :
      (o : Option Text) (requests : List HttpRequest)
      → let attempts = attempts_of x.poll_attempts in
        IsWithin attempts
          (attempts - 1)
          (after_request x o channel_id (record no_trace { requests = requests })).1
  unfolding after_request
  after_request-IsWithin none requests = observe-IsWithin x.logs requests
  after_request-IsWithin (some error) requests = (omega arith, omega arith)

  send_with-IsWithin :
      (o : Option (HttpRequest → Outcome ℕ))
      → let attempts = attempts_of x.poll_attempts in
        IsWithin attempts (attempts - 1) (send_with x o db channel_id).1
  unfolding send_with
  send_with-IsWithin none = (omega arith, omega arith)
  send_with-IsWithin (some http) =
      let request =
        test_request x.gateway_base_url (token_of (first (Profiles.list db))) channel_id in
      after_request-IsWithin (refusal (http request)) (request ∷ [])

  run_for-IsWithin :
      (o : Option ChannelInstance)
      → let attempts = attempts_of x.poll_attempts in
        IsWithin attempts (attempts - 1) (run_for x db channel_id o).1
  unfolding run_for
  run_for-IsWithin none = (omega arith, omega arith)
  run_for-IsWithin (some channel) = elim (Bool-cases channel.enabled) [
    | inl on ↦ rw on (send_with-IsWithin x.http)
    | inr off ↦ rw off (omega arith, omega arith)
  ]

  -- Whatever the gateway and the worker's log answer, a test send ends after at most as many commands
  -- as attempts are configured (10 by default), and waits less often than that, or never for 0.
  pub run_test_send-IsWithin :
      let attempts = attempts_of x.poll_attempts in
      IsWithin attempts (attempts - 1) (run_test_send x db channel_id).1
  unfolding run_test_send
  run_test_send-IsWithin = run_for-IsWithin (Channels.get db channel_id)
