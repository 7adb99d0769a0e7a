-- ===== src/Admin/TestSend/Success.antt =====
-- What the success of a test send says.
use notify_hub.Base.{
  ℕ, zero, suc, true, Option, none, some, List, [], ◌∷◌, filter, first, last, Text, ◌≡◌, refl, ◌⊎◌,
  inl, inr, Mem, mem-filter, Bool-cases,
}
use notify_hub.Core.{ChannelInstance}
use notify_hub.Db.{Db}
use notify_hub.Db.Channels
use notify_hub.Db.Profiles
use notify_hub.Ports.{Outcome, ok, raise, HttpRequest}
use notify_hub.Admin.WorkerLogs.{WorkerDeliveryEvent}
use notify_hub.Admin.TestSend.{
  CommandResult, Surroundings, TestSendOutcome, not_found, disabled, misconfigured, result, Trace,
  test_request, refusal, fetch_worker_delivery_events, is_match, match_outcome, waited, ran, picked,
  attempted, poll, attempts_of, no_trace, observe, after_request, token_of, send_with, run_for,
  run_test_send,
}

last-mem : {A : Type 0} (xs : List A) {x : A} → last xs ≡ some x → Mem x xs
last-mem [] e = absurd (cc e)
last-mem (x ∷ []) e = inl (cc e)
last-mem (x ∷ y ∷ xs) e = inr (last-mem (y ∷ xs) e)

-- A line of the log at one of the attempts says that the channel was sent to.
abbrev pub IsSeen : Surroundings → (ℕ → Outcome CommandResult) → Text → Type 0
IsSeen x logs channel_id =
    (n : ℕ) × (events : List WorkerDeliveryEvent) × (event : WorkerDeliveryEvent)
    × (fetch_worker_delivery_events x (logs n) ≡ ok events)
    × Mem event events
    × (is_match x channel_id event ≡ true)
    × (event.ok ≡ true)

-- The outcome is a result that is ok.
abbrev pub IsSuccess : Outcome TestSendOutcome → Type 0
IsSuccess (ok (result sent detail)) = sent ≡ true
IsSuccess (ok (not_found message)) = ⊥
IsSuccess (ok (disabled message)) = ⊥
IsSuccess (ok misconfigured) = ⊥
IsSuccess (raise e) = ⊥

picked_sound :
    (x : Surroundings) (channel_id : Text) (events : List WorkerDeliveryEvent)
    (o : Option WorkerDeliveryEvent) (trace : Trace) (rest : Outcome TestSendOutcome × Trace)
    → last (filter (is_match x channel_id) events) ≡ o
    → IsSuccess (picked o trace rest).0
    → ((event : WorkerDeliveryEvent) × Mem event events
        × (is_match x channel_id event ≡ true)
        × (event.ok ≡ true))
      ⊎ IsSuccess rest.0
unfolding picked match_outcome
picked_sound x channel_id events none trace rest e h = inr h
picked_sound x channel_id events (some event) trace rest e h =
    let (among, matches) =
      (mem-filter (is_match x channel_id) event events).0
        (last-mem (filter (is_match x channel_id) events) e) in
    inl (event, among, matches, h)

attempted_sound :
    (x : Surroundings) (logs : ℕ → Outcome CommandResult) (channel_id : Text) (n : ℕ)
    (read : Outcome (List WorkerDeliveryEvent)) (trace : Trace)
    (rest : Outcome TestSendOutcome × Trace)
    → fetch_worker_delivery_events x (logs n) ≡ read
    → IsSuccess (attempted x channel_id read trace rest).0
    → IsSeen x logs channel_id ⊎ IsSuccess rest.0
unfolding attempted
attempted_sound x logs channel_id n (raise error) trace rest e h = absurd h
attempted_sound x logs channel_id n (ok events) trace rest e h =
    elim (picked_sound x channel_id events (last (filter (is_match x channel_id) events)) trace rest
      refl h) [
        | inl (event, among, matches, sent) ↦ inl (n, events, event, e, among, matches, sent)
        | inr later ↦ inr later
      ]

poll_sound :
    (x : Surroundings) (logs : ℕ → Outcome CommandResult) (channel_id : Text)
    (remaining attempt : ℕ) (trace : Trace)
    → IsSuccess (poll x logs channel_id remaining attempt trace).0
    → IsSeen x logs channel_id
unfolding poll
poll_sound x logs channel_id zero attempt trace h = absurd (cc h)
poll_sound x logs channel_id (suc remaining) attempt trace h =
    let next = waited remaining (ran trace) in
    elim (attempted_sound x logs channel_id attempt (fetch_worker_delivery_events x (logs attempt))
      (ran trace) (poll x logs channel_id remaining (suc attempt) next) refl h) [
        | inl seen ↦ seen
        | inr later ↦ poll_sound x logs channel_id remaining (suc attempt) next later
      ]

-- The gateway accepted a request for this channel, and the worker's log says that it was sent.
abbrev pub IsDelivered : Surroundings → Db → Text → Type 0
IsDelivered x db channel_id =
    (http : (HttpRequest → Outcome ℕ)) × (logs : (ℕ → Outcome CommandResult)) × (x.http ≡ some http)
    × (x.logs ≡ some logs)
    × (refusal
          (http (test_request x.gateway_base_url (token_of (first (Profiles.list db))) channel_id))
        ≡ none)
    × IsSeen x logs channel_id

module _ (x : Surroundings) (db : Db) (channel_id : Text) where
  observe_sound :
      (o : Option (ℕ → Outcome CommandResult)) (trace : Trace)
      → IsSuccess (observe x o channel_id trace).0
      → (logs : (ℕ → Outcome CommandResult)) × (o ≡ some logs) × IsSeen x logs channel_id
  unfolding observe
  observe_sound none trace h = absurd (cc h)
  observe_sound (some logs) trace h =
      (logs, refl, poll_sound x logs channel_id (attempts_of x.poll_attempts) 0 trace h)

  after_request_sound :
      (o : Option Text) (trace : Trace)
      → IsSuccess (after_request x o channel_id trace).0
      → (o ≡ none) × IsSuccess (observe x x.logs channel_id trace).0
  unfolding after_request
  after_request_sound none trace h = (refl, h)
  after_request_sound (some error) trace h = absurd (cc h)

  send_with_sound :
      (o : Option (HttpRequest → Outcome ℕ))
      → x.http ≡ o
      → IsSuccess (send_with x o db channel_id).0
      → IsDelivered x db channel_id
  unfolding send_with
  send_with_sound none e h = absurd h
  send_with_sound (some http) e h =
      let request =
        test_request x.gateway_base_url (token_of (first (Profiles.list db))) channel_id in
      let (accepted, observed) =
        after_request_sound (refusal (http request)) (record no_trace { requests = request ∷ [] })
          h in
      let (logs, there, seen) =
        observe_sound x.logs (record no_trace { requests = request ∷ [] }) observed in
      (http, logs, e, there, accepted, seen)

  run_for_sound :
      (o : Option ChannelInstance)
      → IsSuccess (run_for x db channel_id o).0
      → (channel : ChannelInstance) × (o ≡ some channel)
        × (channel.enabled ≡ true)
        × IsDelivered x db channel_id
  unfolding run_for
  run_for_sound none h = absurd h
  run_for_sound (some channel) h = elim (Bool-cases channel.enabled) [
    | inl on ↦ (channel, refl, on, send_with_sound x.http refl (rw on at h))
    | inr off ↦ absurd (rw off at h)
  ]

  -- A test send that reports success: the channel exists and is enabled, the gateway accepted a request
  -- for it with the first profile's token, and at one of the attempts the worker's log had an event of
  -- this channel, recent enough or without a time, that was sent.
  pub run_test_send_sound :
      IsSuccess (run_test_send x db channel_id).0
      → (channel : ChannelInstance) × (Channels.get db channel_id ≡ some channel)
        × (channel.enabled ≡ true)
        × IsDelivered x db channel_id
  unfolding run_test_send
  run_test_send_sound h = run_for_sound (Channels.get db channel_id) h
