-- ===== src/Hook/Run.antt =====
-- `postPayload`, `run` and `runDeferredSend` of clients/claude-code/notify-hook.mjs, and its `main`.
use notify_hub.Base.{
  ℕ, Bool, false, ◌||◌, Option, none, some, [], ◌∷◌, ◌++◌, Text, lit, decimal, ltb, leb, ℤ, eq_ℤ,
  gt_ℤ, if◌then◌else◌,
}
use notify_hub.Base.Map.{Map}
use notify_hub.Core.{Value}
use notify_hub.Ports.{Outcome, ok, raise, HttpRequest}
use notify_hub.Hook.{
  Machine, HookWorld, HookInput, HookEvent, begins, ends, map_event, truthy, print,
}
use notify_hub.Hook.Settings.{resolve_config, is_event_enabled, resolve_idle_seconds}
use notify_hub.Hook.Caches.{
  start_ending, activity_ending, write_time, read_activity_time, Pending, write_pending_payload,
  read_pending_payload, delete_pending_payload,
}
use notify_hub.Hook.Payload.{to_value, build_payload}

-- `config.NOTIFY_TOKEN ?? ''`
token_text : Option Text → Text
token_text none = []
token_text (some token) = token

unfoldable pub gateway_request : Text → Option Text → Value → HttpRequest
unfolding token_text
gateway_request url token payload = record {
  method = lit "POST";
  url = some url;
  headers =
      (lit "content-type", lit "application/json")
      ∷ (lit "authorization", lit "Bearer " ++ token_text token)
      ∷ [];
  body = payload;
}

-- What is printed of the answer.
unfoldable pub report : Outcome ℕ → HookWorld → HookWorld
unfolding decimal
report (raise e) w = print (lit "notify-hook: failed to reach gateway: " ++ e) w
report (ok status) w =
    if ltb status 200 || leb 300 status
    then print (lit "notify-hook: gateway responded with status " ++ decimal status) w
    else w

unfoldable pub post_payload : Machine → Text → Option Text → Value → HookWorld → HookWorld
unfolding report gateway_request
post_payload m url token payload w =
    let request = gateway_request url token payload in
    report (m.fetch request) (record w { sent = w.sent ++ request ∷ [] })

unfoldable pub spawn_at : Machine → Text → ℕ → Option Text → HookWorld → HookWorld
unfolding decimal
spawn_at m session_id stop_ts none w = w
spawn_at m session_id stop_ts (some path) w =
    if m.can_spawn
    then record w {
      spawned =
          w.spawned ++ (path ∷ lit "--deferred-send" ∷ session_id ∷ decimal stop_ts ∷ []) ∷ [];
    }
    else w

-- `spawnDeferredSender`: the arguments of the copy that is spawned, after `process.execPath`.
unfoldable pub spawn_deferred_sender : Machine → Text → ℕ → HookWorld → HookWorld
unfolding spawn_at truthy
spawn_deferred_sender m session_id stop_ts w = spawn_at m session_id stop_ts (truthy m.own_path) w

-- The two caches that a prompt writes, with a reading of the clock for each.
unfoldable pub mark_prompt : Machine → HookInput → ℕ → ℕ → HookWorld → HookWorld
unfolding write_time truthy
mark_prompt m input started active w =
    write_time m activity_ending (truthy input.session_id) active
      (write_time m start_ending (truthy input.session_id) started w)

unfoldable pub send_now :
    Machine → HookInput → HookEvent → Text → Option Text → ℕ → HookWorld → HookWorld
unfolding build_payload post_payload
send_now m input event url token now w =
    let (payload, w') = build_payload m input event now w in
    post_payload m url token (to_value payload) w'

-- The payload is kept for a sender that wakes later.
unfoldable pub debounce : Machine → HookInput → Text → ℕ → HookWorld → HookWorld
unfolding build_payload write_pending_payload spawn_deferred_sender
debounce m input session_id stop_ts w =
    let (payload, w') = build_payload m input ends stop_ts w in
    spawn_deferred_sender m session_id stop_ts
      (write_pending_payload m session_id stop_ts (to_value payload) w')

-- An `end` event of a session is debounced, unless the idle time is 0.
unfoldable pub push :
    Machine
    → HookInput
    → HookEvent
    → Text
    → (Text → Option Text)
    → Option Text
    → ℕ
    → HookWorld
    → HookWorld
unfolding debounce send_now resolve_idle_seconds
push m input ends url config (some session_id) now w =
    if ltb 0 (resolve_idle_seconds m config)
    then debounce m input session_id now w
    else send_now m input ends url (config (lit "NOTIFY_TOKEN")) now w
push m input event url config session_id now w =
    send_now m input event url (config (lit "NOTIFY_TOKEN")) now w

unfoldable pub push_enabled :
    Machine → HookInput → HookEvent → (Text → Option Text) → Option Text → ℕ → HookWorld → HookWorld
unfolding push truthy
push_enabled m input event config none now w =
    print (lit "notify-hook: NOTIFY_URL not set; skipping notification") w
push_enabled m input event config (some url) now w =
    push m input event url config (truthy input.session_id) now w

-- After the caches are written: the toggle, the URL, and the push.
unfoldable pub run_configured :
    Machine → Map Text → HookInput → HookEvent → ℕ → HookWorld → HookWorld
unfolding push_enabled resolve_config is_event_enabled truthy
run_configured m env input event now w =
    let config = resolve_config m env w in
    if is_event_enabled event config
    then push_enabled m input event config (truthy (config (lit "NOTIFY_URL"))) now w
    else w

-- `clock n` is the time at the n-th reading of this run.
unfoldable pub run_event :
    Machine → Map Text → HookInput → (ℕ → ℕ) → Option HookEvent → HookWorld → HookWorld
unfolding mark_prompt run_configured
run_event m env input clock none w = w
run_event m env input clock (some begins) w =
    run_configured m env input begins (clock 2) (mark_prompt m input (clock 0) (clock 1) w)
run_event m env input clock (some event) w = run_configured m env input event (clock 0) w

unfoldable pub run : Machine → Map Text → (ℕ → ℕ) → HookInput → HookWorld → HookWorld
unfolding run_event map_event
run m env clock input w = run_event m env input clock (map_event input.hook_event_name) w

-- `shouldDeferredSend`
unfoldable pub should_deferred_send : Option ℤ → Option ℤ → ℤ → Bool
should_deferred_send none none mine = false
should_deferred_send none (some pending) mine = eq_ℤ pending mine
should_deferred_send (some active) none mine = false
should_deferred_send (some active) (some pending) mine =
    if gt_ℤ active mine then false else eq_ℤ pending mine

unfoldable pub post_to : Machine → Option Text → Option Text → Value → HookWorld → HookWorld
unfolding post_payload
post_to m none token payload w =
    print (lit "notify-hook: NOTIFY_URL not set; skipping deferred notification") w
post_to m (some url) token payload w = post_payload m url token payload w

unfoldable pub deferred_post : Machine → (Text → Option Text) → HookWorld → Pending → HookWorld
unfolding post_to truthy
deferred_post m config w pending =
    post_to m (truthy (config (lit "NOTIFY_URL"))) (config (lit "NOTIFY_TOKEN")) pending.payload w

unfoldable pub send_pending :
    Machine → (Text → Option Text) → Text → Option ℤ → ℤ → Option Pending → HookWorld → HookWorld
unfolding deferred_post delete_pending_payload should_deferred_send
send_pending m config session_id active stop_ts none w = w
send_pending m config session_id active stop_ts (some pending) w =
    if should_deferred_send active (some pending.stop_ts) stop_ts
    then delete_pending_payload m session_id (deferred_post m config w pending)
    else w

-- `runDeferredSend` from where it wakes, with the config it resolved before it slept, as one step: the
-- POST, which it awaits before it deletes the pending file, included. Without a pending payload it
-- never sends.
unfoldable pub run_deferred_send : Machine → (Text → Option Text) → Text → ℤ → HookWorld → HookWorld
unfolding send_pending read_activity_time read_pending_payload
run_deferred_send m config session_id stop_ts w =
    send_pending m config session_id (read_activity_time m session_id w) stop_ts
      (read_pending_payload m session_id w) w
