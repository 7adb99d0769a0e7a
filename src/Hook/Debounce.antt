-- ===== src/Hook/Debounce.antt =====
-- The debounce that `run` and `runDeferredSend` of clients/claude-code/notify-hook.mjs implement
-- together, as a state of one session and the signals that change it. `SessionEvent` is what happens to
-- the program itself: a prompt, the end of a task, and a sender that wakes.
pub mod Order
pub mod Runs
pub mod Worlds
pub mod Stores
pub mod Waking
pub mod Refines
pub mod Quiet
use notify_hub.Base.{
  ℕ, Bool, true, false, Option, none, some, List, [], ◌∷◌, ◌++◌, map, Text, lit, ℤ, gt_ℤ, eq_ℤ, not,
  ◌&&◌, pos, if◌then◌else◌,
}
use notify_hub.Base.Map.{Map}
use notify_hub.Core.{Value}
use notify_hub.Ports.{HttpRequest}
use notify_hub.Hook.{Machine, HookWorld, HookInput, ends}
use notify_hub.Hook.Caches.{Pending, read_activity_time, read_pending_payload}
use notify_hub.Hook.Payload.{Payload, to_value, build_payload}
use notify_hub.Hook.Settings.{resolve_config}
use notify_hub.Hook.Run.{run, run_deferred_send}

pub record Session : Type 0 where
  pub activity : Option ℤ
  pub pending : Option Pending
  pub posted : List Value

pub data Signal : Type 0 where
  prompt : ℕ → Signal
  stop : ℕ → Value → Signal
  wake : ℤ → Signal

-- Whether the user was active after a stop.
unfoldable pub came_back : Option ℤ → ℤ → Bool
came_back none stop_ts = false
came_back (some active) stop_ts = gt_ℤ active stop_ts

-- A sender that wakes posts what is pending if it is its own and the user has not come back.
unfoldable pub wake_up : ℤ → Option Pending → Session → Session
unfolding came_back
wake_up stop_ts none s = s
wake_up stop_ts (some pending) s =
    if not (came_back s.activity stop_ts) && eq_ℤ pending.stop_ts stop_ts
    then record s { pending = none; posted = s.posted ++ pending.payload ∷ [] }
    else s

unfoldable pub signal : Signal → Session → Session
unfolding wake_up
signal (prompt time) s = record s { activity = some (pos time) }
signal (stop time payload) s = record s {
  pending = some (record { stop_ts = pos time; payload = payload });
}
signal (wake stop_ts) s = wake_up stop_ts s.pending s

unfoldable pub signals : List Signal → Session → Session
unfolding signal
signals [] s = s
signals (x ∷ xs) s = signals xs (signal x s)

-- What happens to the session `session_id`: `before` is the world in which the sender that wakes
-- resolved its config.
pub data SessionEvent : Type 0 where
  prompted : HookInput → (ℕ → ℕ) → SessionEvent
  stopped : HookInput → ℕ → SessionEvent
  woken : HookWorld → ℤ → SessionEvent

abbrev pub prompt_input : Text → HookInput → HookInput
prompt_input session_id input = record input {
  hook_event_name = some (lit "UserPromptSubmit");
  session_id = some session_id;
}

abbrev pub stop_input : Text → HookInput → HookInput
stop_input session_id input = record input {
  hook_event_name = some (lit "Stop");
  session_id = some session_id;
}

module _ (m : Machine) (session_id : Text) where
  -- The session as the files and the requests show it.
  unfoldable pub session_of : HookWorld → Session
  unfolding read_activity_time read_pending_payload
  session_of w = record {
    activity = read_activity_time m session_id w;
    pending = read_pending_payload m session_id w;
    posted = map (λ request. request.body) w.sent;
  }

  unfoldable pub stop_payload : HookInput → ℕ → HookWorld → Value
  unfolding build_payload
  stop_payload input now w = to_value (build_payload m (stop_input session_id input) ends now w).0

  unfoldable pub signal_of : SessionEvent → HookWorld → Signal
  unfolding stop_payload
  signal_of (prompted input clock) w = prompt (clock 1)
  signal_of (stopped input now) w = stop now (stop_payload input now w)
  signal_of (woken before stop_ts) w = wake stop_ts

module _ (m : Machine) (env : Map Text) (session_id : Text) where
  unfoldable pub happen : SessionEvent → HookWorld → HookWorld
  unfolding run run_deferred_send resolve_config
  happen (prompted input clock) w = run m env clock (prompt_input session_id input) w
  happen (stopped input now) w = run m env (λ reading. now) (stop_input session_id input) w
  happen (woken before stop_ts) w =
      run_deferred_send m (resolve_config m env before) session_id stop_ts w

  unfoldable pub happen_all : List SessionEvent → HookWorld → HookWorld
  unfolding happen
  happen_all [] w = w
  happen_all (event ∷ events) w = happen_all events (happen event w)

  unfoldable pub signals_of : List SessionEvent → HookWorld → List Signal
  unfolding signal_of happen
  signals_of [] w = []
  signals_of (event ∷ events) w =
      signal_of m session_id event w ∷ signals_of events (happen event w)
