-- ===== src/Hook/Debounce/Refines.antt =====
-- The runs of the hook for one session, against the session's signals.
use mathlib.Core.Path.{subst}
use notify_hub.Base.{
  ℕ, suc, ◌≤◌, eq_ℤ, All, true, false, none, some, List, [], ◌∷◌, ◌≡◌, ◌≢◌, refl, ap, ◌∙◌, Text,
  lit, decimal, is_empty, ℤ, pos, Sublist, sym, if◌then◌else◌, ◌++◌,
}
use notify_hub.Base.Map.{Map, lookup}
use notify_hub.Hook.{Machine, HookWorld, HookInput, truthy}
use notify_hub.Hook.Caches.{
  start_ending, activity_ending, pending_ending, cache_path, pending_value,
}
use notify_hub.Hook.Settings.{resolve_config}
use notify_hub.Hook.Caches.{read_pending_payload}
use notify_hub.Hook.Run.{run_deferred_send}
use notify_hub.Hook.Debounce.{
  stop, wake, signal, signals, SessionEvent, prompted, stopped, woken, prompt_input, stop_input,
  happen, happen_all, session_of, stop_payload, signal_of, signals_of,
}
use notify_hub.Hook.Debounce.Order.{possible, stop_payloads, signals-possible}
use notify_hub.Hook.Debounce.Quiet.{IsNotLater, IsQuiet, signals-quiet}
use notify_hub.Hook.Debounce.Runs.{resolve_config-env, happen-prompted, happen-stopped}
use notify_hub.Hook.Debounce.Stores.{session_of-mark_prompt, session_of-debounce}
use notify_hub.Hook.Debounce.Waking.{session_of-send_pending}

-- JSON reads the stored payload back.
abbrev pub IsStored : Machine → Text → SessionEvent → HookWorld → Type 0
IsStored m session_id (prompted input clock) w = Unit
IsStored m session_id (stopped input now) w =
    let stored = pending_value now (stop_payload m session_id input now w) in
    m.parse_json (m.stringify stored) ≡ some stored
IsStored m session_id (woken before stop_ts) w = Unit

-- The same at every stop.
abbrev pub AreStored : Machine → Map Text → Text → List SessionEvent → HookWorld → Type 0
AreStored m env session_id [] w = Unit
AreStored m env session_id (event ∷ events) w =
    IsStored m session_id event w
    × AreStored m env session_id events (happen m env session_id event w)

-- A prompt that is not later than the stop, and a sender of another stop.
abbrev pub IsQuietEvent : ℕ → SessionEvent → Type 0
IsQuietEvent now (prompted input clock) = clock 1 ≤ now
IsQuietEvent now (stopped input time) = ⊥
IsQuietEvent now (woken before stop_ts) = eq_ℤ (pos now) stop_ts ≡ false

module _ (m : Machine) (env : Map Text) (session_id : Text) where
  signals_of-IsQuiet :
      (now : ℕ) (events : List SessionEvent) (w : HookWorld)
      → All (IsQuietEvent now) events
      → All (IsQuiet now) (signals_of m env session_id events w)
  unfolding signals_of signal_of
  signals_of-IsQuiet now [] w quiet = tt
  signals_of-IsQuiet now (prompted input clock ∷ events) w quiet = (
    quiet.0,
    signals_of-IsQuiet now events (happen m env session_id (prompted input clock) w) quiet.1,
  )
  signals_of-IsQuiet now (stopped input time ∷ events) w quiet = elim quiet.0 [ ]
  signals_of-IsQuiet now (woken before stop_ts ∷ events) w quiet = (
    quiet.0,
    signals_of-IsQuiet now events (happen m env session_id (woken before stop_ts) w) quiet.1,
  )

  signals_of-wake :
      (events : List SessionEvent) (before : HookWorld) (stop_ts : ℤ) (w : HookWorld)
      → signals_of m env session_id (events ++ woken before stop_ts ∷ []) w
        ≡ signals_of m env session_id events w ++ wake stop_ts ∷ []
  unfolding signals_of signal_of
  signals_of-wake [] before stop_ts w = refl
  signals_of-wake (event ∷ events) before stop_ts w =
      ap (λ l. signal_of m session_id event w ∷ l)
        (signals_of-wake events before stop_ts (happen m env session_id event w))

module _ (m : Machine) (env : Map Text) (session_id url idle : Text) (seconds : ℕ)
    (named : is_empty session_id ≡ false)
    (reachable : (truthy (some url) ≡ some url) × (lookup env (lit "NOTIFY_URL") ≡ some url))
    (start_off : lookup env (lit "NOTIFY_ON_START") ≡ some (lit "false"))
    (end_on : lookup env (lit "NOTIFY_ON_END") ≡ some (lit "true"))
    (idle_set : lookup env (lit "NOTIFY_IDLE_SECONDS") ≡ some idle)
    (idle_read : m.number idle ≡ some (pos (suc seconds)))
    (writable : (path : Text) → m.writable path ≡ true)
    (readable : (path : Text) → m.readable path ≡ true)
    (removable : (path : Text) → m.removable path ≡ true)
    (start_activity : cache_path m session_id start_ending
      ≢ cache_path m session_id activity_ending)
    (start_pending : cache_path m session_id start_ending ≢ cache_path m session_id pending_ending)
    (activity_pending : cache_path m session_id activity_ending
      ≢ cache_path m session_id pending_ending)
    (number_reads : (n : ℕ) → m.number (decimal n) ≡ some (pos n)) where
  known : truthy (some session_id) ≡ some session_id
  unfolding truthy
  known = ap (λ b. if b then none else some session_id) named

  session_of-happen :
      (event : SessionEvent) (w : HookWorld)
      → IsStored m session_id event w
      → session_of m session_id (happen m env session_id event w)
        ≡ signal (signal_of m session_id event w) (session_of m session_id w)
  unfolding signal_of signal stop_payload happen run_deferred_send session_of
  session_of-happen (prompted input clock) w stored =
      ap (session_of m session_id) (
        happen-prompted m env session_id url idle seconds named reachable start_off end_on idle_set
          idle_read input clock w)
      ∙ session_of-mark_prompt m session_id writable readable removable start_activity start_pending
          activity_pending number_reads (prompt_input session_id input) (clock 0) (clock 1) w known
  session_of-happen (stopped input now) w stored =
      ap (session_of m session_id) (
        happen-stopped m env session_id url idle seconds named reachable start_off end_on idle_set
          idle_read input now w)
      ∙ session_of-debounce m session_id writable readable removable start_activity start_pending
          activity_pending number_reads (stop_input session_id input) now w known stored
  session_of-happen (woken before stop_ts) w stored =
      session_of-send_pending m session_id removable activity_pending (resolve_config m env before)
        url stop_ts (read_pending_payload m session_id w) w
        (ap truthy (resolve_config-env m env before (lit "NOTIFY_URL") url reachable.1)
          ∙ reachable.0)

  -- Let the environment set a URL, no start push, end pushes and an idle time above 0; let no file
  -- operation throw, the three files of the session be three, `Number` read what `decimal` writes, and
  -- JSON read back every payload that a stop stores. Then any sequence of prompts, stops and waking
  -- senders of the session does to what its files and the requests show what the signals do to a
  -- session that only has the last activity, the pending stop and the posted payloads.
  pub session_of-happen_all :
      (events : List SessionEvent) (w : HookWorld)
      → AreStored m env session_id events w
      → session_of m session_id (happen_all m env session_id events w)
        ≡ signals (signals_of m env session_id events w) (session_of m session_id w)
  unfolding happen_all signals signals_of
  session_of-happen_all [] w stored = refl
  session_of-happen_all (event ∷ events) w stored =
      session_of-happen_all events (happen m env session_id event w) stored.1
      ∙ ap (signals (signals_of m env session_id events (happen m env session_id event w)))
          (session_of-happen event w stored.0)

  -- Let the environment set a URL, no start push, end pushes and an idle time above 0; let no file
  -- operation throw, the three files of the session be three, `Number` read what `decimal` writes, and
  -- JSON read back every payload that a stop stores. Then the payloads posted after any sequence of
  -- prompts, stops and waking senders of the session are those posted before, the pending one, and
  -- those of the stops, in this order and each at most once, with some left out.
  pub posted-happen_all :
      (events : List SessionEvent) (w : HookWorld)
      → AreStored m env session_id events w
      → Sublist (session_of m session_id (happen_all m env session_id events w)).posted (
          possible
            (session_of m session_id w)
            (stop_payloads (signals_of m env session_id events w)))
  posted-happen_all events w stored =
      subst
        (λ s. Sublist s.posted (
          possible (session_of m session_id w)
            (stop_payloads (signals_of m env session_id events w))))
        (sym (session_of-happen_all events w stored))
        (signals-possible (signals_of m env session_id events w) (session_of m session_id w))

  -- Let the environment set a URL, no start push, end pushes and an idle time above 0; let no file
  -- operation throw, the three files of the session be three, `Number` read what `decimal` writes, and
  -- JSON read back every payload that a stop stores. Let a stop at `now`, in a session whose
  -- last activity is not later, be followed by prompts not later than `now` and senders of other stops
  -- only, and then its own sender wake. Then the payload of the stop is posted once, after what was
  -- posted before, and nothing is pending.
  pub posted-happen_all_quiet :
      (events : List SessionEvent) (input : HookInput) (now : ℕ) (before w : HookWorld)
      → IsNotLater now (session_of m session_id w).activity
      → All (IsQuietEvent now) events
      → AreStored m env session_id (stopped input now ∷ events ++ woken before (pos now) ∷ []) w
      → let after = session_of m session_id (
          happen_all m env session_id
            (stopped input now ∷ events ++ woken before (pos now) ∷ [])
            w) in
        (after.posted
          ≡ (session_of m session_id w).posted ++ stop_payload m session_id input now w ∷ [])
        × (after.pending ≡ none)
  unfolding signals_of signal_of
  posted-happen_all_quiet events input now before w not_later quiet stored =
      let w1 = happen m env session_id (stopped input now) w in
      let payload = stop_payload m session_id input now w in
      let xs = signals_of m env session_id events w1 in
      let e =
        session_of-happen_all (stopped input now ∷ events ++ woken before (pos now) ∷ []) w stored
        ∙ ap (λ l. signals (stop now payload ∷ l) (session_of m session_id w))
            (signals_of-wake m env session_id events before (pos now) w1) in
      let posts =
        signals-quiet now payload xs (session_of m session_id w) not_later
          (signals_of-IsQuiet m env session_id now events w1 quiet) in
      (ap (λ s. s.posted) e ∙ posts.0, ap (λ s. s.pending) e ∙ posts.1)
