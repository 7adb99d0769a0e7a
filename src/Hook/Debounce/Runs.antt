-- ===== src/Hook/Debounce/Runs.antt =====
-- Which branch the runs of the hook take when the environment turns the debounce on.
use notify_hub.Base.{
  ℕ, suc, ltb, true, false, not, none, some, ◌≡◌, refl, ap, ◌∙◌, Text, lit, ◌==◌, is_empty, pos,
  arith, if◌then◌else◌,
}
use notify_hub.Base.Map.{Map, lookup}
use notify_hub.Hook.{Machine, HookWorld, HookInput, HookEvent, begins, ends, truthy, map_event}
use notify_hub.Hook.Settings.{
  value_or, is_text, number_of, idle_of, resolve_config, is_event_enabled, resolve_idle_seconds,
}
use notify_hub.Hook.Run.{
  run, run_event, run_configured, push_enabled, push, send_now, mark_prompt, debounce,
}
use notify_hub.Hook.Debounce.{prompted, stopped, prompt_input, stop_input, happen}

-- The environment comes before the file.
pub resolve_config-env :
    (m : Machine) (env : Map Text) (w : HookWorld) (key value : Text)
    → lookup env key ≡ some value
    → resolve_config m env w key ≡ some value
unfolding resolve_config value_or
resolve_config-env m env w key value h = rw (h, value_or) refl

run_configured-off :
    (m : Machine) (env : Map Text) (input : HookInput) (event : HookEvent) (now : ℕ) (w : HookWorld)
    → is_event_enabled event (resolve_config m env w) ≡ false
    → run_configured m env input event now w ≡ w
unfolding run_configured
run_configured-off m env input event now w h = rw h refl

run_configured-on :
    (m : Machine) (env : Map Text) (input : HookInput) (event : HookEvent) (now : ℕ) (w : HookWorld)
    → is_event_enabled event (resolve_config m env w) ≡ true
    → run_configured m env input event now w
      ≡ push_enabled m input event
          (resolve_config m env w)
          (truthy (resolve_config m env w (lit "NOTIFY_URL")))
          now
          w
unfolding run_configured
run_configured-on m env input event now w h = rw h refl

positive : (n : ℕ) → ltb 0 (suc n) ≡ true
positive n = ground arith

module _ (m : Machine) (env : Map Text) (session_id url idle : Text) (seconds : ℕ)
    (named : is_empty session_id ≡ false)
    (reachable : (truthy (some url) ≡ some url) × (lookup env (lit "NOTIFY_URL") ≡ some url))
    (start_off : lookup env (lit "NOTIFY_ON_START") ≡ some (lit "false"))
    (end_on : lookup env (lit "NOTIFY_ON_END") ≡ some (lit "true"))
    (idle_set : lookup env (lit "NOTIFY_IDLE_SECONDS") ≡ some idle)
    (idle_read : m.number idle ≡ some (pos (suc seconds))) where
  pub truthy-session : truthy (some session_id) ≡ some session_id
  unfolding truthy
  truthy-session = ap (λ b. if b then none else some session_id) named

  pub happen-prompted :
      (input : HookInput) (clock : ℕ → ℕ) (w : HookWorld)
      → happen m env session_id (prompted input clock) w
        ≡ mark_prompt m (prompt_input session_id input) (clock 0) (clock 1) w
  unfolding happen run run_event map_event is_event_enabled is_text ◌==◌ lit
  happen-prompted input clock w =
      let marked = mark_prompt m (prompt_input session_id input) (clock 0) (clock 1) w in
      run_configured-off m env (prompt_input session_id input) begins (clock 2) marked (
        ap (is_text (lit "true"))
          (resolve_config-env m env marked (lit "NOTIFY_ON_START") (lit "false") start_off))

  resolve_idle_seconds-env :
      (w : HookWorld) → resolve_idle_seconds m (resolve_config m env w) ≡ suc seconds
  unfolding resolve_idle_seconds number_of idle_of
  resolve_idle_seconds-env w =
      ap (λ o. idle_of (number_of m o))
        (resolve_config-env m env w (lit "NOTIFY_IDLE_SECONDS") idle idle_set)
      ∙ ap idle_of idle_read

  push-debounce :
      (input : HookInput) (now : ℕ) (w : HookWorld)
      → push m input ends url (resolve_config m env w) (some session_id) now w
        ≡ debounce m input session_id now w
  unfolding push
  push-debounce input now w =
      ap
        (λ b.
          if b
          then debounce m input session_id now w
          else send_now m input ends url (resolve_config m env w (lit "NOTIFY_TOKEN")) now w)
        (ap (ltb 0) (resolve_idle_seconds-env w) ∙ positive seconds)

  pub happen-stopped :
      (input : HookInput) (now : ℕ) (w : HookWorld)
      → happen m env session_id (stopped input now) w
        ≡ debounce m (stop_input session_id input) session_id now w
  unfolding happen run run_event map_event is_event_enabled is_text push_enabled ◌==◌ lit
  happen-stopped input now w =
      let stops = stop_input session_id input in
      let config = resolve_config m env w in
      run_configured-on m env stops ends now w (
        ap (λ o. not (is_text (lit "false") o))
          (resolve_config-env m env w (lit "NOTIFY_ON_END") (lit "true") end_on))
      ∙ ap (λ o. push_enabled m stops ends config (truthy o) now w)
          (resolve_config-env m env w (lit "NOTIFY_URL") url reachable.1)
      ∙ ap (λ o. push_enabled m stops ends config o now w) reachable.0
      ∙ ap (λ o. push m stops ends url config o now w) truthy-session
      ∙ push-debounce stops now w
