-- ===== src/Telemetry/OptIn.antt =====
-- When telemetry is sent at all.
use notify_hub.Base.{
  Bool, true, false, Option, none, some, [], ◌∷◌, Text, lit, ==_iff, trim, is_empty, ◌≡◌, ◌≢◌, ◌↔◌,
  ◌⊎◌, inl, inr, arith, Bool-cases,
}
use notify_hub.Base.Map.{Map, lookup}
use notify_hub.Ports.{Externals}
use notify_hub.Telemetry.{
  is_truthy_string, is_do_not_track_set, is_telemetry_enabled, posthog, client_with,
  build_telemetry_client,
}

-- DO_NOT_TRACK is not there, or blank.
abbrev pub IsTrackable : Option Text → Type 0
IsTrackable none = Unit
IsTrackable (some value) = trim value ≡ []

-- TELEMETRY_ENABLED says "true" or "1", but for case and white space around it.
abbrev pub IsOptedIn : Externals → Option Text → Type 0
IsOptedIn x none = ⊥
IsOptedIn x (some value) =
    (x.lower_case (trim value) ≡ lit "true") ⊎ (x.lower_case (trim value) ≡ lit "1")

is_empty_iff : (s : Text) → (is_empty s ≡ true) ↔ (s ≡ [])
unfolding is_empty
is_empty_iff [] = ground arith
is_empty_iff (c ∷ s) = ground arith

is_do_not_track_set_iff : (o : Option Text) → (is_do_not_track_set o ≡ false) ↔ IsTrackable o
unfolding is_do_not_track_set
is_do_not_track_set_iff none = ground arith
is_do_not_track_set_iff (some value) = ground (arith, is_empty_iff (trim value))

is_truthy_string_iff :
    (x : Externals) (o : Option Text) → (is_truthy_string x o ≡ true) ↔ IsOptedIn x o
unfolding is_truthy_string
is_truthy_string_iff x none = ground arith
is_truthy_string_iff x (some value) = ground (
  arith,
  ==_iff (x.lower_case (trim value)) (lit "true"),
  ==_iff (x.lower_case (trim value)) (lit "1"),
)

is_telemetry_enabled_iff :
    (x : Externals) (env : Map Text)
    → (is_telemetry_enabled x env ≡ true) ↔ (
        IsTrackable (lookup env (lit "DO_NOT_TRACK"))
        × IsOptedIn x (lookup env (lit "TELEMETRY_ENABLED")))
unfolding is_telemetry_enabled
is_telemetry_enabled_iff x env =
    let dnt = is_do_not_track_set_iff (lookup env (lit "DO_NOT_TRACK")) in
    let on = is_truthy_string_iff x (lookup env (lit "TELEMETRY_ENABLED")) in
    elim (Bool-cases (is_do_not_track_set (lookup env (lit "DO_NOT_TRACK")))) [
      | inl set ↦ rw set (λ e. absurd (cc e), λ h. absurd (cc (set, dnt.1 h.0)))
      | inr unset ↦ rw unset (λ e. (dnt.0 unset, on.0 e), λ h. on.1 h.1)
    ]

client_with_iff :
    (enabled : Bool) (found : Option Text) (key distinct_id : Text)
    → (client_with enabled found distinct_id ≡ posthog key distinct_id)
      ↔ ((enabled ≡ true) × (found ≡ some key) × (key ≢ []))
unfolding client_with is_empty
client_with_iff enabled none key distinct_id = ground arith
client_with_iff enabled (some []) key distinct_id = ground arith
client_with_iff enabled (some (c ∷ s)) key distinct_id = ground arith

client_with-distinct_id :
    (enabled : Bool) (found : Option Text) (key id distinct_id : Text)
    → client_with enabled found distinct_id ≡ posthog key id
    → id ≡ distinct_id
unfolding client_with is_empty
client_with-distinct_id enabled none key id distinct_id e = absurd (cc e)
client_with-distinct_id enabled (some []) key id distinct_id e = absurd (ground arith)
client_with-distinct_id enabled (some (c ∷ s)) key id distinct_id e = ground arith

-- The PostHog client is built with a key exactly when DO_NOT_TRACK is absent or blank,
-- TELEMETRY_ENABLED says so, and POSTHOG_API_KEY is that key and not empty.
pub build_telemetry_client_iff :
    (x : Externals) (env : Map Text) (key distinct_id : Text)
    → (build_telemetry_client x env distinct_id ≡ posthog key distinct_id) ↔ (
        (IsTrackable (lookup env (lit "DO_NOT_TRACK"))
          × IsOptedIn x (lookup env (lit "TELEMETRY_ENABLED")))
        × (lookup env (lit "POSTHOG_API_KEY") ≡ some key)
        × (key ≢ []))
unfolding build_telemetry_client
build_telemetry_client_iff x env key distinct_id =
    let enabled = is_telemetry_enabled_iff x env in
    let client =
      client_with_iff (is_telemetry_enabled x env) (lookup env (lit "POSTHOG_API_KEY")) key
        distinct_id in
    (
      λ e. let (on, found, ne) = client.0 e in (enabled.0 on, found, ne),
      λ (on, found, ne). client.1 (enabled.1 on, found, ne),
    )

-- The client carries the id that it is built with.
pub build_telemetry_client-distinct_id :
    (x : Externals) (env : Map Text) (key id distinct_id : Text)
    → build_telemetry_client x env distinct_id ≡ posthog key id
    → id ≡ distinct_id
unfolding build_telemetry_client
build_telemetry_client-distinct_id x env key id distinct_id e =
    client_with-distinct_id (is_telemetry_enabled x env) (lookup env (lit "POSTHOG_API_KEY")) key id
      distinct_id e
