-- ===== src/Tests/Clients.antt =====
-- A hook session, and the theorems applied to them.
use notify_hub.Base.{
  ℕ, true, false, none, some, [], ◌∷◌, ◌++◌, List, Text, lit, ◌≡◌, ◌≢◌, refl, ap, sym, pos, arith,
  ◌==◌, ==_iff, decimal, Sublist, is_empty, length, ◌≤◌,
}
use notify_hub.Base.Decimal.{number, number-decimal}
use notify_hub.Core.{Value, null}
use notify_hub.Ports.{ok}
use notify_hub.Hook.{Machine, HookWorld, HookInput, ends, truthy}
use notify_hub.Base.Map.{lookup}
use notify_hub.Hook.Caches.{
  cache_path, start_ending, activity_ending, pending_ending, pending_value, read_activity_time,
  read_file, content_at, number_in,
}
use notify_hub.Hook.Debounce.{
  SessionEvent, prompted, stopped, woken, happen_all, session_of, stop_payload, signals_of, signals,
}
use notify_hub.Hook.Debounce.Order.{possible, stop_payloads}
use notify_hub.Hook.Debounce.Quiet.{IsNotLater}
use notify_hub.Hook.Debounce.Refines.{
  session_of-happen_all, posted-happen_all, posted-happen_all_quiet,
}
use notify_hub.Hook.Payload.{build_payload}
use notify_hub.Hook.Payload.Sizes.{length-build_payload}

-- A machine outside any repository, whose pending files all hold `stored`.
abbrev laptop_with : Value → Machine
laptop_with stored = record {
  number = λ s. some (pos (number 0 s));
  parse_json = λ s. some stored;
  stringify = λ v. lit "{}";
  local_time = λ t. (9, 30);
  iso_time = λ t. lit "2026-01-01T09:30:00.000Z";
  git = λ args. ok (record { failed = true; stdout = none });
  join_tmp = λ s. lit "/tmp/" ++ s;
  basename = λ s. lit "demo";
  dirname = λ s. lit "/work";
  is_absolute = λ s. true;
  resolve_path = λ dir s. s;
  working_dir = lit "/work/demo";
  default_config_path = lit "/home/hook.env";
  readable = λ path. true;
  writable = λ path. true;
  removable = λ path. true;
  can_spawn = true;
  own_path = some (lit "/hook.mjs");
  fetch = λ request. ok 202;
}

abbrev empty_world : HookWorld
empty_world = record { files = []; sent = []; spawned = []; printed = [] }

abbrev no_input : HookInput
no_input = record {
  hook_event_name = none;
  session_id = none;
  transcript_path = none;
  cwd = none;
  message = none;
}

abbrev sid : Text
sid = lit "s1"

stored_at_5 : Value
unfolding stop_payload
stored_at_5 = pending_value 5 (stop_payload (laptop_with null) sid no_input 5 empty_world)

abbrev laptop : Machine
laptop = laptop_with stored_at_5

abbrev debounced : List (Text × Text)
debounced =
    (lit "NOTIFY_URL", lit "http://hub")
    ∷ (lit "NOTIFY_ON_START", lit "false")
    ∷ (lit "NOTIFY_ON_END", lit "true")
    ∷ (lit "NOTIFY_IDLE_SECONDS", lit "180")
    ∷ []

apart : (s t : Text) → (s == t) ≡ false → s ≢ t
apart s t differ e = absurd (cc (differ, (==_iff s t).1 e))

module _ (v : Value) where
  start_apart_activity :
      cache_path (laptop_with v) sid start_ending ≢ cache_path (laptop_with v) sid activity_ending
  unfolding cache_path ◌==◌ lit
  start_apart_activity =
      apart (cache_path (laptop_with v) sid start_ending)
        (cache_path (laptop_with v) sid activity_ending) refl

  start_apart_pending :
      cache_path (laptop_with v) sid start_ending ≢ cache_path (laptop_with v) sid pending_ending
  unfolding cache_path ◌==◌ lit
  start_apart_pending =
      apart (cache_path (laptop_with v) sid start_ending)
        (cache_path (laptop_with v) sid pending_ending) refl

  activity_apart_pending :
      cache_path (laptop_with v) sid activity_ending ≢ cache_path (laptop_with v) sid pending_ending
  unfolding cache_path ◌==◌ lit
  activity_apart_pending =
      apart (cache_path (laptop_with v) sid activity_ending)
        (cache_path (laptop_with v) sid pending_ending) refl

  same_payload :
      stop_payload (laptop_with v) sid no_input 5 empty_world
      ≡ stop_payload (laptop_with null) sid no_input 5 empty_world
  unfolding stop_payload build_payload
  same_payload = refl

reads_back :
    laptop.parse_json
      (laptop.stringify (pending_value 5 (stop_payload laptop sid no_input 5 empty_world)))
    ≡ some (pending_value 5 (stop_payload laptop sid no_input 5 empty_world))
unfolding stored_at_5
reads_back = ap (λ p. some (pending_value 5 p)) (sym (same_payload stored_at_5))

reads_decimal : (n : ℕ) → laptop.number (decimal n) ≡ some (pos n)
reads_decimal n = ap (λ k. some (pos k)) (number-decimal n)

named : is_empty sid ≡ false
unfolding is_empty lit
named = refl

url_set : truthy (some (lit "http://hub")) ≡ some (lit "http://hub")
unfolding truthy lit
url_set = refl

settings :
    (lookup debounced (lit "NOTIFY_URL") ≡ some (lit "http://hub"))
    × (lookup debounced (lit "NOTIFY_ON_START") ≡ some (lit "false"))
    × (lookup debounced (lit "NOTIFY_ON_END") ≡ some (lit "true"))
    × (lookup debounced (lit "NOTIFY_IDLE_SECONDS") ≡ some (lit "180"))
unfolding lookup ◌==◌ lit
settings = (refl, refl, refl, refl)

idle_read : laptop.number (lit "180") ≡ some (pos 180)
unfolding lit
idle_read = refl

-- A prompt after the stop, before its sender wakes.
abbrev came_back : List SessionEvent
came_back = stopped no_input 5 ∷ prompted no_input (λ reading. 7) ∷ woken empty_world (pos 5) ∷ []

session_of-happen_all_example :
    session_of laptop sid (happen_all laptop debounced sid came_back empty_world)
    ≡ signals
        (signals_of laptop debounced sid came_back empty_world)
        (session_of laptop sid empty_world)
session_of-happen_all_example =
    session_of-happen_all laptop debounced sid (lit "http://hub") (lit "180") 179 named
      (url_set, settings.0) settings.1 settings.2 settings.3 idle_read (λ path. refl) (λ path. refl)
      (λ path. refl) (start_apart_activity stored_at_5) (start_apart_pending stored_at_5)
      (activity_apart_pending stored_at_5) reads_decimal came_back empty_world
      (reads_back, (tt, (tt, tt)))

posted-happen_all_example :
    Sublist (session_of laptop sid (happen_all laptop debounced sid came_back empty_world)).posted (
      possible
        (session_of laptop sid empty_world)
        (stop_payloads (signals_of laptop debounced sid came_back empty_world)))
posted-happen_all_example =
    posted-happen_all laptop debounced sid (lit "http://hub") (lit "180") 179 named
      (url_set, settings.0) settings.1 settings.2 settings.3 idle_read (λ path. refl) (λ path. refl)
      (λ path. refl) (start_apart_activity stored_at_5) (start_apart_pending stored_at_5)
      (activity_apart_pending stored_at_5) reads_decimal came_back empty_world
      (reads_back, (tt, (tt, tt)))

-- A prompt of an earlier time and the sender of an earlier stop come between.
abbrev between : List SessionEvent
between = prompted no_input (λ reading. 4) ∷ woken empty_world (pos 2) ∷ []

not_later : IsNotLater 5 (session_of laptop sid empty_world).activity
unfolding session_of read_activity_time read_file content_at number_in lookup
not_later = tt

posted-happen_all_quiet_example :
    let after = session_of laptop sid (
      happen_all laptop debounced sid
        (stopped no_input 5 ∷ between ++ woken empty_world (pos 5) ∷ [])
        empty_world) in
    (after.posted
      ≡ (session_of laptop sid empty_world).posted
        ++ stop_payload laptop sid no_input 5 empty_world ∷ [])
    × (after.pending ≡ none)
posted-happen_all_quiet_example =
    posted-happen_all_quiet laptop debounced sid (lit "http://hub") (lit "180") 179 named
      (url_set, settings.0) settings.1 settings.2 settings.3 idle_read (λ path. refl) (λ path. refl)
      (λ path. refl) (start_apart_activity stored_at_5) (start_apart_pending stored_at_5)
      (activity_apart_pending stored_at_5) reads_decimal between no_input 5 empty_world empty_world
      not_later (omega arith, (refl, tt)) (reads_back, (tt, (tt, (tt, tt))))

length-build_payload_example :
    length (build_payload laptop no_input ends 5 empty_world).0.message ≤ 400
length-build_payload_example = length-build_payload laptop no_input ends 5 empty_world
