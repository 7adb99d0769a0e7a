-- ===== src/Hook/Debounce/Stores.antt =====
-- What the session shows after a prompt and a stop. No file operation throws, the
-- three files of the session are three, and `Number` reads what `decimal` writes.
use notify_hub.Base.{
  ℕ, true, Option, none, some, map, ◌≡◌, ◌≢◌, refl, sym, ap, ◌∙◌, Text, lit, ◌==◌, decimal, pos,
}
use notify_hub.Core.{Value}
use notify_hub.Admin.WorkerLogs.{property}
use notify_hub.Hook.{Machine, HookWorld, HookInput, ends, truthy}
use notify_hub.Hook.Caches.{
  start_ending, activity_ending, pending_ending, cache_path, number_in, pending_of, parsed_content,
  read_file, write_file, read_activity_time, read_pending_payload, write_time, clear_read,
  read_and_clear_start_time, pending_value, stopped_at, write_pending_payload,
}
use notify_hub.Hook.Caches.Reading.{
  read_file-write_file, read_file-write_file_other, read_file-unlink_other, trim-decimal,
}
use notify_hub.Hook.Payload.{to_value, build_payload}
use notify_hub.Hook.Run.{mark_prompt, debounce, spawn_at, spawn_deferred_sender}
use notify_hub.Hook.Debounce.{session_of}
use notify_hub.Hook.Debounce.Worlds.{
  SameFiles, spawn_at-SameFiles, read_file-files, ==_false, sent-write_file, sent-unlink,
  session_of-eq, activity-read, pending-read,
}

module _ (m : Machine) (session_id : Text) (writable : (path : Text) → m.writable path ≡ true)
    (readable : (path : Text) → m.readable path ≡ true)
    (removable : (path : Text) → m.removable path ≡ true)
    (start_activity : cache_path m session_id start_ending
      ≢ cache_path m session_id activity_ending)
    (start_pending : cache_path m session_id start_ending ≢ cache_path m session_id pending_ending)
    (activity_pending : cache_path m session_id activity_ending
      ≢ cache_path m session_id pending_ending)
    (number_reads : (n : ℕ) → m.number (decimal n) ≡ some (pos n)) where
  abbrev start_path : Text
  start_path = cache_path m session_id start_ending

  abbrev activity_path : Text
  activity_path = cache_path m session_id activity_ending

  abbrev pending_path : Text
  pending_path = cache_path m session_id pending_ending

  number_in-decimal : (n : ℕ) → number_in m (some (decimal n)) ≡ some (pos n)
  unfolding number_in
  number_in-decimal n = ap m.number (trim-decimal n) ∙ number_reads n

  mark_prompt-eq :
      (input : HookInput) (started active : ℕ) (w : HookWorld)
      → truthy input.session_id ≡ some session_id
      → mark_prompt m input started active w
        ≡ write_file m activity_path (decimal active) (write_file m start_path (decimal started) w)
  unfolding mark_prompt write_time
  mark_prompt-eq input started active w named =
      ap (λ o. write_time m activity_ending o active (write_time m start_ending o started w)) named

  pub session_of-mark_prompt :
      (input : HookInput) (started active : ℕ) (w : HookWorld)
      → truthy input.session_id ≡ some session_id
      → session_of m session_id (mark_prompt m input started active w)
        ≡ record (session_of m session_id w) { activity = some (pos active) }
  unfolding session_of read_pending_payload
  session_of-mark_prompt input started active w named =
      let w1 = write_file m start_path (decimal started) w in
      let w2 = write_file m activity_path (decimal active) w1 in
      ap (session_of m session_id) (mark_prompt-eq input started active w named)
      ∙ session_of-eq m session_id w2 (some (pos active)) (read_pending_payload m session_id w)
          (map (λ request. request.body) w.sent)
          (activity-read m session_id w2 (some (decimal active)) (
              read_file-write_file m activity_path w1 (decimal active) (writable activity_path)
                (readable activity_path))
            ∙ number_in-decimal active)
          (pending-read m session_id w2 (read_file m pending_path w) (
            read_file-write_file_other m activity_path w1 (decimal active) pending_path
              (writable activity_path) (==_false activity_pending)
            ∙ read_file-write_file_other m start_path w (decimal started) pending_path
                (writable start_path) (==_false start_pending)))
          (ap (map (λ request. request.body)) (
            sent-write_file m activity_path (decimal active) w1
            ∙ sent-write_file m start_path (decimal started) w))

  read_file-clear :
      (other : Text) (o : Option Text) (w : HookWorld)
      → start_path ≢ other
      → read_file m other (clear_read m start_path o w).1 ≡ read_file m other w
  unfolding clear_read
  read_file-clear other none w differs = refl
  read_file-clear other (some content) w differs =
      read_file-unlink_other m start_path w other (removable start_path) (==_false differs)

  sent-clear : (o : Option Text) (w : HookWorld) → (clear_read m start_path o w).1.sent ≡ w.sent
  unfolding clear_read
  sent-clear none w = refl
  sent-clear (some content) w = sent-unlink m start_path w

  cleared : HookWorld → HookWorld
  cleared w = (clear_read m start_path (read_file m start_path w) w).1

  build_payload-world :
      (input : HookInput) (now : ℕ) (w : HookWorld)
      → truthy input.session_id ≡ some session_id
      → (build_payload m input ends now w).1 ≡ cleared w
  unfolding build_payload read_and_clear_start_time cleared
  build_payload-world input now w named = ap (λ o. (read_and_clear_start_time m o w).1) named

  pending_of-pending_value :
      (now : ℕ) (payload : Value)
      → pending_of (some (pending_value now payload))
        ≡ some (record { stop_ts = pos now; payload = payload })
  unfolding pending_of stopped_at property lit ◌==◌
  pending_of-pending_value now payload = refl

  session_of-write_pending :
      (now : ℕ) (payload : Value) (w : HookWorld)
      → m.parse_json (m.stringify (pending_value now payload)) ≡ some (pending_value now payload)
      → session_of m session_id (
          spawn_deferred_sender m session_id now
            (write_pending_payload m session_id now payload (cleared w)))
        ≡ record (session_of m session_id w) {
          pending = some (record { stop_ts = pos now; payload = payload });
        }
  unfolding session_of read_activity_time spawn_deferred_sender write_pending_payload cleared
      SameFiles parsed_content
  session_of-write_pending now payload w stored =
      let w1 = cleared w in
      let content = m.stringify (pending_value now payload) in
      let w2 = write_file m pending_path content w1 in
      let w3 = spawn_at m session_id now (truthy m.own_path) w2 in
      let same = spawn_at-SameFiles m session_id now (truthy m.own_path) w2 in
      let o = read_file m start_path w in
      session_of-eq m session_id w3 (read_activity_time m session_id w)
        (some (record { stop_ts = pos now; payload = payload }))
        (map (λ request. request.body) w.sent)
        (activity-read m session_id w3 (read_file m activity_path w) (
          read_file-files m activity_path w2 w3 same.0
          ∙ read_file-write_file_other m pending_path w1 content activity_path
              (writable pending_path) (==_false (λ e. activity_pending (sym e)))
          ∙ read_file-clear activity_path o w start_activity))
        (pending-read m session_id w3 (some content) (
            read_file-files m pending_path w2 w3 same.0
            ∙ read_file-write_file m pending_path w1 content (writable pending_path)
                (readable pending_path))
          ∙ ap pending_of stored
          ∙ pending_of-pending_value now payload)
        (ap (map (λ request. request.body))
          (same.1 ∙ sent-write_file m pending_path content w1 ∙ sent-clear o w))

  pub session_of-debounce :
      (input : HookInput) (now : ℕ) (w : HookWorld)
      → truthy input.session_id ≡ some session_id
      → m.parse_json
          (m.stringify (pending_value now (to_value (build_payload m input ends now w).0)))
        ≡ some (pending_value now (to_value (build_payload m input ends now w).0))
      → session_of m session_id (debounce m input session_id now w)
        ≡ record (session_of m session_id w) {
          pending = some (record {
            stop_ts = pos now;
            payload = to_value (build_payload m input ends now w).0;
          });
        }
  unfolding debounce
  session_of-debounce input now w named stored =
      let payload = to_value (build_payload m input ends now w).0 in
      ap
        (λ w'. session_of m session_id (
          spawn_deferred_sender m session_id now
            (write_pending_payload m session_id now payload w')))
        (build_payload-world input now w named)
      ∙ session_of-write_pending now payload w stored
