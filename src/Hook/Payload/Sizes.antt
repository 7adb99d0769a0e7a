-- ===== src/Hook/Payload/Sizes.antt =====
-- The sizes of a payload's texts.
use notify_hub.Base.{ℕ, lit, ◌≤◌, length, pos, arith}
use notify_hub.Hook.{Machine, HookWorld, HookInput, HookEvent, begins, ends, needs_input, truthy}
use notify_hub.Hook.Payload.{
  build_payload, end_payload, elapsed_since, message_or, resolve_project_name,
}
use notify_hub.Hook.Caches.{read_and_clear_start_time}
use notify_hub.Hook.Wording.{build_end_body, build_needs_input_body, extract_headline}
use notify_hub.Hook.Transcript.{read_last_assistant_message}
use notify_hub.Hook.Wording.Bounds.{length-cap_length}

-- The message of every payload has at most 400 units, whatever the transcript, the project and the
-- event hold.
pub length-build_payload :
    (m : Machine) (input : HookInput) (event : HookEvent) (now : ℕ) (w : HookWorld)
    → length (build_payload m input event now w).0.message ≤ 400
unfolding build_payload end_payload
length-build_payload m input begins now w = unfold lit in omega arith
length-build_payload m input ends now w =
    let (started, w') = read_and_clear_start_time m (truthy input.session_id) w in
    length-cap_length
      (build_end_body m started (pos now) (elapsed_since started now)
        (extract_headline (read_last_assistant_message m (truthy input.transcript_path) w')))
      400 (omega arith)
length-build_payload m input needs_input now w =
    length-cap_length
      (build_needs_input_body (resolve_project_name m input.cwd)
        (message_or (lit "Claude precisa da sua atenção.") input.message))
      400 (omega arith)
