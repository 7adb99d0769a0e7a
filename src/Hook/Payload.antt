-- ===== src/Hook/Payload.antt =====
-- What a hook run sends: the project's name and the payload.
pub mod Sizes
use notify_hub.Base.{
  ℕ, Bool, true, false, ◌||◌, not, Option, none, some, List, [], ◌∷◌, ◌++◌, filter, map, Text, lit,
  ◌==◌, trim, is_empty, split, ℤ, pos, minus, if◌then◌else◌,
}
use mathlib.Core.List.{reverse}
use notify_hub.Base.Map.{Map, lookup}
use notify_hub.Core.{
  Value, undefined, null, num, str, arr, obj, Items, nil, cons, Fields, end, field,
}
use notify_hub.Ports.{Outcome, ok, raise, value_of, object}
use notify_hub.Admin.WorkerLogs.{property}
use notify_hub.Hook.{
  Machine, GitResult, HookWorld, HookInput, HookEvent, begins, ends, needs_input, truthy,
}
use notify_hub.Hook.Caches.{read_file, read_and_clear_start_time}
use notify_hub.Hook.Wording.{
  EndStatus, emoji, label, classify_end_status, extract_headline, cap_length, build_title,
  build_end_body, build_needs_input_body,
}
use notify_hub.Hook.Transcript.{read_last_assistant_message}

-- The trimmed output of a git call that succeeded and printed something.
git_output : Outcome GitResult → Outcome (Option Text)
unfolding truthy trim
git_output (raise e) = raise e
git_output (ok result) =
    if result.failed
    then ok none
    else ok (elim result.stdout [ none ↦ none | some s ↦ truthy (some (trim s)) ])

common_dir_name : Machine → Text → Text → Outcome (Option Text) → Text
common_dir_name m dir toplevel (raise e) = m.basename dir
common_dir_name m dir toplevel (ok none) = m.basename toplevel
common_dir_name m dir toplevel (ok (some raw)) =
    let path = if m.is_absolute raw then raw else m.resolve_path dir raw in
    m.basename (m.dirname path)

toplevel_name : Machine → Text → Outcome (Option Text) → Text
unfolding common_dir_name git_output
toplevel_name m dir (raise e) = m.basename dir
toplevel_name m dir (ok none) = m.basename dir
toplevel_name m dir (ok (some toplevel)) =
    common_dir_name m dir toplevel
      (git_output (m.git (lit "-C" ∷ dir ∷ lit "rev-parse" ∷ lit "--git-common-dir" ∷ [])))

dir_or : Text → Option Text → Text
dir_or working_dir none = working_dir
dir_or working_dir (some dir) = dir

unfoldable pub resolve_project_name : Machine → Option Text → Text
unfolding toplevel_name git_output dir_or truthy
resolve_project_name m cwd =
    let dir = dir_or m.working_dir (truthy cwd) in
    toplevel_name m dir
      (git_output (m.git (lit "-C" ∷ dir ∷ lit "rev-parse" ∷ lit "--show-toplevel" ∷ [])))

abbrev pub event_name : HookEvent → Text
event_name begins = lit "start"
event_name ends = lit "end"
event_name needs_input = lit "needs-input"

-- The payload before it is a JSON object.
pub record Payload : Type 0 where
  pub title : Text
  pub message : Text
  pub priority : Text
  pub metadata : Map Value

abbrev pub to_value : Payload → Value
to_value p = obj (
    object (
      (lit "title", str p.title)
      ∷ (lit "message", str p.message)
      ∷ (lit "priority", str p.priority)
      ∷ (lit "metadata", obj (object p.metadata))
      ∷ []))

metadata_of : Machine → HookInput → HookEvent → Text → ℤ → Map Value
metadata_of m input event project now =
    (lit "event", str (event_name event))
    ∷ (lit "project", str project)
    ∷ (lit "timestamp", str (m.iso_time now))
    ∷ (lit "sessionId", value_of input.session_id)
    ∷ []

duration_field : Option ℤ → ℤ → Map Value
duration_field none elapsed = []
duration_field (some started) elapsed = (lit "durationMs", num elapsed) ∷ []

pub message_or : Text → Option Text → Text
message_or default_message none = default_message
message_or default_message (some message) = message

pub elapsed_since : Option ℤ → ℕ → ℤ
elapsed_since none now = pos 0
elapsed_since (some started) now = minus now started

unfoldable pub end_payload : Machine → HookInput → Text → ℕ → Option ℤ → HookWorld → Payload
unfolding metadata_of duration_field elapsed_since read_last_assistant_message classify_end_status
    extract_headline cap_length build_title build_end_body truthy
end_payload m input project now started w =
    let last_message = read_last_assistant_message m (truthy input.transcript_path) w in
    let status = classify_end_status last_message in
    let elapsed = elapsed_since started now in
    let body = build_end_body m started (pos now) elapsed (extract_headline last_message) in
    record {
      title = build_title (emoji status) project (label status);
      message = cap_length body 400;
      priority = lit "default";
      metadata = metadata_of m input ends project (pos now) ++ duration_field started elapsed;
    }

-- `buildPayload`; the payload of an `end` event takes the start time out of its file.
unfoldable pub build_payload : Machine → HookInput → HookEvent → ℕ → HookWorld → Payload × HookWorld
unfolding end_payload metadata_of message_or resolve_project_name build_title build_needs_input_body
    cap_length read_and_clear_start_time truthy
build_payload m input begins now w = (
  record {
    title = lit "Claude Code";
    message = lit "Task started";
    priority = lit "default";
    metadata = metadata_of m input begins (resolve_project_name m input.cwd) (pos now);
  },
  w,
)
build_payload m input ends now w =
    let (started, w') = read_and_clear_start_time m (truthy input.session_id) w in
    (end_payload m input (resolve_project_name m input.cwd) now started w', w')
build_payload m input needs_input now w =
    let project = resolve_project_name m input.cwd in
    let message = message_or (lit "Claude precisa da sua atenção.") input.message in
    (
      record {
        title = build_title (lit "🙋") project (lit "precisa de você");
        message = cap_length (build_needs_input_body project message) 400;
        priority = lit "high";
        metadata = metadata_of m input needs_input project (pos now);
      },
      w,
    )
