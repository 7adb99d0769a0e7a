-- ===== src/Hook.antt =====
-- clients/claude-code/notify-hook.mjs: the hook that Claude Code runs on its events. A hook run reads and
-- changes a `HookWorld`: the files of the temporary directory, and what it sent, spawned and printed.
-- What answers it from outside is a `Machine`.
pub mod Settings
pub mod Caches
pub mod Wording
pub mod Transcript
pub mod Payload
pub mod Run
pub mod Debounce
use notify_hub.Base.{
  ℕ, Bool, true, false, not, Option, none, some, List, [], ◌∷◌, ◌++◌, filter, Text, lit, ◌==◌,
  is_empty, ℤ, if◌then◌else◌,
}
use notify_hub.Base.Map.{Map}
use notify_hub.Core.{Value}
use notify_hub.Ports.{Outcome, HttpRequest}

pub record GitResult : Type 0 where
  pub failed : Bool
  pub stdout : Option Text

pub record Machine : Type 0 where
  -- `Number(text)`, with `none` for what is not finite; and JSON.
  pub number : Text → Option ℤ
  pub parse_json : Text → Option Value
  pub stringify : Value → Text
  -- The local hours and minutes of a time, and its ISO-8601 text.
  pub local_time : ℤ → ℕ × ℕ
  pub iso_time : ℤ → Text
  -- `spawnSync('git', …)`, which may throw; a failed one has an error or a status that is not 0.
  pub git : List Text → Outcome GitResult
  -- Paths: `join(tmpdir(), …)`, and the functions of node:path.
  pub join_tmp : Text → Text
  pub basename : Text → Text
  pub dirname : Text → Text
  pub is_absolute : Text → Bool
  pub resolve_path : Text → Text → Text
  pub working_dir : Text
  pub default_config_path : Text
  -- Whether reading, writing or deleting a file does not throw, and spawning.
  pub readable : Text → Bool
  pub writable : Text → Bool
  pub removable : Text → Bool
  pub can_spawn : Bool
  -- `process.argv[1]`
  pub own_path : Option Text
  -- The status of the gateway's answer, or the error of `fetch`, a timeout included.
  pub fetch : HttpRequest → Outcome ℕ

pub record HookWorld : Type 0 where
  pub files : Map Text
  pub sent : List HttpRequest
  pub spawned : List (List Text)
  pub printed : List Text

-- The fields of the event's JSON that the hook reads.
pub record HookInput : Type 0 where
  pub hook_event_name : Option Text
  pub session_id : Option Text
  pub transcript_path : Option Text
  pub cwd : Option Text
  pub message : Option Text

pub data HookEvent : Type 0 where
  begins ends needs_input : HookEvent

-- EVENT_MAP and `mapEvent`
unfoldable pub map_event : Option Text → Option HookEvent
map_event none = none
map_event (some name) =
    if name == lit "UserPromptSubmit"
    then some begins
    else if name == lit "Stop"
    then some ends
    else if name == lit "Notification"
    then some needs_input
    else none

-- A string that is there and not empty.
unfoldable pub truthy : Option Text → Option Text
unfolding is_empty
truthy none = none
truthy (some s) = if is_empty s then none else some s

-- `console.error(…)`
abbrev pub print : Text → HookWorld → HookWorld
print line w = record w { printed = w.printed ++ line ∷ [] }
