-- ===== src/Hook/Caches.antt =====
-- The cache files of a session: the start time, the last activity, and the pending payload.
pub mod Reading
use notify_hub.Base.{
  ℕ, Bool, true, false, not, Option, none, some, List, [], ◌∷◌, ◌++◌, filter, Text, lit, ◌==◌, trim,
  decimal, ℤ, pos, if◌then◌else◌,
}
use notify_hub.Base.Map.{Map, lookup, insert}
use notify_hub.Core.{Value, num, obj, Fields, end, field}
use notify_hub.Admin.WorkerLogs.{property}
use notify_hub.Hook.{Machine, HookWorld, truthy}

unfoldable pub erase : Map Text → Text → Map Text
erase files path = filter (λ file. not (file.0 == path)) files

-- The file of a session with this ending.
unfoldable pub cache_path : Machine → Text → Text → Text
cache_path m session_id ending = m.join_tmp (lit "notify-hub-" ++ (session_id ++ ending))

abbrev pub start_ending : Text
start_ending = lit ".start"

abbrev pub activity_ending : Text
activity_ending = lit ".activity"

abbrev pub pending_ending : Text
pending_ending = lit ".pending"

-- A write that throws is caught.
unfoldable pub write_file : Machine → Text → Text → HookWorld → HookWorld
unfolding insert
write_file m path content w =
    if m.writable path then record w { files = insert w.files path content } else w

unfoldable pub unlink : Machine → Text → HookWorld → HookWorld
unfolding erase
unlink m path w = if m.removable path then record w { files = erase w.files path } else w

-- The content of a file that is there and can be read.
unfoldable pub content_at : Machine → Text → Option Text → Option Text
content_at m path none = none
content_at m path (some content) = if m.readable path then some content else none

unfoldable pub read_file : Machine → Text → HookWorld → Option Text
unfolding content_at lookup
read_file m path w = content_at m path (lookup w.files path)

unfoldable pub number_in : Machine → Option Text → Option ℤ
unfolding trim
number_in m none = none
number_in m (some content) = m.number (trim content)

-- `writeStartTime` and `writeActivityTime`
unfoldable pub write_time : Machine → Text → Option Text → ℕ → HookWorld → HookWorld
unfolding cache_path write_file decimal
write_time m ending none time w = w
write_time m ending (some session_id) time w =
    write_file m (cache_path m session_id ending) (decimal time) w

-- The file is deleted whether or not it holds a time, unless it could not be read.
unfoldable pub clear_read : Machine → Text → Option Text → HookWorld → Option ℤ × HookWorld
unfolding number_in unlink
clear_read m path none w = (none, w)
clear_read m path (some content) w = (number_in m (some content), unlink m path w)

unfoldable pub read_and_clear_start_time : Machine → Option Text → HookWorld → Option ℤ × HookWorld
unfolding clear_read read_file cache_path
read_and_clear_start_time m none w = (none, w)
read_and_clear_start_time m (some session_id) w =
    let path = cache_path m session_id start_ending in clear_read m path (read_file m path w) w

unfoldable pub read_activity_time : Machine → Text → HookWorld → Option ℤ
unfolding number_in read_file cache_path
read_activity_time m session_id w =
    number_in m (read_file m (cache_path m session_id activity_ending) w)

pub record Pending : Type 0 where
  pub stop_ts : ℤ
  pub payload : Value

-- `{ stopTs, payload }`
abbrev pub pending_value : ℕ → Value → Value
pending_value stop_ts payload =
    obj (field (lit "stopTs") (num (pos stop_ts)) (field (lit "payload") payload end))

unfoldable pub write_pending_payload : Machine → Text → ℕ → Value → HookWorld → HookWorld
unfolding write_file cache_path
write_pending_payload m session_id stop_ts payload w =
    write_file m (cache_path m session_id pending_ending)
      (m.stringify (pending_value stop_ts payload)) w

-- `typeof parsed?.stopTs === 'number'`
unfoldable pub stopped_at : Fields → Value → Option Pending
unfolding property
stopped_at fields (num stop_ts) =
    some (record { stop_ts = stop_ts; payload = property fields (lit "payload") })
stopped_at fields _ = none

unfoldable pub pending_of : Option Value → Option Pending
unfolding stopped_at property
pending_of (some (obj fields)) = stopped_at fields (property fields (lit "stopTs"))
pending_of _ = none

unfoldable pub parsed_content : Machine → Option Text → Option Value
parsed_content m none = none
parsed_content m (some content) = m.parse_json content

unfoldable pub read_pending_payload : Machine → Text → HookWorld → Option Pending
unfolding pending_of parsed_content read_file cache_path
read_pending_payload m session_id w =
    pending_of (parsed_content m (read_file m (cache_path m session_id pending_ending) w))

unfoldable pub delete_pending_payload : Machine → Text → HookWorld → HookWorld
unfolding unlink cache_path
delete_pending_payload m session_id w = unlink m (cache_path m session_id pending_ending) w
