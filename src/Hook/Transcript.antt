-- ===== src/Hook/Transcript.antt =====
-- `readLastAssistantMessage` of clients/claude-code/notify-hook.mjs: the last message of the assistant in a
-- transcript, a file of JSON lines.
use notify_hub.Base.{
  not, Option, none, some, List, [], ◌∷◌, filter, Text, lit, ◌==◌, trim, is_empty, split,
  if◌then◌else◌,
}
use mathlib.Core.List.{reverse}
use notify_hub.Core.{Value, str, arr, obj, Items, nil, cons, Fields}
use notify_hub.Admin.WorkerLogs.{property}
use notify_hub.Hook.{Machine, HookWorld}
use notify_hub.Hook.Caches.{read_file}

-- What the search in the transcript finds in one entry.
pub data Found : Type 0 where
  text : Text → Found
  nothing : Found
  throws : Found

-- The first block with `type` 'text' and a `text` that is a string. A block that is null or has no
-- properties is passed over.
text_block : Items → Option Text
unfolding property
text_block nil = none
text_block (cons (obj fields) items) = elim (property fields (lit "type")) [
  | str type ↦ elim (property fields (lit "text")) [
    | str s ↦ if type == lit "text" then some s else text_block items
    | _ ↦ text_block items
  ]
  | _ ↦ text_block items
]
text_block (cons _ items) = text_block items

found_text : Option Text → Found
found_text none = nothing
found_text (some s) = text s

content_of : Value → Found
unfolding found_text text_block is_empty
content_of (str s) = if is_empty s then nothing else text s
content_of (arr items) = found_text (text_block items)
content_of _ = nothing

-- `entry.message?.content`
message_content : Value → Found
unfolding content_of property
message_content (obj fields) = content_of (property fields (lit "content"))
message_content _ = nothing

assistant_entry : Fields → Value → Found
unfolding message_content property
assistant_entry fields (str type) =
    if type == lit "assistant" then message_content (property fields (lit "message")) else nothing
assistant_entry fields _ = nothing

-- One line, parsed: `none` is a line that JSON.parse throws on.
entry_of : Option Value → Found
unfolding assistant_entry property
entry_of none = throws
entry_of (some (obj fields)) = assistant_entry fields (property fields (lit "type"))
entry_of (some _) = nothing

-- The loop, from the last line to the first.
search_lines : Machine → List Text → Option Text
unfolding entry_of
search_lines m [] = none
search_lines m (line ∷ lines) = elim (entry_of (m.parse_json line)) [
  | text s ↦ some s
  | nothing ↦ search_lines m lines
  | throws ↦ none
]

search_content : Machine → Option Text → Option Text
unfolding search_lines split trim is_empty
search_content m none = none
search_content m (some content) =
    search_lines m
      (reverse (filter (λ line. not (is_empty (trim line))) (split content (lit "\n"))))

unfoldable pub read_last_assistant_message : Machine → Option Text → HookWorld → Option Text
unfolding search_content read_file
read_last_assistant_message m none w = none
read_last_assistant_message m (some path) w = search_content m (read_file m path w)
