-- ===== src/Hook/Settings.antt =====
-- The configuration of the hook: the environment first, then a KEY=VALUE file.
use notify_hub.Base.{
  ℕ, Bool, false, ◌&&◌, ◌||◌, not, Option, none, some, List, [], ◌∷◌, every, Text, lit, ◌==◌, trim,
  is_empty, starts_with, split, leb, eqb, ℤ, pos, if◌then◌else◌,
}
use notify_hub.Base.Map.{Map, lookup, insert}
use notify_hub.Hook.{Machine, HookWorld, HookEvent, begins, ends, needs_input, truthy}

is_letter : ℕ → Bool
is_letter c = (leb b'A' c && leb c b'Z') || (leb b'a' c && leb c b'z') || eqb c b'_'

-- CONFIG_KEY_PATTERN, `/^[A-Za-z_][A-Za-z0-9_]*$/`
unfoldable pub is_config_key : Text → Bool
unfolding is_letter
is_config_key [] = false
is_config_key (c ∷ s) = is_letter c && every (λ d. is_letter d || (leb b'0' d && leb d b'9')) s

-- What stands before and after the first `=`.
unfoldable pub cut_at_equals : Text → Option (Text × Text)
cut_at_equals [] = none
cut_at_equals (c ∷ s) =
    let later = cut_at_equals s in
    if eqb c b'='
    then some ([], s)
    else elim later [ none ↦ none | some (before, after) ↦ some (c ∷ before, after) ]

-- A pair of the line, if it is one; `eqIndex <= 0` is no `=`, or nothing before it.
unfoldable pub pair_of_cut : Option (Text × Text) → Option (Text × Text)
unfolding is_config_key trim
pair_of_cut none = none
pair_of_cut (some ([], after)) = none
pair_of_cut (some (c ∷ before, after)) =
    let key = trim (c ∷ before) in if is_config_key key then some (key, trim after) else none

unfoldable pub pair_of_line : Text → Option (Text × Text)
unfolding pair_of_cut cut_at_equals trim is_empty starts_with
pair_of_line raw_line =
    let line = trim raw_line in
    if is_empty line || starts_with line (lit "#") then none else pair_of_cut (cut_at_equals line)

unfoldable pub add_lines : List Text → Map Text → Map Text
unfolding pair_of_line insert
add_lines [] config = config
add_lines (line ∷ lines) config = elim (pair_of_line line) [
  | none ↦ add_lines lines config
  | some (key, value) ↦ add_lines lines (insert config key value)
]

unfoldable pub parse_config_file : Text → Map Text
unfolding add_lines split
parse_config_file content = add_lines (split content (lit "\n")) []

-- A file that is missing or cannot be read has nothing.
read_config_file : Machine → Text → HookWorld → Map Text
unfolding parse_config_file lookup
read_config_file m path w = elim (lookup w.files path) [
  | none ↦ []
  | some content ↦ if m.readable path then parse_config_file content else []
]

path_or : Text → Option Text → Text
path_or path none = path
path_or _ (some path) = path

unfoldable pub value_or : Option Text → Option Text → Option Text
value_or none o = o
value_or (some value) o = some value

-- `resolveConfig(env)[key]`
unfoldable pub resolve_config : Machine → Map Text → HookWorld → Text → Option Text
unfolding read_config_file path_or truthy value_or lookup
resolve_config m env w key =
    let path = path_or m.default_config_path (truthy (lookup env (lit "NOTIFY_HOOK_CONFIG"))) in
    value_or (lookup env key) (lookup (read_config_file m path w) key)

unfoldable pub is_text : Text → Option Text → Bool
is_text text none = false
is_text text (some value) = value == text

-- TOGGLE_ENV_BY_EVENT and `isEventEnabled`
unfoldable pub is_event_enabled : HookEvent → (Text → Option Text) → Bool
unfolding is_text
is_event_enabled begins config = is_text (lit "true") (config (lit "NOTIFY_ON_START"))
is_event_enabled ends config = not (is_text (lit "false") (config (lit "NOTIFY_ON_END")))
is_event_enabled needs_input config =
    not (is_text (lit "false") (config (lit "NOTIFY_ON_NEEDS_INPUT")))

-- DEFAULT_IDLE_SECONDS is 180. `Number(undefined)` is not finite.
unfoldable pub idle_of : Option ℤ → ℕ
idle_of (some (pos seconds)) = seconds
idle_of _ = 180

unfoldable pub number_of : Machine → Option Text → Option ℤ
number_of m none = none
number_of m (some text) = m.number text

unfoldable pub resolve_idle_seconds : Machine → (Text → Option Text) → ℕ
unfolding idle_of number_of
resolve_idle_seconds m config = idle_of (number_of m (config (lit "NOTIFY_IDLE_SECONDS")))
