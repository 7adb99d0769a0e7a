-- ===== src/Config.antt =====
-- src/config/load-config.ts. The zod schema of the environment is a parameter.
pub mod Tokens
use notify_hub.Base.{
  ℕ, Bool, ◌||◌, ◌&&◌, not, Option, none, some, List, [], ◌∷◌, ◌++◌, map, filter, Text, lit, trim,
  split, is_empty, if◌then◌else◌,
}
use notify_hub.Base.Map.{Map, lookup, insert}
use notify_hub.Core.{AppConfig, Profile}
use notify_hub.Ports.{Outcome, ok, raise}

unfoldable pub parse_csv : Text → List Text
unfolding split trim is_empty
parse_csv raw = filter (λ s. not (is_empty s)) (map trim (split raw (lit ",")))

-- One entry, from its parts.
parse_parts : Text → List Text → Outcome Profile
unfolding is_empty parse_csv
parse_parts entry (name ∷ token ∷ channels_csv ∷ []) =
    if is_empty name || is_empty token
    then raise
        (lit "Invalid TOKENS entry \"" ++ (entry ++ lit "\": name and token must be non-empty"))
    else ok (record { name = name; token = token; default_channels = parse_csv channels_csv })
parse_parts entry _ = raise (
    lit "Invalid TOKENS entry \""
    ++ (entry ++ lit "\": expected format name:token:channel1,channel2"))

-- `map` with a function that may throw.
parse_entries : List Text → Outcome (List Profile)
unfolding parse_parts split
parse_entries [] = ok []
parse_entries (entry ∷ entries) = elim (parse_parts entry (split entry (lit ":"))) [
  | raise e ↦ raise e
  | ok profile ↦ elim (parse_entries entries) [
    | raise e ↦ raise e
    | ok profiles ↦ ok (profile ∷ profiles)
  ]
]

unfoldable pub parse_tokens : Text → Outcome (List Profile)
unfolding parse_entries split trim is_empty
parse_tokens raw =
    parse_entries (filter (λ entry. not (is_empty entry)) (map trim (split raw (lit ";"))))

-- What `envSchema` gives.
pub record Env : Type 0 where
  pub port : ℕ
  pub redis_url : Text
  pub db_path : Text
  pub tokens : Text
  pub channels_enabled : Text
  pub retry_attempts : ℕ
  pub retry_backoff_ms : ℕ

is_present : Text → Bool
unfolding is_empty trim
is_present value = not (is_empty value) && not (is_empty (trim value))

-- The present values of the required keys.
capture_keys : Map Text → List Text → Map Text → Map Text
unfolding is_present lookup insert
capture_keys env [] cfg = cfg
capture_keys env (key ∷ keys) cfg = elim (lookup env key) [
  | none ↦ capture_keys env keys cfg
  | some value ↦ capture_keys env keys (if is_present value then insert cfg key value else cfg)
]

required_of : Option (List Text) → List Text
required_of none = []
required_of (some keys) = keys

capture_channels : Map Text → Map (List Text) → List Text → Map (Map Text) → Map (Map Text)
unfolding capture_keys required_of lookup insert
capture_channels env required [] configs = configs
capture_channels env required (channel ∷ channels) configs =
    capture_channels env required channels
      (insert configs channel (capture_keys env (required_of (lookup required channel)) []))

config_of : Map Text → Map (List Text) → Env → Outcome (List Profile) → Outcome AppConfig
unfolding parse_csv capture_channels
config_of env required parsed (raise e) = raise e
config_of env required parsed (ok profiles) =
    let channels_enabled = parse_csv parsed.channels_enabled in
    ok (record {
      port = parsed.port;
      redis_url = parsed.redis_url;
      db_path = parsed.db_path;
      profiles = profiles;
      channels_enabled = channels_enabled;
      channel_config = capture_channels env required channels_enabled [];
      retry = record { attempts = parsed.retry_attempts; backoff_ms = parsed.retry_backoff_ms };
    })

load_parsed : Map Text → Map (List Text) → Outcome Env → Outcome AppConfig
unfolding config_of parse_tokens
load_parsed env required (raise e) = raise e
load_parsed env required (ok parsed) = config_of env required parsed (parse_tokens parsed.tokens)

unfoldable pub load_config :
    (Map Text → Outcome Env) → Map Text → Map (List Text) → Outcome AppConfig
unfolding load_parsed
load_config parse_env env required = load_parsed env required (parse_env env)
