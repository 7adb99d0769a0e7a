-- ===== src/Tests/Refusing.antt =====
-- The theorems on what is refused, applied.
use notify_hub.Base.{
  split, trim, is_empty, has, ◌==◌, Option, some, List, [], ◌∷◌, Text, lit, ℕ, ◌≡◌, refl,
}
use notify_hub.Core.{Profile, Value, null}
use notify_hub.Ports.{ok}
use notify_hub.Channels.Registry.{required_config_by_channel}
use notify_hub.Admin.Validation.{ConfigPayload}
use notify_hub.Admin.Replacing.{put_config, bad_request}
use notify_hub.Config.{parse_tokens}
use notify_hub.Tests.Samples.{hub, odd}

abbrev noon : Text → ℕ
noon id = 1200

-- A payload with a channel whose type is unknown.
abbrev parse_odd : Value → Option ConfigPayload
parse_odd v = some (record { channels = odd ∷ []; profiles = [] })

abbrev unknown_type : Text
unknown_type = lit "Channel \"odd\" has unknown type \"fax\""

put_refused : (put_config parse_odd noon noon null hub).0 ≡ bad_request unknown_type
unfolding put_config required_config_by_channel has ◌==◌ lit
put_refused = refl

abbrev tokens : Text
tokens = lit "ops:t1:slack, ntfy;dev:t2:"

abbrev token_profiles : List Profile
token_profiles =
    record { name = lit "ops"; token = lit "t1"; default_channels = lit "slack" ∷ lit "ntfy" ∷ [] }
    ∷ record { name = lit "dev"; token = lit "t2"; default_channels = [] }
    ∷ []

tokens_parsed : parse_tokens tokens ≡ ok token_profiles
unfolding parse_tokens split trim is_empty lit
tokens_parsed = refl
