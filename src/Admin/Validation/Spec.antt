-- ===== src/Admin/Validation/Spec.antt =====
-- When a configuration is valid, stated without the loops.
use notify_hub.Base.{true, false, some, List, map, Text, ◌≡◌, All, Mem, Nodup}
use notify_hub.Base.Map.{Map, lookup}
use notify_hub.Core.{ChannelInstance}
use notify_hub.Admin.Validation.{ConfigPayload, is_slug, is_blank}

-- Every required key has a value that is not blank.
abbrev pub IsComplete : ChannelInstance → List Text → Type 0
IsComplete channel keys = All (λ key. is_blank (lookup channel.config key) ≡ false) keys

abbrev pub IsValidChannel : Map (List Text) → ChannelInstance → Type 0
IsValidChannel required channel =
    (is_slug channel.id ≡ true)
    × ((keys : List Text) × (lookup required channel.type ≡ some keys)
        × (channel.enabled ≡ true → IsComplete channel keys))

-- An enabled channel of the payload has this id.
abbrev pub IsEnabledRef : List ChannelInstance → Text → Type 0
IsEnabledRef channels ref =
    (c : ChannelInstance) × Mem c channels × (c.id ≡ ref) × (c.enabled ≡ true)

pub record IsValidConfig (required : Map (List Text)) (payload : ConfigPayload) : Type 0 where
  pub ids : Nodup (map (λ c. c.id) payload.channels)
  pub channels : All (IsValidChannel required) payload.channels
  pub tokens : Nodup (map (λ p. p.token) payload.profiles)
  pub refs : All (λ p. All (IsEnabledRef payload.channels) p.default_channels) payload.profiles
