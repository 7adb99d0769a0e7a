-- ===== src/Admin/Validation.antt =====
-- src/admin/config-validation.ts
pub mod Spec
pub mod Channels
pub mod Profiles
pub mod Decision
use notify_hub.Base.{
  ℕ, Bool, true, false, ◌&&◌, ◌||◌, not, Option, none, some, List, [], ◌∷◌, ◌++◌, Text, lit, ◌==◌,
  leb, eqb, every, has, trim, is_empty, if◌then◌else◌,
}
use notify_hub.Base.Map.{Map, lookup}
use notify_hub.Core.{ChannelInstance, ProfileRecord}

pub record ConfigPayload : Type 0 where
  pub channels : List ChannelInstance
  pub profiles : List ProfileRecord

pub data ConfigValidation : Type 0 where
  valid : ConfigValidation
  invalid : Text → ConfigValidation

unfoldable pub is_slug_start : ℕ → Bool
is_slug_start c = (leb b'a' c && leb c b'z') || (leb b'0' c && leb c b'9')

-- CHANNEL_ID_SLUG_RE, `/^[a-z0-9][a-z0-9-]*$/`
unfoldable pub is_slug : Text → Bool
unfolding is_slug_start
is_slug [] = false
is_slug (c ∷ s) = is_slug_start c && every (λ d. is_slug_start d || eqb d b'-') s

unfoldable pub is_blank : Option Text → Bool
unfolding is_empty trim
is_blank none = true
is_blank (some value) = is_empty value || is_empty (trim value)

-- The loop over the required keys; `none` is no complaint.
check_keys : ChannelInstance → List Text → Option Text
unfolding is_blank lookup
check_keys channel [] = none
check_keys channel (key ∷ keys) =
    let rest = check_keys channel keys in
    if is_blank (lookup channel.config key)
    then some (
        lit "Channel \""
        ++ (channel.id
            ++ (lit "\" is enabled but missing required config \"" ++ (key ++ lit "\""))))
    else rest

check_type : ChannelInstance → Option (List Text) → Option Text
unfolding check_keys
check_type channel none = some (
    lit "Channel \""
    ++ (channel.id ++ (lit "\" has unknown type \"" ++ (channel.type ++ lit "\""))))
check_type channel (some keys) = if not channel.enabled then none else check_keys channel keys

-- One round of the loop over the channels.
check_channel : Map (List Text) → List Text → ChannelInstance → Option Text
unfolding check_type is_slug lookup
check_channel required_by_type seen channel =
    if not (is_slug channel.id)
    then some (
        lit "Channel id \""
        ++ (channel.id
            ++ lit
                "\" is not a valid slug (lowercase letters, digits and hyphens, starting with a letter or digit)"))
    else if has seen channel.id
    then some (lit "Duplicate channel id \"" ++ (channel.id ++ lit "\""))
    else check_type channel (lookup required_by_type channel.type)

pub validate_channels : Map (List Text) → List Text → List ChannelInstance → ConfigValidation
unfolding check_channel
validate_channels required_by_type seen [] = valid
validate_channels required_by_type seen (channel ∷ channels) =
    elim (check_channel required_by_type seen channel) [
      | some error ↦ invalid error
      | none ↦ validate_channels required_by_type (channel.id ∷ seen) channels
    ]

-- `new Map(channels.map((c) => [c.id, c])).get(id)`: a later entry replaces an earlier one.
unfoldable pub channel_by_id : List ChannelInstance → Text → Option ChannelInstance
channel_by_id [] id = none
channel_by_id (channel ∷ channels) id = elim (channel_by_id channels id) [
  | some later ↦ some later
  | none ↦ if channel.id == id then some channel else none
]

check_ref : ProfileRecord → Text → Option ChannelInstance → Option Text
check_ref profile ref none = some (
    lit "Profile \""
    ++ (profile.name
        ++ (lit "\" has default channel \"" ++ (ref ++ lit "\" which does not exist"))))
check_ref profile ref (some channel) =
    if not channel.enabled
    then some (
        lit "Profile \""
        ++ (profile.name
            ++ (lit "\" has default channel \"" ++ (ref ++ lit "\" which is not enabled"))))
    else none

check_refs : List ChannelInstance → ProfileRecord → List Text → Option Text
unfolding check_ref channel_by_id
check_refs channels profile [] = none
check_refs channels profile (ref ∷ refs) =
    elim (check_ref profile ref (channel_by_id channels ref)) [
      | some error ↦ some error
      | none ↦ check_refs channels profile refs
    ]

check_profile : List ChannelInstance → List Text → ProfileRecord → Option Text
unfolding check_refs
check_profile channels seen profile =
    if has seen profile.token
    then some (lit "Duplicate token for profile \"" ++ (profile.name ++ lit "\""))
    else check_refs channels profile profile.default_channels

pub validate_profiles : List ChannelInstance → List Text → List ProfileRecord → ConfigValidation
unfolding check_profile
validate_profiles channels seen [] = valid
validate_profiles channels seen (profile ∷ profiles) = elim (check_profile channels seen profile) [
  | some error ↦ invalid error
  | none ↦ validate_profiles channels (profile.token ∷ seen) profiles
]

unfoldable pub validate_config_payload : ConfigPayload → Map (List Text) → ConfigValidation
unfolding validate_channels validate_profiles
validate_config_payload payload required_by_type =
    elim (validate_channels required_by_type [] payload.channels) [
      | invalid error ↦ invalid error
      | valid ↦ validate_profiles payload.channels [] payload.profiles
    ]
