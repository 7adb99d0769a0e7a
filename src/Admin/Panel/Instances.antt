-- ===== src/Admin/Panel/Instances.antt =====
-- The helpers of src/admin/ui for channel instances and profiles: admin-instance-id.js,
-- admin-channel-completeness.js, admin-defaults.js and admin-config-payload.js.
pub mod Laws
pub mod Saving
use notify_hub.Base.{
  ℕ, Bool, true, false, ◌&&◌, ◌||◌, Option, none, some, List, [], ◌∷◌, map, filter, every, has,
  length, eqb, Text, if◌then◌else◌,
}
use notify_hub.Base.Map.{Map, lookup, insert}
use notify_hub.Base.Slugs.{slug_of, is_slug_unit, is_slug_rest}
use notify_hub.Core.{ChannelInstance, ProfileRecord}
use notify_hub.Admin.Validation.{ConfigPayload, is_blank}

-- `slugify`, over `toLowerCase`.
unfoldable pub suggested_id : (Text → Text) → Text → Text
unfolding slug_of
suggested_id lower_case text = slug_of (lower_case text)

unfoldable pub is_valid_channel_id : Text → Bool
is_valid_channel_id [] = false
is_valid_channel_id (c ∷ s) = is_slug_unit c && every is_slug_rest s

unfoldable pub missing_required_keys : ChannelInstance → List Text → List Text
unfolding is_blank lookup
missing_required_keys channel required =
    filter (λ key. is_blank (lookup channel.config key)) required

unfoldable pub is_channel_config_complete : ChannelInstance → List Text → Bool
unfolding missing_required_keys
is_channel_config_complete channel required =
    eqb (length (missing_required_keys channel required)) 0

abbrev pub enabled_ids : List ChannelInstance → List Text
enabled_ids channels = map (λ channel. channel.id) (filter (λ channel. channel.enabled) channels)

-- One round of the loop, and whether it changed the profile.
unfoldable pub prune_profile : List Text → ProfileRecord → ProfileRecord × Bool
unfolding has
prune_profile ids profile =
    let kept = filter (λ id. has ids id) profile.default_channels in
    if eqb (length kept) (length profile.default_channels)
    then (profile, false)
    else (record profile { default_channels = kept }, true)

unfoldable pub prune_profiles : List Text → List ProfileRecord → List ProfileRecord × Bool
unfolding prune_profile
prune_profiles ids [] = ([], false)
prune_profiles ids (profile ∷ profiles) =
    let (pruned, changed) = prune_profile ids profile in
    let (rest, later) = prune_profiles ids profiles in (pruned ∷ rest, changed || later)

unfoldable pub prune_default_channels_to_enabled : ConfigPayload → ConfigPayload × Bool
unfolding prune_profiles
prune_default_channels_to_enabled config =
    let (profiles, changed) = prune_profiles (enabled_ids config.channels) config.profiles in
    (record config { profiles = profiles }, changed)

unfoldable pub text_or_empty : Option Text → Text
text_or_empty none = []
text_or_empty (some text) = text

-- The loop over the required keys, into what is picked so far.
unfoldable pub pick_into : Map Text → Map Text → List Text → Map Text
unfolding text_or_empty lookup insert
pick_into config picked [] = picked
pick_into config picked (key ∷ keys) =
    pick_into config (insert picked key (text_or_empty (lookup config key))) keys

unfoldable pub picked_config : ChannelInstance → Option (List Text) → Map Text
unfolding pick_into
picked_config channel none = channel.config
picked_config channel (some required) = pick_into channel.config [] required

unfoldable pub assemble_channel : Map (List Text) → ChannelInstance → ChannelInstance
unfolding picked_config lookup
assemble_channel required_by_type channel = record channel {
  config = picked_config channel (lookup required_by_type channel.type);
}

unfoldable pub assemble_config_payload : ConfigPayload → Map (List Text) → ConfigPayload
unfolding assemble_channel
assemble_config_payload config required_by_type = record config {
  channels = map (assemble_channel required_by_type) config.channels;
}
