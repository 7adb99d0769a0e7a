-- ===== src/Admin/Panel/Profiles.antt =====
-- The handlers of src/admin/ui/admin-profiles.js and admin-channels.js, with the callbacks of admin.js:
-- they change the working config in place, and each calls `markEdited`.
pub mod Chips
use notify_hub.Base.{
  ℕ, zero, suc, Bool, true, false, ◌&&◌, not, Option, none, some, List, [], ◌∷◌, ◌++◌, map, filter,
  Text, lit, ◌==◌, has, is_empty, join, if◌then◌else◌,
}
use notify_hub.Base.Map.{lookup, Map}
use notify_hub.Core.{ChannelInstance, ProfileRecord}
use notify_hub.Admin.Validation.{ConfigPayload}
use notify_hub.Admin.Panel.Instances.{missing_required_keys, prune_default_channels_to_enabled}

-- The object at an index, changed in place.
unfoldable pub change_at : {A : Type 0} → ℕ → (A → A) → List A → List A
change_at i change [] = []
change_at zero change (x ∷ xs) = change x ∷ xs
change_at (suc i) change (x ∷ xs) = x ∷ change_at i change xs

-- `xs.splice(i, 1)`
unfoldable pub remove_at : {A : Type 0} → ℕ → List A → List A
remove_at i [] = []
remove_at zero (x ∷ xs) = xs
remove_at (suc i) (x ∷ xs) = x ∷ remove_at i xs

-- `ids.splice(ids.indexOf(id), 1)` of an id that is there: the first one goes.
unfoldable pub remove_first : Text → List Text → List Text
remove_first id [] = []
remove_first id (x ∷ xs) = let rest = remove_first id xs in if x == id then xs else x ∷ rest

-- A click on a chip.
unfoldable pub toggle_chip : Text → ProfileRecord → ProfileRecord
unfolding has remove_first
toggle_chip channel_id profile = record profile {
  default_channels =
      if has profile.default_channels channel_id
      then remove_first channel_id profile.default_channels
      else profile.default_channels ++ channel_id ∷ [];
}

-- The cards: `i` is the index of the profile, and an instance is found by the card that shows it.
pub data PanelEdit : Type 0 where
  toggle_default : (i : ℕ) → Text → PanelEdit
  name_profile : (i : ℕ) → Text → PanelEdit
  set_token : (i : ℕ) → Text → PanelEdit
  remove_profile : (i : ℕ) → PanelEdit
  -- The id is what `generateProfileId` gives.
  add_profile : Text → PanelEdit
  label_channel : (i : ℕ) → Text → PanelEdit
  enable_channel : (i : ℕ) → Bool → PanelEdit
  delete_channel : Text → PanelEdit

-- The listeners of the cards' fields.
abbrev name_typed : Text → ProfileRecord → ProfileRecord
name_typed name profile = record profile { name = name }

abbrev token_typed : Text → ProfileRecord → ProfileRecord
token_typed token profile = record profile { token = token }

abbrev label_typed : Text → ChannelInstance → ChannelInstance
label_typed label channel = record channel { label = label }

abbrev enabled_set : Bool → ChannelInstance → ChannelInstance
enabled_set enabled channel = record channel { enabled = enabled }

abbrev new_profile : Text → ProfileRecord
new_profile id = record { id = id; name = []; token = []; default_channels = [] }

-- `deleteChannel`: the first instance with the id goes.
unfoldable pub remove_channel : Text → List ChannelInstance → List ChannelInstance
remove_channel id [] = []
remove_channel id (c ∷ channels) =
    let rest = remove_channel id channels in if c.id == id then channels else c ∷ rest

-- A toggle and a deletion take what is not enabled out of the default channels.
unfoldable pub pruned : ConfigPayload → ConfigPayload
unfolding prune_default_channels_to_enabled
pruned config = (prune_default_channels_to_enabled config).0

unfoldable pub apply_edit : PanelEdit → ConfigPayload → ConfigPayload
unfolding change_at remove_at toggle_chip remove_channel pruned
apply_edit (toggle_default i id) config = record config {
  profiles = change_at i (toggle_chip id) config.profiles;
}
apply_edit (name_profile i name) config = record config {
  profiles = change_at i (name_typed name) config.profiles;
}
apply_edit (set_token i token) config = record config {
  profiles = change_at i (token_typed token) config.profiles;
}
apply_edit (remove_profile i) config = record config { profiles = remove_at i config.profiles }
apply_edit (add_profile id) config = record config {
  profiles = config.profiles ++ new_profile id ∷ [];
}
apply_edit (label_channel i label) config = record config {
  channels = change_at i (label_typed label) config.channels;
}
apply_edit (enable_channel i enabled) config =
    pruned (record config { channels = change_at i (enabled_set enabled) config.channels })
apply_edit (delete_channel id) config =
    pruned (record config { channels = remove_channel id config.channels })

unfoldable pub apply_edits : List PanelEdit → ConfigPayload → ConfigPayload
unfolding apply_edit
apply_edits [] config = config
apply_edits (edit ∷ edits) config = apply_edits edits (apply_edit edit config)

missing_text : (Text → Text) → List Text → Text
unfolding join
missing_text label_for [] = []
missing_text label_for (key ∷ keys) =
    lit "Missing: " ++ join (map label_for (key ∷ keys)) (lit ", ")

-- `renderWarning` of a card.
unfoldable pub warning_text : (Text → Text) → ChannelInstance → List Text → Text
unfolding missing_text missing_required_keys
warning_text label_for channel required =
    missing_text label_for (if channel.enabled then missing_required_keys channel required else [])
