-- ===== src/Admin/Panel/Instances/Saving.antt =====
-- What the panel saves, against the rules of the server.
use mathlib.Core.Path.{subst}
use notify_hub.Base.{
  true, false, some, List, [], ◌∷◌, map, Text, ◌≡◌, refl, sym, ap, ◌∙◌, ◌⊎◌, inl, inr, All,
  All-of_mem, All-mem, Nodup, mem-map, ◌↔◌, ◌&&◌, every,
}
use notify_hub.Base.Map.{Map, lookup}
use notify_hub.Base.Slugs.{slug_of, slug_of-IsSlugged, IsSlugged, is_slug_rest}
use notify_hub.Core.{ChannelInstance, ProfileRecord}
use notify_hub.Admin.Validation.{
  ConfigPayload, is_slug, is_slug_start, is_blank, valid, validate_config_payload,
}
use notify_hub.Admin.Validation.Spec.{IsValidChannel, IsComplete, IsEnabledRef}
use notify_hub.Admin.Validation.Decision.{validate_config_payload_iff}
use notify_hub.Admin.Panel.Instances.{
  suggested_id, is_valid_channel_id, is_channel_config_complete, enabled_ids, prune_profiles,
  prune_default_channels_to_enabled, picked_config, assemble_channel, assemble_config_payload,
}
use notify_hub.Admin.Panel.Instances.Laws.{
  is_channel_config_complete-IsComplete, IsComplete-is_channel_config_complete,
  prune_profiles-IsEnabledRef, tokens-prune_profiles, is_blank-pick_into,
}

is_slug-eq : (id : Text) → is_slug id ≡ is_valid_channel_id id
unfolding is_slug is_slug_start is_valid_channel_id
is_slug-eq [] = refl
is_slug-eq (c ∷ s) = refl

slugged_id : (s : Text) → IsSlugged s → (s ≡ []) ⊎ (is_slug s ≡ true)
unfolding is_slug is_slug_start
slugged_id [] h = inl refl
slugged_id (c ∷ s) h = inr (ap (λ b. b && every is_slug_rest s) h.0 ∙ h.1)

-- Whatever label is typed, and whatever `toLowerCase` makes of it, the id that the panel suggests is
-- empty or one that the server takes for a slug.
pub suggested_id-IsSlug :
    (lower_case : Text → Text) (label : Text)
    → (suggested_id lower_case label ≡ []) ⊎ (is_slug (suggested_id lower_case label) ≡ true)
unfolding suggested_id
suggested_id-IsSlug lower_case label =
    slugged_id (slug_of (lower_case label)) (slug_of-IsSlugged (lower_case label))

-- What the panel shows of a channel: an id of the right form, a known type, and no warning if enabled.
abbrev pub IsShownComplete : Map (List Text) → ChannelInstance → Type 0
IsShownComplete required channel =
    (is_valid_channel_id channel.id ≡ true)
    × ((keys : List Text) × (lookup required channel.type ≡ some keys)
        × (channel.enabled ≡ true → is_channel_config_complete channel keys ≡ true))

assemble_channel-IsComplete :
    (channel : ChannelInstance) (keys : List Text)
    → IsComplete (record channel { config = picked_config channel (some keys) }) keys
      ↔ (is_channel_config_complete channel keys ≡ true)
unfolding picked_config
assemble_channel-IsComplete channel keys =
    let picked = record channel { config = picked_config channel (some keys) } in
    (
      λ complete. IsComplete-is_channel_config_complete channel keys (
          All-of_mem (λ key. is_blank (lookup channel.config key) ≡ false) keys
            (λ key mem.
              sym (is_blank-pick_into channel.config keys key mem)
              ∙ All-mem (λ k. is_blank (lookup picked.config k) ≡ false) keys complete mem)),
      λ complete.
          All-of_mem (λ key. is_blank (lookup picked.config key) ≡ false) keys
            (λ key mem.
              is_blank-pick_into channel.config keys key mem
              ∙ All-mem (λ k. is_blank (lookup channel.config k) ≡ false) keys
                  (is_channel_config_complete-IsComplete channel keys complete) mem),
    )

assemble_channel-IsValidChannel :
    (required : Map (List Text)) (channel : ChannelInstance)
    → IsValidChannel required (assemble_channel required channel) ↔ IsShownComplete required channel
unfolding assemble_channel
assemble_channel-IsValidChannel required channel = (
  λ (slug, (keys, known, complete)). (
    sym (is_slug-eq channel.id) ∙ slug,
    (
      keys,
      known,
      λ enabled. (assemble_channel-IsComplete channel keys).0 (
          subst (λ o. IsComplete (record channel { config = picked_config channel o }) keys) known
            (complete enabled)),
    ),
  ),
  λ (slug, (keys, known, complete)). (
    is_slug-eq channel.id ∙ slug,
    (
      keys,
      known,
      λ enabled.
          subst (λ o. IsComplete (record channel { config = picked_config channel o }) keys)
            (sym known) ((assemble_channel-IsComplete channel keys).1 (complete enabled)),
    ),
  ),
)

module _ (required : Map (List Text)) where
  ids-assemble :
      (channels : List ChannelInstance)
      → map (λ c. c.id) (map (assemble_channel required) channels) ≡ map (λ c. c.id) channels
  unfolding assemble_channel
  ids-assemble [] = refl
  ids-assemble (channel ∷ channels) = ap (λ l. channel.id ∷ l) (ids-assemble channels)

  All-assemble :
      (channels : List ChannelInstance)
      → All (IsValidChannel required) (map (assemble_channel required) channels)
        ↔ All (IsShownComplete required) channels
  All-assemble [] = ((λ h. tt), λ h. tt)
  All-assemble (channel ∷ channels) =
      let first = assemble_channel-IsValidChannel required channel in
      let rest = All-assemble channels in
      ((λ (h, k). (first.0 h, rest.0 k)), λ (h, k). (first.1 h, rest.1 k))

  enabled-assemble :
      (channels : List ChannelInstance) (id : Text)
      → IsEnabledRef channels id
      → IsEnabledRef (map (assemble_channel required) channels) id
  unfolding assemble_channel
  enabled-assemble channels id (channel, among, same, enabled) = (
    assemble_channel required channel,
    mem-map (assemble_channel required) channel channels among,
    same,
    enabled,
  )

  refs-assemble :
      (channels : List ChannelInstance) (profiles : List ProfileRecord)
      → All (λ p. All (IsEnabledRef channels) p.default_channels) profiles
      → All
          (λ p. All (IsEnabledRef (map (assemble_channel required) channels)) p.default_channels)
          profiles
  refs-assemble channels [] h = tt
  refs-assemble channels (profile ∷ profiles) h = (
    All-of_mem (IsEnabledRef (map (assemble_channel required) channels)) profile.default_channels
        (λ id mem.
          enabled-assemble channels id
            (All-mem (IsEnabledRef channels) profile.default_channels h.0 mem)),
    refs-assemble channels profiles h.1,
  )

  -- `validateConfigPayload` accepts what the panel assembles after it pruned the default channels, leaving
  -- aside the schema that the server parses it with first, exactly if the
  -- ids of the channels are distinct, each channel is shown with an id of the right form, a known type
  -- and, when it is enabled, as complete, and the tokens of the profiles are distinct.
  pub validate-assemble_iff :
      (config : ConfigPayload)
      → let saved = assemble_config_payload (prune_default_channels_to_enabled config).0 required in
        (validate_config_payload saved required ≡ valid) ↔ (
          Nodup (map (λ c. c.id) config.channels)
          × All (IsShownComplete required) config.channels
          × Nodup (map (λ p. p.token) config.profiles))
  unfolding assemble_config_payload prune_default_channels_to_enabled
  validate-assemble_iff config =
      let saved = assemble_config_payload (prune_default_channels_to_enabled config).0 required in
      let decides = validate_config_payload_iff saved required in
      let same_ids = ids-assemble config.channels in
      let same_tokens = tokens-prune_profiles (enabled_ids config.channels) config.profiles in
      (
        λ accepted.
            let h = decides.0 accepted in
            (
              subst Nodup same_ids h.ids,
              (All-assemble config.channels).0 h.channels,
              subst Nodup same_tokens h.tokens,
            ),
        λ (ids, shown, tokens). decides.1 (record {
          ids = subst Nodup (sym same_ids) ids;
          channels = (All-assemble config.channels).1 shown;
          tokens = subst Nodup (sym same_tokens) tokens;
          refs =
              refs-assemble config.channels
                (prune_profiles (enabled_ids config.channels) config.profiles).0
                (prune_profiles-IsEnabledRef config.channels config.profiles);
        }),
      )
