-- ===== src/Db/Seed/FirstBoot.antt =====
-- The first boot, which seeds the tables, and the later ones: src/db/seed-from-env.ts
use notify_hub.Base.{
  ℕ, Bool, true, false, some, none, List, [], ◌∷◌, Text, has, if◌then◌else◌, ◌≡◌, ◌≢◌, refl, ap,
  ◌∙◌, ◌↔◌, ◌⊎◌, inl, inr, Option,
}
use notify_hub.Base.Map.{lookup}
use notify_hub.Core.{AppConfig, ChannelInstance}
use notify_hub.Db.{Db}
use notify_hub.Db.Channels
use notify_hub.Ports.{Externals}
use notify_hub.Channels.Registry.{required_config_by_channel}
use notify_hub.Admin.Validation.Spec.{IsComplete}
use notify_hub.Db.Seed.{
  or_empty, seeded_channel, seed_channels, seed_profiles, seed_when_empty, seed_from_env_if_empty,
}
use notify_hub.Db.Seed.Written.{
  get-empty, has_all_required_iff, get-seed_channels, seed_profiles-channels,
}

list-cases : {A : Type 0} (xs : List A) → (xs ≡ []) ⊎ (xs ≢ [])
list-cases [] = inl refl
list-cases (x ∷ xs) = inr (λ e. absurd (cc e))

module _ (x : Externals) (channel_time profile_time : Text → ℕ) (config : AppConfig) (db : Db) where
  abbrev pub seeded : Option Bool × Db
  seeded = seed_from_env_if_empty x channel_time profile_time config db

  -- The tables that the seeding of the profiles begins with.
  abbrev pub with_channels : Db
  with_channels = seed_channels x channel_time config config.channels_enabled db

  seeded-later : Channels.list db ≢ [] → seeded ≡ (some false, db)
  unfolding seed_from_env_if_empty seed_when_empty
  seeded-later ne = over (Channels.list db) ne
    where
      over :
          (channels : List ChannelInstance)
          → channels ≢ []
          → seed_when_empty x channel_time profile_time config db channels ≡ (some false, db)
      over [] ne' = absurd (ne' refl)
      over (channel ∷ channels) ne' = refl

  pub seeded-first :
      Channels.list db ≡ []
      → seeded ≡ seed_profiles x profile_time config.channels_enabled config.profiles with_channels
  unfolding seed_from_env_if_empty seed_when_empty
  seeded-first e = rw e refl

  get-seeded :
      (id : Text)
      → Channels.list db ≡ []
      → Channels.get seeded.1 id
        ≡ (if has config.channels_enabled id then some (seeded_channel x config id) else none)
  unfolding Channels.get
  get-seeded id e =
      ap (λ (r : Option Bool × Db). Channels.get r.1 id) (seeded-first e)
      ∙ (ap (λ rows. Channels.get (record db { channels = rows }) id)
            (seed_profiles-channels x config profile_time config.channels_enabled config.profiles
              with_channels)
          ∙ (get-seed_channels x config channel_time config.channels_enabled db id
              ∙ rw (get-empty db id e) refl))

  enabled_iff :
      (id : Text) (keys : List Text)
      → lookup required_config_by_channel id ≡ some keys
      → ((seeded_channel x config id).enabled ≡ true) ↔ IsComplete (seeded_channel x config id) keys
  unfolding seeded_channel
  enabled_iff id keys known =
      rw known (has_all_required_iff (or_empty (lookup config.channel_config id)) keys)

  -- If the table of channels has a row, the seeding changes nothing and answers false. If it has none,
  -- then afterwards, also when a profile makes it throw, the id of a type of the registry reads an
  -- instance exactly if CHANNELS_ENABLED has the type; the instance is of that type with the type's config of the environment, and it is enabled
  -- exactly if each of the type's required keys has a value that is not blank.
  pub seed_from_env_if_empty_lem :
      (id : Text) (keys : List Text)
      → lookup required_config_by_channel id ≡ some keys
      → ((Channels.list db ≢ []) × (seeded ≡ (some false, db)))
        ⊎ ((Channels.list db ≡ [])
            × ((c : ChannelInstance) × (Channels.get seeded.1 id
                  ≡ (if has config.channels_enabled id then some c else none))
                × (c.type ≡ id)
                × (c.config ≡ or_empty (lookup config.channel_config id))
                × ((c.enabled ≡ true) ↔ IsComplete c keys)))
  seed_from_env_if_empty_lem id keys known = elim (list-cases (Channels.list db)) [
    | inr ne ↦ inl (ne, seeded-later ne)
    | inl e ↦ inr (
      e,
      (
        seeded_channel x config id,
        get-seeded id e,
        unfold seeded_channel in refl,
        unfold seeded_channel in refl,
        enabled_iff id keys known,
      ),
    )
  ]
