-- ===== src/Db/Seed.antt =====
-- src/db/seed-from-env.ts
pub mod Written
pub mod FirstBoot
pub mod Tokens
use notify_hub.Base.{
  ℕ, Bool, true, false, ◌||◌, ◌&&◌, not, Option, none, some, List, [], ◌∷◌, ◌++◌, map, filter,
  every, Text, lit, trim, has, is_empty, leb, eqb, drop_while, drop_while_end, if◌then◌else◌,
}
use notify_hub.Base.Slugs.{slug_of}
use notify_hub.Base.Map.{Map, lookup}
use notify_hub.Core.{AppConfig, Profile, ChannelInstance, ProfileRecord}
use notify_hub.Db.{Db}
use notify_hub.Db.Channels
use notify_hub.Db.Profiles
use notify_hub.Ports.{Externals}
use notify_hub.Channels.Registry.{required_config_by_channel}

-- `type.charAt(0).toUpperCase() + type.slice(1)`
title_case : Externals → Text → Text
title_case x [] = x.upper_case []
title_case x (c ∷ s) = x.upper_case (c ∷ []) ++ s

-- The pattern runs on the trimmed text in lower case.
unfoldable pub slugify : Externals → Text → Text
unfolding slug_of is_empty
slugify x name =
    let slug = slug_of (x.lower_case name) in if is_empty slug then lit "profile" else slug

-- `(config[key] ?? '').trim() !== ''`
unfoldable pub is_given : Option Text → Bool
unfolding is_empty trim
is_given none = false
is_given (some value) = not (is_empty (trim value))

unfoldable pub has_all_required : Map Text → List Text → Bool
unfolding is_given lookup
has_all_required config keys = every (λ key. is_given (lookup config key)) keys

abbrev pub or_empty : {A : Type 0} → Option (List A) → List A
or_empty none = []
or_empty (some xs) = xs

unfoldable pub seeded_channel : Externals → AppConfig → Text → ChannelInstance
unfolding title_case has_all_required lookup required_config_by_channel
seeded_channel x config type =
    let cfg = or_empty (lookup config.channel_config type) in
    record {
      id = type;
      label = title_case x type;
      type = type;
      enabled = has_all_required cfg (or_empty (lookup required_config_by_channel type));
      config = cfg;
    }

-- The loop over the channel types; `time` is the time that each statement writes.
unfoldable pub seed_channels : Externals → (Text → ℕ) → AppConfig → List Text → Db → Db
unfolding seeded_channel Channels.upsert
seed_channels x time config [] db = db
seed_channels x time config (type ∷ types) db =
    seed_channels x time config types
      (Channels.upsert (time type) (seeded_channel x config type) db)

unfoldable pub seeded_profile : Externals → List Text → Profile → ProfileRecord
unfolding slugify has
seeded_profile x created profile = record {
  id = slugify x profile.name;
  name = profile.name;
  token = profile.token;
  default_channels = filter (λ id. has created id) profile.default_channels;
}

-- A statement that throws ends the loop (`none`), and the rows before it stay.
unfoldable pub seed_profiles :
    Externals → (Text → ℕ) → List Text → List Profile → Db → Option Bool × Db
unfolding seeded_profile Profiles.upsert
seed_profiles x time created [] db = (some true, db)
seed_profiles x time created (profile ∷ profiles) db =
    let new = seeded_profile x created profile in
    elim (Profiles.upsert (time new.id) new db) [
      | none ↦ (none, db)
      | some db' ↦ seed_profiles x time created profiles db'
    ]

unfoldable pub seed_when_empty :
    Externals → (Text → ℕ) → (Text → ℕ) → AppConfig → Db → List ChannelInstance → Option Bool × Db
unfolding seed_channels seed_profiles
seed_when_empty x channel_time profile_time config db (channel ∷ channels) = (some false, db)
seed_when_empty x channel_time profile_time config db [] =
    seed_profiles x profile_time config.channels_enabled config.profiles
      (seed_channels x channel_time config config.channels_enabled db)

unfoldable pub seed_from_env_if_empty :
    Externals → (Text → ℕ) → (Text → ℕ) → AppConfig → Db → Option Bool × Db
unfolding seed_when_empty Channels.list
seed_from_env_if_empty x channel_time profile_time config db =
    seed_when_empty x channel_time profile_time config db (Channels.list db)
