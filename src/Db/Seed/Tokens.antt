-- ===== src/Db/Seed/Tokens.antt =====
-- The profiles of TOKENS after the first boot: src/db/seed-from-env.ts
use notify_hub.Base.{
  ℕ, true, some, List, [], ◌∷◌, map, Text, ==_iff, has_iff, ◌≡◌, refl, ap, ◌∙◌, inl, inr, Mem,
  mem-map, Nodup, Option-cases, arith,
}
use mathlib.Core.Option
use notify_hub.Base.Table.{find_by, find_sound}
use notify_hub.Core.{AppConfig, Profile, ChannelInstance}
use notify_hub.Db.{Db, ChannelRow, ProfileRow}
use notify_hub.Db.Channels
use notify_hub.Db.Profiles
use notify_hub.Db.Profiles.{has_channel, token_taken}
use notify_hub.Db.Profiles.Laws.{upsert-none_iff, upsert-some}
use notify_hub.Db.Profiles.Rows.{has_channel_iff}
use notify_hub.Db.Integrity.{token}
use notify_hub.Db.Integrity.Profiles.{mem-token-upsert_by}
use notify_hub.Ports.{Externals}
use notify_hub.Db.Seed.{
  seeded_channel, seed_channels, seeded_profile, seed_profiles, seed_from_env_if_empty,
}
use notify_hub.Db.Seed.Written.{slug, IsSeeded, get-seed_channels, seed_profiles-IsSeeded}
use notify_hub.Db.Seed.FirstBoot.{with_channels, seeded-first}

has_channel-get :
    (db : Db) (id : Text) (c : ChannelInstance)
    → Channels.get db id ≡ some c
    → has_channel db id ≡ true
unfolding Channels.get find_by
has_channel-get db id c e =
    let (row, found, _) = (Option.map-eq-some_iff Channels.row_to_instance _).0 e in
    let (there, same) = find_sound _ db.channels row found in
    (has_channel_iff db id).1
      (rw (← (==_iff row.id id).0 same) (mem-map (λ (r : ChannelRow). r.id) row db.channels there))

token_taken-Mem :
    (id t : Text) (rows : List ProfileRow) → token_taken id t rows ≡ true → Mem t (map token rows)
unfolding token_taken
token_taken-Mem id t [] e = absurd (cc e)
token_taken-Mem id t (row ∷ rows) e = ground (arith, ==_iff row.token t, token_taken-Mem id t rows)

abbrev pub token_of : Profile → Text
token_of profile = profile.token

-- No row has a token of these profiles.
abbrev IsFree : List Profile → Db → Type 0
IsFree profiles db = (t : Text) → Mem t (map token_of profiles) → ¬ Mem t (map token db.profiles)

module _ (x : Externals) where
  upsert-IsFree :
      (now : ℕ) (created : List Text) (profile : Profile) (profiles : List Profile) (db db' : Db)
      → Profiles.upsert now (seeded_profile x created profile) db ≡ some db'
      → ¬ Mem profile.token (map token_of profiles)
      → IsFree (profile ∷ profiles) db
      → IsFree profiles db'
  unfolding seeded_profile Profiles.to_row
  upsert-IsFree now created profile profiles db db' written own free t m there =
      let new = seeded_profile x created profile in
      let rows = ap (λ (d : Db). map token d.profiles) (upsert-some now new db db' written).2 in
      elim (mem-token-upsert_by (Profiles.to_row now new) t db.profiles (rw rows at there)) [
        | inl old ↦ free t (inr m) old
        | inr e ↦ own (rw e at m)
      ]

  seed_profiles_total :
      (time : Text → ℕ) (created : List Text) (profiles : List Profile) (db : Db)
      → Nodup (map token_of profiles)
      → IsFree profiles db
      → (seed_profiles x time created profiles db).0 ≡ some true
  unfolding seed_profiles
  seed_profiles_total time created [] db distinct free = refl
  seed_profiles_total time created (profile ∷ profiles) db distinct free =
      let new = seeded_profile x created profile in
      elim (Option-cases (Profiles.upsert (time new.id) new db)) [
        | inl refused ↦
            let taken = (upsert-none_iff (time new.id) new db).0 refused in
            absurd (
              free profile.token (inl refl)
                (unfold seeded_profile in token_taken-Mem new.id new.token db.profiles taken))
        | inr (db', written) ↦
            rw (written, seed_profiles)
              (seed_profiles_total time created profiles db' distinct.1 (
                upsert-IsFree (time new.id) created profile profiles db db' written distinct.0
                  free))
      ]

  has_channel-seed_channels :
      (config : AppConfig) (time : Text → ℕ) (types : List Text) (db : Db) (cid : Text)
      → Mem cid types
      → has_channel (seed_channels x time config types db) cid ≡ true
  has_channel-seed_channels config time types db cid m =
      has_channel-get _ cid (seeded_channel x config cid)
        (get-seed_channels x config time types db cid ∙ rw ((has_iff types cid).1 m) refl)

  seed_channels-profiles :
      (config : AppConfig) (time : Text → ℕ) (types : List Text) (db : Db)
      → (seed_channels x time config types db).profiles ≡ db.profiles
  unfolding seed_channels
  seed_channels-profiles config time [] db = refl
  seed_channels-profiles config time (type ∷ types) db = seed_channels-profiles config time types _

  -- On empty tables, where the names of the profiles have distinct slugs and their tokens are distinct,
  -- the seeding does not throw, and each profile of TOKENS reads back under its slug: with its name and
  -- token, and exactly those of its default channels that CHANNELS_ENABLED has.
  pub seed_from_env_if_empty-IsSeeded :
      (channel_time profile_time : Text → ℕ) (config : AppConfig) (db : Db) (profile : Profile)
      → Channels.list db ≡ []
      → db.profiles ≡ []
      → Nodup (map (slug x config) config.profiles)
      → Nodup (map token_of config.profiles)
      → Mem profile config.profiles
      → let r = seed_from_env_if_empty x channel_time profile_time config db in
        (r.0 ≡ some true) × IsSeeded x config config.channels_enabled r.1 profile
  seed_from_env_if_empty-IsSeeded channel_time profile_time config db profile no_channels
        no_profiles slugs tokens m =
      let first = seeded-first x channel_time profile_time config db no_channels in
      let start = with_channels x channel_time profile_time config db in
      let free : IsFree config.profiles start = λ t _ there.
        rw (seed_channels-profiles config channel_time config.channels_enabled db ∙ no_profiles) at
          there in
      let done =
        seed_profiles_total profile_time config.channels_enabled config.profiles start tokens
          free in
      rw first (
        done,
        seed_profiles-IsSeeded x config profile_time config.channels_enabled config.profiles start
            profile done slugs
            (has_channel-seed_channels config channel_time config.channels_enabled db) m,
      )
