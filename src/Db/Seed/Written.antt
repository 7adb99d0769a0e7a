-- ===== src/Db/Seed/Written.antt =====
-- What the seeding writes into an empty table of channels: src/db/seed-from-env.ts
use notify_hub.Base.{
  ℕ, true, false, Option, none, some, List, [], ◌∷◌, map, any, mem-filter, Nodup, Text, ◌==◌,
  ==_iff, ==_refl, has, has_iff, is_empty, if◌then◌else◌, ◌≡◌, refl, ap, ◌∙◌, ◌↔◌, Mem, mem-map,
  All, inl, inr, arith, Bool-cases, Option-cases,
}
use notify_hub.Base.Sort.{sort, mem-sort}
use notify_hub.Base.Map.{Map, lookup}
use notify_hub.Core.{AppConfig, Profile, ProfileRecord}
use notify_hub.Db.{Db, ChannelRow}
use notify_hub.Db.Channels
use notify_hub.Db.Channels.Laws.{get-upsert}
use notify_hub.Db.Profiles.{has_channel}
use notify_hub.Db.Profiles
use notify_hub.Db.Profiles.Laws.{upsert-some, get-upsert_self, get-upsert_ne}
use notify_hub.Ports.{Externals}
use notify_hub.Admin.Validation.{is_blank}
use notify_hub.Db.Seed.{
  is_given, has_all_required, seeded_channel, seed_channels, seeded_profile, seed_profiles, slugify,
}

no_rows :
    (rows : List ChannelRow)
    → map Channels.row_to_instance (sort Channels.in_order rows) ≡ []
    → rows ≡ []
no_rows [] e = refl
no_rows (row ∷ rows) e =
    let there : Mem row (sort Channels.in_order (row ∷ rows)) =
      (mem-sort Channels.in_order row (row ∷ rows)).1 (inl refl) in
    absurd (rw e at (mem-map Channels.row_to_instance row _ there))

pub get-empty : (db : Db) (id : Text) → Channels.list db ≡ [] → Channels.get db id ≡ none
unfolding Channels.list Channels.get
get-empty db id e = rw (no_rows db.channels e) refl

is_given-is_blank : (o : Option Text) → (is_given o ≡ true) ↔ (is_blank o ≡ false)
unfolding is_given is_blank is_empty
is_given-is_blank none = ground arith
is_given-is_blank (some []) = ground arith
is_given-is_blank (some (c ∷ s)) = ground arith

pub has_all_required_iff :
    (config : Map Text) (keys : List Text)
    → (has_all_required config keys ≡ true) ↔ All (λ key. is_blank (lookup config key) ≡ false) keys
unfolding has_all_required
has_all_required_iff config [] = ground arith
has_all_required_iff config (key ∷ keys) =
    ground (arith, is_given-is_blank (lookup config key), has_all_required_iff config keys)

module _ (x : Externals) (config : AppConfig) where
  pub get-seed_channels :
      (time : Text → ℕ) (types : List Text) (db : Db) (id : Text)
      → Channels.get (seed_channels x time config types db) id
        ≡ (if has types id then some (seeded_channel x config id) else Channels.get db id)
  unfolding seed_channels has
  get-seed_channels time [] db id = refl
  get-seed_channels time (type ∷ types) db id =
      get-seed_channels time types _ id
      ∙ rw (get-upsert (time type) (seeded_channel x config type) db id)
          (elim (Bool-cases (id == type)) [
            | inl same ↦ rw (← (==_iff id type).0 same) (rw (==_refl id) (ground arith))
            | inr other ↦ ground (arith, ==_iff id type, ==_iff type id)
          ])

  pub seed_profiles-channels :
      (time : Text → ℕ) (created : List Text) (profiles : List Profile) (db : Db)
      → (seed_profiles x time created profiles db).1.channels ≡ db.channels
  unfolding seed_profiles
  seed_profiles-channels time created [] db = refl
  seed_profiles-channels time created (profile ∷ profiles) db =
      let new = seeded_profile x created profile in
      elim (Option-cases (Profiles.upsert (time new.id) new db)) [
        | inl none' ↦ rw (none', seed_profiles) refl
        | inr (db', written) ↦
            rw (written, seed_profiles)
              (seed_profiles-channels time created profiles db'
                ∙ ap (λ (d : Db). d.channels) (upsert-some (time new.id) new db db' written).2)
      ]

  abbrev pub slug : Profile → Text
  slug profile = slugify x profile.name

  get-seed_profiles_other :
      (time : Text → ℕ) (created : List Text) (profiles : List Profile) (db : Db) (id : Text)
      → (seed_profiles x time created profiles db).0 ≡ some true
      → ¬ Mem id (map slug profiles)
      → Profiles.get (seed_profiles x time created profiles db).1 id ≡ Profiles.get db id
  unfolding seed_profiles
  get-seed_profiles_other time created [] db id done h = refl
  get-seed_profiles_other time created (profile ∷ profiles) db id done h =
      let new = seeded_profile x created profile in
      elim (Option-cases (Profiles.upsert (time new.id) new db)) [
        | inl none' ↦ absurd (cc (rw (none', seed_profiles) at done))
        | inr (db', written) ↦
            rw (written, seed_profiles)
              (get-seed_profiles_other time created profiles db' id
                  (rw (written, seed_profiles) at done) (λ m. h (inr m))
                ∙ get-upsert_ne (time new.id) new db db' id written (λ e. h (inl e)))
      ]

  has_channel-upsert_profile :
      (new : ProfileRecord) (now : ℕ) (db db' : Db) (cid : Text)
      → Profiles.upsert now new db ≡ some db'
      → has_channel db' cid ≡ has_channel db cid
  unfolding has_channel
  has_channel-upsert_profile new now db db' cid written =
      ap (λ (d : Db). any (λ (row : ChannelRow). row.id == cid) d.channels)
        (upsert-some now new db db' written).2

  -- The profile reads back with its name and token, and those of its default channels that were
  -- created.
  abbrev pub IsSeeded : List Text → Db → Profile → Type 0
  IsSeeded created db profile =
      (r : ProfileRecord) × (Profiles.get db (slug profile) ≡ some r)
      × (r.name ≡ profile.name)
      × (r.token ≡ profile.token)
      × ((cid : Text)
          → Mem cid r.default_channels ↔ (Mem cid profile.default_channels × Mem cid created))

  self-IsSeeded :
      (time : Text → ℕ) (created : List Text) (profiles : List Profile) (db db' : Db)
      (profile : Profile)
      → let new = seeded_profile x created profile in
        Profiles.upsert (time new.id) new db ≡ some db'
        → (seed_profiles x time created profiles db').0 ≡ some true
        → ¬ Mem (slug profile) (map slug profiles)
        → ((cid : Text) → Mem cid created → has_channel db cid ≡ true)
        → IsSeeded created (seed_profiles x time created profiles db').1 profile
  unfolding slugify seeded_profile
  self-IsSeeded time created profiles db db' profile written done other there =
      let new = seeded_profile x created profile in
      let (r, found, _, name, token, defaults) = get-upsert_self (time new.id) new db db' written in
      (
        r,
        get-seed_profiles_other time created profiles db' (slug profile) done other ∙ found,
        name,
        token,
        λ cid.
            let kept = mem-filter (λ id. has created id) cid profile.default_channels in
            ground (arith, kept, has_iff created cid, there cid, defaults cid),
      )

  pub seed_profiles-IsSeeded :
      (time : Text → ℕ) (created : List Text) (profiles : List Profile) (db : Db)
      (profile : Profile)
      → (seed_profiles x time created profiles db).0 ≡ some true
      → Nodup (map slug profiles)
      → ((cid : Text) → Mem cid created → has_channel db cid ≡ true)
      → Mem profile profiles
      → IsSeeded created (seed_profiles x time created profiles db).1 profile
  unfolding seed_profiles
  seed_profiles-IsSeeded time created [] db profile done distinct there m = absurd m
  seed_profiles-IsSeeded time created (first ∷ profiles) db profile done distinct there m =
      let new = seeded_profile x created first in
      elim (Option-cases (Profiles.upsert (time new.id) new db)) [
        | inl none' ↦ absurd (cc (rw (none', seed_profiles) at done))
        | inr (db', written) ↦
            let later = rw (written, seed_profiles) at done in
            let still : (cid : Text) → Mem cid created → has_channel db' cid ≡ true = λ cid c.
              has_channel-upsert_profile new (time new.id) db db' cid written ∙ there cid c in
            rw (written, seed_profiles)
              (elim m [
                | inl e ↦ rw e (
                    self-IsSeeded time created profiles db db' first written later distinct.0 there)
                | inr among ↦
                    seed_profiles-IsSeeded time created profiles db' profile later distinct.1 still
                      among
              ])
      ]
