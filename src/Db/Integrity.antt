-- ===== src/Db/Integrity.antt =====
-- The constraints of src/db/schema-sql.ts, and the channel operations under them.
pub mod Profiles
pub mod Reachable
use notify_hub.Base.{
  ℕ, none, some, List, [], ◌∷◌, map, filter, not, Text, ◌==◌, ==_iff, ==_refl, ◌≡◌, ◌≢◌, refl, ap,
  ◌⊎◌, inl, inr, Mem, Nodup, mem-filter, Nodup-filter, arith, true, false,
}
use notify_hub.Base.Table.{
  keys, upsert_by, mem-keys-upsert_by, Nodup-upsert_by, mem-keys-remove_by, Nodup-remove_by,
}
use notify_hub.Core.{ChannelInstance}
use notify_hub.Db.{Db, ChannelRow, ProfileRow, ProfileChannel}
use notify_hub.Db.Channels

abbrev pub channel_key : ChannelRow → Text
channel_key row = row.id

abbrev pub profile_key : ProfileRow → Text
profile_key row = row.id

abbrev pub token : ProfileRow → Text
token row = row.token

-- Primary keys and tokens are unique, and every row of profile_channels names an existing profile
-- and an existing channel.
pub record IsConsistent (db : Db) : Type 0 where
  pub channel_ids : Nodup (keys channel_key db.channels)
  pub profile_ids : Nodup (keys profile_key db.profiles)
  pub tokens : Nodup (map token db.profiles)
  pub links : Nodup db.profile_channels
  pub references :
      (l : ProfileChannel)
      → Mem l db.profile_channels
      → Mem l.profile_id (keys profile_key db.profiles)
        × Mem l.channel_id (keys channel_key db.channels)

-- Writing a channel keeps the tables consistent.
pub upsert_channel-IsConsistent :
    (now : ℕ) (c : ChannelInstance) (db : Db)
    → IsConsistent db
    → IsConsistent (Channels.upsert now c db)
unfolding Channels.upsert
upsert_channel-IsConsistent now c db h = record {
  channel_ids =
      Nodup-upsert_by channel_key Channels.on_conflict (Channels.to_row now c) same db.channels
        h.channel_ids;
  profile_ids = h.profile_ids;
  tokens = h.tokens;
  links = h.links;
  references = λ l m.
      let (p, k) = h.references l m in
      (
        p,
        (mem-keys-upsert_by channel_key Channels.on_conflict (Channels.to_row now c) same
              l.channel_id db.channels).1
            (inl k),
      );
}
  where
    same :
        (old : ChannelRow)
        → (Channels.on_conflict (Channels.to_row now c) old).id ≡ (Channels.to_row now c).id
    same old = unfold Channels.on_conflict in refl

-- Deleting a channel keeps the tables consistent.
pub delete_channel-IsConsistent :
    (id : Text) (db : Db) → IsConsistent db → IsConsistent (Channels.delete id db)
unfolding Channels.delete
delete_channel-IsConsistent id db h = record {
  channel_ids = Nodup-remove_by channel_key id db.channels h.channel_ids;
  profile_ids = h.profile_ids;
  tokens = h.tokens;
  links = Nodup-filter _ db.profile_channels h.links;
  references = λ l m.
      let (there, ne) =
        (mem-filter (λ (l : ProfileChannel). not (l.channel_id == id)) l db.profile_channels).0 m in
      let (p, k) = h.references l there in
      (
        p,
        (mem-keys-remove_by channel_key id l.channel_id db.channels).1
            (k, ground (arith, ==_iff l.channel_id id)),
      );
}
