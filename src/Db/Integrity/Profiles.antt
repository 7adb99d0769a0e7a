-- ===== src/Db/Integrity/Profiles.antt =====
-- The constraints of the tables under the profile operations: src/db/sqlite-profile-repository.ts
use mathlib.Core.Option
use notify_hub.Base.{
  ℕ, some, List, [], ◌∷◌, map, filter, not, Text, ◌==◌, ==_iff, ◌≡◌, refl, ◌⊎◌, inl, inr, Mem,
  Nodup, mem-filter, Nodup-filter, arith, false,
}
use notify_hub.Base.Table.{
  keys, upsert_by, mem-keys-upsert_by, Nodup-upsert_by, mem-keys-remove_by, Nodup-remove_by,
  remove_by,
}
use notify_hub.Core.{ProfileRecord}
use notify_hub.Db.{Db, ProfileRow, ProfileChannel}
use notify_hub.Db.Profiles
use notify_hub.Db.Profiles.{
  on_conflict, to_row, token_taken, insert_links, has_profile, has_channel,
}
use notify_hub.Db.Profiles.Links.{insert_links-mem, Nodup-insert_links}
use notify_hub.Db.Profiles.Rows.{has_profile_iff, has_channel_iff}
use notify_hub.Db.Profiles.Laws.{stored, upsert-some}
use notify_hub.Db.Integrity.{IsConsistent, profile_key, token}

pub mem-token-upsert_by :
    (new : ProfileRow) (t : Text) (rows : List ProfileRow)
    → Mem t (map token (upsert_by profile_key on_conflict new rows))
    → Mem t (map token rows) ⊎ (t ≡ new.token)
unfolding upsert_by on_conflict
mem-token-upsert_by new t [] m = ground arith
mem-token-upsert_by new t (row ∷ rows) m = ground (arith, mem-token-upsert_by new t rows)

not-mem-token :
    (new : ProfileRow) (rows : List ProfileRow)
    → ¬ Mem new.id (keys profile_key rows)
    → token_taken new.id new.token rows ≡ false
    → ¬ Mem new.token (map token rows)
unfolding token_taken
not-mem-token new [] h e m = m
not-mem-token new (row ∷ rows) h e m =
    ground (arith, ==_iff row.id new.id, ==_iff row.token new.token, not-mem-token new rows)

Nodup-token-upsert_by :
    (new : ProfileRow) (rows : List ProfileRow)
    → Nodup (keys profile_key rows)
    → Nodup (map token rows)
    → token_taken new.id new.token rows ≡ false
    → Nodup (map token (upsert_by profile_key on_conflict new rows))
unfolding token_taken upsert_by on_conflict
Nodup-token-upsert_by new [] h k e = ((λ m. m), tt)
Nodup-token-upsert_by new (row ∷ rows) h k e = ground (
  arith,
  ==_iff row.id new.id,
  ==_iff row.token new.token,
  not-mem-token new rows,
  mem-token-upsert_by new row.token rows,
  Nodup-token-upsert_by new rows h.1 k.1,
)

stored-IsConsistent :
    (now : ℕ) (p : ProfileRecord) (db : Db)
    → token_taken p.id p.token db.profiles ≡ false
    → IsConsistent db
    → IsConsistent (stored now p db)
unfolding to_row
stored-IsConsistent now p db free h = record {
  channel_ids = h.channel_ids;
  profile_ids =
      Nodup-upsert_by profile_key on_conflict (to_row now p) same db.profiles h.profile_ids;
  tokens = Nodup-token-upsert_by (to_row now p) db.profiles h.profile_ids h.tokens free;
  links = h.links;
  references = λ l m.
      let (k, c) = h.references l m in
      (
        (mem-keys-upsert_by profile_key on_conflict (to_row now p) same l.profile_id db.profiles).1
            (inl k),
        c,
      );
}
  where
    same : (old : ProfileRow) → (on_conflict (to_row now p) old).id ≡ (to_row now p).id
    same old = unfold on_conflict in refl

-- Replacing the links of one profile.
relinked-IsConsistent :
    (db : Db) (pid : Text) (ids : List Text) (out : List ProfileChannel)
    → insert_links db pid ids (filter (λ l. not (l.profile_id == pid)) db.profile_channels)
      ≡ some out
    → IsConsistent db
    → IsConsistent (record db { profile_channels = out })
relinked-IsConsistent db pid ids out e h = record {
  channel_ids = h.channel_ids;
  profile_ids = h.profile_ids;
  tokens = h.tokens;
  links = Nodup-insert_links db pid ids _ out e (Nodup-filter _ db.profile_channels h.links);
  references = λ l m. elim ((insert_links-mem db pid ids _ out l e).0 m) [
    | inl old ↦ h.references l ((mem-filter _ l db.profile_channels).0 old).0
    | inr (same, _, channel, profile) ↦
        (rw same ((has_profile_iff db pid).0 profile), (has_channel_iff db l.channel_id).0 channel)
  ];
}

-- Writing a profile, when it is not refused, keeps the tables consistent.
pub upsert_profile-IsConsistent :
    (now : ℕ) (p : ProfileRecord) (db db' : Db)
    → Profiles.upsert now p db ≡ some db'
    → IsConsistent db
    → IsConsistent db'
upsert_profile-IsConsistent now p db db' e h =
    let (free, written, shape) = upsert-some now p db db' e in
    rw shape (
      relinked-IsConsistent (stored now p db) p.id p.default_channels db'.profile_channels written
        (stored-IsConsistent now p db free h))

-- Setting the default channels of a profile, when it is not refused, keeps the tables consistent.
pub set_default_channels-IsConsistent :
    (pid : Text) (ids : List Text) (db db' : Db)
    → Profiles.set_default_channels pid ids db ≡ some db'
    → IsConsistent db
    → IsConsistent db'
unfolding Profiles.set_default_channels
set_default_channels-IsConsistent pid ids db db' e h =
    let (out, written, shape) = (Option.map-eq-some_iff _ _).0 e in
    rw (← shape) (relinked-IsConsistent db pid ids out written h)

not-mem-token-remove_by :
    (id t : Text) (rows : List ProfileRow)
    → ¬ Mem t (map token rows)
    → ¬ Mem t (map token (remove_by profile_key id rows))
unfolding remove_by
not-mem-token-remove_by id t [] h m = m
not-mem-token-remove_by id t (row ∷ rows) h m = ground (arith, not-mem-token-remove_by id t rows)

Nodup-token-remove_by :
    (id : Text) (rows : List ProfileRow)
    → Nodup (map token rows)
    → Nodup (map token (remove_by profile_key id rows))
unfolding remove_by
Nodup-token-remove_by id [] h = tt
Nodup-token-remove_by id (row ∷ rows) h =
    ground (arith, not-mem-token-remove_by id row.token rows, Nodup-token-remove_by id rows h.1)

-- Deleting a profile keeps the tables consistent.
pub delete_profile-IsConsistent :
    (id : Text) (db : Db) → IsConsistent db → IsConsistent (Profiles.delete id db)
unfolding Profiles.delete
delete_profile-IsConsistent id db h = record {
  channel_ids = h.channel_ids;
  profile_ids = Nodup-remove_by profile_key id db.profiles h.profile_ids;
  tokens = Nodup-token-remove_by id db.profiles h.tokens;
  links = Nodup-filter _ db.profile_channels h.links;
  references = λ l m.
      let (there, ne) =
        (mem-filter (λ (l : ProfileChannel). not (l.profile_id == id)) l db.profile_channels).0 m in
      let (k, c) = h.references l there in
      (
        (mem-keys-remove_by profile_key id l.profile_id db.profiles).1
            (k, ground (arith, ==_iff l.profile_id id)),
        c,
      );
}
