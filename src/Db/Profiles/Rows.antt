-- ===== src/Db/Profiles/Rows.antt =====
-- What the reading statements say of the rows.
use mathlib.Core.Option
use notify_hub.Base.{
  Bool, true, Option, none, some, List, [], ◌∷◌, map, filter, Text, ◌==◌, ==_iff, ==_refl, any,
  is_empty, ◌≡◌, ◌≢◌, sym, ap, ◌↔◌, Mem, mem-map, exists_of_mem-map, mem-filter, arith,
}
use notify_hub.Base.Sort.{mem-sort, text_le}
use notify_hub.Base.Table.{find_sound, keys}
use notify_hub.Core.{ProfileRecord}
use notify_hub.Db.{Db, ChannelRow, ProfileRow, ProfileChannel}
use notify_hub.Db.Profiles.{
  default_channels_for, row_to_record, in_order, list, resolve_by_token, has_channel, has_profile,
}

abbrev pub profile_id : ProfileRow → Text
profile_id row = row.id

-- A token resolves only to a stored profile that carries it, and never when it is empty.
pub resolve_by_token_sound :
    (db : Db) (token : Option Text) (p : ProfileRecord)
    → resolve_by_token db token ≡ some p
    → (token ≡ some p.token) × (p.token ≢ []) × Mem p (list db)
unfolding resolve_by_token is_empty list
resolve_by_token_sound db none p h = absurd (cc h)
resolve_by_token_sound db (some []) p h = absurd (cc h)
resolve_by_token_sound db (some (c ∷ t)) p h =
    let (row, found, same) = (Option.map-eq-some_iff (row_to_record db) _).0 h in
    let (there, matches) = find_sound _ db.profiles row found in
    let e : row.token ≡ c ∷ t = (==_iff row.token (c ∷ t)).0 matches in
    rw (← same) (
      unfold row_to_record in ap some (sym e),
      unfold row_to_record in (λ k. absurd (cc (e, k))),
      mem-map (row_to_record db) row _ ((mem-sort in_order row db.profiles).1 there),
    )

pub has_profile_iff :
    (db : Db) (id : Text) → (has_profile db id ≡ true) ↔ Mem id (keys profile_id db.profiles)
unfolding has_profile
has_profile_iff db id = over db.profiles
  where
    over :
        (rows : List ProfileRow)
        → (any (λ row. row.id == id) rows ≡ true) ↔ Mem id (keys profile_id rows)
    over [] = ground arith
    over (row ∷ rows) = ground (arith, ==_iff row.id id, over rows)

pub has_channel_iff :
    (db : Db) (id : Text)
    → (has_channel db id ≡ true) ↔ Mem id (keys (λ (row : ChannelRow). row.id) db.channels)
unfolding has_channel
has_channel_iff db id = over db.channels
  where
    over :
        (rows : List ChannelRow)
        → (any (λ row. row.id == id) rows ≡ true)
          ↔ Mem id (keys (λ (row : ChannelRow). row.id) rows)
    over [] = ground arith
    over (row ∷ rows) = ground (arith, ==_iff row.id id, over rows)

pub mem-default_channels_for :
    (db : Db) (pid cid : Text)
    → Mem cid (default_channels_for db pid)
      ↔ Mem {A = ProfileChannel} (record { profile_id = pid; channel_id = cid }) db.profile_channels
unfolding default_channels_for
mem-default_channels_for db pid cid = (
  λ m.
      let (l, there, e) =
        exists_of_mem-map channel_id cid (filter is_own db.profile_channels)
          ((mem-sort text_le cid (map channel_id (filter is_own db.profile_channels))).0 m) in
      let (kept, same) = (mem-filter is_own l db.profile_channels).0 there in
      let link : l ≡ record { profile_id = pid; channel_id = cid } =
        ground (arith, (==_iff l.profile_id pid).0 same) in
      rw (← link) kept,
  λ m. (mem-sort text_le cid _).1 (
      mem-map channel_id (record { profile_id = pid; channel_id = cid }) _
        ((mem-filter is_own _ db.profile_channels).1 (m, ==_refl pid))),
)
  where
    channel_id : ProfileChannel → Text
    channel_id l = l.channel_id

    is_own : ProfileChannel → Bool
    is_own l = l.profile_id == pid
