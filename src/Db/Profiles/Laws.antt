-- ===== src/Db/Profiles/Laws.antt =====
-- The profile tables as a dictionary from ids to profiles, with UNIQUE tokens.
use mathlib.Core.Option
use notify_hub.Base.{
  ℕ, true, false, Option, none, some, List, [], ◌∷◌, map, filter, not, Text, ◌==◌, ==_iff, ==_refl,
  if◌then◌else◌, ◌≡◌, ◌≢◌, refl, ap, ◌∙◌, ◌↔◌, inr, Mem, mem-filter, arith,
}
use notify_hub.Base.Sort.{sort, text_le}
use notify_hub.Base.Table.{
  find_by, find_sound, find_by-upsert_by, merged, upsert_by, mem-keys-upsert_by,
}
use notify_hub.Core.{ProfileRecord}
use notify_hub.Db.{Db, ProfileRow, ProfileChannel}
use notify_hub.Db.Profiles.{
  default_channels_for, row_to_record, get, token_taken, on_conflict, has_channel, has_profile,
  insert_links, replace_default_channels, to_row, upsert,
}
use notify_hub.Db.Profiles.Links.{insert_links_total, insert_links-mem, filter-insert_links}
use notify_hub.Db.Profiles.Rows.{profile_id, has_profile_iff, mem-default_channels_for}

-- The table after the row of `p` is written.
abbrev pub stored : ℕ → ProfileRecord → Db → Db
stored now p db = record db {
  profiles = upsert_by profile_id on_conflict (to_row now p) db.profiles;
}

abbrev pub others : ProfileRecord → Db → List ProfileChannel
others p db = filter (λ link. not (link.profile_id == p.id)) db.profile_channels

module _ (now : ℕ) (p : ProfileRecord) (db : Db) where
  same_key : (old : ProfileRow) → (on_conflict (to_row now p) old).id ≡ (to_row now p).id
  unfolding on_conflict
  same_key old = refl

  has_profile-stored : has_profile (stored now p db) p.id ≡ true
  unfolding to_row
  has_profile-stored = (has_profile_iff (stored now p db) p.id).1 (
      (mem-keys-upsert_by profile_id on_conflict (to_row now p) same_key p.id db.profiles).1
        (inr refl))

  has_channel-stored : (cid : Text) → has_channel (stored now p db) cid ≡ has_channel db cid
  unfolding has_channel
  has_channel-stored cid = refl

  -- `upsert` is refused exactly when another profile has the token.
  pub upsert-none_iff : (upsert now p db ≡ none) ↔ (token_taken p.id p.token db.profiles ≡ true)
  unfolding upsert replace_default_channels
  upsert-none_iff =
      let (out, e) =
        insert_links_total (stored now p db) p.id p.default_channels (others p db)
          has_profile-stored in
      ground (arith, e)

  -- A successful `upsert` writes the row and the links of its default channels.
  pub upsert-some :
      (db' : Db)
      → upsert now p db ≡ some db'
      → (token_taken p.id p.token db.profiles ≡ false)
        × (insert_links (stored now p db) p.id p.default_channels (others p db)
            ≡ some db'.profile_channels)
        × (db' ≡ record (stored now p db) { profile_channels = db'.profile_channels })
  unfolding upsert replace_default_channels
  upsert-some db' h =
      let (out, e) =
        insert_links_total (stored now p db) p.id p.default_channels (others p db)
          has_profile-stored in
      ground (arith, e)

  record-merged :
      (db' : Db) (old : Option ProfileRow)
      → row_to_record db' (merged profile_id on_conflict (to_row now p) old)
        ≡ record p { default_channels = default_channels_for db' p.id }
  unfolding row_to_record merged on_conflict to_row
  record-merged db' none = refl
  record-merged db' (some row) = refl

  get-stored :
      (db' : Db) (id : Text)
      → upsert now p db ≡ some db'
      → get db' id ≡ (
          if p.id == id
          then some (record p { default_channels = default_channels_for db' p.id })
          else Option.map (row_to_record db') (find_by profile_id id db.profiles))
  unfolding get to_row
  get-stored db' id h =
      let rows : db'.profiles ≡ (stored now p db).profiles =
        ap (λ (d : Db). d.profiles) (upsert-some db' h).2 in
      let found = find_by-upsert_by profile_id on_conflict (to_row now p) same_key id db.profiles in
      let own = record-merged db' (find_by profile_id p.id db.profiles) in
      ap (λ (rs : List ProfileRow). Option.map (row_to_record db') (find_by profile_id id rs)) rows
      ∙ rw found (ground (arith, own))

  -- After a successful `upsert` the profile's id reads back its name and token, with exactly those
  -- of its default channels that exist.
  pub get-upsert_self :
      (db' : Db)
      → upsert now p db ≡ some db'
      → (r : ProfileRecord) × (get db' p.id ≡ some r)
        × (r.id ≡ p.id)
        × (r.name ≡ p.name)
        × (r.token ≡ p.token)
        × ((cid : Text)
            → Mem cid r.default_channels
              ↔ (Mem cid p.default_channels × (has_channel db cid ≡ true)))
  get-upsert_self db' h =
      let self = get-stored db' p.id h in
      (
        record p { default_channels = default_channels_for db' p.id },
        rw (==_refl p.id) at self,
        refl,
        refl,
        refl,
        λ cid.
            let link : ProfileChannel = record { profile_id = p.id; channel_id = cid } in
            let added =
              insert_links-mem (stored now p db) p.id p.default_channels (others p db)
                db'.profile_channels link (upsert-some db' h).1 in
            let kept =
              mem-filter (λ (l : ProfileChannel). not (l.profile_id == p.id)) link
                db.profile_channels in
            ground (
              arith,
              mem-default_channels_for db' p.id cid,
              added,
              kept,
              ==_refl p.id,
              has_profile-stored,
              has_channel-stored cid,
            ),
      )

  filter-others :
      (id : Text) (links : List ProfileChannel)
      → id ≢ p.id
      → filter (λ l. l.profile_id == id) (filter (λ l. not (l.profile_id == p.id)) links)
        ≡ filter (λ l. l.profile_id == id) links
  filter-others id [] ne = refl
  filter-others id (l ∷ links) ne =
      ground (arith, ==_iff l.profile_id p.id, ==_iff l.profile_id id, filter-others id links ne)

  default_channels_for-upsert :
      (db' : Db) (id : Text)
      → upsert now p db ≡ some db'
      → id ≢ p.id
      → default_channels_for db' id ≡ default_channels_for db id
  unfolding default_channels_for
  default_channels_for-upsert db' id h ne =
      let written = (upsert-some db' h).1 in
      ap
        (λ (ls : List ProfileChannel). sort text_le (map (λ (l : ProfileChannel). l.channel_id) ls))
        (filter-insert_links (stored now p db) p.id id p.default_channels (others p db)
            db'.profile_channels ne written
          ∙ filter-others id db.profile_channels ne)

  map-row_to_record :
      (db' : Db) (id : Text) (found : Option ProfileRow)
      → find_by profile_id id db.profiles ≡ found
      → upsert now p db ≡ some db'
      → id ≢ p.id
      → Option.map (row_to_record db') found ≡ Option.map (row_to_record db) found
  unfolding row_to_record find_by
  map-row_to_record db' id none e h ne = refl
  map-row_to_record db' id (some row) e h ne =
      let same : row.id ≡ id = (==_iff row.id id).0 (find_sound _ db.profiles row e).1 in
      let kept = default_channels_for-upsert db' id h ne in
      ground (arith, ap (default_channels_for db') same, ap (default_channels_for db) same)

  -- After a successful `upsert` every other id reads what it read before.
  pub get-upsert_ne :
      (db' : Db) (id : Text) → upsert now p db ≡ some db' → id ≢ p.id → get db' id ≡ get db id
  unfolding get
  get-upsert_ne db' id h ne =
      get-stored db' id h
      ∙ ground (
        arith,
        ==_iff p.id id,
        map-row_to_record db' id (find_by profile_id id db.profiles) refl h ne,
      )
