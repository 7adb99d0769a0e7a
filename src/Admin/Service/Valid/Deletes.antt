-- ===== src/Admin/Service/Valid/Deletes.antt =====
-- Deleting a channel or a profile of a valid configuration.
use mathlib.Core.Path.{subst}
use notify_hub.Base.{not, Text, ◌==◌, ==_iff, ◌≡◌, ◌≢◌, refl, sym, ◌∙◌, ◌↔◌, Mem, mem-filter, arith}
use notify_hub.Base.Table.{remove_by}
use notify_hub.Core.{ChannelInstance, ProfileRecord}
use notify_hub.Db.{Db, ProfileRow, ProfileChannel}
use notify_hub.Db.Channels
use notify_hub.Db.Channels.Laws.{mem-list, get-delete}
use notify_hub.Db.Profiles
use notify_hub.Db.Profiles.Rows.{mem-default_channels_for}
use notify_hub.Db.Profiles.Listing.{row_of-list, list-of_row}
use notify_hub.Db.Integrity.{IsConsistent, delete_channel-IsConsistent}
use notify_hub.Db.Integrity.Profiles.{delete_profile-IsConsistent}
use notify_hub.Admin.Validation.Spec.{IsEnabledRef}
use notify_hub.Admin.Service.{get_full_config}
use notify_hub.Admin.Service.Writing.{IsValid}
use notify_hub.Admin.Service.Valid.{AreRefsEnabled, get_full_config-IsValid}

-- A default channel of a listed profile, as a row of profile_channels.
pub link_of :
    (db : Db) (p : ProfileRecord) (row : ProfileRow) (ref : Text)
    → Profiles.row_to_record db row ≡ p
    → Mem ref p.default_channels
    → Mem {A = ProfileChannel}
        (record { profile_id = row.id; channel_id = ref })
        db.profile_channels
unfolding Profiles.row_to_record
link_of db p row ref same m =
    (mem-default_channels_for db row.id ref).0
      (subst (λ (q : ProfileRecord). Mem ref q.default_channels) (sym same) m)

pub ref_of :
    (db : Db) (row : ProfileRow) (ref : Text)
    → Mem {A = ProfileChannel}
        (record { profile_id = row.id; channel_id = ref })
        db.profile_channels
    → Mem ref (Profiles.row_to_record db row).default_channels
unfolding Profiles.row_to_record
ref_of db row ref m = (mem-default_channels_for db row.id ref).1 m

-- Where every row and link of `db'` is one of `db`, its default channels are default channels there.
abbrev pub IsPart : Db → Db → Type 0
IsPart db' db =
    ((row : ProfileRow) → Mem row db'.profiles → Mem row db.profiles)
    × ((l : ProfileChannel) → Mem l db'.profile_channels → Mem l db.profile_channels)

enabled_before :
    (db db' : Db)
    → IsPart db' db
    → AreRefsEnabled db
    → (p : ProfileRecord) → Mem p (Profiles.list db')
    → (ref : Text) → Mem ref p.default_channels
    → IsEnabledRef (Channels.list db) ref
      × ((pid : Text) × Mem {A = ProfileChannel}
            (record { profile_id = pid; channel_id = ref })
            db'.profile_channels)
enabled_before db db' (rows, links) refs p m ref r =
    let (row, there, same) = row_of-list db' p m in
    let link = link_of db' p row ref same r in
    (
      refs (Profiles.row_to_record db row) (list-of_row db row (rows row there)) ref
          (ref_of db row ref (links _ link)),
      (row.id, link),
    )

mem-list-delete :
    (id : Text) (db : Db) (c : ChannelInstance)
    → IsConsistent db
    → Mem c (Channels.list (Channels.delete id db)) ↔ (Mem c (Channels.list db) × (c.id ≢ id))
mem-list-delete id db c h =
    let after =
      mem-list (Channels.delete id db) c (delete_channel-IsConsistent id db h).channel_ids in
    let before = mem-list db c h.channel_ids in
    ground (arith, after, before, get-delete id db c.id, ==_iff id c.id)

pub delete_channel-IsPart : (id : Text) (db : Db) → IsPart (Channels.delete id db) db
unfolding Channels.delete
delete_channel-IsPart id db =
    (λ row m. m, λ l m. ((mem-filter (λ (l : ProfileChannel). not (l.channel_id == id)) l _).0 m).0)

pub delete_profile-IsPart : (id : Text) (db : Db) → IsPart (Profiles.delete id db) db
unfolding Profiles.delete remove_by
delete_profile-IsPart id db =
    (λ row m. ((mem-filter _ row db.profiles).0 m).0, λ l m. ((mem-filter _ l _).0 m).0)

unlinked :
    (id : Text) (db : Db) (l : ProfileChannel)
    → Mem l (Channels.delete id db).profile_channels
    → l.channel_id ≢ id
unfolding Channels.delete
unlinked id db l m =
    let (_, kept) =
      (mem-filter (λ (l : ProfileChannel). not (l.channel_id == id)) l db.profile_channels).0 m in
    ground (arith, ==_iff l.channel_id id)

pub delete_channel-IsValid :
    (id : Text) (db : Db)
    → IsConsistent db
    → IsValid (get_full_config db)
    → IsValid (get_full_config (Channels.delete id db))
delete_channel-IsValid id db h v =
    let (channels, refs) = (get_full_config-IsValid db h).1 v in
    (get_full_config-IsValid (Channels.delete id db) (delete_channel-IsConsistent id db h)).0 (
      λ c m. channels c ((mem-list-delete id db c h).0 m).0,
      λ p m ref r.
          let ((c, there, named, on), (pid, link)) =
            enabled_before db (Channels.delete id db) (delete_channel-IsPart id db) refs p m ref
              r in
          let other = unlinked id db _ link in
          (c, (mem-list-delete id db c h).1 (there, λ e. other (sym named ∙ e)), named, on),
    )

channels-delete_profile :
    (id : Text) (db : Db) → Channels.list (Profiles.delete id db) ≡ Channels.list db
unfolding Channels.list Profiles.delete
channels-delete_profile id db = refl

pub delete_profile-IsValid :
    (id : Text) (db : Db)
    → IsConsistent db
    → IsValid (get_full_config db)
    → IsValid (get_full_config (Profiles.delete id db))
delete_profile-IsValid id db h v =
    let (channels, refs) = (get_full_config-IsValid db h).1 v in
    let same = channels-delete_profile id db in
    (get_full_config-IsValid (Profiles.delete id db) (delete_profile-IsConsistent id db h)).0 (
      rw same channels,
      λ p m ref r.
          rw same
            (enabled_before db (Profiles.delete id db) (delete_profile-IsPart id db) refs p m ref
              r).0,
    )
