-- ===== src/Db/Channels.antt =====
-- src/db/sqlite-channel-repository.ts
pub mod Laws
use notify_hub.Base.{
  ℕ, Bool, Option, none, some, List, [], ◌∷◌, ◌++◌, map, filter, not, Text, ◌==◌, eqb, any,
  if◌then◌else◌,
}
use notify_hub.Base.Sort.{sort}
use notify_hub.Base.Table.{find_by, upsert_by, remove_by}
use notify_hub.Core.{ChannelInstance}
use notify_hub.Db.{Db, ChannelRow, ProfileChannel, created_before}
use mathlib.Core.Option

unfoldable pub row_to_instance : ChannelRow → ChannelInstance
row_to_instance row = record {
  id = row.id;
  label = row.label;
  type = row.type;
  enabled = eqb row.enabled 1;
  config = row.config;
}

unfoldable pub in_order : ChannelRow → ChannelRow → Bool
unfolding created_before
in_order a b = created_before a.created_at a.id b.created_at b.id

unfoldable pub list : Db → List ChannelInstance
unfolding row_to_instance in_order sort
list db = map row_to_instance (sort in_order db.channels)

unfoldable pub list_enabled : Db → List ChannelInstance
unfolding row_to_instance in_order sort
list_enabled db =
    map row_to_instance (sort in_order (filter (λ row. eqb row.enabled 1) db.channels))

unfoldable pub get : Db → Text → Option ChannelInstance
unfolding find_by row_to_instance
get db id = Option.map row_to_instance (find_by (λ row. row.id) id db.channels)

unfoldable pub to_row : ℕ → ChannelInstance → ChannelRow
to_row created_at channel = record {
  id = channel.id;
  label = channel.label;
  type = channel.type;
  enabled = if channel.enabled then 1 else 0;
  config = channel.config;
  created_at = created_at;
}

-- ON CONFLICT(id) DO UPDATE: every column but `created_at` is the excluded row's; its id is the
-- row's own.
unfoldable pub on_conflict : ChannelRow → ChannelRow → ChannelRow
on_conflict excluded row = record excluded { created_at = row.created_at }

-- `now` is the time that `new Date()` reads.
unfoldable pub upsert : ℕ → ChannelInstance → Db → Db
unfolding upsert_by on_conflict to_row
upsert now channel db = record db {
  channels = upsert_by (λ row. row.id) on_conflict (to_row now channel) db.channels;
}

-- The foreign key deletes the channel's rows of `profile_channels` too.
unfoldable pub delete : Text → Db → Db
unfolding remove_by
delete id db = record db {
  channels = remove_by (λ row. row.id) id db.channels;
  profile_channels = filter (λ link. not (link.channel_id == id)) db.profile_channels;
}
