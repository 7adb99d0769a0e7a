-- ===== src/Db/Profiles.antt =====
-- src/db/sqlite-profile-repository.ts. A statement that breaks a constraint throws, and the
-- transaction around it leaves the tables as they were.
pub mod Links
pub mod Rows
pub mod Laws
pub mod Listing
use notify_hub.Base.{
  ℕ, Bool, true, false, Option, none, some, List, [], ◌∷◌, ◌++◌, map, filter, not, ◌&&◌, ◌||◌, Text,
  ◌==◌, any, is_empty, if◌then◌else◌,
}
use notify_hub.Base.Sort.{sort, text_le}
use notify_hub.Base.Table.{find, find_by, upsert_by, remove_by}
use notify_hub.Core.{ProfileRecord}
use notify_hub.Db.{Db, ChannelRow, ProfileRow, ProfileChannel, created_before}
use mathlib.Core.Option

unfoldable pub default_channels_for : Db → Text → List Text
unfolding sort text_le
default_channels_for db profile_id = sort text_le (
    map (λ link. link.channel_id)
      (filter (λ link. link.profile_id == profile_id) db.profile_channels))

unfoldable pub row_to_record : Db → ProfileRow → ProfileRecord
unfolding default_channels_for
row_to_record db row = record {
  id = row.id;
  name = row.name;
  token = row.token;
  default_channels = default_channels_for db row.id;
}

unfoldable pub in_order : ProfileRow → ProfileRow → Bool
unfolding created_before
in_order a b = created_before a.created_at a.id b.created_at b.id

unfoldable pub list : Db → List ProfileRecord
unfolding row_to_record in_order sort
list db = map (row_to_record db) (sort in_order db.profiles)

unfoldable pub get : Db → Text → Option ProfileRecord
unfolding find_by row_to_record
get db id = Option.map (row_to_record db) (find_by (λ row. row.id) id db.profiles)

-- `undefined` and the empty token resolve to nothing.
unfoldable pub resolve_by_token : Db → Option Text → Option ProfileRecord
unfolding find row_to_record
resolve_by_token db none = none
resolve_by_token db (some token) =
    if is_empty token
    then none
    else Option.map (row_to_record db) (find (λ row. row.token == token) db.profiles)

-- UNIQUE(token): some row of another profile has this token.
unfoldable pub token_taken : Text → Text → List ProfileRow → Bool
token_taken id token rows = any (λ row. not (row.id == id) && row.token == token) rows

-- ON CONFLICT(id) DO UPDATE: every column but `created_at` is the excluded row's; its id is the
-- row's own.
unfoldable pub on_conflict : ProfileRow → ProfileRow → ProfileRow
on_conflict excluded row = record excluded { created_at = row.created_at }

unfoldable pub has_channel : Db → Text → Bool
has_channel db id = any (λ (row : ChannelRow). row.id == id) db.channels

unfoldable pub has_profile : Db → Text → Bool
has_profile db id = any (λ (row : ProfileRow). row.id == id) db.profiles

unfoldable pub has_link : Text → Text → List ProfileChannel → Bool
has_link profile_id channel_id links =
    any (λ link. link.profile_id == profile_id && link.channel_id == channel_id) links

-- One round of the loop of `replaceDefaultChannels`: a channel that does not exist is passed over,
-- and a row that is there already is ignored.
unfoldable pub insert_link : Db → Text → Text → List ProfileChannel → List ProfileChannel
unfolding has_channel has_link
insert_link db profile_id channel_id links =
    let link : ProfileChannel = record { profile_id = profile_id; channel_id = channel_id } in
    if not (has_channel db channel_id) || has_link profile_id channel_id links
    then links
    else links ++ link ∷ []

-- A row for a profile that does not exist breaks the foreign key (`none`).
unfoldable pub insert_links :
    Db → Text → List Text → List ProfileChannel → Option (List ProfileChannel)
unfolding insert_link has_profile
insert_links db profile_id [] links = some links
insert_links db profile_id (channel_id ∷ ids) links =
    let rest = insert_links db profile_id ids (insert_link db profile_id channel_id links) in
    if has_channel db channel_id && not (has_profile db profile_id) then none else rest

unfoldable pub replace_default_channels : Text → List Text → Db → Option Db
unfolding insert_links
replace_default_channels profile_id channel_ids db =
    Option.map (λ links. record db { profile_channels = links })
      (insert_links db profile_id channel_ids
        (filter (λ link. not (link.profile_id == profile_id)) db.profile_channels))

unfoldable pub set_default_channels : Text → List Text → Db → Option Db
unfolding replace_default_channels
set_default_channels profile_id channel_ids db = replace_default_channels profile_id channel_ids db

unfoldable pub to_row : ℕ → ProfileRecord → ProfileRow
to_row created_at profile = record {
  id = profile.id;
  name = profile.name;
  token = profile.token;
  created_at = created_at;
}

-- `none`: the token belongs to another profile, and the transaction is rolled back.
unfoldable pub upsert : ℕ → ProfileRecord → Db → Option Db
unfolding token_taken upsert_by on_conflict to_row replace_default_channels
upsert now profile db =
    if token_taken profile.id profile.token db.profiles
    then none
    else replace_default_channels profile.id profile.default_channels (record db {
      profiles = upsert_by (λ row. row.id) on_conflict (to_row now profile) db.profiles;
    })

unfoldable pub delete : Text → Db → Db
unfolding remove_by
delete id db = record db {
  profiles = remove_by (λ row. row.id) id db.profiles;
  profile_channels = filter (λ link. not (link.profile_id == id)) db.profile_channels;
}
