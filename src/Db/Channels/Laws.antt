-- ===== src/Db/Channels/Laws.antt =====
-- The channel table as a dictionary from ids to instances.
use mathlib.Core.Option
use notify_hub.Base.{
  ℕ, true, Option, none, some, filter, Text, ◌==◌, eqb, if◌then◌else◌, ◌≡◌, refl, ◌↔◌, Mem, Nodup,
  mem-map, exists_of_mem-map, mem-filter, ==_iff, arith, Bool,
}
use notify_hub.Base.Sort.{mem-sort}
use notify_hub.Base.Table.{
  find_by, find_by-mem, find_by-upsert_by, find_by-remove_by, find_sound, keys, merged,
}
use notify_hub.Core.{ChannelInstance}
use notify_hub.Db.{Db, ChannelRow}
use notify_hub.Db.Channels.{
  row_to_instance, in_order, list, list_enabled, get, to_row, on_conflict, upsert, delete,
}

instance-merged :
    (now : ℕ) (c : ChannelInstance) (old : Option ChannelRow)
    → row_to_instance (merged (λ row. row.id) on_conflict (to_row now c) old) ≡ c
unfolding row_to_instance to_row merged on_conflict
instance-merged now c none = ground arith
instance-merged now c (some row) = ground arith

-- After `upsert` the instance's own id reads it back, whatever was there, and every other id reads
-- what it read before.
pub get-upsert :
    (now : ℕ) (c : ChannelInstance) (db : Db) (id : Text)
    → get (upsert now c db) id ≡ (if c.id == id then some c else get db id)
unfolding get upsert
get-upsert now c db id =
    rw
      (find_by-upsert_by (λ (row : ChannelRow). row.id) on_conflict (to_row now c)
        (λ _. unfold on_conflict in refl) id db.channels)
      (ground
        (arith, instance-merged now c (find_by (λ (row : ChannelRow). row.id) c.id db.channels)))

-- After `delete` the id reads nothing, and every other id reads what it read before.
pub get-delete :
    (id : Text) (db : Db) (j : Text) → get (delete id db) j ≡ (if id == j then none else get db j)
unfolding get delete
get-delete id db j =
    rw (find_by-remove_by (λ (row : ChannelRow). row.id) id j db.channels) (ground arith)

module _ (db : Db) (c : ChannelInstance)
    (unique : Nodup (keys (λ (row : ChannelRow). row.id) db.channels)) where
  row_of :
      get db c.id ≡ some c → (row : ChannelRow) × Mem row db.channels × (row_to_instance row ≡ c)
  unfolding get find_by
  row_of e =
      let (row, found, same) = (Option.map-eq-some_iff row_to_instance _).0 e in
      (row, (find_sound _ db.channels row found).0, same)

  get-of_mem :
      (row : ChannelRow) → Mem row db.channels → row_to_instance row ≡ c → get db c.id ≡ some c
  unfolding get
  get-of_mem row m e = rw (← e) (
      unfold row_to_instance in
      rw (find_by-mem (λ (r : ChannelRow). r.id) db.channels row unique m))

  -- Where ids are unique, `list` holds exactly the instances that `get` finds.
  pub mem-list : Mem c (list db) ↔ (get db c.id ≡ some c)
  unfolding list
  mem-list = (
    λ m.
        let (row, there, e) = exists_of_mem-map row_to_instance c _ m in
        get-of_mem row ((mem-sort in_order row db.channels).0 there) e,
    λ e.
        let (row, there, same) = row_of e in
        rw (← same) (mem-map row_to_instance row _ ((mem-sort in_order row db.channels).1 there)),
  )

  -- Where ids are unique, `listEnabled` holds exactly the enabled instances that `get` finds.
  pub mem-list_enabled : Mem c (list_enabled db) ↔ ((get db c.id ≡ some c) × (c.enabled ≡ true))
  unfolding list_enabled row_to_instance
  mem-list_enabled = (
    λ m.
        let (row, there, e) = exists_of_mem-map row_to_instance c _ m in
        let (kept, on) = (mem-filter is_on row _).0 ((mem-sort in_order row _).0 there) in
        (get-of_mem row kept e, rw (← e) on),
    λ (e, on).
        let (row, there, same) = row_of e in
        let kept = (mem-filter is_on row db.channels).1 (there, rw (← same) at on) in
        rw (← same) (
          mem-map row_to_instance row _
            ((mem-sort in_order row (filter is_on db.channels)).1 kept)),
  )
    where
      is_on : ChannelRow → Bool
      is_on row = eqb row.enabled 1

-- What `get` finds has the id that was asked for.
pub get-id : (db : Db) (id : Text) (c : ChannelInstance) → get db id ≡ some c → c.id ≡ id
unfolding get find_by row_to_instance
get-id db id c e =
    let (row, found, same) = (Option.map-eq-some_iff row_to_instance _).0 e in
    let (_, matches) = find_sound _ db.channels row found in
    rw (← same) ((==_iff row.id id).0 matches)
