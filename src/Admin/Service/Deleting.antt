-- ===== src/Admin/Service/Deleting.antt =====
-- Deleting a channel: src/admin/config-service.ts
use notify_hub.Base.{
  lit, ◌++◌, ◌⊎◌, Option-cases, none, false, some, List, [], ◌∷◌, map, filter, not, Text, ◌==◌,
  ==_iff, has, has_iff, ◌≡◌, refl, inl, inr, All, All-of_mem, mem-filter, exists_of_mem-map, arith,
  Bool-cases,
}
use notify_hub.Base.Sort.{sort, mem-sort, text_le}
use notify_hub.Core.{ChannelInstance, ProfileRecord}
use notify_hub.Db.{Db, ProfileChannel}
use notify_hub.Db.Channels
use notify_hub.Db.Profiles
use notify_hub.Admin.Service.{
  prune, delete_found, delete_found_profile, delete_channel_entity, delete_profile_entity, done,
  refused,
}

-- After a channel is deleted no profile of the list has it among its default channels: the foreign
-- key has taken the links away.
has-deleted :
    (id : Text) (db : Db) (pid : Text)
    → has (Profiles.default_channels_for (Channels.delete id db) pid) id ≡ false
unfolding Profiles.default_channels_for Channels.delete
has-deleted id db pid =
    elim (Bool-cases (has (Profiles.default_channels_for (Channels.delete id db) pid) id)) [
      | inr clean ↦ clean
      | inl dirty ↦
          let left =
            filter (λ (l : ProfileChannel). not (l.channel_id == id)) db.profile_channels in
          let own = filter (λ (l : ProfileChannel). l.profile_id == pid) left in
          let ids = map (λ (l : ProfileChannel). l.channel_id) own in
          let m = (mem-sort text_le id ids).0 ((has_iff (sort text_le ids) id).0 dirty) in
          let (l, there, e) = exists_of_mem-map (λ (l : ProfileChannel). l.channel_id) id own m in
          let kept =
            ((mem-filter (λ (l : ProfileChannel). l.profile_id == pid) l left).0 there).0 in
          let other =
            ((mem-filter (λ (l : ProfileChannel). not (l.channel_id == id)) l db.profile_channels).0
              kept).1 in
          absurd (ground (arith, ==_iff l.channel_id id))
    ]

prune-idle :
    (id : Text) (db : Db) (profiles : List ProfileRecord)
    → All (λ p. has p.default_channels id ≡ false) profiles
    → prune id profiles db ≡ (some (done tt), db)
unfolding prune
prune-idle id db [] h = refl
prune-idle id db (p ∷ profiles) h = rw (h.0, prune) (prune-idle id db profiles h.1)

list-clean :
    (id : Text) (db : Db)
    → All
        (λ (p : ProfileRecord). has p.default_channels id ≡ false)
        (Profiles.list (Channels.delete id db))
unfolding Profiles.list
list-clean id db = All-of_mem _ _ (λ p m.
    let (row, there, e) =
      exists_of_mem-map (Profiles.row_to_record (Channels.delete id db)) p _ m in
    rw (← e) (unfold Profiles.row_to_record in has-deleted id db row.id))

-- Deleting a channel that exists is exactly the delete of its row, with the links that the foreign
-- key deletes: the loop over the profiles finds nothing left to prune, and nothing is thrown.
pub delete_channel_entity_lem :
    (id : Text) (db : Db) (c : ChannelInstance)
    → Channels.get db id ≡ some c
    → delete_channel_entity id db ≡ (some (done tt), Channels.delete id db)
unfolding delete_channel_entity delete_found
delete_channel_entity_lem id db c e =
    rw e (prune-idle id (Channels.delete id db) _ (list-clean id db))

-- A channel that does not exist is an error, and the tables are as they were.
pub delete_channel_entity-missing :
    (id : Text) (db : Db)
    → Channels.get db id ≡ none
    → (error : Text) × (delete_channel_entity id db ≡ (some (refused error), db))
unfolding delete_channel_entity delete_found
delete_channel_entity-missing id db e = rw e (_, refl)

-- A profile that exists is deleted; another id is an error, and the tables are as they were.
pub delete_profile_entity_lem :
    (id : Text) (db : Db)
    → (delete_profile_entity id db ≡ (done tt, Profiles.delete id db))
      ⊎ ((error : Text) × (delete_profile_entity id db ≡ (refused error, db)))
unfolding delete_profile_entity delete_found_profile
delete_profile_entity_lem id db = elim (Option-cases (Profiles.get db id)) [
  | inl missing ↦ inr (lit "unknown profile \"" ++ (id ++ lit "\""), rw missing refl)
  | inr (p, found) ↦ inl (rw found refl)
]
