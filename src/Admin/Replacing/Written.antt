-- ===== src/Admin/Replacing/Written.antt =====
-- The profile table after the loops of `PUT /api/config`: src/admin/routes/config-routes.ts
use notify_hub.Base.{
  ℕ, some, List, [], ◌∷◌, map, not, Text, ◌==◌, ==_iff, ◌≡◌, ◌≢◌, refl, sym, ◌∙◌, ◌⊎◌, inl, inr,
  Mem, mem-filter, arith, Bool-cases, Option-cases,
}
use notify_hub.Base.Table.{remove_by}
use notify_hub.Core.{ChannelInstance, ProfileRecord}
use notify_hub.Db.{Db, ProfileRow}
use notify_hub.Db.Channels
use notify_hub.Db.Profiles
use notify_hub.Db.Profiles.Laws.{get-upsert_ne}
use notify_hub.Db.Profiles.Listing.{mem-list}
use notify_hub.Db.Integrity.{IsConsistent, upsert_channel-IsConsistent, delete_channel-IsConsistent}
use notify_hub.Db.Integrity.Profiles.{upsert_profile-IsConsistent, delete_profile-IsConsistent}
use notify_hub.Admin.Service.Writing.{profiles-upsert_channel}
use notify_hub.Admin.Service.Valid.Deletes.{IsPart, delete_channel-IsPart, delete_profile-IsPart}
use notify_hub.Admin.Service.Valid.Writes.{refs-upsert_self}
use notify_hub.Admin.Replacing.{upsert_channels, upsert_profiles, delete_profiles, delete_channels}

pub upsert_channels-IsConsistent :
    (time : Text → ℕ) (channels : List ChannelInstance) (db : Db)
    → IsConsistent db
    → IsConsistent (upsert_channels time channels db)
unfolding upsert_channels
upsert_channels-IsConsistent time [] db h = h
upsert_channels-IsConsistent time (c ∷ channels) db h =
    upsert_channels-IsConsistent time channels (Channels.upsert (time c.id) c db)
      (upsert_channel-IsConsistent (time c.id) c db h)

pub profiles-upsert_channels :
    (time : Text → ℕ) (channels : List ChannelInstance) (db : Db)
    → Profiles.list (upsert_channels time channels db) ≡ Profiles.list db
unfolding upsert_channels
profiles-upsert_channels time [] db = refl
profiles-upsert_channels time (c ∷ channels) db =
    profiles-upsert_channels time channels (Channels.upsert (time c.id) c db)
    ∙ profiles-upsert_channel (time c.id) c db

pub delete_profiles-IsConsistent :
    (ids : List Text) (db : Db) → IsConsistent db → IsConsistent (delete_profiles ids db)
unfolding delete_profiles
delete_profiles-IsConsistent [] db h = h
delete_profiles-IsConsistent (id ∷ ids) db h =
    delete_profiles-IsConsistent ids (Profiles.delete id db) (delete_profile-IsConsistent id db h)

pub delete_channels-IsConsistent :
    (ids : List Text) (db : Db) → IsConsistent db → IsConsistent (delete_channels ids db)
unfolding delete_channels
delete_channels-IsConsistent [] db h = h
delete_channels-IsConsistent (id ∷ ids) db h =
    delete_channels-IsConsistent ids (Channels.delete id db) (delete_channel-IsConsistent id db h)

IsPart-trans : (a b c : Db) → IsPart a b → IsPart b c → IsPart a c
IsPart-trans a b c (rows, links) (rows', links') =
    (λ row m. rows' row (rows row m), λ l m. links' l (links l m))

pub delete_channels-IsPart : (ids : List Text) (db : Db) → IsPart (delete_channels ids db) db
unfolding delete_channels
delete_channels-IsPart [] db = (λ row m. m, λ l m. m)
delete_channels-IsPart (id ∷ ids) db =
    IsPart-trans (delete_channels ids (Channels.delete id db)) (Channels.delete id db) db
      (delete_channels-IsPart ids (Channels.delete id db)) (delete_channel-IsPart id db)

pub delete_profiles-IsPart : (ids : List Text) (db : Db) → IsPart (delete_profiles ids db) db
unfolding delete_profiles
delete_profiles-IsPart [] db = (λ row m. m, λ l m. m)
delete_profiles-IsPart (id ∷ ids) db =
    IsPart-trans (delete_profiles ids (Profiles.delete id db)) (Profiles.delete id db) db
      (delete_profiles-IsPart ids (Profiles.delete id db)) (delete_profile-IsPart id db)

id-delete :
    (id : Text) (db : Db) (row : ProfileRow)
    → Mem row (Profiles.delete id db).profiles
    → row.id ≢ id
unfolding Profiles.delete remove_by
id-delete id db row m =
    let kept = (mem-filter (λ (r : ProfileRow). not (r.id == id)) row db.profiles).0 m in
    ground (arith, kept, ==_iff row.id id)

-- No row with one of the ids is left.
pub id-delete_profiles :
    (ids : List Text) (db : Db) (row : ProfileRow)
    → Mem row (delete_profiles ids db).profiles
    → ¬ Mem row.id ids
unfolding delete_profiles
id-delete_profiles [] db row m k = k
id-delete_profiles (id ∷ ids) db row m (inl e) =
    id-delete id db row ((delete_profiles-IsPart ids (Profiles.delete id db)).0 row m) e
id-delete_profiles (id ∷ ids) db row m (inr k) =
    id-delete_profiles ids (Profiles.delete id db) row m k

-- A profile of the list after the loop has the default channels of a profile of the payload, or it
-- was there before and the payload lacks its id.
abbrev pub IsWritten : List ProfileRecord → Db → ProfileRecord → Type 0
IsWritten profiles before q =
    ((p : ProfileRecord) × Mem p profiles
      × ((ref : Text) → Mem ref q.default_channels → Mem ref p.default_channels))
    ⊎ (Mem q (Profiles.list before) × (¬ Mem q.id (map (λ (p : ProfileRecord). p.id) profiles)))

step-IsWritten :
    (now : ℕ) (p : ProfileRecord) (profiles : List ProfileRecord) (db db' : Db) (q : ProfileRecord)
    → IsConsistent db
    → IsConsistent db'
    → Profiles.upsert now p db ≡ some db'
    → IsWritten profiles db' q
    → IsWritten (p ∷ profiles) db q
step-IsWritten now p profiles db db' q h h' e (inl (r, m, refs)) = inl (r, inr m, refs)
step-IsWritten now p profiles db db' q h h' e (inr (m, fresh)) = elim (Bool-cases (q.id == p.id)) [
  | inl same ↦ inl (p, inl refl, refs-upsert_self now p db db' q h' e m ((==_iff q.id p.id).0 same))
  | inr other ↦
      let ne : q.id ≢ p.id = λ k. ground (arith, ==_iff q.id p.id) in
      inr (
        (mem-list db q h).1 (sym (get-upsert_ne now p db db' q.id e ne) ∙ (mem-list db' q h').0 m),
        λ k. elim k [ inl same ↦ ne same | inr there ↦ fresh there ],
      )
]

pub upsert_profiles-IsWritten :
    (time : Text → ℕ) (profiles : List ProfileRecord) (db : Db)
    → IsConsistent db
    → (upsert_profiles time profiles db).0 ≡ some tt
    → let after = (upsert_profiles time profiles db).1 in
      IsConsistent after
      × ((q : ProfileRecord) → Mem q (Profiles.list after) → IsWritten profiles db q)
unfolding upsert_profiles
upsert_profiles-IsWritten time [] db h e = (h, λ q m. inr (m, λ k. k))
upsert_profiles-IsWritten time (p ∷ profiles) db h e =
    elim (Option-cases (Profiles.upsert (time p.id) p db)) [
      | inl refused ↦ absurd (cc (rw (refused, upsert_profiles) at e))
      | inr (db', written) ↦
          rw (written, upsert_profiles)
            (let h' = upsert_profile-IsConsistent (time p.id) p db db' written h in
              let (last, all) =
                upsert_profiles-IsWritten time profiles db' h'
                  (rw (written, upsert_profiles) at e) in
              (last, λ q m. step-IsWritten (time p.id) p profiles db db' q h h' written (all q m)))
    ]
