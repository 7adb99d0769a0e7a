-- ===== src/Db/Profiles/Listing.antt =====
-- The list of profiles and the lookup by id: src/db/sqlite-profile-repository.ts
use mathlib.Core.Option
use mathlib.Core.Path.{subst}
use notify_hub.Base.{
  some, List, [], ◌∷◌, map, Text, ◌≡◌, refl, sym, ap, ◌∙◌, ◌↔◌, Mem, Nodup, mem-map,
  exists_of_mem-map,
}
use notify_hub.Base.Sort.{sort, mem-sort}
use notify_hub.Base.Table.{find_by, find_by-mem, find_sound}
use notify_hub.Core.{ProfileRecord}
use notify_hub.Db.{Db, ProfileRow}
use notify_hub.Db.Integrity.{IsConsistent, profile_key, token}
use notify_hub.Db.Profiles.{row_to_record, in_order, list, get}
use notify_hub.Admin.Service.Upserted.{Nodup-map-sort}

-- The row behind a listed profile.
pub row_of-list :
    (db : Db) (p : ProfileRecord)
    → Mem p (list db)
    → (row : ProfileRow) × Mem row db.profiles × (row_to_record db row ≡ p)
unfolding list
row_of-list db p m =
    let (row, listed, same) = exists_of_mem-map (row_to_record db) p _ m in
    (row, (mem-sort in_order row db.profiles).0 listed, same)

pub list-of_row :
    (db : Db) (row : ProfileRow) → Mem row db.profiles → Mem (row_to_record db row) (list db)
unfolding list
list-of_row db row m = mem-map (row_to_record db) row _ ((mem-sort in_order row db.profiles).1 m)

get-of_row :
    (db : Db) (row : ProfileRow)
    → Nodup (map profile_key db.profiles)
    → Mem row db.profiles
    → get db row.id ≡ some (row_to_record db row)
unfolding get
get-of_row db row h m =
    ap (Option.map (row_to_record db)) (find_by-mem profile_key db.profiles row h m)

row_of-get :
    (db : Db) (id : Text) (p : ProfileRecord)
    → get db id ≡ some p
    → (row : ProfileRow) × Mem row db.profiles × (row_to_record db row ≡ p)
unfolding get find_by
row_of-get db id p e =
    let (row, found, same) = (Option.map-eq-some_iff (row_to_record db) _).0 e in
    (row, (find_sound _ db.profiles row found).0, same)

-- Where ids are unique, the list holds exactly the profiles that `get` finds under their ids.
pub mem-list :
    (db : Db) (p : ProfileRecord) → IsConsistent db → Mem p (list db) ↔ (get db p.id ≡ some p)
mem-list db p h = (
  λ m.
      let (row, there, same) = row_of-list db p m in
      let id : row.id ≡ p.id = unfold row_to_record in ap (λ (r : ProfileRecord). r.id) same in
      subst (λ i. get db i ≡ some p) id (get-of_row db row h.profile_ids there ∙ ap some same),
  λ e.
      let (row, there, same) = row_of-get db p.id p e in
      subst (λ r. Mem r (list db)) same (list-of_row db row there),
)

map-token-row_to_record :
    (db : Db) (rows : List ProfileRow)
    → map (λ (p : ProfileRecord). p.token) (map (row_to_record db) rows) ≡ map token rows
unfolding row_to_record
map-token-row_to_record db [] = refl
map-token-row_to_record db (row ∷ rows) =
    ap (λ ts. row.token ∷ ts) (map-token-row_to_record db rows)

pub Nodup-token-list :
    (db : Db) → IsConsistent db → Nodup (map (λ (p : ProfileRecord). p.token) (list db))
unfolding list
Nodup-token-list db h =
    subst Nodup (sym (map-token-row_to_record db (sort in_order db.profiles)))
      (Nodup-map-sort token in_order db.profiles h.tokens)
