-- ===== src/Admin/Service/Valid/Writes.antt =====
-- Writing a profile to a valid configuration.
use mathlib.Core.Path.{subst}
use notify_hub.Base.{
  ℕ, some, Text, ◌==◌, ==_iff, ◌≡◌, ◌≢◌, sym, ap, ◌∙◌, inl, inr, Mem, All-mem, arith, Bool-cases,
}
use notify_hub.Core.{ProfileRecord}
use notify_hub.Db.{Db}
use notify_hub.Db.Channels
use notify_hub.Db.Profiles
use notify_hub.Db.Profiles.Laws.{upsert-some, get-upsert_self, get-upsert_ne}
use notify_hub.Db.Profiles.Listing.{mem-list}
use notify_hub.Db.Integrity.{IsConsistent}
use notify_hub.Db.Integrity.Profiles.{upsert_profile-IsConsistent}
use notify_hub.Admin.Service.{get_full_config, with_profile}
use notify_hub.Admin.Service.Upserted.{mem-upserted_by_id_self}
use notify_hub.Admin.Service.Writing.{IsValid}
use notify_hub.Admin.Service.Valid.{get_full_config-IsValid}

channels-upsert_profile :
    (now : ℕ) (p : ProfileRecord) (db db' : Db)
    → Profiles.upsert now p db ≡ some db'
    → Channels.list db' ≡ Channels.list db
unfolding Channels.list
channels-upsert_profile now p db db' e =
    let shape = (upsert-some now p db db' e).2 in ap Channels.list shape

-- What the profile's default channels are after the write: some of those that it asked for.
pub refs-upsert_self :
    (now : ℕ) (p : ProfileRecord) (db db' : Db) (q : ProfileRecord)
    → IsConsistent db'
    → Profiles.upsert now p db ≡ some db'
    → Mem q (Profiles.list db')
    → q.id ≡ p.id
    → (ref : Text) → Mem ref q.default_channels
    → Mem ref p.default_channels
refs-upsert_self now p db db' q h' e m same ref r =
    let (stored, found, _, _, _, refs) = get-upsert_self now p db db' e in
    let found_q : Profiles.get db' p.id ≡ some q =
      subst (λ i. Profiles.get db' i ≡ some q) same ((mem-list db' q h').0 m) in
    let is_it : stored ≡ q = ground (arith, found, found_q) in
    ((refs ref).0 (subst (λ (s : ProfileRecord). Mem ref s.default_channels) (sym is_it) r)).0

pub upsert_profile-IsValid :
    (now : ℕ) (p : ProfileRecord) (db db' : Db)
    → IsConsistent db
    → IsValid (get_full_config db)
    → IsValid (with_profile db p)
    → Profiles.upsert now p db ≡ some db'
    → IsValid (get_full_config db')
unfolding get_full_config
upsert_profile-IsValid now p db db' h v candidate e =
    let h' = upsert_profile-IsConsistent now p db db' e h in
    let (channels, refs) = (get_full_config-IsValid db h).1 v in
    let same = channels-upsert_profile now p db db' e in
    let own = mem-upserted_by_id_self (λ (q : ProfileRecord). q.id) (Profiles.list db) p in
    (get_full_config-IsValid db' h').0 (
      rw same channels,
      λ q m ref r. rw same (elim (Bool-cases (q.id == p.id)) [
        | inl is_p ↦
            All-mem _ _ (All-mem _ _ candidate.refs own)
              (refs-upsert_self now p db db' q h' e m ((==_iff q.id p.id).0 is_p) ref r)
        | inr other ↦
            let ne : q.id ≢ p.id = λ k. ground (arith, ==_iff q.id p.id) in
            refs q
              ((mem-list db q h).1
                (sym (get-upsert_ne now p db db' q.id e ne) ∙ (mem-list db' q h').0 m))
              ref r
      ]),
    )
