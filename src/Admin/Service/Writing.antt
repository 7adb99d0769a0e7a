-- ===== src/Admin/Service/Writing.antt =====
-- Writing one channel or profile: src/admin/config-service.ts
use mathlib.Core.Path.{subst}
use mathlib.Core.Option.{some-injective}
use notify_hub.Base.{
  ℕ, Bool, true, some, List, [], ◌∷◌, map, Text, ◌==◌, ==_iff, any, ◌≡◌, ◌≢◌, refl, sym, ap, ◌∙◌,
  ◌↔◌, ◌⊎◌, inl, inr, All-of_mem, All-mem, Mem, Nodup, mem-map, arith, Bool-cases, Option-cases,
}
use notify_hub.Base.Sort.{sort, mem-sort}
use notify_hub.Core.{ChannelInstance, ProfileRecord}
use notify_hub.Db.{Db, ChannelRow}
use notify_hub.Db.Channels
use notify_hub.Db.Channels.Laws.{mem-list, get-upsert}
use notify_hub.Db.Profiles
use notify_hub.Db.Profiles.Laws.{upsert-none_iff}
use notify_hub.Db.Integrity.{IsConsistent, upsert_channel-IsConsistent, channel_key}
use notify_hub.Channels.Registry.{required_config_by_channel}
use notify_hub.Admin.Validation.{ConfigPayload, validate_config_payload}
use notify_hub.Admin.Validation.Spec.{IsValidConfig}
use notify_hub.Admin.Validation.Decision.{validate_config_payload_iff, ConfigValidation-cases}
use notify_hub.Admin.Service.{
  done, refused, get_full_config, upserted_by_id, with_channel, with_profile, write_channel,
  write_profile, stored_profile, upsert_channel_entity, upsert_profile_entity,
}
use notify_hub.Admin.Service.Upserted.{
  mem-upserted_by_id, mem-upserted_by_id_self, mem-upserted_by_id_other, Nodup-map-injective,
  Nodup-map-sort,
}

abbrev pub IsValid : ConfigPayload → Type 0
IsValid payload = IsValidConfig required_config_by_channel payload

-- A channel is written exactly when the state with it would be valid; otherwise the result is an
-- error, and the tables are as they were.
pub upsert_channel_entity_lem :
    (now : ℕ) (c : ChannelInstance) (db : Db)
    → (IsValid (with_channel db c)
        × (upsert_channel_entity now c db ≡ (done c, Channels.upsert now c db)))
      ⊎ ((¬ IsValid (with_channel db c))
          × ((error : Text) × (upsert_channel_entity now c db ≡ (refused error, db))))
unfolding upsert_channel_entity write_channel
upsert_channel_entity_lem now c db =
    let decides = validate_config_payload_iff (with_channel db c) required_config_by_channel in
    elim (ConfigValidation-cases
      (validate_config_payload (with_channel db c) required_config_by_channel)) [
        | inl fine ↦ inl (decides.0 fine, rw fine refl)
        | inr (message, wrong) ↦
            inr ((λ h. absurd (cc (decides.1 h, wrong))), (message, rw wrong refl))
      ]

map-row_to_instance :
    (rows : List ChannelRow)
    → map (λ (c : ChannelInstance). c.id) (map Channels.row_to_instance rows) ≡ map channel_key rows
unfolding Channels.row_to_instance
map-row_to_instance [] = refl
map-row_to_instance (row ∷ rows) = ap (λ ids. row.id ∷ ids) (map-row_to_instance rows)

pub Nodup-list :
    (db : Db) → IsConsistent db → Nodup (map (λ (c : ChannelInstance). c.id) (Channels.list db))
unfolding Channels.list
Nodup-list db h =
    subst Nodup (sym (map-row_to_instance (sort Channels.in_order db.channels)))
      (Nodup-map-sort channel_key Channels.in_order db.channels h.channel_ids)

-- The channels of the list after a write are those of the list that was validated.
pub mem-list-upsert :
    (now : ℕ) (c : ChannelInstance) (db : Db) (x : ChannelInstance)
    → IsConsistent db
    → Mem x (Channels.list (Channels.upsert now c db))
      ↔ Mem x (upserted_by_id (λ (d : ChannelInstance). d.id) (Channels.list db) c)
mem-list-upsert now c db x h =
    let h' = upsert_channel-IsConsistent now c db h in
    let after = mem-list (Channels.upsert now c db) x h'.channel_ids in
    let before = mem-list db x h.channel_ids in
    let reads = get-upsert now c db x.id in
    (
      λ m. elim (Bool-cases (c.id == x.id)) [
        | inl same ↦
            let e : some c ≡ some x = sym (rw same at reads) ∙ after.0 m in
            subst (λ y. Mem y (upserted_by_id (λ (d : ChannelInstance). d.id) (Channels.list db) c))
              (some-injective c x e) (mem-upserted_by_id_self _ _ c)
        | inr other ↦
            mem-upserted_by_id_other _ _ c x (before.1 (sym (rw other at reads) ∙ after.0 m))
              (λ e. ground (arith, ==_iff c.id x.id))
      ],
      λ m.
          elim (mem-upserted_by_id (λ (d : ChannelInstance). d.id) (Channels.list db) c x
            (Nodup-list db h) m) [
              | inl e ↦
                  after.1
                    (reads ∙ ground (arith, ap (λ (d : ChannelInstance). d.id) e, ==_iff c.id x.id))
              | inr (old, ne) ↦ after.1 (reads ∙ ground (arith, before.0 old, ==_iff c.id x.id))
            ],
    )

any-exists :
    {A : Type 0} (test : A → Bool) (xs : List A)
    → any test xs ≡ true
    → (x : A) × Mem x xs × (test x ≡ true)
any-exists test [] e = absurd (cc e)
any-exists test (x ∷ xs) e = elim (Bool-cases (test x)) [
  | inl t ↦ (x, inl refl, t)
  | inr f ↦ let (y, m, t) = any-exists test xs (rw f at e) in (y, inr m, t)
]

token-of_taken :
    (db : Db) (id token : Text)
    → Profiles.token_taken id token db.profiles ≡ true
    → (q : ProfileRecord) × Mem q (Profiles.list db) × (q.id ≢ id) × (q.token ≡ token)
unfolding Profiles.token_taken Profiles.list
token-of_taken db id token e =
    let (row, m, both) = any-exists _ db.profiles e in
    (
      Profiles.row_to_record db row,
      mem-map (Profiles.row_to_record db) row _ ((mem-sort Profiles.in_order row db.profiles).1 m),
      unfold Profiles.row_to_record in (λ k. ground (arith, ==_iff row.id id)),
      unfold Profiles.row_to_record in ground (arith, ==_iff row.token token),
    )

pub profiles-upsert_channel :
    (now : ℕ) (c : ChannelInstance) (db : Db)
    → Profiles.list (Channels.upsert now c db) ≡ Profiles.list db
unfolding Profiles.list Profiles.row_to_record Profiles.default_channels_for Channels.upsert
profiles-upsert_channel now c db = refl

pub stored_channel-IsValid :
    (now : ℕ) (c : ChannelInstance) (db : Db)
    → IsConsistent db
    → IsValid (with_channel db c)
    → IsValid (get_full_config (Channels.upsert now c db))
unfolding get_full_config
stored_channel-IsValid now c db h v =
    let same = profiles-upsert_channel now c db in
    record {
      ids = Nodup-list (Channels.upsert now c db) (upsert_channel-IsConsistent now c db h);
      channels =
          All-of_mem _ _ (λ x m. All-mem _ _ v.channels ((mem-list-upsert now c db x h).0 m));
      tokens = rw same v.tokens;
      refs = rw same (
          All-of_mem _ _ (λ p m. All-of_mem _ _ (λ ref r.
            let (d, there, named, on) = All-mem _ _ (All-mem _ _ v.refs m) r in
            (d, (mem-list-upsert now c db d h).1 there, named, on))));
    }

-- When a channel is written to consistent tables, the configuration that they then hold is valid.
pub upsert_channel_entity-IsValid :
    (now : ℕ) (c : ChannelInstance) (db : Db)
    → IsConsistent db
    → (upsert_channel_entity now c db).0 ≡ done c
    → IsValid (get_full_config (upsert_channel_entity now c db).1)
upsert_channel_entity-IsValid now c db h e = elim (upsert_channel_entity_lem now c db) [
  | inl (v, ran) ↦ rw ran (stored_channel-IsValid now c db h v)
  | inr (wrong, (error, ran)) ↦ absurd (cc (ran, e))
]

not-taken :
    (p : ProfileRecord) (db : Db)
    → IsValid (with_profile db p)
    → ¬ (Profiles.token_taken p.id p.token db.profiles ≡ true)
unfolding get_full_config
not-taken p db v e =
    let (q, m, ne, same) = token-of_taken db p.id p.token e in
    let list = upserted_by_id (λ (r : ProfileRecord). r.id) (Profiles.list db) p in
    let in_it =
      mem-upserted_by_id_other (λ (r : ProfileRecord). r.id) (Profiles.list db) p q m ne in
    let own = mem-upserted_by_id_self (λ (r : ProfileRecord). r.id) (Profiles.list db) p in
    ne (
      ap (λ (r : ProfileRecord). r.id)
        (Nodup-map-injective (λ (r : ProfileRecord). r.token) list q p v.tokens in_it own same))

-- A profile is written exactly when the state with it would be valid. With consistent tables the
-- statement that writes a valid one is never refused, so the operation throws in no case; otherwise
-- the result is an error, and the tables are as they were.
pub upsert_profile_entity_lem :
    (now : ℕ) (p : ProfileRecord) (db : Db)
    → IsConsistent db
    → (IsValid (with_profile db p)
        × ((db' : Db) × (Profiles.upsert now p db ≡ some db')
            × (upsert_profile_entity now p db ≡ (some (done p), db'))))
      ⊎ ((¬ IsValid (with_profile db p))
          × ((error : Text) × (upsert_profile_entity now p db ≡ (some (refused error), db))))
unfolding upsert_profile_entity write_profile stored_profile
upsert_profile_entity_lem now p db h =
    let decides = validate_config_payload_iff (with_profile db p) required_config_by_channel in
    elim (ConfigValidation-cases
      (validate_config_payload (with_profile db p) required_config_by_channel)) [
        | inl fine ↦ elim (Option-cases (Profiles.upsert now p db)) [
          | inl none' ↦
              absurd (not-taken p db (decides.0 fine) ((upsert-none_iff now p db).0 none'))
          | inr (db', written) ↦ inl (
            decides.0 fine,
            (db', written, rw (fine, write_profile) (rw (written, stored_profile) refl)),
          )
        ]
        | inr (message, wrong) ↦
            inr ((λ h. absurd (cc (decides.1 h, wrong))), (message, rw (wrong, write_profile) refl))
      ]
