-- ===== src/Admin/Replacing/Laws.antt =====
-- The channel table after `PUT /api/config`: src/admin/routes/config-routes.ts
use mathlib.Core.Path.{subst}
use mathlib.Core.Option
use notify_hub.Base.{
  ℕ, true, false, ◌&&◌, Option, none, some, List, [], ◌∷◌, map, not, Text, ==_iff, has, has_iff,
  ◌≡◌, refl, sym, ap, ◌∙◌, ◌↔◌, inl, inr, Mem, mem-map, arith, Option-cases, if◌then◌else◌,
}
use notify_hub.Base.Table.{find_by}
use notify_hub.Core.{Value, ChannelInstance, ProfileRecord}
use notify_hub.Db.{Db, ChannelRow}
use notify_hub.Db.Channels
use notify_hub.Db.Channels.Laws.{get-upsert, get-delete, mem-list, get-id}
use notify_hub.Db.Profiles
use notify_hub.Db.Profiles.Laws.{upsert-some}
use notify_hub.Db.Integrity.{IsConsistent}
use notify_hub.Channels.Registry.{required_config_by_channel}
use notify_hub.Admin.Validation.{
  ConfigPayload, ConfigValidation, valid, invalid, validate_config_payload, channel_by_id,
}
use notify_hub.Admin.Replacing.{
  saved, ids_to_delete, upsert_channels, upsert_profiles, delete_profiles, delete_channels, finish,
  apply_payload, put_valid, put_parsed, put_config,
}

abbrev or_else : {A : Type 0} → Option A → Option A → Option A
or_else none o = o
or_else (some a) o = some a

get-upsert_channels :
    (time : Text → ℕ) (channels : List ChannelInstance) (db : Db) (id : Text)
    → Channels.get (upsert_channels time channels db) id
      ≡ or_else (channel_by_id channels id) (Channels.get db id)
unfolding upsert_channels channel_by_id
get-upsert_channels time [] db id = refl
get-upsert_channels time (c ∷ channels) db id =
    let rest = get-upsert_channels time channels (Channels.upsert (time c.id) c db) id in
    let one = get-upsert (time c.id) c db id in
    elim (Option-cases (channel_by_id channels id)) [
      | inl missing ↦ rest ∙ rw (missing, one) (ground arith)
      | inr (later, found) ↦ rest ∙ rw found refl
    ]

get-delete_channels :
    (ids : List Text) (db : Db) (id : Text)
    → Channels.get (delete_channels ids db) id ≡ (if has ids id then none else Channels.get db id)
unfolding delete_channels has
get-delete_channels [] db id = refl
get-delete_channels (i ∷ ids) db id =
    get-delete_channels ids (Channels.delete i db) id
    ∙ ground (arith, get-delete i db id, ==_iff i id, ==_iff id i)

channels-delete_profiles :
    (ids : List Text) (db : Db) → (delete_profiles ids db).channels ≡ db.channels
unfolding delete_profiles Profiles.delete
channels-delete_profiles [] db = refl
channels-delete_profiles (id ∷ ids) db = channels-delete_profiles ids (Profiles.delete id db)

channels-upsert_profiles :
    (time : Text → ℕ) (profiles : List ProfileRecord) (db : Db)
    → (upsert_profiles time profiles db).1.channels ≡ db.channels
unfolding upsert_profiles
channels-upsert_profiles time [] db = refl
channels-upsert_profiles time (p ∷ profiles) db =
    elim (Option-cases (Profiles.upsert (time p.id) p db)) [
      | inl none' ↦ rw (none', upsert_profiles) refl
      | inr (db', written) ↦
          rw (written, upsert_profiles)
            (channels-upsert_profiles time profiles db'
              ∙ ap (λ (d : Db). d.channels) (upsert-some (time p.id) p db db' written).2)
    ]

get-of_channels :
    (a b : Db) (id : Text) → a.channels ≡ b.channels → Channels.get a id ≡ Channels.get b id
unfolding Channels.get
get-of_channels a b id e =
    ap
      (λ (rows : List ChannelRow).
        Option.map Channels.row_to_instance (find_by (λ (row : ChannelRow). row.id) id rows))
      e

abbrev ids : List ChannelInstance → List Text
ids channels = map (λ c. c.id) channels

channel_by_id-none_iff :
    (channels : List ChannelInstance) (id : Text)
    → (channel_by_id channels id ≡ none) ↔ (has (ids channels) id ≡ false)
unfolding channel_by_id has
channel_by_id-none_iff [] id = ground arith
channel_by_id-none_iff (c ∷ channels) id =
    let later = channel_by_id-none_iff channels id in
    elim (Option-cases (channel_by_id channels id)) [
      | inl missing ↦ rw missing (ground (arith, later.0 missing, ==_iff c.id id, ==_iff id c.id))
      | inr (d, found) ↦ rw found (ground (arith, found, later))
    ]

pub has-ids_to_delete :
    (existing kept : List Text) (id : Text)
    → has (ids_to_delete existing kept) id ≡ (has existing id && not (has kept id))
unfolding ids_to_delete has
has-ids_to_delete [] kept id = refl
has-ids_to_delete (i ∷ existing) kept id =
    ground (arith, has-ids_to_delete existing kept id, ==_iff id i)

-- The instances of the list, by id.
has-list :
    (db : Db) (id : Text) (c : ChannelInstance)
    → IsConsistent db
    → Channels.get db id ≡ some c
    → has (ids (Channels.list db)) id ≡ true
has-list db id c h e =
    let named = get-id db id c e in
    let there =
      (mem-list db c h.channel_ids).1 (subst (λ j. Channels.get db j ≡ some c) (sym named) e) in
    (has_iff (ids (Channels.list db)) id).1 (
      subst (λ j. Mem j (ids (Channels.list db))) named
        (mem-map (λ (d : ChannelInstance). d.id) c (Channels.list db) there))

pub finish-saved :
    (pids cids : List Text) (r : Option (Unit {0}) × Db)
    → (finish pids cids r).0 ≡ saved
    → (finish pids cids r).1 ≡ delete_channels cids (delete_profiles pids r.1)
unfolding finish
finish-saved pids cids (none, db) e = absurd (cc e)
finish-saved pids cids (some done, db) e = refl

module _ (channel_time profile_time : Text → ℕ) (payload : ConfigPayload) (db : Db)
    (h : IsConsistent db) (id : Text) where
  replaced :
      (if has (ids_to_delete (ids (Channels.list db)) (ids payload.channels)) id
        then none
        else or_else (channel_by_id payload.channels id) (Channels.get db id))
      ≡ channel_by_id payload.channels id
  replaced =
      let gone = has-ids_to_delete (ids (Channels.list db)) (ids payload.channels) id in
      let absent = channel_by_id-none_iff payload.channels id in
      elim (Option-cases (channel_by_id payload.channels id)) [
        | inl missing ↦ elim (Option-cases (Channels.get db id)) [
          | inl unknown ↦ rw (missing, unknown) (ground arith)
          | inr (c, found) ↦
              rw (missing, found) (ground (arith, gone, has-list db id c h found, absent.0 missing))
        ]
        | inr (c, found) ↦ rw found (ground (arith, gone, absent, found))
      ]

  pub get-apply_payload :
      (apply_payload channel_time profile_time payload db).0 ≡ saved
      → Channels.get (apply_payload channel_time profile_time payload db).1 id
        ≡ channel_by_id payload.channels id
  unfolding apply_payload
  get-apply_payload e =
      let cids = ids_to_delete (ids (Channels.list db)) (ids payload.channels) in
      let pids =
        ids_to_delete (map (λ (p : ProfileRecord). p.id) (Profiles.list db))
          (map (λ (p : ProfileRecord). p.id) payload.profiles) in
      let written = upsert_channels channel_time payload.channels db in
      let after = upsert_profiles profile_time payload.profiles written in
      ap (λ (d : Db). Channels.get d id) (finish-saved pids cids after e)
      ∙ get-delete_channels cids (delete_profiles pids after.1) id
      ∙ ap (λ (o : Option ChannelInstance). if has cids id then none else o)
          (get-of_channels (delete_profiles pids after.1) written id (
              channels-delete_profiles pids after.1
              ∙ channels-upsert_profiles profile_time payload.profiles written)
            ∙ get-upsert_channels channel_time payload.channels db id)
      ∙ replaced

get-put_valid :
    (channel_time profile_time : Text → ℕ) (payload : ConfigPayload) (db : Db) (id : Text)
    (v : ConfigValidation)
    → IsConsistent db
    → (put_valid channel_time profile_time payload db v).0 ≡ saved
    → (v ≡ valid)
      × (Channels.get (put_valid channel_time profile_time payload db v).1 id
          ≡ channel_by_id payload.channels id)
unfolding put_valid
get-put_valid channel_time profile_time payload db id (invalid error) h e = absurd (cc e)
get-put_valid channel_time profile_time payload db id valid h e =
    (refl, get-apply_payload channel_time profile_time payload db h id e)

get-put_parsed :
    (safe_parse : Value → Option ConfigPayload) (channel_time profile_time : Text → ℕ)
    (body : Value) (db : Db) (id : Text)
    → IsConsistent db
    → (o : Option ConfigPayload) → safe_parse body ≡ o
    → (put_parsed channel_time profile_time db o).0 ≡ saved
    → (payload : ConfigPayload) × (safe_parse body ≡ some payload)
      × (validate_config_payload payload required_config_by_channel ≡ valid)
      × (Channels.get (put_parsed channel_time profile_time db o).1 id
          ≡ channel_by_id payload.channels id)
unfolding put_parsed
get-put_parsed safe_parse channel_time profile_time body db id h none same e = absurd (cc e)
get-put_parsed safe_parse channel_time profile_time body db id h (some payload) same e =
    let (fine, reads) =
      get-put_valid channel_time profile_time payload db id
        (validate_config_payload payload required_config_by_channel) h e in
    (payload, same, fine, reads)

-- When a PUT on consistent tables is answered with 200, the body matched the schema, its payload is
-- valid, and the channel table is what the payload says: an id reads the payload's instance of that
-- id, and an id that the payload lacks reads nothing.
pub get-put_config :
    (safe_parse : Value → Option ConfigPayload) (channel_time profile_time : Text → ℕ)
    (body : Value) (db : Db) (id : Text)
    → IsConsistent db
    → (put_config safe_parse channel_time profile_time body db).0 ≡ saved
    → (payload : ConfigPayload) × (safe_parse body ≡ some payload)
      × (validate_config_payload payload required_config_by_channel ≡ valid)
      × (Channels.get (put_config safe_parse channel_time profile_time body db).1 id
          ≡ channel_by_id payload.channels id)
unfolding put_config
get-put_config safe_parse channel_time profile_time body db id h e =
    get-put_parsed safe_parse channel_time profile_time body db id h (safe_parse body) refl e
