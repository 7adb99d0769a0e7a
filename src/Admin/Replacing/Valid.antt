-- ===== src/Admin/Replacing/Valid.antt =====
-- The configuration after `PUT /api/config`: src/admin/routes/config-routes.ts
use mathlib.Core.Path.{subst}
use notify_hub.Base.{
  ℕ, Option, none, some, List, map, Text, ◌≡◌, refl, sym, ◌∙◌, inl, inr, Mem, mem-map, All-mem,
  has_iff, arith,
}
use notify_hub.Core.{Value, ChannelInstance, ProfileRecord}
use notify_hub.Db.{Db, ProfileRow}
use notify_hub.Db.Channels
use notify_hub.Db.Channels.Laws.{mem-list}
use notify_hub.Db.Profiles
use notify_hub.Db.Profiles.Listing.{row_of-list, list-of_row}
use notify_hub.Db.Integrity.{IsConsistent}
use notify_hub.Channels.Registry.{required_config_by_channel}
use notify_hub.Admin.Validation.{
  ConfigPayload, ConfigValidation, valid, invalid, validate_config_payload,
}
use notify_hub.Admin.Validation.Spec.{IsEnabledRef}
use notify_hub.Admin.Validation.Profiles.{channel_by_id_sound, mem-channel_by_id}
use notify_hub.Admin.Validation.Decision.{validate_config_payload_iff}
use notify_hub.Admin.Service.{get_full_config}
use notify_hub.Admin.Service.Writing.{IsValid}
use notify_hub.Admin.Service.Valid.{AreChannelsValid, AreRefsEnabled, get_full_config-IsValid}
use notify_hub.Admin.Service.Valid.Deletes.{link_of, ref_of}
use notify_hub.Admin.Replacing.{
  saved, ids_to_delete, upsert_channels, upsert_profiles, delete_profiles, delete_channels, finish,
  apply_payload, put_valid, put_parsed, put_config,
}
use notify_hub.Admin.Replacing.Laws.{get-apply_payload, has-ids_to_delete, finish-saved}
use notify_hub.Admin.Replacing.Written.{
  upsert_channels-IsConsistent, profiles-upsert_channels, delete_profiles-IsConsistent,
  delete_channels-IsConsistent, delete_channels-IsPart, delete_profiles-IsPart, id-delete_profiles,
  IsWritten, upsert_profiles-IsWritten,
}

finish-done :
    (pids cids : List Text) (r : Option (Unit {0}) × Db)
    → (finish pids cids r).0 ≡ saved
    → r.0 ≡ some tt
unfolding finish
finish-done pids cids (none, db) e = absurd (cc e)
finish-done pids cids (some done, db) e = refl

id-row_to_record : (db : Db) (row : ProfileRow) → (Profiles.row_to_record db row).id ≡ row.id
unfolding Profiles.row_to_record
id-row_to_record db row = refl

module _ (channel_time profile_time : Text → ℕ) (payload : ConfigPayload) (db : Db)
    (h : IsConsistent db) (good : IsValid payload)
    (e : (apply_payload channel_time profile_time payload db).0 ≡ saved) where
  abbrev after : Db
  after = (apply_payload channel_time profile_time payload db).1

  abbrev pids : List Text
  pids =
      ids_to_delete (map (λ (p : ProfileRecord). p.id) (Profiles.list db))
        (map (λ (p : ProfileRecord). p.id) payload.profiles)

  abbrev cids : List Text
  cids =
      ids_to_delete (map (λ (c : ChannelInstance). c.id) (Channels.list db))
        (map (λ (c : ChannelInstance). c.id) payload.channels)

  abbrev with_channels : Db
  with_channels = upsert_channels channel_time payload.channels db

  abbrev written : Option (Unit {0}) × Db
  written = upsert_profiles profile_time payload.profiles with_channels

  after_is : after ≡ delete_channels cids (delete_profiles pids written.1)
  unfolding apply_payload
  after_is = finish-saved pids cids written e

  done : written.0 ≡ some tt
  unfolding apply_payload
  done = finish-done pids cids written e

  loop_result :
      IsConsistent written.1
      × ((q : ProfileRecord)
          → Mem q (Profiles.list written.1)
          → IsWritten payload.profiles with_channels q)
  loop_result =
      upsert_profiles-IsWritten profile_time payload.profiles with_channels
        (upsert_channels-IsConsistent channel_time payload.channels db h) done

  after-IsConsistent : IsConsistent after
  after-IsConsistent = subst IsConsistent (sym after_is) (
      delete_channels-IsConsistent cids (delete_profiles pids written.1)
        (delete_profiles-IsConsistent pids written.1 loop_result.0))

  after-AreChannelsValid : AreChannelsValid after
  after-AreChannelsValid c m =
      let found = (mem-list after c after-IsConsistent.channel_ids).0 m in
      let there =
        channel_by_id_sound payload.channels c.id c
          (sym (get-apply_payload channel_time profile_time payload db h c.id e) ∙ found) in
      All-mem _ _ good.channels there.0

  -- A channel of the payload is in the list.
  mem-after : (c : ChannelInstance) → Mem c payload.channels → Mem c (Channels.list after)
  mem-after c m = (mem-list after c after-IsConsistent.channel_ids).1 (
      get-apply_payload channel_time profile_time payload db h c.id e
      ∙ mem-channel_by_id payload.channels c good.ids m)

  -- A profile that the payload lacks is deleted.
  lacking :
      (q : ProfileRecord)
      → Mem q (Profiles.list with_channels)
      → ¬ Mem q.id (map (λ (p : ProfileRecord). p.id) payload.profiles)
      → Mem q.id pids
  lacking q m fresh =
      let existing =
        mem-map (λ (p : ProfileRecord). p.id) q (Profiles.list db)
          (subst (λ ps. Mem q ps) (profiles-upsert_channels channel_time payload.channels db) m) in
      let ids = map (λ (p : ProfileRecord). p.id) (Profiles.list db) in
      let kept = map (λ (p : ProfileRecord). p.id) payload.profiles in
      (has_iff pids q.id).0
        (ground (arith, has-ids_to_delete ids kept q.id, has_iff ids q.id, has_iff kept q.id))

  ref-IsEnabledRef :
      (row : ProfileRow) (ref : Text)
      → Mem row (delete_profiles pids written.1).profiles
      → Mem ref (Profiles.row_to_record written.1 row).default_channels
      → IsEnabledRef payload.channels ref
  ref-IsEnabledRef row ref kept r =
      let q = Profiles.row_to_record written.1 row in
      let listed = list-of_row written.1 row ((delete_profiles-IsPart pids written.1).0 row kept) in
      elim (loop_result.1 q listed) [
        | inl (p, m, refs) ↦ All-mem _ _ (All-mem _ _ good.refs m) (refs ref r)
        | inr (m, fresh) ↦ absurd (
            id-delete_profiles pids written.1 row kept
              (subst (λ i. Mem i pids) (id-row_to_record written.1 row) (lacking q m fresh)))
      ]

  after-AreRefsEnabled : AreRefsEnabled after
  after-AreRefsEnabled q m ref r =
      let deleted = delete_profiles pids written.1 in
      let m' = subst (λ d. Mem q (Profiles.list d)) after_is m in
      let (row, there, same) = row_of-list (delete_channels cids deleted) q m' in
      let link = link_of (delete_channels cids deleted) q row ref same r in
      let channels_part = delete_channels-IsPart cids deleted in
      let profiles_part = delete_profiles-IsPart pids written.1 in
      let (c, mc, named, on) =
        ref-IsEnabledRef row ref (channels_part.0 row there)
          (ref_of written.1 row ref (profiles_part.1 _ (channels_part.1 _ link))) in
      (c, mem-after c mc, named, on)

  pub apply_payload-IsValid : IsConsistent after × IsValid (get_full_config after)
  apply_payload-IsValid = (
    after-IsConsistent,
    (get_full_config-IsValid after after-IsConsistent).0
        (after-AreChannelsValid, after-AreRefsEnabled),
  )

put_valid-IsValid :
    (channel_time profile_time : Text → ℕ) (payload : ConfigPayload) (db : Db)
    (v : ConfigValidation)
    → IsConsistent db
    → validate_config_payload payload required_config_by_channel ≡ v
    → (put_valid channel_time profile_time payload db v).0 ≡ saved
    → let after = (put_valid channel_time profile_time payload db v).1 in
      IsConsistent after × IsValid (get_full_config after)
unfolding put_valid
put_valid-IsValid channel_time profile_time payload db (invalid error) h same e = absurd (cc e)
put_valid-IsValid channel_time profile_time payload db valid h same e =
    apply_payload-IsValid channel_time profile_time payload db h
      ((validate_config_payload_iff payload required_config_by_channel).0 same) e

put_parsed-IsValid :
    (channel_time profile_time : Text → ℕ) (db : Db) (o : Option ConfigPayload)
    → IsConsistent db
    → (put_parsed channel_time profile_time db o).0 ≡ saved
    → let after = (put_parsed channel_time profile_time db o).1 in
      IsConsistent after × IsValid (get_full_config after)
unfolding put_parsed
put_parsed-IsValid channel_time profile_time db none h e = absurd (cc e)
put_parsed-IsValid channel_time profile_time db (some payload) h e =
    put_valid-IsValid channel_time profile_time payload db
      (validate_config_payload payload required_config_by_channel) h refl e

-- When a PUT on consistent tables is answered with 200, the tables are consistent after it, and the
-- configuration that they hold is valid, whatever they held before: every channel is valid, tokens
-- are unique, and every default channel of every profile is an enabled channel.
pub put_config-IsValid :
    (safe_parse : Value → Option ConfigPayload) (channel_time profile_time : Text → ℕ)
    (body : Value) (db : Db)
    → IsConsistent db
    → (put_config safe_parse channel_time profile_time body db).0 ≡ saved
    → let after = (put_config safe_parse channel_time profile_time body db).1 in
      IsConsistent after × IsValid (get_full_config after)
unfolding put_config
put_config-IsValid safe_parse channel_time profile_time body db h e =
    put_parsed-IsValid channel_time profile_time db (safe_parse body) h e
