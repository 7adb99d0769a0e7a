-- ===== src/Mcp/Config/Laws.antt =====
-- The configuration under the tools of src/mcp/register-config-tools.ts.
use notify_hub.Base.{
  ℕ, true, Option, none, some, List, [], ◌∷◌, Text, ◌≡◌, refl, ◌∙◌, inl, inr, All, Option-cases,
}
use notify_hub.Core.{ChannelInstance, ProfileRecord}
use notify_hub.Db.{Db}
use notify_hub.Db.Channels
use notify_hub.Db.Integrity.{IsConsistent, upsert_channel-IsConsistent, delete_channel-IsConsistent}
use notify_hub.Db.Integrity.Profiles.{upsert_profile-IsConsistent, delete_profile-IsConsistent}
use notify_hub.Admin.Service.{get_full_config}
use notify_hub.Admin.Service.Deleting.{
  delete_channel_entity_lem, delete_channel_entity-missing, delete_profile_entity_lem,
}
use notify_hub.Admin.Service.Writing.{
  IsValid, upsert_channel_entity_lem, upsert_profile_entity_lem, stored_channel-IsValid,
}
use notify_hub.Admin.Service.Valid.Deletes.{delete_channel-IsValid, delete_profile-IsValid}
use notify_hub.Admin.Service.Valid.Writes.{upsert_profile-IsValid}
use notify_hub.Mcp.{ToolResult}
use notify_hub.Mcp.Config.{
  Outside, ToolCall, get_config, upsert_channel, delete_channel, upsert_profile, delete_profile,
  test_channel, get_status, saved_channel, saved_profile, deleted, answered, upsert_channel_tool,
  delete_channel_tool, upsert_profile_tool, delete_profile_tool, run_tool, run_tools,
}

-- The handler threw, or its result is an error.
abbrev pub IsFailure : Option ToolResult → Type 0
IsFailure none = Unit
IsFailure (some result) = result.is_error ≡ true

-- Consistent tables that hold a valid configuration.
abbrev pub IsSound : Db → Type 0
IsSound db = IsConsistent db × IsValid (get_full_config db)

-- Sound tables after a call, which are the tables before it when the call failed.
abbrev pub IsAtomic : Db → Option ToolResult × Db → Type 0
IsAtomic db (result, db') = IsSound db' × (IsFailure result → db' ≡ db)

-- A call that left the tables as they were.
unchanged : (db : Db) (r : Option ToolResult × Db) → IsSound db → r.1 ≡ db → IsAtomic db r
unchanged db (result, db') sound e = (rw e sound, λ failed. e)

upsert_channel_tool-IsAtomic :
    (now : ℕ) (c : ChannelInstance) (db : Db)
    → IsSound db
    → IsAtomic db (upsert_channel_tool now c db)
unfolding upsert_channel_tool saved_channel
upsert_channel_tool-IsAtomic now c db (h, v) = elim (upsert_channel_entity_lem now c db) [
  | inl (candidate, ran) ↦ rw ran (
    (upsert_channel-IsConsistent now c db h, stored_channel-IsValid now c db h candidate),
    λ failed. absurd (cc failed),
  )
  | inr (_, (error, ran)) ↦ rw ran ((h, v), λ failed. refl)
]

upsert_profile_tool-IsAtomic :
    (now : ℕ) (p : ProfileRecord) (db : Db)
    → IsSound db
    → IsAtomic db (upsert_profile_tool now p db)
unfolding upsert_profile_tool saved_profile answered
upsert_profile_tool-IsAtomic now p db (h, v) = elim (upsert_profile_entity_lem now p db h) [
  | inl (candidate, (db', written, ran)) ↦ rw ran (
    (
      upsert_profile-IsConsistent now p db db' written h,
      upsert_profile-IsValid now p db db' h v candidate written,
    ),
    λ failed. absurd (cc failed),
  )
  | inr (_, (error, ran)) ↦ rw ran ((h, v), λ failed. refl)
]

delete_channel_tool-IsAtomic :
    (id : Text) (db : Db) → IsSound db → IsAtomic db (delete_channel_tool id db)
unfolding delete_channel_tool deleted answered
delete_channel_tool-IsAtomic id db (h, v) = elim (Option-cases (Channels.get db id)) [
  | inl missing ↦
      let (error, ran) = delete_channel_entity-missing id db missing in
      rw ran ((h, v), λ failed. refl)
  | inr (c, found) ↦ rw (delete_channel_entity_lem id db c found) (
    (delete_channel-IsConsistent id db h, delete_channel-IsValid id db h v),
    λ failed. absurd (cc failed),
  )
]

delete_profile_tool-IsAtomic :
    (id : Text) (db : Db) → IsSound db → IsAtomic db (delete_profile_tool id db)
unfolding delete_profile_tool deleted
delete_profile_tool-IsAtomic id db (h, v) = elim (delete_profile_entity_lem id db) [
  | inr (error, ran) ↦ rw ran ((h, v), λ failed. refl)
  | inl ran ↦ rw ran (
    (delete_profile-IsConsistent id db h, delete_profile-IsValid id db h v),
    λ failed. absurd (cc failed),
  )
]

run_tool-IsAtomic :
    (x : Outside) (call : ToolCall) (db : Db) → IsSound db → IsAtomic db (run_tool x call db)
unfolding run_tool
run_tool-IsAtomic x get_config db sound = (sound, λ failed. refl)
run_tool-IsAtomic x (upsert_channel now c) db sound = upsert_channel_tool-IsAtomic now c db sound
run_tool-IsAtomic x (delete_channel id) db sound = delete_channel_tool-IsAtomic id db sound
run_tool-IsAtomic x (upsert_profile now p) db sound = upsert_profile_tool-IsAtomic now p db sound
run_tool-IsAtomic x (delete_profile id) db sound = delete_profile_tool-IsAtomic id db sound
run_tool-IsAtomic x (test_channel id) db sound = (sound, λ failed. refl)
run_tool-IsAtomic x get_status db sound = (sound, λ failed. refl)

-- However many tools are called one after the other, and whatever answers them from outside: tables
-- that are consistent and hold a valid configuration stay so, and when every call throws or is
-- answered with an error, the tables are as they were.
pub run_tools-IsSound :
    (calls : List (Outside × ToolCall)) (db : Db)
    → IsSound db
    → IsSound (run_tools calls db).1
      × (All IsFailure (run_tools calls db).0 → (run_tools calls db).1 ≡ db)
unfolding run_tools
run_tools-IsSound [] db sound = (sound, λ failed. refl)
run_tools-IsSound ((x, call) ∷ calls) db sound =
    let (after, same) = run_tool-IsAtomic x call db sound in
    let (last, kept) = run_tools-IsSound calls (run_tool x call db).1 after in
    (last, λ failed. kept failed.1 ∙ same failed.0)
