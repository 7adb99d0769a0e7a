-- ===== src/Admin/Panel/State.antt =====
-- src/admin/ui/admin-state.js, with the save pipeline of admin-save-flow.js and the loading of admin.js: the
-- working config, the snapshot, and the bar that shows unsaved changes. The one listener is that of
-- the bar. A save is two steps, since fields can be edited while its request is out.
use notify_hub.Base.{Bool, true, false, Option, none, some, if◌then◌else◌}

module _ {C P : Type 0} (assemble : C → P) where
  pub record Dashboard : Type 0 where
    pub config : Option C
    pub saved_snapshot : Option C
    pub dirty : Bool
    pub bar_visible : Bool
    -- The payload of a PUT that has not been answered.
    pub in_flight : Option P

  abbrev pub fresh_dashboard : Dashboard
  fresh_dashboard = record {
    config = none;
    saved_snapshot = none;
    dirty = false;
    bar_visible = false;
    in_flight = none;
  }

  -- `notify`, whose listener is `() => setBarVisible(isDirty())`.
  unfoldable pub notify : Dashboard → Dashboard
  notify s = record s { bar_visible = s.dirty }

  unfoldable pub set_config_from_server : C → Dashboard → Dashboard
  unfolding notify
  set_config_from_server cfg s =
      notify (record s { config = some cfg; saved_snapshot = some cfg; dirty = false })

  unfoldable pub mark_edited : Dashboard → Dashboard
  unfolding notify
  mark_edited s = notify (record s { dirty = true })

  unfoldable pub discard_edits : Dashboard → Dashboard
  unfolding notify
  discard_edits s = notify (record s { config = s.saved_snapshot; dirty = false })

  unfoldable pub mark_saved : Dashboard → Dashboard
  unfolding notify
  mark_saved s = notify (record s { saved_snapshot = s.config; dirty = false })

  changed : (C → C) → Option C → Option C
  changed change none = none
  changed change (some config) = some (change config)

  -- A field's handler: it changes the config in place and calls `markEdited`.
  unfoldable pub edit : (C → C) → Dashboard → Dashboard
  unfolding changed mark_edited
  edit change s = mark_edited (record s { config = changed change s.config })

  payload_of : Option C → Option P
  payload_of none = none
  payload_of (some config) = some (assemble config)

  -- `runSave` up to its await, and after it.
  unfoldable pub start_save : Dashboard → Dashboard
  unfolding payload_of
  start_save s = record s { in_flight = payload_of s.config }

  unfoldable pub end_save : Bool → Dashboard → Dashboard
  unfolding mark_saved
  end_save accepted s =
      let answered = record s { in_flight = none } in
      if accepted then mark_saved answered else answered

  -- `loadConfig`, with `none` for an answer that is not ok or has no data.
  unfoldable pub load_config : Option C → Dashboard → Dashboard
  unfolding set_config_from_server
  load_config none s = s
  load_config (some cfg) s = set_config_from_server cfg s

  -- `renderCombobox` of admin-local-tts.js: a voice that is not set takes the first one of the player,
  -- in the config in place and without `markEdited`.
  unfoldable pub default_voice : (C → C) → Dashboard → Dashboard
  unfolding changed
  default_voice fill s = record s { config = changed fill s.config }
