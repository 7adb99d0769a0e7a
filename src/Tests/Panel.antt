-- ===== src/Tests/Panel.antt =====
-- The theorems on the panel, applied, and an edit during a save and a voice that is filled in.
use notify_hub.Base.{
  ℕ, ◌⊎◌, true, false, some, [], ◌∷◌, List, Text, lit, map, Nodup, All, is_empty, ◌≡◌, refl, ◌↔◌,
  suc,
}
use notify_hub.Base.Map.{Map}
use notify_hub.Admin.Validation.{ConfigPayload, is_slug, valid, validate_config_payload}
use notify_hub.Admin.Panel.Instances.{
  suggested_id, assemble_config_payload, prune_default_channels_to_enabled,
}
use notify_hub.Admin.Panel.Instances.Saving.{
  suggested_id-IsSlug, IsShownComplete, validate-assemble_iff,
}
use notify_hub.Admin.Panel.Combobox.{
  Choice, PlayerVoice, VoicesResponse, choices_of, build_voice_options,
}
use notify_hub.Admin.Panel.Combobox.Selecting.{HasCurrent, build_voice_options-HasCurrent}
use notify_hub.Admin.Panel.State.{
  Dashboard, fresh_dashboard, set_config_from_server, edit, start_save, end_save, load_config,
  default_voice, discard_edits, mark_edited, mark_saved, notify,
}
use notify_hub.Tests.Samples.{chat, pager, ops}

abbrev required : Map (List Text)
required = (lit "slack", lit "SLACK_WEBHOOK_URL" ∷ []) ∷ []

abbrev working : ConfigPayload
working = record { channels = chat ∷ pager ∷ []; profiles = ops ∷ [] }

validate-assemble_iff_example :
    let saved = assemble_config_payload (prune_default_channels_to_enabled working).0 required in
    (validate_config_payload saved required ≡ valid) ↔ (
      Nodup (map (λ c. c.id) working.channels)
      × All (IsShownComplete required) working.channels
      × Nodup (map (λ p. p.token) working.profiles))
validate-assemble_iff_example = validate-assemble_iff required working

-- A config that is a number, loaded, edited while a save is out, and saved.
abbrev during_save : Dashboard {C = ℕ} (λ config. config)
during_save =
    edit (λ config. config) suc
      (start_save (λ config. config)
        (load_config (λ config. config) (some 7) (fresh_dashboard (λ config. config))))

-- The edit was not sent, and is taken for saved.
lost_edit :
    (during_save.in_flight ≡ some 7)
    × ((end_save (λ config. config) true during_save).saved_snapshot ≡ some 8)
    × ((end_save (λ config. config) true during_save).dirty ≡ false)
unfolding end_save start_save edit load_config set_config_from_server mark_edited mark_saved notify
lost_edit = (refl, refl, refl)

-- A voice that is filled in leaves the bar hidden, and the next save sends it.
abbrev with_default : Dashboard {C = ℕ} (λ config. config)
with_default =
    default_voice (λ config. config) suc
      (load_config (λ config. config) (some 7) (fresh_dashboard (λ config. config)))

silent_default :
    (with_default.bar_visible ≡ false)
    × ((start_save (λ config. config) with_default).in_flight ≡ some 8)
    × ((discard_edits (λ config. config) with_default).config ≡ some 7)
unfolding default_voice start_save load_config set_config_from_server discard_edits notify
silent_default = (refl, refl, refl)

abbrev voice : PlayerVoice
voice = record { name = lit "Luciana"; locale = lit "pt_BR"; sample = lit "Oi" }

abbrev answer : VoicesResponse
answer = record { reachable = some true; voices = some (voice ∷ []) }

abbrev joana : Choice
joana = record {
  value = lit "Joana";
  label = lit "Joana";
  selected = true;
  search_text = lit "Joana";
}

shown :
    build_voice_options (some answer) (lit "Joana") ≡ some (choices_of (lit "Joana") (voice ∷ []))
unfolding build_voice_options
shown = refl

joana_named : is_empty (lit "Joana") ≡ false
unfolding is_empty lit
joana_named = refl

build_voice_options-HasCurrent_example :
    HasCurrent (lit "Joana") (choices_of (lit "Joana") (voice ∷ []))
build_voice_options-HasCurrent_example =
    build_voice_options-HasCurrent (some answer) (lit "Joana")
      (choices_of (lit "Joana") (voice ∷ [])) shown joana_named

suggested_id-IsSlug_example :
    let id = suggested_id (λ s. s) (lit "my phone") in (id ≡ []) ⊎ (is_slug id ≡ true)
suggested_id-IsSlug_example = suggested_id-IsSlug (λ s. s) (lit "my phone")
