-- ===== src/Tests/Cards.antt =====
-- The panel's cards, form and combobox in use, and the theorems applied to them.
use notify_hub.Base.{arith, true, false, none, some, List, [], ◌∷◌, Text, lit, ◌≡◌, ◌⊎◌, Nodup, All}
use notify_hub.Core.{ProfileRecord}
use notify_hub.Admin.Validation.{ConfigPayload}
use notify_hub.Admin.Panel.Combobox.{Choice}
use notify_hub.Admin.Panel.Widget.{
  Act, focus, type_text, arrow_down, enter, press, click_outside, create_searchable_combobox,
  act_all,
}
use notify_hub.Admin.Panel.Widget.Shown.{IsShown, act_all-IsShown}
use notify_hub.Admin.Panel.AddChannel.{
  build_form, Typing, type_label, type_id, take_all, Draft, click_add, add_draft,
}
use notify_hub.Admin.Panel.AddChannel.Drafts.{ids, IsAddable, click_add-take_all}
use notify_hub.Admin.Panel.Profiles.{
  PanelEdit, toggle_default, enable_channel, delete_channel, toggle_chip, apply_edits,
}
use notify_hub.Admin.Panel.Profiles.Chips.{IsTidy, IsToggled, apply_edits-IsTidy}
use notify_hub.Tests.Samples.{chat, pager, ops}

abbrev shown : ConfigPayload
shown = record { channels = chat ∷ pager ∷ []; profiles = ops ∷ [] }

same_case : Text → Text
same_case s = s

abbrev voice : Text → Choice
voice name = record { value = name; label = name; selected = false; search_text = name }

abbrev voices : List Choice
voices = voice (lit "Luciana") ∷ voice (lit "Alex") ∷ []

-- A query is typed and left, and then an option is chosen with the keys.
abbrev acts : List Act
acts = focus ∷ type_text (lit "Al") ∷ click_outside ∷ focus ∷ arrow_down ∷ enter ∷ press 0 ∷ []

act_all-IsShown_example :
    IsShown voices
      (some (lit "Luciana"))
      (act_all same_case voices acts (create_searchable_combobox voices (some (lit "Luciana"))))
act_all-IsShown_example = act_all-IsShown same_case voices (some (lit "Luciana")) acts

abbrev typings : List Typing
typings = type_label (lit "Night shift") ∷ type_id (lit "night") ∷ []

click_add-take_all_example :
    let form = take_all same_case typings (build_form (lit "slack" ∷ []) shown) in
    ((form.disabled ≡ true) × (click_add form ≡ none))
    ⊎ ((draft : Draft) × (form.disabled ≡ false)
        × (click_add form ≡ some draft)
        × IsAddable (ids shown) draft
        × (Nodup (ids shown) → Nodup (ids (add_draft draft shown))))
click_add-take_all_example = click_add-take_all same_case (lit "slack" ∷ []) shown typings

shown-IsTidy : IsTidy shown
unfolding lit
shown-IsTidy = ground arith

abbrev edits : List PanelEdit
edits = toggle_default 0 (lit "pager") ∷ enable_channel 1 true ∷ delete_channel (lit "chat") ∷ []

apply_edits-IsTidy_example :
    IsTidy (apply_edits edits shown)
    × All
        (λ (p : ProfileRecord).
          (id : Text) → IsToggled id p.default_channels (toggle_chip id p).default_channels)
        (apply_edits edits shown).profiles
apply_edits-IsTidy_example = apply_edits-IsTidy edits shown shown-IsTidy
