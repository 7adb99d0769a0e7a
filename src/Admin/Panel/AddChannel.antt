-- ===== src/Admin/Panel/AddChannel.antt =====
-- src/admin/ui/admin-add-channel.js: the form that the button opens, and what its Add button adds.
pub mod Drafts
use notify_hub.Base.{
  Bool, true, false, not, Option, none, some, List, [], ◌∷◌, ◌++◌, map, first, Text, lit, trim,
  is_empty, has, if◌then◌else◌,
}
use notify_hub.Core.{ChannelInstance}
use notify_hub.Admin.Validation.{ConfigPayload}
use notify_hub.Admin.Panel.Instances.{suggested_id, is_valid_channel_id}

unfoldable pub validation_error : (id label : Text) → List Text → Text
unfolding is_valid_channel_id is_empty has
validation_error id label existing_ids =
    if is_empty label
    then lit "label is required"
    else if is_empty id
    then lit "id is required"
    else if not (is_valid_channel_id id)
    then lit
        "id must start with a lowercase letter/digit and contain only lowercase letters, digits and hyphens"
    else if has existing_ids id
    then lit "id \"" ++ (id ++ lit "\" already exists")
    else []

-- The texts of the three fields, and what `refresh` shows.
pub record Form : Type 0 where
  pub type : Text
  pub label : Text
  pub id : Text
  pub id_edited_manually : Bool
  pub error : Text
  pub disabled : Bool
  pub existing_ids : List Text

unfoldable pub refresh : Form → Form
unfolding validation_error
refresh form =
    let error = validation_error (trim form.id) (trim form.label) form.existing_ids in
    record form { error = error; disabled = not (is_empty error) }

-- A select without options has no value.
selected_type : Option Text → Text
selected_type none = []
selected_type (some type) = type

-- The click that opens the form, on the config of that moment.
unfoldable pub build_form : List Text → ConfigPayload → Form
unfolding refresh selected_type
build_form channel_types config = refresh (record {
  type = selected_type (first channel_types);
  label = [];
  id = [];
  id_edited_manually = false;
  error = [];
  disabled = true;
  existing_ids = map (λ (c : ChannelInstance). c.id) config.channels;
})

pub data Typing : Type 0 where
  choose_type : Text → Typing
  type_label : Text → Typing
  type_id : Text → Typing

-- The listeners of the three fields.
unfoldable pub take_typing : (Text → Text) → Typing → Form → Form
unfolding refresh suggested_id
take_typing lower_case (choose_type type) form = record form { type = type }
take_typing lower_case (type_label label) form = refresh (record form {
  label = label;
  id = if form.id_edited_manually then form.id else suggested_id lower_case label;
})
take_typing lower_case (type_id id) form =
    refresh (record form { id = id; id_edited_manually = true })

unfoldable pub take_all : (Text → Text) → List Typing → Form → Form
unfolding take_typing
take_all lower_case [] form = form
take_all lower_case (t ∷ typings) form = take_all lower_case typings (take_typing lower_case t form)

pub record Draft : Type 0 where
  pub id : Text
  pub label : Text
  pub type : Text

-- The click of the Add button.
unfoldable pub click_add : Form → Option Draft
unfolding validation_error
click_add form =
    let error = validation_error (trim form.id) (trim form.label) form.existing_ids in
    if not (is_empty error)
    then none
    else some (record { id = trim form.id; label = trim form.label; type = form.type })

-- `onAdd`: a disabled instance with no configuration.
unfoldable pub add_draft : Draft → ConfigPayload → ConfigPayload
add_draft draft config = record config {
  channels =
      config.channels
      ++ record {
        id = draft.id;
        label = draft.label;
        type = draft.type;
        enabled = false;
        config = [];
      }
        ∷ [];
}
