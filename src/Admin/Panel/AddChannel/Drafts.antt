-- ===== src/Admin/Panel/AddChannel/Drafts.antt =====
-- What the form of src/admin/ui/admin-add-channel.js can add.
use mathlib.Core.Path.{subst}
use notify_hub.Base.{
  true, false, not, none, some, List, [], ◌∷◌, ◌++◌, map, map-append, Text, lit, trim, is_empty,
  has, has_iff, if◌then◌else◌, ◌≡◌, ◌≢◌, refl, sym, ap, ◌∙◌, ◌⊎◌, inl, inr, Nodup, Nodup-concat,
  Bool-cases,
}
use notify_hub.Core.{ChannelInstance}
use notify_hub.Admin.Validation.{ConfigPayload}
use notify_hub.Admin.Panel.Instances.{is_valid_channel_id, suggested_id}
use notify_hub.Admin.Panel.AddChannel.{
  validation_error, Form, refresh, build_form, Typing, choose_type, type_label, type_id,
  take_typing, take_all, Draft, click_add, add_draft,
}

abbrev pub ids : ConfigPayload → List Text
ids config = map (λ (c : ChannelInstance). c.id) config.channels

-- What is shown is what the texts of the fields deserve.
abbrev IsRefreshed : List Text → Form → Type 0
IsRefreshed existing form =
    (form.existing_ids ≡ existing)
    × (form.disabled ≡ not (is_empty (validation_error (trim form.id) (trim form.label) existing)))

refresh-IsRefreshed :
    (existing : List Text) (form : Form)
    → form.existing_ids ≡ existing
    → IsRefreshed existing (refresh form)
unfolding refresh
refresh-IsRefreshed existing form e =
    (e, ap (λ known. not (is_empty (validation_error (trim form.id) (trim form.label) known))) e)

take_typing-IsRefreshed :
    (lower_case : Text → Text) (existing : List Text) (t : Typing) (form : Form)
    → IsRefreshed existing form
    → IsRefreshed existing (take_typing lower_case t form)
unfolding take_typing
take_typing-IsRefreshed lower_case existing (choose_type type) form h = h
take_typing-IsRefreshed lower_case existing (type_label label) form h =
    refresh-IsRefreshed existing
      (record form {
        label = label;
        id = if form.id_edited_manually then form.id else suggested_id lower_case label;
      })
      h.0
take_typing-IsRefreshed lower_case existing (type_id id) form h =
    refresh-IsRefreshed existing (record form { id = id; id_edited_manually = true }) h.0

take_all-IsRefreshed :
    (lower_case : Text → Text) (existing : List Text) (typings : List Typing) (form : Form)
    → IsRefreshed existing form
    → IsRefreshed existing (take_all lower_case typings form)
unfolding take_all
take_all-IsRefreshed lower_case existing [] form h = h
take_all-IsRefreshed lower_case existing (t ∷ typings) form h =
    take_all-IsRefreshed lower_case existing typings (take_typing lower_case t form)
      (take_typing-IsRefreshed lower_case existing t form h)

-- A label, and an id that the server takes and that no instance has.
abbrev pub IsAddable : List Text → Draft → Type 0
IsAddable existing draft =
    (draft.label ≢ []) × (is_valid_channel_id draft.id ≡ true) × (has existing draft.id ≡ false)

nonempty : (s : Text) → is_empty s ≡ false → s ≢ []
unfolding is_empty
nonempty [] h e = cc h
nonempty (c ∷ s) h e = cc e

validation_error-empty :
    (id label : Text) (existing : List Text)
    → is_empty (validation_error id label existing) ≡ true
    → (is_empty label ≡ false) × (is_valid_channel_id id ≡ true) × (has existing id ≡ false)
unfolding validation_error is_empty lit
validation_error-empty id label existing e = elim (Bool-cases (is_empty label)) [
  | inl blank ↦ absurd (cc (rw blank at e))
  | inr labelled ↦
      let e' = rw labelled at e in
      elim (Bool-cases (is_empty id)) [
        | inl blank ↦ absurd (cc (rw blank at e'))
        | inr named ↦
            let e'' = rw named at e' in
            elim (Bool-cases (is_valid_channel_id id)) [
              | inr odd ↦ absurd (cc (rw odd at e''))
              | inl slug ↦ elim (Bool-cases (has existing id)) [
                | inl taken ↦ absurd (cc (rw taken at (rw slug at e'')))
                | inr free ↦ (labelled, slug, free)
              ]
            ]
      ]
]

-- The button and its click agree, and what is added can be.
click_add-IsAddable :
    (existing : List Text) (form : Form)
    → IsRefreshed existing form
    → ((form.disabled ≡ true) × (click_add form ≡ none))
      ⊎ ((draft : Draft) × (form.disabled ≡ false)
          × (click_add form ≡ some draft)
          × IsAddable existing draft)
unfolding click_add
click_add-IsAddable existing form (known, shown) =
    let error = validation_error (trim form.id) (trim form.label) existing in
    let made : Draft = record { id = trim form.id; label = trim form.label; type = form.type } in
    let clicked : click_add form ≡ (if not (is_empty error) then none else some made) =
      ap
        (λ es.
          if not (is_empty (validation_error (trim form.id) (trim form.label) es))
          then none
          else some made)
        known in
    elim (Bool-cases (is_empty error)) [
      | inr wrong ↦
          inl (shown ∙ ap not wrong, clicked ∙ ap (λ b. if not b then none else some made) wrong)
      | inl right ↦
          let (labelled, slug, free) =
            validation_error-empty (trim form.id) (trim form.label) existing right in
          inr (
            made,
            shown ∙ ap not right,
            clicked ∙ ap (λ b. if not b then none else some made) right,
            (nonempty (trim form.label) labelled, slug, free),
          )
    ]

ids-add_draft :
    (draft : Draft) (config : ConfigPayload)
    → ids (add_draft draft config) ≡ ids config ++ draft.id ∷ []
unfolding add_draft
ids-add_draft draft config = map-append (λ (c : ChannelInstance). c.id) config.channels _

Nodup-add_draft :
    (draft : Draft) (config : ConfigPayload)
    → has (ids config) draft.id ≡ false
    → Nodup (ids config)
    → Nodup (ids (add_draft draft config))
Nodup-add_draft draft config free h = subst Nodup (sym (ids-add_draft draft config)) (
    Nodup-concat draft.id (ids config) h
      (λ m. absurd (cc (free, (has_iff (ids config) draft.id).1 m))))

build_form-IsRefreshed :
    (channel_types : List Text) (config : ConfigPayload)
    → IsRefreshed (ids config) (build_form channel_types config)
unfolding build_form refresh
build_form-IsRefreshed channel_types config = (refl, refl)

-- Whatever is typed into the form, in any order: either the Add button is disabled, and a click on it
-- adds nothing; or it is enabled, and the click adds an instance with a label and with an id that is a
-- slug and that no instance of the config had when the form was opened, so that ids that were unique
-- stay unique.
pub click_add-take_all :
    (lower_case : Text → Text) (channel_types : List Text) (config : ConfigPayload)
    (typings : List Typing)
    → let form = take_all lower_case typings (build_form channel_types config) in
      ((form.disabled ≡ true) × (click_add form ≡ none))
      ⊎ ((draft : Draft) × (form.disabled ≡ false)
          × (click_add form ≡ some draft)
          × IsAddable (ids config) draft
          × (Nodup (ids config) → Nodup (ids (add_draft draft config))))
click_add-take_all lower_case channel_types config typings =
    let form = take_all lower_case typings (build_form channel_types config) in
    let refreshed =
      take_all-IsRefreshed lower_case (ids config) typings (build_form channel_types config)
        (build_form-IsRefreshed channel_types config) in
    elim (click_add-IsAddable (ids config) form refreshed) [
      | inl refused ↦ inl refused
      | inr (draft, enabled, clicked, addable) ↦
          inr (draft, enabled, clicked, addable, Nodup-add_draft draft config addable.2)
    ]
